-- ===== src/InputPin/Write.antt =====
-- The thread that empties the write buffer into the pipe (`GetNextWriteBufferSample` and
-- `InstanceWritePipeThread` of src/VirtualStreamSinkInputPin.cpp).
use virtual_capture_stream.Prelude.{
  ℕ, zero, suc, List, [], ◌∷◌, Option, none, some, take, is_pos32, ◌==◌, if◌then◌else◌,
}
use virtual_capture_stream.Win.{OsCall}
use virtual_capture_stream.Sample.{MediaSampleInfo, MediaSampleX, zero_info, get_buffer}
use virtual_capture_stream.Wire.{Abi}
use virtual_capture_stream.InputPin.{InputPin, log, ref_unset}

abbrev pub split_front : List MediaSampleX → InputPin → Option (MediaSampleX × InputPin)
split_front [] p = none
split_front (s ∷ rest) p = some (s, record p { write_buffer = rest })

unfoldable pub get_next_write_buffer_sample : InputPin → Option (MediaSampleX × InputPin)
get_next_write_buffer_sample p = split_front p.write_buffer p

-- The first sample since a reset fixes the reference points.
unfoldable pub note_reference : MediaSampleX → InputPin → InputPin
note_reference s p =
    if p.rt_ref_point == ref_unset
    then record p { rt_ref_point = s.time_start; rt_ref_point2 = s.media_time_start }
    else p

-- The header of a sample, by the two reference points.
unfoldable pub header : ℕ → ℕ → MediaSampleX → MediaSampleInfo
header r r2 s = record zero_info {
  actual_data_length = s.actual_data_length;
  size = s.size;
  is_discontinuity = s.is_discontinuity;
  is_preroll = s.is_preroll;
  is_sync_point = s.is_sync_point;
  media_time_start = s.media_time_start;
  media_time_end = s.media_time_end;
  time_start = s.time_start;
  time_end = s.time_end;
  time_offset = r;
  media_time_offset = r2;
}

-- The bytes behind a pointer; there are none behind the null pointer.
abbrev pub block_of : Option (List ℕ) → List ℕ
block_of none = []
block_of (some b) = b

-- What `WriteFile` is given for the data: `actualDataLength` bytes at the sample's buffer.
unfoldable pub payload : MediaSampleX → List ℕ
unfolding get_buffer
payload s = take s.actual_data_length (block_of (get_buffer s))

-- The header, then the data if there is any.
unfoldable pub write_to_pipe : Abi → MediaSampleX → InputPin → InputPin
unfolding header payload
write_to_pipe abi s p =
    let q =
      log (OsCall.write_file p.h_pipe (abi.info_bytes (header p.rt_ref_point p.rt_ref_point2 s)))
        p in
    if is_pos32 s.actual_data_length then log (OsCall.write_file p.h_pipe (payload s)) q else q

-- The body of the inner loop. `delete pSample` frees the sample's buffer.
unfoldable pub write_sample : Abi → MediaSampleX → InputPin → InputPin
unfolding note_reference write_to_pipe
write_sample abi s p =
    let q = note_reference s p in
    log (OsCall.free_buffer s.buffer) (if q.connected then write_to_pipe abi s q else q)

abbrev write_taken : Abi → Option (MediaSampleX × InputPin) → Option InputPin
write_taken abi none = none
write_taken abi (some (s, q)) = some (write_sample abi s q)

-- One round of the inner loop: `none` when its test fails.
unfoldable pub write_next : Abi → InputPin → Option InputPin
unfolding get_next_write_buffer_sample write_sample
write_next abi p =
    if p.write_buffering then write_taken abi (get_next_write_buffer_sample p) else none

-- The inner loop, while no other thread steps in between.
unfoldable pub drain : Abi → ℕ → InputPin → InputPin
drain abi zero p = p
drain abi (suc fuel) p = elim (write_next abi p) [ none ↦ p | some q ↦ drain abi fuel q ]
