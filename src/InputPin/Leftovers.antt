-- ===== src/InputPin/Leftovers.antt =====
-- What resets and disconnections of a pin leave behind (src/VirtualStreamSinkInputPin.cpp).
use virtual_capture_stream.Prelude.{
  ℕ, ◌<◌, ◌≡◌, ◌≢◌, true, false, List, [], ◌∷◌, length, ◌∙◌, subst, ◌++◌, ◌==◌, if◌then◌else◌,
  arith,
}
use virtual_capture_stream.Win.{Os, OsCall, failed, wait_object_0}
use virtual_capture_stream.MediaType.{AmMediaType}
use virtual_capture_stream.Sample.{MediaSampleX}
use virtual_capture_stream.Wire.{Abi}
use virtual_capture_stream.InputPin.{
  InputPin, new_input_pin, reset, ref_unset, end_of_stream, stop_server, probe_pipe, await_listener,
}
use virtual_capture_stream.InputPin.Allocator.{Slot, break_connect}
use virtual_capture_stream.InputPin.Write.{drain}
use virtual_capture_stream.InputPin.Transmit.{
  Drained, drain_sends, sent, freed, buffers, all_messages, base_time, base_media_time,
}

-- `Reset` does not empty the write buffer: the samples that waited before it are all sent after it, with
-- the first of them as the new reference.
reset-drain_sends :
    (abi : Abi) (fuel : ℕ) (s : MediaSampleX) (rest : List MediaSampleX) (p : InputPin)
    → p.connected ≡ true
    → p.write_buffering ≡ true
    → p.write_buffer ≡ s ∷ rest
    → s.time_start ≢ ref_unset
    → length (s ∷ rest) < fuel
    → Drained abi s.time_start s.media_time_start
        (s ∷ rest)
        (reset p).1
        (drain abi fuel (reset p).1)
unfolding reset
reset-drain_sends abi fuel s rest p c w e n lt =
    drain_sends abi fuel s rest (record p { rt_ref_point = ref_unset }) c w e n lt

-- A pin that never received a sample has no write thread, and yet its first disconnection waits for
-- the handle that memory held at the uninitialised member, and asks to terminate it unless the wait
-- succeeds at once.
new_input_pin-break_connect :
    (os : Os) (name : List ℕ) (allocator raw2 raw_ref2 base : ℕ) (mt : AmMediaType) (slot : Slot)
    → raw2 ≢ 0
    → failed base ≡ false
    → (break_connect os base slot (new_input_pin name allocator raw2 raw_ref2 mt)).2.calls ≡ (
        if os.wait_reply [] == wait_object_0
        then OsCall.wait_for_single_object raw2 10000 ∷ []
        else OsCall.terminate_thread raw2 ∷ OsCall.wait_for_single_object raw2 10000 ∷ [])
unfolding break_connect new_input_pin
new_input_pin-break_connect os name allocator raw2 raw_ref2 base mt slot n ok = ground arith

after_end :
    (os : Os) (p : InputPin)
    → p.h_pipe ≢ 0
    → let q = (end_of_stream os p).1 in
      (rest : List OsCall) × (q.calls
        ≡ OsCall.close_handle p.h_pipe ∷ OsCall.disconnect_named_pipe p.h_pipe ∷ rest)
      × (q.h_pipe ≡ 0)
      × (q.connected ≡ p.connected)
      × (q.write_buffering ≡ p.write_buffering)
      × (q.write_buffer ≡ p.write_buffer)
      × (q.rt_ref_point ≡ p.rt_ref_point)
      × (q.rt_ref_point2 ≡ p.rt_ref_point2)
unfolding end_of_stream stop_server
after_end os p there =
    let before =
      (await_listener os (probe_pipe os (record p { pipe_server_running = false }))).calls in
    let kept : let q = (end_of_stream os p).1 in
        (q.calls ≡ OsCall.close_handle p.h_pipe ∷ OsCall.disconnect_named_pipe p.h_pipe ∷ before)
        × (q.h_pipe ≡ 0)
        × (q.connected ≡ p.connected)
        × (q.write_buffering ≡ p.write_buffering)
        × (q.write_buffer ≡ p.write_buffer)
        × (q.rt_ref_point ≡ p.rt_ref_point)
        × (q.rt_ref_point2 ≡ p.rt_ref_point2) =
      ground arith in
    (before, kept.0, kept.1, kept.2, kept.3, kept.4, kept.5, kept.6)

same_bases :
    (q p : InputPin) (s : MediaSampleX)
    → q.rt_ref_point ≡ p.rt_ref_point
    → q.rt_ref_point2 ≡ p.rt_ref_point2
    → (base_time q s ≡ base_time p s) × (base_media_time q s ≡ base_media_time p s)
same_bases q p s e f = ground arith

-- `EndOfStream` on a pin that has a pipe disconnects and closes that pipe with its last two calls, and
-- forgets it, but neither ends the write thread nor takes the mark of the client off: the samples that
-- wait are written to the null handle, header and data, in order, and freed. The first sample's time is
-- not the value that marks unset points.
pub end_of_stream-drain :
    (os : Os) (abi : Abi) (fuel : ℕ) (s : MediaSampleX) (rest : List MediaSampleX) (p : InputPin)
    → p.connected ≡ true
    → p.write_buffering ≡ true
    → p.write_buffer ≡ s ∷ rest
    → s.time_start ≢ ref_unset
    → length (s ∷ rest) < fuel
    → p.h_pipe ≢ 0
    → let q = (end_of_stream os p).1 in
      let d = drain abi fuel q in
      ((before : List OsCall) × (q.calls
          ≡ OsCall.close_handle p.h_pipe ∷ OsCall.disconnect_named_pipe p.h_pipe ∷ before))
      × (q.h_pipe ≡ 0)
      × (d.write_buffer ≡ [])
      × (sent 0 d.calls
          ≡ sent 0 q.calls ++ all_messages abi (base_time p s) (base_media_time p s) (s ∷ rest))
      × (freed d.calls ≡ freed q.calls ++ buffers (s ∷ rest))
end_of_stream-drain os abi fuel s rest p c w e n lt there =
    let q = (end_of_stream os p).1 in
    let (before, closed, null, connected, writing, queue, time, media_time) =
      after_end os p there in
    let done = drain_sends abi fuel s rest q (connected ∙ c) (writing ∙ w) (queue ∙ e) n lt in
    let to_null : sent 0 (drain abi fuel q).calls
        ≡ sent 0 q.calls ++ all_messages abi (base_time q s) (base_media_time q s) (s ∷ rest) =
      subst
        (λ (h : ℕ).
          sent h (drain abi fuel q).calls
          ≡ sent h q.calls ++ all_messages abi (base_time q s) (base_media_time q s) (s ∷ rest))
        null done.all_sent in
    let (same_time, same_media) = same_bases q p s time media_time in
    ((before, closed), null, done.emptied, cc (to_null, same_time, same_media), done.all_freed)
