-- ===== src/Sample.antt =====
-- The media sample that the sink keeps and the header that it sends before the sample's data
-- (src/MediaSampleX.h).
use virtual_capture_stream.Prelude.{
  ℕ, Bool, List, Option, none, some, take, is_pos32, overwrite, ◌==◌, if◌then◌else◌,
}
use virtual_capture_stream.Win.{s_ok}

-- The structure that goes over the pipe. `sample_properties` stands for the memory of an
-- `AM_SAMPLE2_PROPERTIES`, which the sources only ever clear.
pub record MediaSampleInfo : Type 0 where
  pub actual_data_length : ℕ
  pub media_time_start : ℕ
  pub media_time_end : ℕ
  pub time_start : ℕ
  pub time_end : ℕ
  pub time_offset : ℕ
  pub media_time_offset : ℕ
  pub size : ℕ
  pub is_discontinuity : Bool
  pub is_preroll : Bool
  pub is_sync_point : Bool
  pub sample_properties : ℕ

-- The answers of the sample that upstream hands over (an `IMediaSample`): a call that reports no
-- time or no pointer leaves its outputs as they were.
pub record IMediaSample : Type 0 where
  pub get_actual_data_length : ℕ
  pub get_size : ℕ
  pub is_discontinuity_hr : ℕ
  pub is_preroll_hr : ℕ
  pub is_sync_point_hr : ℕ
  pub get_media_time : Option (ℕ × ℕ)
  pub get_time : Option (ℕ × ℕ)
  pub get_pointer : Option (List ℕ)

-- The class `CMediaSampleX`; `buffer` is `none` for a null pointer.
pub record MediaSampleX : Type 0 where
  pub track_id : ℕ
  pub actual_data_length : ℕ
  pub media_time_start : ℕ
  pub media_time_end : ℕ
  pub time_start : ℕ
  pub time_end : ℕ
  pub size : ℕ
  pub is_discontinuity : Bool
  pub is_preroll : Bool
  pub is_sync_point : Bool
  pub sample_properties : ℕ
  pub buffer : Option (List ℕ)

-- What `new` and `malloc` find in memory: the fields that the constructor may leave unset, and the
-- content of a block of the given size, `none` when there is no memory.
pub record Memory : Type 0 where
  pub raw_times : ℕ × ℕ
  pub raw_media_times : ℕ × ℕ
  pub raw_properties : ℕ
  pub malloc : ℕ → Option (List ℕ)

abbrev times_or : Option (ℕ × ℕ) → ℕ × ℕ → ℕ × ℕ
times_or none raw = raw
times_or (some t) raw = t

-- The block after the optional `memcpy`.
abbrev fill_block : ℕ → Option (List ℕ) → List ℕ → List ℕ
fill_block n none block = block
fill_block n (some bytes) block = overwrite (take n bytes) block

-- The length and the buffer, by the answer of `malloc`.
abbrev copy_data : ℕ → Option (List ℕ) → Option (List ℕ) → ℕ × Option (List ℕ)
copy_data n source none = (0, none)
copy_data n source (some block) = (n, some (fill_block n source block))

unfoldable pub new_sample : Memory → ℕ → IMediaSample → MediaSampleX
new_sample m track s =
    let n = s.get_actual_data_length in
    let copied : ℕ × Option (List ℕ) =
      if is_pos32 n then copy_data n s.get_pointer (m.malloc n) else (n, none) in
    let mt = times_or s.get_media_time m.raw_media_times in
    let t = times_or s.get_time m.raw_times in
    record {
      track_id = track;
      actual_data_length = copied.0;
      media_time_start = mt.0;
      media_time_end = mt.1;
      time_start = t.0;
      time_end = t.1;
      size = s.get_size;
      is_discontinuity = s.is_discontinuity_hr == s_ok;
      is_preroll = s.is_preroll_hr == s_ok;
      is_sync_point = s.is_sync_point_hr == s_ok;
      sample_properties = m.raw_properties;
      buffer = copied.1;
    }

-- `ZeroMemory` on a header.
abbrev pub zero_info : MediaSampleInfo
zero_info = record {
  actual_data_length = 0;
  media_time_start = 0;
  media_time_end = 0;
  time_start = 0;
  time_end = 0;
  time_offset = 0;
  media_time_offset = 0;
  size = 0;
  is_discontinuity = Bool.false;
  is_preroll = Bool.false;
  is_sync_point = Bool.false;
  sample_properties = 0;
}

unfoldable pub get_media_sample_info : MediaSampleX → MediaSampleInfo
get_media_sample_info x = record zero_info {
  actual_data_length = x.actual_data_length;
  size = x.size;
  is_discontinuity = x.is_discontinuity;
  is_preroll = x.is_preroll;
  is_sync_point = x.is_sync_point;
  media_time_start = x.media_time_start;
  media_time_end = x.media_time_end;
  time_start = x.time_start;
  time_end = x.time_end;
}

unfoldable pub get_buffer : MediaSampleX → Option (List ℕ)
get_buffer x = x.buffer

unfoldable pub get_buffer_length : MediaSampleX → ℕ
get_buffer_length x = x.actual_data_length
