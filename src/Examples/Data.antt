-- ===== src/Examples/Data.antt =====
-- Concrete parameters and states for the examples.
mod Parameters
pub use Parameters.*
use virtual_capture_stream.Prelude.{ℕ, true, false, [], ◌∷◌, none, some, replicate}
use virtual_capture_stream.MediaType.{AmMediaType, AllocatorProperties}
use virtual_capture_stream.Sample.{MediaSampleX, IMediaSample, Memory}
use virtual_capture_stream.OutputPin.{OutputPin, SampleReplies}
use virtual_capture_stream.InputPin.{InputPin}
use virtual_capture_stream.Sink.{SinkPin, NewPin, stopped}
use virtual_capture_stream.Source.{Source, RawPin}

abbrev pub props : AllocatorProperties
props = record { c_buffers = 4; cb_buffer = 1000; cb_align = 1; cb_prefix = 0 }

abbrev pub video_type : AmMediaType
video_type = record { majortype = 1; fields = 77; cb_format = 2; pb_format = 5 ∷ 6 ∷ [] }

-- A sample with three bytes, and one without data.
abbrev pub frame : MediaSampleX
frame = record {
  track_id = 0;
  actual_data_length = 3;
  media_time_start = 1;
  media_time_end = 2;
  time_start = 500;
  time_end = 540;
  size = 8;
  is_discontinuity = false;
  is_preroll = false;
  is_sync_point = true;
  sample_properties = 0;
  buffer = some (7 ∷ 8 ∷ 9 ∷ []);
}

abbrev pub gap : MediaSampleX
gap = record frame {
  actual_data_length = 0;
  time_start = 540;
  time_end = 580;
  is_sync_point = false;
  buffer = none;
}

-- What upstream hands over for `frame`, and a memory that has room.
abbrev pub upstream : IMediaSample
upstream = record {
  get_actual_data_length = 3;
  get_size = 8;
  is_discontinuity_hr = 1;
  is_preroll_hr = 1;
  is_sync_point_hr = 0;
  get_media_time = some (1, 2);
  get_time = some (500, 540);
  get_pointer = some (7 ∷ 8 ∷ 9 ∷ []);
}

abbrev pub memory : Memory
memory = record {
  raw_times = (0, 0);
  raw_media_times = (0, 0);
  raw_properties = 0;
  malloc = λ n. some (replicate n 0);
}

abbrev pub accepting : SampleReplies
accepting = record { sync_point_hr = 0; preroll_hr = 0; media_type_hr = 0; discontinuity_hr = 0 }

abbrev pub new_pin : NewPin
new_pin = record {
  tick_count = 1;
  allocator = 30;
  alloc_props = props;
  raw2 = 99;
  raw_ref2 = 0;
  empty_mt = record { majortype = 0; fields = 0; cb_format = 0; pb_format = [] };
  hr = 0;
}

-- An output pin that is connected to the pipe 22.
abbrev pub playing : OutputPin
playing = record {
  name = 65 ∷ [];
  mt = video_type;
  alloc_properties = props;
  h_pipe = 22;
  connected = true;
  first_sample_delivered = false;
  rt_start = 0;
  running = true;
  calls = [];
}

-- An input pin with two samples that wait, and as it stands in the filter's list.
abbrev pub sending : InputPin
sending = record {
  name = 65 ∷ [];
  track_id = 0;
  pipename = 65 ∷ [];
  buffer_allocator = 30;
  h_pipe = 20;
  h_thread = 21;
  h_thread2 = 21;
  connected = true;
  sync_point_hit = false;
  rt_ref_point = 300;
  rt_ref_point2 = 0;
  write_buffer = frame ∷ gap ∷ [];
  write_buffering = true;
  pipe_server_running = true;
  mt = video_type;
  calls = [];
}

abbrev pub listed : ℕ → SinkPin
listed id = record { id = id; is_connected = true; alloc_props = props; pin = sending }

abbrev pub raw : RawPin
raw = record { raw_start = 0; raw_running = false }

abbrev pub unmade : Source
unmade = record { pin_list = []; state = stopped; rt_video_ref_point = 0; deleted = []; calls = [] }
