-- ===== src/Source/Life.antt =====
-- How a source filter begins and ends, and what an application asks of it
-- (src/VirtualStreamSource.cpp and .h).
use mathlib.Core.Option
use virtual_capture_stream.Prelude.{ℕ, Bool, List, [], Option, none, some, ◌==◌, if◌then◌else◌}
use virtual_capture_stream.Win.{Os, s_ok, e_outofmemory}
use virtual_capture_stream.Wire.{Abi}
use virtual_capture_stream.Crt.{Crt}
use virtual_capture_stream.Registration.{iid_i_virtual_stream_source}
use virtual_capture_stream.Trace.{Tracer, set_trace_file}
use virtual_capture_stream.Sink.{stopped}
use virtual_capture_stream.OutputPin.Types.{delete_output_pin}
use virtual_capture_stream.Source.{
  Source, RawPin, choose_stream_name, create_output_pins, delete_pins,
}

-- The filter before its pins are made. `raw` is what memory holds at `m_rtVideoRefPoint`.
abbrev pub bare_source : ℕ → Source
bare_source raw = record {
  pin_list = [];
  state = stopped;
  rt_video_ref_point = raw;
  deleted = [];
  calls = [];
}

-- The constructor, for the value of the environment variable and the command line; the code of
-- `CreateOutputPins` is dropped. `none` stands for a read past the end of the command line and for a
-- loop that ran out of fuel.
unfoldable pub new_source : Os → Crt → Abi → RawPin → ℕ → ℕ → List ℕ → List ℕ → Option Source
unfolding choose_stream_name
new_source os crt abi raw raw_ref fuel env cmdline = elim (choose_stream_name env cmdline) [
  | none ↦ none
  | some name ↦
      Option.map (λ r. r.1) (create_output_pins os crt abi raw fuel name (bare_source raw_ref))
]

-- The destructor.
unfoldable pub delete_source : Source → Source
unfolding delete_output_pin
delete_source s = record s { pin_list = []; deleted = delete_pins s.pin_list s.deleted }

-- `CreateInstance`: the code, if the caller asks for it, by whether there is memory.
unfoldable pub create_instance : Bool → Bool → Option ℕ
create_instance has_memory asked =
    if asked then (if has_memory then some s_ok else some e_outofmemory) else none

pub data SourceFace : Type 0 where
  virtual_stream_source : SourceFace
  base_face : ℕ → SourceFace

-- `base` is what `CBaseFilter` answers, `none` for an interface that it does not have.
unfoldable pub query_interface : (ℕ → Option SourceFace) → ℕ → Option SourceFace
query_interface base riid =
    if riid == iid_i_virtual_stream_source then some virtual_stream_source else base riid

-- `SetStreamName`: success is reported whatever comes of it.
unfoldable pub set_stream_name : Os → Crt → Abi → RawPin → ℕ → List ℕ → Source → Option (ℕ × Source)
set_stream_name os crt abi raw fuel name s =
    Option.map (λ r. (s_ok, r.1)) (create_output_pins os crt abi raw fuel name s)

unfoldable pub set_log_file :
    Crt → Bool → Bool → List ℕ → List ℕ → Option (List ℕ) → Tracer → ℕ × Tracer
unfolding set_trace_file
set_log_file crt can_delete can_open date time path t =
    (s_ok, set_trace_file crt can_delete can_open date time path t)
