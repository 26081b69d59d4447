-- ===== src/Sink/Interface.antt =====
-- The interfaces of the sink filter (`NonDelegatingQueryInterface` of src/VirtualStreamSink.cpp, and
-- `SetLogFile` of src/VirtualStreamSink.h).
use virtual_capture_stream.Prelude.{ℕ, Bool, List, Option, some, ◌==◌, if◌then◌else◌}
use virtual_capture_stream.Win.{s_ok}
use virtual_capture_stream.MediaType.{Sdk}
use virtual_capture_stream.Registration.{clsid_property_page, iid_i_virtual_stream_sink}
use virtual_capture_stream.Crt.{Crt}
use virtual_capture_stream.Trace.{Tracer, set_trace_file}

-- The identifier that `MIDL_INTERFACE` attaches to `IVirtualStreamSink`, which `__uuidof` gives.
abbrev pub uuid_i_virtual_stream_sink : ℕ
uuid_i_virtual_stream_sink = 0x3c0ca9d9c46842dea7d5fbf61cd31f15

-- What a query hands out: a null pointer (on which `GetInterface` then calls `AddRef`), an interface of
-- the filter, or one of the base class.
pub data SinkFace : Type 0 where
  null_pointer specify_property_pages virtual_stream_sink : SinkFace
  base_face : ℕ → SinkFace

-- `base` is what `CBaseFilter` answers, `none` for an interface that it does not have.
unfoldable pub query_interface : Sdk → (ℕ → Option SinkFace) → ℕ → Option SinkFace
query_interface sdk base riid =
    if riid == clsid_property_page
    then some null_pointer
    else if riid == sdk.iid_i_specify_property_pages
    then some specify_property_pages
    else if riid == iid_i_virtual_stream_sink
    then some virtual_stream_sink
    else base riid

unfoldable pub set_log_file :
    Crt → Bool → Bool → List ℕ → List ℕ → Option (List ℕ) → Tracer → ℕ × Tracer
unfolding set_trace_file
set_log_file crt can_delete can_open date time path t =
    (s_ok, set_trace_file crt can_delete can_open date time path t)
