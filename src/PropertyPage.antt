-- ===== src/PropertyPage.antt =====
-- The property page of the sink filter (src/VirtualStreamSinkPropertyPage.cpp and .h), and what it gets
-- from the filter.
use virtual_capture_stream.Prelude.{ℕ, Bool, ◌≡◌, ◌≢◌, Option, none, some, if◌then◌else◌, arith}
use virtual_capture_stream.Win.{s_ok}
use virtual_capture_stream.MediaType.{Sdk}
use virtual_capture_stream.Registration.{iid_i_virtual_stream_sink}
use virtual_capture_stream.Sink.Interface.{
  SinkFace, virtual_stream_sink, query_interface, uuid_i_virtual_stream_sink,
}

-- `m_spStreamBuffer`, a `CComQIPtr<IVirtualStreamSink>`; `none` is the null pointer.
pub record PropertyPage : Type 0 where
  pub stream_buffer : Option SinkFace

unfoldable pub new_property_page : PropertyPage
new_property_page = record { stream_buffer = none }

-- `none` where there is no memory.
unfoldable pub create_instance : Bool → Option PropertyPage
unfolding new_property_page
create_instance has_memory = if has_memory then some new_property_page else none

-- `unknown` is how the object answers queries. The smart pointer asks for the identifier that the
-- interface's declaration carries, and is null if there is no answer.
unfoldable pub on_connect : (ℕ → Option SinkFace) → PropertyPage → ℕ × PropertyPage
on_connect unknown pg = (s_ok, record pg { stream_buffer = unknown uuid_i_virtual_stream_sink })

unfoldable pub on_activate : PropertyPage → ℕ × PropertyPage
on_activate pg = (s_ok, pg)

-- The page never gets hold of the filter: the filter answers for `IID_IVirtualStreamSink`, but the
-- declaration of the interface carries another identifier, for which the filter answers only what its
-- base class does. `OnConnect` reports success and leaves a null pointer, if the base class does not
-- know the identifier and `IID_ISpecifyPropertyPages` is neither of the two.
pub on_connect-query_interface :
    (sdk : Sdk) (base : ℕ → Option SinkFace) (pg : PropertyPage)
    → sdk.iid_i_specify_property_pages ≢ uuid_i_virtual_stream_sink
    → sdk.iid_i_specify_property_pages ≢ iid_i_virtual_stream_sink
    → base uuid_i_virtual_stream_sink ≡ none
    → (query_interface sdk base iid_i_virtual_stream_sink ≡ some virtual_stream_sink)
      × ((on_connect (query_interface sdk base) pg).0 ≡ s_ok)
      × ((on_connect (query_interface sdk base) pg).1.stream_buffer ≡ none)
unfolding on_connect query_interface
on_connect-query_interface sdk base pg n m e = ground arith
