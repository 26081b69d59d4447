-- ===== src/OutputPin/Caps.antt =====
-- What an output pin tells about itself: its property set, its stream capabilities, its formats and
-- buffers (src/VirtualStreamSourceOutputPin.cpp).
use virtual_capture_stream.Prelude.{
  ℕ, Bool, true, false, ◌≡◌, refl, ◌↔◌, ◌≢◌, ◌≤◌, ◌+◌, ◌%◌, ◌^◌, ◌<◌, ◌⊎◌, Option, none, some, ltb,
  not, ◌&&◌, ◌==◌, if◌then◌else◌, arith,
}
use virtual_capture_stream.Win.{
  s_ok, s_false, e_notimpl, e_pointer, e_fail, e_invalidarg, e_unexpected, e_outofmemory, failed,
  e_prop_set_unsupported, e_prop_id_unsupported,
}
use virtual_capture_stream.MediaType.{AmMediaType, AllocatorProperties, Sdk}
use virtual_capture_stream.OutputPin.{OutputPin}

-- `sizeof(GUID)`
abbrev pub guid_size : ℕ
guid_size = 16

-- What `Get` leaves in its two outputs, `none` where it stores nothing.
pub record Got : Type 0 where
  pub hr : ℕ
  pub prop_data : Option ℕ
  pub returned : Option ℕ

abbrev pub refused : ℕ → Got
refused hr = record { hr = hr; prop_data = none; returned = none }

-- `IKsPropertySet::Get`. `has_data` and `has_returned` say whether the output pointers are given.
unfoldable pub get_property : Sdk → ℕ → ℕ → Bool → ℕ → Bool → Got
get_property sdk prop_set prop_id has_data cb_data has_returned =
    let returned : Option ℕ = if has_returned then some guid_size else none in
    if not (prop_set == sdk.ampropsetid_pin)
    then refused e_prop_set_unsupported
    else if not (prop_id == sdk.amproperty_pin_category)
    then refused e_prop_id_unsupported
    else if not has_data && not has_returned
    then refused e_pointer
    else if not has_data
    then record { hr = s_ok; prop_data = none; returned = returned }
    else if ltb cb_data guid_size
    then record { hr = e_unexpected; prop_data = none; returned = returned }
    else record { hr = s_ok; prop_data = some sdk.pin_category_capture; returned = returned }

-- The code, and the support that is stored.
unfoldable pub query_supported : Sdk → ℕ → ℕ → Bool → ℕ × Option ℕ
query_supported sdk prop_set prop_id has_support =
    if not (prop_set == sdk.ampropsetid_pin)
    then (e_prop_set_unsupported, none)
    else if not (prop_id == sdk.amproperty_pin_category)
    then (e_prop_id_unsupported, none)
    else (s_ok, if has_support then some sdk.ksproperty_support_get else none)

unfoldable pub set_property : ℕ
set_property = e_notimpl

unfoldable pub notify : ℕ
notify = e_notimpl

unfoldable pub suggest_allocator_properties : AllocatorProperties → ℕ
suggest_allocator_properties props = s_ok

-- The format that the caller wants is not taken.
unfoldable pub set_format : AmMediaType → OutputPin → ℕ × OutputPin
set_format mt p = (s_ok, p)

-- `create` is `CreateMediaType`, `none` when there is no memory for the copy.
unfoldable pub get_format : (AmMediaType → Option AmMediaType) → OutputPin → ℕ × Option AmMediaType
get_format create p = (s_ok, create p.mt)

-- The count, and the size where it is stored. `caps_size` is `sizeof(AUDIO_STREAM_CONFIG_CAPS)`.
unfoldable pub get_number_of_capabilities : Sdk → ℕ → OutputPin → ℕ × ℕ × Option ℕ
get_number_of_capabilities sdk caps_size p =
    if p.mt.majortype == sdk.mediatype_audio then (s_ok, 1, some caps_size) else (s_ok, 0, none)

-- The members of a `WAVEFORMATEX` that are read.
pub record WaveFormat : Type 0 where
  pub channels : ℕ
  pub samples_per_sec : ℕ
  pub bits_per_sample : ℕ

-- The members of `AUDIO_STREAM_CONFIG_CAPS` that are set; the others are cleared.
pub record AudioCaps : Type 0 where
  pub guid : ℕ
  pub minimum_channels : ℕ
  pub maximum_channels : ℕ
  pub channels_granularity : ℕ
  pub minimum_bits_per_sample : ℕ
  pub maximum_bits_per_sample : ℕ
  pub bits_per_sample_granularity : ℕ
  pub minimum_sample_frequency : ℕ
  pub maximum_sample_frequency : ℕ
  pub sample_frequency_granularity : ℕ

unfoldable pub audio_caps : Sdk → WaveFormat → AudioCaps
audio_caps sdk w = record {
  guid = sdk.mediatype_audio;
  minimum_channels = w.channels;
  maximum_channels = w.channels;
  channels_granularity = w.channels;
  minimum_bits_per_sample = w.bits_per_sample;
  maximum_bits_per_sample = w.bits_per_sample;
  bits_per_sample_granularity = w.bits_per_sample;
  minimum_sample_frequency = w.samples_per_sec;
  maximum_sample_frequency = w.samples_per_sec;
  sample_frequency_granularity = w.samples_per_sec;
}

abbrev caps_of : Sdk → WaveFormat → Option AmMediaType → ℕ × Option AudioCaps
caps_of sdk w none = (e_outofmemory, none)
caps_of sdk w (some mt) = (s_ok, some (audio_caps sdk w))

-- The index is a 32-bit pattern; `w` is the pin's format block read as a `WAVEFORMATEX`.
unfoldable pub get_stream_caps :
    Sdk
    → (AmMediaType → Option AmMediaType)
    → WaveFormat
    → ℕ
    → Bool
    → OutputPin
    → ℕ × Option AudioCaps
unfolding audio_caps
get_stream_caps sdk create w index has_caps p =
    if not (ltb index 0x80000000)
    then (e_invalidarg, none)
    else if ltb 0 index
    then (s_false, none)
    else if not has_caps
    then (e_pointer, none)
    else caps_of sdk w (create p.mt)

-- `NonDelegatingQueryInterface`: whether the pin itself answers, and otherwise the base class.
unfoldable pub query_interface : Sdk → ℕ → OutputPin → Bool
query_interface sdk riid p =
    if riid == sdk.iid_i_am_stream_config
    then true
    else if riid == sdk.iid_i_ks_property_set
    then true
    else if p.mt.majortype == sdk.mediatype_audio
    then riid == sdk.iid_i_am_buffer_negotiation
    else false

-- `a < b` on signed 32-bit words.
abbrev slt32 : ℕ → ℕ → Bool
slt32 a b = ltb ((a + 2 ^ 31) % 2 ^ 32) ((b + 2 ^ 31) % 2 ^ 32)

-- `set` is `IMemAllocator::SetProperties`: its code and the properties that it grants. The code, and
-- the request that it was made with.
unfoldable pub decide_buffer_size :
    (AllocatorProperties → ℕ × AllocatorProperties) → OutputPin → ℕ × AllocatorProperties
decide_buffer_size set p =
    let granted = set p.alloc_properties in
    (
      if failed granted.0
          then granted.0
          else if slt32 granted.1.cb_buffer p.alloc_properties.cb_buffer
          then e_fail
          else s_ok,
      p.alloc_properties,
    )

-- What `Get` answers for a property that can be read: to a caller who gives no place for anything, to one
-- whose buffer is too small, to one who asks for the size alone, and to one whose buffer is large enough.
abbrev pub Answers : Sdk → ℕ → Bool → Bool → Got → Type 0
Answers sdk cb_data has_data has_returned g =
    ((has_data ≡ false) × (has_returned ≡ false) × (g ≡ refused e_pointer))
    ⊎ ((has_data ≡ true)
        × (cb_data < guid_size)
        × (g.hr ≡ e_unexpected)
        × (g.prop_data ≡ none)
        × (g.returned ≡ (if has_returned then some guid_size else none)))
    ⊎ ((has_data ≡ false)
        × (has_returned ≡ true)
        × (g.hr ≡ s_ok)
        × (g.prop_data ≡ none)
        × (g.returned ≡ some guid_size))
    ⊎ ((has_data ≡ true)
        × (guid_size ≤ cb_data)
        × (g.hr ≡ s_ok)
        × (g.prop_data ≡ some sdk.pin_category_capture)
        × (g.returned ≡ (if has_returned then some guid_size else none)))

-- `Get` refuses a property with the code of `QuerySupported` if that refuses it. If `QuerySupported`
-- reports it as readable, `Get` refuses exactly the caller who gives no place for anything, reports
-- exactly a buffer of fewer than 16 bytes as too small without storing the category, gives a caller without
-- a buffer the size alone, and stores the capture category in a buffer of 16 bytes or more, with the size
-- where there is a place for it.
pub get_property-query_supported :
    (sdk : Sdk) (prop_set prop_id cb_data : ℕ) (has_data has_returned has_support : Bool)
    → let g = get_property sdk prop_set prop_id has_data cb_data has_returned in
      let q = query_supported sdk prop_set prop_id has_support in
      ((failed q.0 ≡ true) × (q.1 ≡ none) × (g ≡ refused q.0))
      ⊎ ((q.0 ≡ s_ok)
          × (q.1 ≡ (if has_support then some sdk.ksproperty_support_get else none))
          × Answers sdk cb_data has_data has_returned g)
unfolding get_property query_supported
get_property-query_supported sdk prop_set prop_id cb_data has_data has_returned has_support =
    ground arith

-- A pin that is not for audio reports no capabilities, and yet hands out audio capabilities at index 0,
-- if the caller gives a block and there is memory for the copy of the media type.
get_stream_caps-no_capabilities :
    (sdk : Sdk) (create : AmMediaType → Option AmMediaType) (w : WaveFormat) (caps_size : ℕ)
    (p : OutputPin) (mt : AmMediaType)
    → p.mt.majortype ≢ sdk.mediatype_audio
    → create p.mt ≡ some mt
    → ((get_number_of_capabilities sdk caps_size p).1 ≡ 0)
      × (get_stream_caps sdk create w 0 true p ≡ (s_ok, some (audio_caps sdk w)))
unfolding get_number_of_capabilities get_stream_caps
get_stream_caps-no_capabilities sdk create w caps_size p mt other e = ground arith

-- `DecideBufferSize` succeeds exactly when the allocator does and grants at least the size of the sink's
-- allocator, and that is the size it asks for; sizes are below 2 ^ 31.
decide_buffer_size-enough :
    (set : AllocatorProperties → ℕ × AllocatorProperties) (p : OutputPin)
    → p.alloc_properties.cb_buffer < 0x80000000
    → (set p.alloc_properties).1.cb_buffer < 0x80000000
    → let granted = set p.alloc_properties in
      ((decide_buffer_size set p).1 ≡ p.alloc_properties)
      × (((decide_buffer_size set p).0 ≡ s_ok)
          ↔ ((failed granted.0 ≡ false) × (p.alloc_properties.cb_buffer ≤ granted.1.cb_buffer)))
unfolding decide_buffer_size
decide_buffer_size-enough set p small small' =
    (refl, ((λ ok. ground arith), (λ enough. ground arith)))
