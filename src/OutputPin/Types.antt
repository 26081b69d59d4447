-- ===== src/OutputPin/Types.antt =====
-- The media types of an output pin, its allocator's properties and its end
-- (src/VirtualStreamSourceOutputPin.cpp).
use virtual_capture_stream.Prelude.{ℕ}
use virtual_capture_stream.Win.{s_ok}
use virtual_capture_stream.MediaType.{AmMediaType, AllocatorProperties}
use virtual_capture_stream.OutputPin.{OutputPin, disconnect_pipe}

-- `set` is `CMediaType::Set` on a cleared and initialised type: the copy that it makes.
unfoldable pub get_media_type : (AmMediaType → AmMediaType) → OutputPin → ℕ × AmMediaType
get_media_type set p = (s_ok, set p.mt)

-- `base` is what the method of `CSourceStream` returns.
unfoldable pub check_media_type : (AmMediaType → OutputPin → ℕ) → AmMediaType → OutputPin → ℕ
check_media_type base mt p = base mt p

unfoldable pub get_media_type_at :
    (ℕ → OutputPin → ℕ × AmMediaType) → ℕ → OutputPin → ℕ × AmMediaType
get_media_type_at base position p = base position p

-- `properties` is what the allocator of the connection reports; its code is dropped.
unfoldable pub get_allocator_properties : AllocatorProperties → OutputPin → ℕ × AllocatorProperties
get_allocator_properties properties p = (s_ok, properties)

-- The destructor.
unfoldable pub delete_output_pin : OutputPin → OutputPin
unfolding disconnect_pipe
delete_output_pin p = (disconnect_pipe p).1
