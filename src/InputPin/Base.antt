-- ===== src/InputPin/Base.antt =====
-- What an input pin passes on to its base class, `AddTrack` (src/VirtualStreamSinkInputPin.cpp), and
-- `SetStreamName` of the pin (src/VirtualStreamSinkInputPin.h).
use virtual_capture_stream.Prelude.{ℕ, List, ◌∷◌, ◌++◌}
use virtual_capture_stream.Win.{s_ok}
use virtual_capture_stream.InputPin.{InputPin, pipe_prefix}
use virtual_capture_stream.InputPin.Allocator.{RefCall, add_ref}

-- `base` is the code and the pin that the method of `CBaseInputPin` leaves; the overrides add a lock.
unfoldable pub active : (InputPin → ℕ × InputPin) → InputPin → ℕ × InputPin
active base p = base p

unfoldable pub begin_flush : (InputPin → ℕ × InputPin) → InputPin → ℕ × InputPin
begin_flush base p = base p

unfoldable pub end_flush : (InputPin → ℕ × InputPin) → InputPin → ℕ × InputPin
end_flush base p = base p

-- The start, the stop and the rate of the segment go to the base class as they are.
unfoldable pub new_segment :
    (ℕ → ℕ → ℕ → InputPin → ℕ × InputPin) → ℕ → ℕ → ℕ → InputPin → ℕ × InputPin
new_segment base start stop rate p = base start stop rate p

-- `GetAllocator` hands out the pin's allocator with a reference that the caller owns. It is asked for
-- its properties, which are dropped, and not released. `refs` lists the calls on it, newest first.
unfoldable pub add_track : ℕ → List RefCall → ℕ × List RefCall
add_track allocator refs = (s_ok, add_ref allocator ∷ refs)

-- `initialize` is `InitializePipeStream`, which is declared and has no definition in the sources.
unfoldable pub set_stream_name : (InputPin → InputPin) → List ℕ → InputPin → InputPin
set_stream_name initialize name p =
    initialize (record p { name = name; pipename = pipe_prefix ++ name })
