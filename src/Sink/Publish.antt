-- ===== src/Sink/Publish.antt =====
-- How the sink describes its pins to a client (`PipeOutMediaTypes` of src/VirtualStreamSink.cpp).
use virtual_capture_stream.Prelude.{
  list_laws, ℕ, ◌≡◌, refl, List, [], ◌∷◌, ◌++◌, append_assoc, if◌then◌else◌, arith, Bool-cases, inl,
  inr,
}
use virtual_capture_stream.Win.{OsCall, s_ok}
use virtual_capture_stream.Wire.{Abi}
use virtual_capture_stream.Crt.{Crt}
use virtual_capture_stream.PinInfo.{write_pin_info}
use virtual_capture_stream.InputPin.Transmit.{sent}
use virtual_capture_stream.Sink.{Sink, SinkPin, log}

unfoldable pub pin_message : Crt → Abi → SinkPin → List ℕ
pin_message crt abi x = write_pin_info crt abi x.pin.name x.pin.mt x.alloc_props

-- The loop over the pins: those that are not connected are passed over.
unfoldable pub write_pins : Crt → Abi → List SinkPin → Sink → Sink
unfolding pin_message
write_pins crt abi [] s = s
write_pins crt abi (x ∷ xs) s =
    write_pins crt abi xs
      (if x.is_connected then log (OsCall.write_file s.h_pipe (pin_message crt abi x)) s else s)

-- After the pins an empty message, then the client is sent away.
unfoldable pub pipe_out_media_types : Crt → Abi → Sink → ℕ × Sink
unfolding write_pins
pipe_out_media_types crt abi s =
    let t = log (OsCall.write_file s.h_pipe []) (write_pins crt abi s.pin_list s) in
    (s_ok, log (OsCall.disconnect_named_pipe s.h_pipe) (log (OsCall.flush_file_buffers s.h_pipe) t))

abbrev pub connected_pins : List SinkPin → List SinkPin
connected_pins [] = []
connected_pins (x ∷ xs) = if x.is_connected then x ∷ connected_pins xs else connected_pins xs

abbrev pub pin_messages : Crt → Abi → List SinkPin → List (List ℕ)
pin_messages crt abi [] = []
pin_messages crt abi (x ∷ xs) = pin_message crt abi x ∷ pin_messages crt abi xs

write_pins-sent :
    (crt : Crt) (abi : Abi) (l : List SinkPin) (s : Sink)
    → ((write_pins crt abi l s).h_pipe ≡ s.h_pipe)
      × (sent s.h_pipe (write_pins crt abi l s).calls
          ≡ sent s.h_pipe s.calls ++ pin_messages crt abi (connected_pins l))
unfolding write_pins
write_pins-sent crt abi [] s = (refl, simp list_laws)
write_pins-sent crt abi (x ∷ xs) s = elim (Bool-cases x.is_connected) [
  | inl con ↦
      let one = log (OsCall.write_file s.h_pipe (pin_message crt abi x)) s in
      let rest = write_pins-sent crt abi xs one in
      ground (
        arith,
        con,
        rest,
        append_assoc (sent s.h_pipe s.calls) (pin_message crt abi x ∷ [])
            (pin_messages crt abi (connected_pins xs)),
      )
  | inr free ↦ ground (arith, free, write_pins-sent crt abi xs s)
]

-- The filter sends one message for each connected pin, in the order of its list, and then the empty
-- message that ends the description.
pub pipe_out_media_types-sent :
    (crt : Crt) (abi : Abi) (s : Sink)
    → sent s.h_pipe (pipe_out_media_types crt abi s).1.calls
      ≡ sent s.h_pipe s.calls ++ (pin_messages crt abi (connected_pins s.pin_list) ++ [] ∷ [])
unfolding pipe_out_media_types
pipe_out_media_types-sent crt abi s = ground (
  arith,
  write_pins-sent crt abi s.pin_list s,
  append_assoc (sent s.h_pipe s.calls) (pin_messages crt abi (connected_pins s.pin_list)) ([] ∷ []),
)
