-- ===== src/Source/Rebuild.antt =====
-- The source's pins against the sink's: `CreateOutputPins` (src/VirtualStreamSource.cpp) on the messages
-- of `PipeOutMediaTypes` (src/VirtualStreamSink.cpp).
use virtual_capture_stream.Prelude.{
  list_laws, ℕ, zero, suc, ◌<◌, ◌≤◌, true, false, ◌≡◌, refl, ◌∙◌, List, [], ◌∷◌, ◌++◌, some, take,
  length, arith,
}
use virtual_capture_stream.Win.{Os, OsCall, s_ok}
use virtual_capture_stream.Wire.{Abi, IsFaithful}
use virtual_capture_stream.Crt.{Crt, IsPlainName}
use virtual_capture_stream.PinInfo.{length-described, write_pin_info, read_pin_info-write_pin_info}
use virtual_capture_stream.PipeClient.{pipehost, client_pipe_name, open_pipe, opened}
use virtual_capture_stream.Sink.{SinkPin}
use virtual_capture_stream.Sink.Publish.{pin_message, pin_messages}
use virtual_capture_stream.OutputPin.{OutputPin}
use virtual_capture_stream.OutputPin.Fill.{Serves}
use virtual_capture_stream.Source.{
  delete_pins, Source, RawPin, bufsize, is_empty, make_pin, read_pins, create_output_pins, log,
}

-- A pin whose description arrives whole: its name survives, its format block has the length that the
-- type states, and the message is not empty and fits the reader's buffer.
pub record Fits (crt : Crt) (abi : Abi) (x : SinkPin) : Type 0 where
  pub plain : IsPlainName crt x.pin.name
  pub short : length (crt.w2a x.pin.name) < 100
  pub whole : length x.pin.mt.pb_format ≡ x.pin.mt.cb_format
  pub small : length (pin_message crt abi x) ≤ bufsize

abbrev pub AllFit : Crt → Abi → List SinkPin → Type 0
AllFit crt abi [] = Unit
AllFit crt abi (x ∷ xs) = Fits crt abi x × AllFit crt abi xs

-- The output pin that stands for a pin of the sink.
abbrev pub mirror : RawPin → SinkPin → OutputPin
mirror raw x = record {
  name = x.pin.name;
  mt = x.pin.mt;
  alloc_properties = x.alloc_props;
  h_pipe = 0;
  connected = false;
  first_sample_delivered = false;
  rt_start = raw.raw_start;
  running = raw.raw_running;
  calls = [];
}

abbrev pub mirrors : RawPin → List SinkPin → List OutputPin
mirrors raw [] = []
mirrors raw (x ∷ xs) = mirror raw x ∷ mirrors raw xs

make_pin-pin_message :
    (crt : Crt) (abi : Abi) (raw : RawPin) (x : SinkPin)
    → IsFaithful abi
    → Fits crt abi x
    → make_pin crt abi raw (pin_message crt abi x) ≡ mirror raw x
unfolding make_pin pin_message
make_pin-pin_message crt abi raw x v f = ground (
  arith,
  read_pin_info-write_pin_info crt abi x.pin.name x.pin.mt x.alloc_props v f.plain f.short f.whole,
)

pub is_empty-long : (l : List ℕ) → 0 < length l → is_empty l ≡ false
is_empty-long [] h = elim h [ ]
is_empty-long (x ∷ l) h = refl

pin_message-not_empty :
    (crt : Crt) (abi : Abi) (x : SinkPin)
    → IsFaithful abi
    → Fits crt abi x
    → is_empty (pin_message crt abi x) ≡ false
unfolding pin_message write_pin_info
pin_message-not_empty crt abi x v f = is_empty-long (pin_message crt abi x) (
    omega (
      arith,
      length-described crt abi x.pin.name x.pin.mt x.alloc_props
          (take x.pin.mt.cb_format x.pin.mt.pb_format) v f.short,
    ))

module _ (os : Os) (crt : Crt) (abi : Abi) (raw : RawPin) (h : ℕ) (v : IsFaithful abi) where
  -- One round of the loop.
  pub read_pins-round :
      (fuel : ℕ) (x : SinkPin) (s : Source)
      → Fits crt abi x
      → os.read_reply (OsCall.read_file h bufsize ∷ s.calls)
        ≡ record { success = true; bytes = pin_message crt abi x }
      → read_pins os crt abi raw h (suc fuel) s
        ≡ read_pins os crt abi raw h fuel (record (log (OsCall.read_file h bufsize) s) {
          pin_list = s.pin_list ++ mirror raw x ∷ [];
        })
  unfolding read_pins
  read_pins-round fuel x s f e =
      ground (arith, e, pin_message-not_empty crt abi x v f, make_pin-pin_message crt abi raw x v f)

  read_pins-last :
      (fuel : ℕ) (s : Source)
      → os.read_reply (OsCall.read_file h bufsize ∷ s.calls) ≡ record { success = true; bytes = [] }
      → read_pins os crt abi raw h (suc fuel) s ≡ some (log (OsCall.read_file h bufsize) s)
  unfolding read_pins
  read_pins-last fuel s e = ground arith

  read_pins-mirrors :
      (l : List SinkPin) (fuel : ℕ) (s : Source)
      → AllFit crt abi l
      → length l < fuel
      → Serves os h (pin_messages crt abi l ++ [] ∷ []) s.calls
      → (t : Source) × (read_pins os crt abi raw h fuel s ≡ some t)
        × (t.pin_list ≡ s.pin_list ++ mirrors raw l)
  read_pins-mirrors l zero s f lt serves = elim lt [ ]
  read_pins-mirrors [] (suc fuel) s f lt serves = (
    log (OsCall.read_file h bufsize) s,
    read_pins-last fuel s (serves bufsize (omega arith)).0,
    simp list_laws,
  )
  read_pins-mirrors (x ∷ xs) (suc fuel) s f lt serves =
      let first = serves bufsize f.0.small in
      let later =
        read_pins-mirrors xs fuel
          (record (log (OsCall.read_file h bufsize) s) {
            pin_list = s.pin_list ++ mirror raw x ∷ [];
          })
          f.1 (omega arith) first.1 in
      (later.0, read_pins-round fuel x s f.0 first.0 ∙ later.1, later.2 ∙ simp list_laws)

  -- The source makes one output pin for each pin that the sink describes, in the same order, with its
  -- name, media type and allocator properties: when the pipe opens and takes the message mode, serves
  -- the sink's messages, every description fits, and the fuel exceeds the number of pins.
  pub create_output_pins-mirrors :
      (l : List SinkPin) (fuel : ℕ) (name : List ℕ) (s : Source) (cs : List OsCall)
      → AllFit crt abi l
      → length l < fuel
      → open_pipe os (client_pipe_name pipehost name) 20000 fuel s.calls ≡ some (opened h, cs)
      → os.set_state_reply cs ≡ true
      → Serves os h (pin_messages crt abi l ++ [] ∷ []) (OsCall.set_named_pipe_handle_state h ∷ cs)
      → (t : Source) × (create_output_pins os crt abi raw fuel name s ≡ some (s_ok, t))
        × (t.pin_list ≡ mirrors raw l)
  unfolding create_output_pins
  create_output_pins-mirrors l fuel name s cs f lt open_ok mode serves =
      let read =
        read_pins-mirrors l fuel
          (record s {
            pin_list = [];
            deleted = delete_pins s.pin_list s.deleted;
            calls = OsCall.set_named_pipe_handle_state h ∷ cs;
          })
          f lt serves in
      (log (OsCall.close_handle h) read.0, rw (open_ok, mode, read.1), read.2)
