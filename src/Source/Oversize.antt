-- ===== src/Source/Oversize.antt =====
-- `CreateOutputPins` (src/VirtualStreamSource.cpp) on a description that is longer than its buffer.
use virtual_capture_stream.Prelude.{
  list_laws, ℕ, zero, suc, ◌+◌, ◌-◌, ◌<◌, ◌≤◌, true, false, ◌≡◌, refl, ap, ◌∙◌, List, [], ◌∷◌, ◌++◌,
  some, length, length-take, take, replicate, overwrite, take_all, arith,
}
use virtual_capture_stream.Win.{Os, OsCall, s_ok, error_more_data}
use virtual_capture_stream.Wire.{Abi, IsFaithful}
use virtual_capture_stream.Crt.{Crt, IsPlainName}
use virtual_capture_stream.PinInfo.{
  length-described, write_pin_info, described, take-described, read_pin_info-described,
}
use virtual_capture_stream.PipeClient.{pipehost, client_pipe_name, open_pipe, opened}
use virtual_capture_stream.Sink.{SinkPin}
use virtual_capture_stream.Sink.Publish.{pin_message, pin_messages}
use virtual_capture_stream.OutputPin.{OutputPin}
use virtual_capture_stream.OutputPin.Fill.{Serves}
use virtual_capture_stream.Source.{
  delete_pins, Source, RawPin, bufsize, is_empty, make_pin, read_pins, create_output_pins, log,
}
use virtual_capture_stream.Source.Rebuild.{AllFit, mirror, mirrors, is_empty-long, read_pins-round}

-- How many bytes of the format block fit behind the name and the two structures.
abbrev pub format_room : Abi → ℕ
format_room abi = bufsize - (100 + (abi.amt_size + abi.alloc_size))

-- A pin whose description does not fit the buffer, although all but its format block does.
pub record IsOversize (crt : Crt) (abi : Abi) (x : SinkPin) : Type 0 where
  pub plain : IsPlainName crt x.pin.name
  pub short : length (crt.w2a x.pin.name) < 100
  pub whole : length x.pin.mt.pb_format ≡ x.pin.mt.cb_format
  pub room : 100 + (abi.amt_size + abi.alloc_size) ≤ bufsize
  pub large : bufsize < length (pin_message crt abi x)

-- The output pin that stands for it: the end of the format block is cleared.
abbrev pub cropped : Abi → RawPin → SinkPin → OutputPin
cropped abi raw x = record (mirror raw x) {
  mt = record x.pin.mt {
    pb_format =
        overwrite (take (format_room abi) x.pin.mt.pb_format) (replicate x.pin.mt.cb_format 0);
  };
}

-- The history after `n` reads of descriptions.
abbrev pub after_reads : ℕ → ℕ → List OsCall → List OsCall
after_reads h zero cs = cs
after_reads h (suc n) cs = after_reads h n (OsCall.read_file h bufsize ∷ cs)

-- A message pipe with a message that is longer than the buffer: a read fails, but leaves the beginning.
pub record IsCropped (os : Os) (h : ℕ) (msg : List ℕ) (cs : List OsCall) : Type 0 where
  pub reply :
      os.read_reply (OsCall.read_file h bufsize ∷ cs)
      ≡ record { success = false; bytes = take bufsize msg }
  pub error : os.last_error (OsCall.read_file h bufsize ∷ cs) ≡ error_more_data

take-pin_message :
    (crt : Crt) (abi : Abi) (x : SinkPin)
    → IsFaithful abi
    → IsOversize crt abi x
    → take bufsize (pin_message crt abi x)
      ≡ described crt abi x.pin.name x.pin.mt x.alloc_props
          (take (format_room abi) x.pin.mt.pb_format)
unfolding pin_message write_pin_info
take-pin_message crt abi x v o =
    take-described crt abi x.pin.name x.pin.mt x.alloc_props
      (take x.pin.mt.cb_format x.pin.mt.pb_format) bufsize (format_room abi) v o.short
      (omega (arith, o.room))
    ∙ ap (λ f. described crt abi x.pin.name x.pin.mt x.alloc_props (take (format_room abi) f))
        (take_all x.pin.mt.cb_format x.pin.mt.pb_format (omega (arith, o.whole)))

make_pin-cropped :
    (crt : Crt) (abi : Abi) (raw : RawPin) (x : SinkPin)
    → IsFaithful abi
    → IsOversize crt abi x
    → make_pin crt abi raw (take bufsize (pin_message crt abi x)) ≡ cropped abi raw x
unfolding make_pin
make_pin-cropped crt abi raw x v o = rw (take-pin_message crt abi x v o) (
    ground (
      arith,
      read_pin_info-described crt abi x.pin.name x.pin.mt x.alloc_props
          (take (format_room abi) x.pin.mt.pb_format) v o.plain o.short
          (omega (arith, o.whole, length-take (format_room abi) x.pin.mt.pb_format)),
    ))

cropped-not_empty :
    (crt : Crt) (abi : Abi) (x : SinkPin)
    → IsFaithful abi
    → IsOversize crt abi x
    → is_empty (take bufsize (pin_message crt abi x)) ≡ false
cropped-not_empty crt abi x v o = rw (take-pin_message crt abi x v o) (
    is_empty-long _ (
      omega (
        arith,
        length-described crt abi x.pin.name x.pin.mt x.alloc_props
            (take (format_room abi) x.pin.mt.pb_format) v o.short,
      )))

module _ (os : Os) (crt : Crt) (abi : Abi) (raw : RawPin) (h : ℕ) (v : IsFaithful abi) where
  -- The round that finds the message too long makes a pin and ends the loop.
  read_pins-cropped :
      (fuel : ℕ) (x : SinkPin) (s : Source)
      → IsOversize crt abi x
      → IsCropped os h (pin_message crt abi x) s.calls
      → read_pins os crt abi raw h (suc fuel) s
        ≡ some (record (log (OsCall.read_file h bufsize) s) {
          pin_list = s.pin_list ++ cropped abi raw x ∷ [];
        })
  unfolding read_pins
  read_pins-cropped fuel x s o c =
      ground (
        arith,
        c.reply,
        c.error,
        cropped-not_empty crt abi x v o,
        make_pin-cropped crt abi raw x v o,
      )

  read_pins-cut_short :
      (l : List SinkPin) (x : SinkPin) (fuel : ℕ) (s : Source)
      → AllFit crt abi l
      → IsOversize crt abi x
      → length l < fuel
      → Serves os h (pin_messages crt abi l) s.calls
      → IsCropped os h (pin_message crt abi x) (after_reads h (length l) s.calls)
      → (t : Source) × (read_pins os crt abi raw h fuel s ≡ some t)
        × (t.pin_list ≡ s.pin_list ++ (mirrors raw l ++ cropped abi raw x ∷ []))
  read_pins-cut_short l x zero s f o lt serves c = absurd (omega arith)
  read_pins-cut_short [] x (suc fuel) s f o lt serves c = (_, read_pins-cropped fuel x s o c, refl)
  read_pins-cut_short (y ∷ l) x (suc fuel) s f o lt serves c =
      let first = serves bufsize f.0.small in
      let later =
        read_pins-cut_short l x fuel
          (record (log (OsCall.read_file h bufsize) s) {
            pin_list = s.pin_list ++ mirror raw y ∷ [];
          })
          f.1 o (omega arith) first.1 c in
      (
        later.0,
        read_pins-round os crt abi raw h v fuel y s f.0 first.0 ∙ later.1,
        later.2 ∙ simp list_laws,
      )

  -- A description that is longer than the source's buffer of 100000 bytes ends the list of pins: the
  -- source still makes a pin for it, with the name, media type and allocator properties of the sink's
  -- pin, but with a format block whose end is cleared, and makes none of the pins behind it. The pipe
  -- opens and takes the message mode, the pins before it fit and are served, a read of the long message
  -- reports that there is more, the long description's structures fit, its name survives the conversions,
  -- its format block has the length that the type states, and the fuel exceeds the number of pins before
  -- it.
  pub create_output_pins-cut_short :
      (l : List SinkPin) (x : SinkPin) (fuel : ℕ) (name : List ℕ) (s : Source) (cs : List OsCall)
      → AllFit crt abi l
      → IsOversize crt abi x
      → length l < fuel
      → open_pipe os (client_pipe_name pipehost name) 20000 fuel s.calls ≡ some (opened h, cs)
      → os.set_state_reply cs ≡ true
      → Serves os h (pin_messages crt abi l) (OsCall.set_named_pipe_handle_state h ∷ cs)
      → IsCropped os h
          (pin_message crt abi x)
          (after_reads h (length l) (OsCall.set_named_pipe_handle_state h ∷ cs))
      → (t : Source) × (create_output_pins os crt abi raw fuel name s ≡ some (s_ok, t))
        × (t.pin_list ≡ mirrors raw l ++ cropped abi raw x ∷ [])
  unfolding create_output_pins
  create_output_pins-cut_short l x fuel name s cs f o lt open_ok mode serves c =
      let read =
        read_pins-cut_short l x fuel
          (record s {
            pin_list = [];
            deleted = delete_pins s.pin_list s.deleted;
            calls = OsCall.set_named_pipe_handle_state h ∷ cs;
          })
          f o lt serves c in
      (log (OsCall.close_handle h) read.0, rw (open_ok, mode, read.1), read.2)
