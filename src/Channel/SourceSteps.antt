-- ===== src/Channel/SourceSteps.antt =====
-- What each call of `FillBuffer` on an open pipe does to the queue of samples that the system stands for.
use virtual_capture_stream.Prelude.{
  Bool, ℕ, ◌≤◌, ◌≡◌, refl, sym, ap, ◌∙◌, List, [], ◌∷◌, ◌++◌, append_assoc, drop, subst,
  drop-append, length, arith, false, some,
}
use virtual_capture_stream.Win.{Os}
use virtual_capture_stream.MediaType.{AmMediaType}
use virtual_capture_stream.Sample.{MediaSampleX}
use virtual_capture_stream.Wire.{Abi, IsFaithful}
use virtual_capture_stream.InputPin.Transmit.{messages}
use virtual_capture_stream.OutputPin.{
  OutputPin, connect_to_sink_pin, SampleReplies, fill_connected, fill_sample, fill_flags, fill_data,
  set_first_sample_delivered,
}
use virtual_capture_stream.OutputPin.Fill.{Serves, Accepts, Delivers, fill_connected-Delivers}
use virtual_capture_stream.OutputPin.Connect.{connect_to_sink_pin-connected}
use virtual_capture_stream.Channel.{Channel, is_cut, noted, read_off}
use virtual_capture_stream.Channel.Messages.{
  Carries, fill_connected-read_off, fill_connected-reads_some,
}
use virtual_capture_stream.Channel.Fifo.{
  Fifo, unstranded, none_stranded, Represents, start_of-first_time, is_some-snoc,
  all_delivered-snoc,
}

-- A call that reads keeps the handle and the mark of the connection.
pub fill_connected-kept :
    (os : Os) (abi : Abi) (r : SampleReplies) (p : OutputPin)
    → ((fill_connected os abi r p).pin.connected ≡ p.connected)
      × ((fill_connected os abi r p).pin.h_pipe ≡ p.h_pipe)
      × ((fill_connected os abi r p).pin.running ≡ p.running)
unfolding fill_connected fill_sample fill_flags fill_data set_first_sample_delivered
fill_connected-kept os abi r p = ground arith

module _ (abi : Abi) (mt : AmMediaType) where
  -- Connecting, or failing to: nothing is on its way before it.
  pub connecting-Represents :
      (os : Os) (fuel hr : ℕ) (q : OutputPin) (gone : Bool) (c : Channel) (a : Fifo)
      → connect_to_sink_pin os fuel c.source ≡ some (hr, q)
      → c.source.connected ≡ false
      → is_cut (record c { source = q; broken = gone }) ≡ false
      → Represents abi mt c a
      → Represents abi mt (record c { source = q; broken = gone }) a
  connecting-Represents os fuel hr q gone c a e off unbroken h =
      let (_, mt_kept, runs, start, first) =
        connect_to_sink_pin-connected os fuel hr c.source q e in
      let whole : is_cut c ≡ false = ground (arith, off) in
      record {
        carried = h.carried;
        in_order = h.in_order;
        on_wire = h.on_wire;
        all_in = h.all_in;
        all_out = h.all_out;
        past_out = h.past_out;
        follows = λ z. record {
          same_type = mt_kept ∙ (h.follows whole).same_type;
          begun = first ∙ (h.follows whole).begun;
          started = rw (first, start) (h.follows whole).started;
        };
        unseen = λ z z'. h.unseen (ground (arith, off)) whole;
        uncut = λ z. h.uncut whole;
        cut = λ broken. absurd (cc (unbroken, broken));
        same_shut = h.same_shut ∙ whole ∙ sym unbroken;
        strands = unstranded (none_stranded abi mt c a whole h);
      }

  -- The pin behind a sample.
  pin_after-Represents :
      (os : Os) (r : SampleReplies) (r1 r2 : ℕ) (s : MediaSampleX) (rest : List (List ℕ))
      (l : List MediaSampleX) (c : Channel) (a : Fifo)
      (made : Delivers os rest s c.source (fill_connected os abi r c.source))
      → is_cut c ≡ false
      → (h : Represents abi mt c a) → h.carried ≡ s ∷ l
      → Carries abi l rest
      → Represents abi mt
          (record c {
            in_pipe = rest;
            source = (fill_connected os abi r c.source).pin;
            filled = noted c.filled (fill_connected os abi r c.source).sample;
          })
          (record a { queue = l ++ c.sink.write_buffer; gone = a.gone ++ s ∷ [] })
  pin_after-Represents os r r1 r2 s rest l c a made whole h e wire =
      let f = h.follows whole in
      let start = start_of-first_time c.source s a.gone f.begun f.started in
      rw made.pin_after (record {
        carried = l;
        in_order = refl;
        on_wire = wire;
        all_in = cc (
          h.all_in,
          h.in_order,
          h.uncut whole,
          e,
          append_assoc a.gone (s ∷ []) (l ++ c.sink.write_buffer),
        );
        all_out =
            rw made.sample_made
              (cc (h.all_out, f.same_type, start, all_delivered-snoc mt a.gone s));
        past_out = h.past_out;
        follows = λ z. record {
          same_type = f.same_type;
          begun = sym (is_some-snoc a.gone s);
          started = start;
        };
        unseen = λ off. absurd (cc ((h.unseen off whole).1, e));
        uncut = λ z. h.uncut whole;
        cut = λ broken. absurd (cc (whole, broken));
        same_shut = h.same_shut;
        strands = h.strands;
      })

  pub filling-Represents :
      (os : Os) (r : SampleReplies) (c : Channel) (a : Fifo) (l : List MediaSampleX)
      → IsFaithful abi
      → Accepts r
      → is_cut c ≡ false
      → Serves os c.source.h_pipe c.in_pipe c.source.calls
      → let f = fill_connected os abi r c.source in
        read_off c.source f.pin ≤ length c.in_pipe
        → (h : Represents abi mt c a) → h.carried ≡ l
        → (s : MediaSampleX) × (rest : List MediaSampleX) × (a.queue ≡ s ∷ rest)
          × Represents abi mt
              (record c {
                in_pipe = drop (read_off c.source f.pin) c.in_pipe;
                source = f.pin;
                filled = noted c.filled f.sample;
              })
              (record a { queue = rest; gone = a.gone ++ s ∷ [] })
  filling-Represents os r c a [] v acc whole serves room h e =
      let empty : c.in_pipe ≡ [] = subst (λ w. Carries abi w c.in_pipe) e h.on_wire in
      absurd (omega (arith, fill_connected-reads_some os abi r c.source, ap length empty))
  filling-Represents os r c a (s ∷ l) v acc whole serves room h e =
      let wire : Carries abi (s ∷ l) c.in_pipe = subst (λ w. Carries abi w c.in_pipe) e h.on_wire in
      let (r1, r2, rest, split, later) = wire in
      let served : Serves os c.source.h_pipe (messages abi r1 r2 s ++ rest) c.source.calls =
        subst (λ ms. Serves os c.source.h_pipe ms c.source.calls) split serves in
      let made = fill_connected-Delivers os abi r r1 r2 s c.source rest v acc served in
      let off = fill_connected-read_off os abi r r1 r2 s c.source rest v acc served in
      let left : drop (read_off c.source (fill_connected os abi r c.source).pin) c.in_pipe ≡ rest =
        rw (split, off)
          (drop-append (length (messages abi r1 r2 s)) (messages abi r1 r2 s) rest refl) in
      (
        s,
        l ++ c.sink.write_buffer,
        h.in_order ∙ ap (λ w. w ++ c.sink.write_buffer) e,
        rw left (pin_after-Represents os r r1 r2 s rest l c a made whole h e later),
      )
