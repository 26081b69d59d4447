-- ===== src/Channel/SinkSteps.antt =====
-- What `Receive` and the rounds of the write thread do to the queue of samples that the system stands for.
use virtual_capture_stream.Prelude.{
  ℕ, ◌≡◌, refl, sym, ap, ◌∙◌, List, [], ◌∷◌, ◌++◌, append_assoc, subst, arith, true, false, flatten,
}
use virtual_capture_stream.Win.{Os}
use virtual_capture_stream.MediaType.{AmMediaType}
use virtual_capture_stream.Sample.{MediaSampleX, IMediaSample, Memory, new_sample}
use virtual_capture_stream.Wire.{Abi}
use virtual_capture_stream.InputPin.{InputPin, receive}
use virtual_capture_stream.InputPin.Write.{note_reference, write_sample}
use virtual_capture_stream.InputPin.Transmit.{write_sample-rest}
use virtual_capture_stream.Channel.{Channel, is_cut, is_joined}
use virtual_capture_stream.InputPin.Transmit.{written}
use virtual_capture_stream.Channel.Messages.{Carries, Carries-snoc, write_sample-written}
use virtual_capture_stream.Channel.Fifo.{Fifo, NothingOut, Strands-later, Represents}

pub write_sample-connected :
    (abi : Abi) (s : MediaSampleX) (p : InputPin) → (write_sample abi s p).connected ≡ p.connected
unfolding write_sample
write_sample-connected abi s p = ground arith

-- The samples that came in, with one more at the end of the queue.
all_in-snoc :
    (lost past gone late queue : List MediaSampleX) (s : MediaSampleX)
    → (lost ++ (past ++ (gone ++ (late ++ queue)))) ++ s ∷ []
      ≡ lost ++ (past ++ (gone ++ (late ++ (queue ++ s ∷ []))))
all_in-snoc lost past gone late queue s = cc (
  append_assoc lost (past ++ (gone ++ (late ++ queue))) (s ∷ []),
  append_assoc past (gone ++ (late ++ queue)) (s ∷ []),
  append_assoc gone (late ++ queue) (s ∷ []),
  append_assoc late queue (s ∷ []),
)

module _ (abi : Abi) (mt : AmMediaType) where
  pub receiving-Represents :
      (os : Os) (m : Memory) (base : ℕ) (s : IMediaSample) (c : Channel) (a : Fifo)
      → Represents abi mt c a
      → Represents abi mt
          (record c {
            sink = (receive os m base s c.sink).1;
            received = c.received ++ new_sample m 0 s ∷ [];
          })
          (record a { queue = a.queue ++ new_sample m 0 s ∷ [] })
  unfolding receive
  receiving-Represents os m base s c a h = record {
    carried = h.carried;
    in_order =
        ground
          (arith, h.in_order, append_assoc h.carried c.sink.write_buffer (new_sample m 0 s ∷ []));
    on_wire = h.on_wire;
    all_in =
        ap (λ l. l ++ new_sample m 0 s ∷ []) h.all_in
        ∙ all_in-snoc c.lost (flatten a.past) a.gone a.late a.queue (new_sample m 0 s);
    all_out = h.all_out;
    past_out = h.past_out;
    follows = h.follows;
    unseen = ground (arith, h.unseen);
    uncut = ground (arith, h.uncut);
    cut = ground (arith, h.cut);
    same_shut = ground (arith, h.same_shut);
    strands = h.strands;
  }

  pub writing-Represents :
      (c : Channel) (a : Fifo) (s : MediaSampleX) (rest : List MediaSampleX)
      → is_cut c ≡ false
      → is_joined c ≡ true
      → c.sink.write_buffer ≡ s ∷ rest
      → Represents abi mt c a
      → let q = write_sample abi s (record c.sink { write_buffer = rest }) in
        Represents abi mt (record c { sink = q; in_pipe = c.in_pipe ++ written c.sink q }) a
  writing-Represents c a s rest whole con e h =
      let p : InputPin = record c.sink { write_buffer = rest } in
      let q : InputPin = note_reference s p in
      let kept = write_sample-rest abi s p in
      let still = write_sample-connected abi s p in
      record {
        carried = h.carried ++ s ∷ [];
        in_order = cc (h.in_order, e, kept.1, append_assoc h.carried (s ∷ []) rest);
        on_wire =
            rw (write_sample-written abi s p (ground (arith, con)))
              (Carries-snoc abi h.carried c.in_pipe q.rt_ref_point q.rt_ref_point2 s h.on_wire);
        all_in = h.all_in;
        all_out = h.all_out;
        past_out = h.past_out;
        follows = h.follows;
        unseen = λ off. absurd (ground (arith, off, still, con));
        uncut = λ z. h.uncut whole;
        cut = λ broken. absurd (cc (broken, whole));
        same_shut = h.same_shut;
        strands = h.strands;
      }

  -- A round without a client.
  pub losing-Represents :
      (c : Channel) (a : Fifo) (s : MediaSampleX) (rest : List MediaSampleX)
      → is_cut c ≡ false
      → is_joined c ≡ false
      → c.sink.write_buffer ≡ s ∷ rest
      → (h : Represents abi mt c a)
      → let q = write_sample abi s (record c.sink { write_buffer = rest }) in
        (a.queue ≡ s ∷ rest)
        × NothingOut a
        × Represents abi mt
            (record c { sink = q; lost = c.lost ++ s ∷ [] })
            (record a { queue = rest })
  losing-Represents c a s rest whole off e h =
      let (out, empty) = h.unseen off whole in
      let p : InputPin = record c.sink { write_buffer = rest } in
      let kept = write_sample-rest abi s p in
      let still = write_sample-connected abi s p in
      let first : a.queue ≡ s ∷ rest = h.in_order ∙ ap (λ l. l ++ c.sink.write_buffer) empty ∙ e in
      let quiet : c.in_pipe ≡ [] = subst (λ l. Carries abi l c.in_pipe) empty h.on_wire in
      (
        first,
        out,
        record {
          carried = [];
          in_order = sym kept.1;
          on_wire = quiet;
          all_in =
              cc (h.all_in, first, out.0, out.1, h.uncut whole, append_assoc c.lost (s ∷ []) rest);
          all_out = h.all_out;
          past_out = h.past_out;
          follows = h.follows;
          unseen = λ z z'. (out, refl);
          uncut = λ z. h.uncut whole;
          cut = λ z. refl;
          same_shut = h.same_shut;
          strands = h.strands;
        },
      )

  -- A round behind a closed pipe.
  pub vanishing-Represents :
      (c : Channel) (a : Fifo) (s : MediaSampleX) (rest : List MediaSampleX)
      → is_cut c ≡ true
      → c.sink.write_buffer ≡ s ∷ rest
      → (h : Represents abi mt c a)
      → (a.queue ≡ s ∷ rest)
        × Represents abi mt
            (record c { sink = write_sample abi s (record c.sink { write_buffer = rest }) })
            (record a { queue = rest; late = a.late ++ s ∷ []; is_shut = true })
  vanishing-Represents c a s rest broken e h =
      let p : InputPin = record c.sink { write_buffer = rest } in
      let kept = write_sample-rest abi s p in
      let still = write_sample-connected abi s p in
      let empty = h.cut broken in
      let first : a.queue ≡ s ∷ rest = h.in_order ∙ ap (λ l. l ++ c.sink.write_buffer) empty ∙ e in
      let after : is_cut (record c { sink = write_sample abi s p }) ≡ true = broken in
      (
        first,
        record {
          carried = [];
          in_order = sym kept.1;
          on_wire = subst (λ l. Carries abi l c.in_pipe) empty h.on_wire;
          all_in = cc (h.all_in, first, append_assoc a.late (s ∷ []) rest);
          all_out = h.all_out;
          past_out = h.past_out;
          follows = h.follows;
          unseen = λ z whole. absurd (cc (after, whole));
          uncut = λ whole. absurd (cc (after, whole));
          cut = λ z. refl;
          same_shut = sym after;
          strands = rw after (Strands-later mt c.stranded a.late (s ∷ []) (is_cut c) h.strands);
        },
      )
