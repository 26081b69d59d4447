-- ===== src/Channel/Stranding.antt =====
-- What comes of the queue of samples that the system stands for when the sink closes the pipe between the
-- two reads of a call of `FillBuffer`.
use virtual_capture_stream.Prelude.{
  ℕ, ◌≡◌, refl, sym, ap, ◌∙◌, List, [], ◌∷◌, ◌++◌, subst, true, false, some, arith, is_pos32,
}
use virtual_capture_stream.Win.{Os, OsCall}
use virtual_capture_stream.MediaType.{AmMediaType}
use virtual_capture_stream.Sample.{MediaSampleX}
use virtual_capture_stream.Wire.{Abi, IsFaithful}
use virtual_capture_stream.InputPin.{end_of_stream}
use virtual_capture_stream.InputPin.Write.{header}
use virtual_capture_stream.OutputPin.{
  OutputPin, SampleReplies, Filled, fill_buffer, fill_connected, fill_sample, log,
}
use virtual_capture_stream.OutputPin.Fill.{
  Serves, Accepts, start_of, fill_connected-header, fill_buffer-connected,
}
use virtual_capture_stream.OutputPin.Torn.{delivered_with, fill_sample-with}
use virtual_capture_stream.Channel.{Channel, is_cut, noted, read_off}
use virtual_capture_stream.Channel.Messages.{Carries, fill_sample-reads}
use virtual_capture_stream.Channel.Fifo.{
  Fifo, FifoStep, shut, one_strand, none_stranded, Represents,
}
use virtual_capture_stream.Channel.SourceSteps.{fill_connected-kept}
use virtual_capture_stream.Channel.Closing.{end_of_stream-kept}

module _ (abi : Abi) (v : IsFaithful abi) where
  -- A call that reads twice and gets the header only.
  fill_connected-strand :
      (os : Os) (r : SampleReplies) (r1 r2 : ℕ) (s : MediaSampleX) (p : OutputPin)
      → Accepts r
      → Serves os p.h_pipe (abi.info_bytes (header r1 r2 s) ∷ []) p.calls
      → read_off p (fill_connected os abi r p).pin ≡ 2
      → (bytes : List ℕ) × ((fill_connected os abi r p).sample
          ≡ delivered_with p.mt (start_of p s) s bytes)
  unfolding header
  fill_connected-strand os r r1 r2 s p acc serves twice =
      let x = header r1 r2 s in
      let q = log (OsCall.read_file p.h_pipe abi.info_size) p in
      let first = (serves abi.info_size (omega (arith, v.info_length x))).0 in
      let made = fill_connected-header os abi r x p v first in
      let two : read_off p (fill_sample os r x q).pin ≡ 2 = rw (sym made) twice in
      let pos : is_pos32 s.actual_data_length ≡ true =
        ground (arith, two, fill_sample-reads os r x q acc) in
      (_, ap (λ (f : Filled). f.sample) made ∙ fill_sample-with os r r1 r2 s _ q acc pos refl)

  -- The message at the front of a pipe that carries samples is a header.
  carried_front :
      (l : List MediaSampleX) (m : List ℕ) (ms : List (List ℕ))
      → Carries abi l (m ∷ ms)
      → (s : MediaSampleX) × (rest : List MediaSampleX) × (r1 : ℕ) × (r2 : ℕ) × (l ≡ s ∷ rest)
        × (m ≡ abi.info_bytes (header r1 r2 s))
  carried_front [] m ms e = absurd (cc e)
  carried_front (s ∷ l) m ms (r1, r2, rest, e, h) = (s, l, r1, r2, refl, cc e)

  pub stranding-Represents :
      (mt : AmMediaType) (sink_os os : Os) (fuel : ℕ) (r : SampleReplies) (m : List ℕ)
      (rest : List (List ℕ)) (f : Filled) (c : Channel) (a : Fifo)
      → c.source.running ≡ true
      → c.source.connected ≡ true
      → is_cut c ≡ false
      → Accepts r
      → c.in_pipe ≡ m ∷ rest
      → Serves os c.source.h_pipe (m ∷ []) c.source.calls
      → fill_buffer os abi fuel r c.source ≡ some f
      → read_off c.source f.pin ≡ 2
      → Represents abi mt c a
      → (b : Fifo) × FifoStep a b
        × Represents abi mt
            (record c {
              sink = (end_of_stream sink_os c.sink).1;
              in_pipe = [];
              source = f.pin;
              broken = true;
              stranded = noted c.stranded f.sample;
            })
            b
  stranding-Represents mt sink_os os fuel r m rest f c a run con whole acc pipe serves e twice h =
      let p = (end_of_stream sink_os c.sink).1 in
      let (buffer, _) = end_of_stream-kept sink_os c.sink in
      let same : fill_connected os abi r c.source ≡ f =
        cc (e, fill_buffer-connected os abi fuel r c.source run con) in
      let (s, l, r1, r2, front, head) =
        carried_front h.carried m rest (subst (Carries abi h.carried) pipe h.on_wire) in
      let (bytes, made) =
        fill_connected-strand os r r1 r2 s c.source acc
          (subst (λ x. Serves os c.source.h_pipe (x ∷ []) c.source.calls) head serves)
          (subst (λ (g : Filled). read_off c.source g.pin ≡ 2) (sym same) twice) in
      let sample : f.sample ≡ delivered_with mt (start_of c.source s) s bytes =
        cc (same, made, (h.follows whole).same_type) in
      let joined : f.pin.connected ≡ true =
        cc (same, (fill_connected-kept os abi r c.source).0, con) in
      let broken : is_cut (record c { sink = p; in_pipe = []; source = f.pin; broken = true })
          ≡ true =
        ground (arith, joined) in
      (
        record a { queue = p.write_buffer; late = a.late ++ h.carried; is_shut = true },
        shut h.carried p.write_buffer (cc (h.in_order, buffer)) refl,
        record {
          carried = [];
          in_order = refl;
          on_wire = refl;
          all_in = cc (h.all_in, h.in_order, buffer, h.uncut whole);
          all_out = h.all_out;
          past_out = h.past_out;
          follows = λ z. absurd (cc (broken, z));
          unseen = λ z z'. absurd (cc (broken, z'));
          uncut = λ z. absurd (cc (broken, z));
          cut = λ z. refl;
          same_shut = sym broken;
          strands = one_strand (start_of c.source s) s l bytes broken (cc (h.uncut whole, front)) (
              ap (λ l. noted l f.sample) (none_stranded abi mt c a whole h) ∙ ap (noted []) sample);
        },
      )
