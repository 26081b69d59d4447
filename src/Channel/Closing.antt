-- ===== src/Channel/Closing.antt =====
-- What the closing of the pipe, by either side, does to the queue of samples that the system stands for.
use virtual_capture_stream.Prelude.{
  ℕ, Bool, ◌≡◌, refl, sym, ◌∙◌, [], ◌++◌, append_assoc, arith, true, false, some, Bool-cases, inl,
  inr, ◌⊎◌,
}
use virtual_capture_stream.Win.{Os, s_false}
use virtual_capture_stream.MediaType.{AmMediaType}
use virtual_capture_stream.Wire.{Abi}
use virtual_capture_stream.InputPin.{InputPin, end_of_stream, stop_server}
use virtual_capture_stream.OutputPin.{OutputPin, SampleReplies, fill_buffer, disconnect_pipe}
use virtual_capture_stream.Channel.{Channel, is_cut}
use virtual_capture_stream.Channel.Fifo.{
  Fifo, FifoStep, idle, shut, unstranded, Strands-later, none_stranded, Represents,
}
use virtual_capture_stream.Channel.SourceCalls.{IsSteady, IsSteady-Follows}

-- A call that finds the pin stopped.
pub fill_buffer-stopped :
    (os : Os) (abi : Abi) (fuel : ℕ) (r : SampleReplies) (p : OutputPin)
    → p.running ≡ false
    → fill_buffer os abi fuel r p
      ≡ some (record { hr = s_false; pin = (disconnect_pipe p).1; sample = [] })
unfolding fill_buffer
fill_buffer-stopped os abi fuel r p e = ground arith

pub disconnect_pipe-IsSteady : (p : OutputPin) → IsSteady p (disconnect_pipe p).1
unfolding disconnect_pipe
disconnect_pipe-IsSteady p = record {
  same_connected = ground arith;
  same_type = ground arith;
  same_begun = ground arith;
  same_start = ground arith;
}

pub disconnect_pipe-closed : (p : OutputPin) → (disconnect_pipe p).1.h_pipe ≡ 0
unfolding disconnect_pipe
disconnect_pipe-closed p = ground arith

pub end_of_stream-kept :
    (os : Os) (p : InputPin)
    → ((end_of_stream os p).1.write_buffer ≡ p.write_buffer)
      × ((end_of_stream os p).1.connected ≡ p.connected)
unfolding end_of_stream stop_server
end_of_stream-kept os p = ground arith

module _ (abi : Abi) (mt : AmMediaType) where
  -- A side closes the pipe, which is shut then if the source took itself for connected.
  pub closing-Represents :
      (p : InputPin) (q : OutputPin) (gone : Bool) (c : Channel) (a : Fifo)
      → p.write_buffer ≡ c.sink.write_buffer
      → p.connected ≡ c.sink.connected
      → IsSteady c.source q
      → (q.h_pipe ≡ 0) ⊎ (gone ≡ true)
      → Represents abi mt c a
      → (b : Fifo) × FifoStep a b
        × Represents abi mt (record c { sink = p; source = q; in_pipe = []; broken = gone }) b
  closing-Represents p q gone c a buffer seen same closed h = elim (Bool-cases c.source.connected) [
    | inl con ↦
        let broken : is_cut (record c { source = q; broken = gone }) ≡ true =
          ground (arith, con, same.same_connected, closed) in
        (
          record a { queue = p.write_buffer; late = a.late ++ h.carried; is_shut = true },
          shut h.carried p.write_buffer (cc (h.in_order, buffer)) refl,
          record {
            carried = [];
            in_order = refl;
            on_wire = refl;
            all_in =
                cc (h.all_in, h.in_order, buffer, append_assoc a.late h.carried p.write_buffer);
            all_out = h.all_out;
            past_out = h.past_out;
            follows = λ whole. absurd (cc (broken, whole));
            unseen = λ z whole. absurd (cc (broken, whole));
            uncut = λ whole. absurd (cc (broken, whole));
            cut = λ z. refl;
            same_shut = sym broken;
            strands = rw broken (Strands-later mt c.stranded a.late h.carried (is_cut c) h.strands);
          },
        )
    | inr off ↦
        let whole : is_cut c ≡ false = ground (arith, off) in
        let still : is_cut (record c { source = q; broken = gone }) ≡ false =
          ground (arith, off, same.same_connected) in
        let (out, empty) = h.unseen (ground (arith, off)) whole in
        (
          a,
          idle refl,
          record {
            carried = [];
            in_order = cc (h.in_order, empty, buffer);
            on_wire = refl;
            all_in = h.all_in;
            all_out = h.all_out;
            past_out = h.past_out;
            follows = λ z. IsSteady-Follows mt c.source q a.gone same (h.follows whole);
            unseen = λ z z'. (out, refl);
            uncut = λ z. h.uncut whole;
            cut = λ z. refl;
            same_shut = h.same_shut ∙ whole ∙ sym still;
            strands = unstranded (none_stranded abi mt c a whole h);
          },
        )
  ]
