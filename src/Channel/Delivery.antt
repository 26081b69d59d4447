-- ===== src/Channel/Delivery.antt =====
-- What the refinement means for the samples that came in.
use virtual_capture_stream.Prelude.{
  ◌⊎◌, inl, inr, ◌≡◌, refl, sym, ap, ◌∙◌, List, [], ◌++◌, true, false, flatten, map, Bool-cases,
  arith,
}
use virtual_capture_stream.MediaType.{AmMediaType}
use virtual_capture_stream.Sample.{MediaSampleX}
use virtual_capture_stream.Wire.{Abi, IsFaithful}
use virtual_capture_stream.Channel.{Channel, is_cut, is_joined, Reach, here, next}
use virtual_capture_stream.Channel.Messages.{Carries}
use virtual_capture_stream.Channel.Fifo.{Fifo, run_delivered, Strands, unstranded, Represents}
use virtual_capture_stream.Channel.Names.{Step-undisturbed}
use virtual_capture_stream.Channel.Refinement.{Step-Represents}

-- The system at its start: nothing received, nothing in the pipe, and the source's pin has neither
-- connected nor delivered anything.
pub record IsFresh (c : Channel) : Type 0 where
  pub nothing_received : c.received ≡ []
  pub nothing_filled : c.filled ≡ []
  pub no_past : c.past ≡ []
  pub nothing_waits : c.sink.write_buffer ≡ []
  pub pipe_empty : c.in_pipe ≡ []
  pub nothing_lost : c.lost ≡ []
  pub not_connected : c.source.connected ≡ false
  pub none_stranded : c.stranded ≡ []
  pub undisturbed : c.disturbed ≡ false
  pub first_to_come : c.source.first_sample_delivered ≡ false

abbrev pub no_samples : Fifo
no_samples = record { queue = []; past = []; gone = []; late = []; is_shut = false }

pub IsFresh-Represents :
    (abi : Abi) (c : Channel) → IsFresh c → Represents abi c.source.mt c no_samples
IsFresh-Represents abi c h =
    let whole : is_cut c ≡ false = ground (arith, h.not_connected) in
    record {
      carried = [];
      in_order = sym h.nothing_waits;
      on_wire = h.pipe_empty;
      all_in = h.nothing_received ∙ sym (ap (λ l. l ++ []) h.nothing_lost);
      all_out = h.nothing_filled;
      past_out = h.no_past;
      follows = λ z. record {
        same_type = refl;
        begun = h.first_to_come;
        started = rw h.first_to_come refl;
      };
      unseen = λ z z'. ((refl, refl), refl);
      uncut = λ z. refl;
      cut = λ z. refl;
      same_shut = sym whole;
      strands = unstranded h.none_stranded;
    }

pub Reach-Represents :
    (abi : Abi) (mt : AmMediaType) {c d : Channel} (a : Fifo)
    → IsFaithful abi
    → Represents abi mt c a
    → Reach abi c d
    → d.disturbed ≡ false
    → (b : Fifo) × Represents abi mt d b
Reach-Represents abi mt a v h here z = (a, h)
Reach-Represents abi mt a v h (next {d} {e} r step) z =
    let (b, later) = Reach-Represents abi mt a v h r (Step-undisturbed abi d e step z) in
    let (b', _, after) = Step-Represents abi mt d e b v step z later in (b', after)

-- What came in and what came out: the samples that were delivered in earlier runs and in this one, those
-- that a closed pipe lost, the first of which may have been set up without its data, and those that the
-- pipe carries.
pub record InOrder (abi : Abi) (mt : AmMediaType) (d : Channel) : Type 0 where
  pub past : List (List MediaSampleX)
  pub gone : List MediaSampleX
  pub late : List MediaSampleX
  pub carried : List MediaSampleX
  pub all_in :
      d.received ≡ d.lost ++ (flatten past ++ (gone ++ (late ++ (carried ++ d.sink.write_buffer))))
  pub on_wire : Carries abi carried d.in_pipe
  pub past_out : d.past ≡ map (run_delivered mt) past
  pub all_out : d.filled ≡ run_delivered mt gone
  pub by_pipe : ((is_cut d ≡ false) × (late ≡ [])) ⊎ ((is_cut d ≡ true) × (carried ≡ []))
  pub by_strand : Strands mt d.stranded late (is_cut d)
  pub by_client :
      (is_joined d ≡ true)
      ⊎ (is_cut d ≡ true)
      ⊎ ((flatten past ≡ []) × (gone ≡ []) × (carried ≡ []))

-- In every state that the system reaches from its start, as long as no call but one that closes the pipe
-- has fallen into the middle of a round of the write thread or of a call of `FillBuffer`, and however its
-- threads, the calls of both graphs, the connection and its end interleave: the samples received are
-- those that the write thread dropped before both pins took themselves for connected, then those that
-- were delivered in earlier runs, then those that were delivered in this run, then those that a closed pipe
-- lost, then those that the pipe carries, then those in the write buffer, in order; and each of the second
-- and third was delivered once, with its data, sync point and media times, the media type of the source's
-- pin, and its times relative to the first sample delivered in its run. Beyond these, `FillBuffer` has set
-- up one sample at most, the first that a closed pipe lost, with the lengths, media times and sync point
-- of its header and without its data. Samples are lost in a closed pipe only when one of both sides has
-- closed it, and the pipe carries none then; and nothing is delivered or carried while the pipe is open
-- and not both pins take themselves for connected. The samples that are filled accept every setting.
pub Reach-InOrder :
    (abi : Abi) (c d : Channel)
    → IsFaithful abi
    → IsFresh c
    → Reach abi c d
    → d.disturbed ≡ false
    → InOrder abi c.source.mt d
Reach-InOrder abi c d v fresh r z =
    let (b, h) =
      Reach-Represents abi c.source.mt no_samples v (IsFresh-Represents abi c fresh) r z in
    record {
      past = b.past;
      gone = b.gone;
      late = b.late;
      carried = h.carried;
      all_in =
          h.all_in ∙ ap (λ q. d.lost ++ (flatten b.past ++ (b.gone ++ (b.late ++ q)))) h.in_order;
      on_wire = h.on_wire;
      past_out = h.past_out;
      all_out = h.all_out;
      by_pipe = elim (Bool-cases (is_cut d)) [
        | inl broken ↦ inr (broken, h.cut broken)
        | inr whole ↦ inl (whole, h.uncut whole)
      ];
      by_strand = h.strands;
      by_client = elim (Bool-cases (is_cut d)) [
        | inl broken ↦ inr (inl broken)
        | inr whole ↦ elim (Bool-cases (is_joined d)) [
          | inl on ↦ inl on
          | inr off ↦
              let ((none_past, none_gone), empty) = h.unseen off whole in
              inr (inr (none_past, none_gone, empty))
        ]
      ];
    }
