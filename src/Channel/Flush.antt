-- ===== src/Channel/Flush.antt =====
-- How a state of the system goes on until every sample that came in is delivered.
use virtual_capture_stream.Prelude.{
  ◌≡◌, refl, sym, ap, ◌∙◌, List, [], ◌∷◌, ◌++◌, append-nil, true, false, ◌&&◌, subst, drop, flatten,
  map, arith,
}
use virtual_capture_stream.Win.{Os}
use virtual_capture_stream.MediaType.{AmMediaType}
use virtual_capture_stream.Sample.{MediaSampleX}
use virtual_capture_stream.Wire.{Abi, IsFaithful}
use virtual_capture_stream.InputPin.Write.{write_sample}
use virtual_capture_stream.InputPin.Transmit.{write_next-front, write_sample-rest}
use virtual_capture_stream.OutputPin.{fill_connected}
use virtual_capture_stream.OutputPin.Fill.{Serves, fill_buffer-connected}
use virtual_capture_stream.Channel.{
  Channel, is_cut, is_joined, noted, reads, read_off, writing, filling, Reach, here, next,
}
use virtual_capture_stream.InputPin.Transmit.{written}
use virtual_capture_stream.Channel.Messages.{Carries}
use virtual_capture_stream.Channel.Fifo.{Fifo, run_delivered, Represents}
use virtual_capture_stream.Channel.SinkSteps.{writing-Represents, write_sample-connected}
use virtual_capture_stream.Channel.SourceSteps.{filling-Represents, fill_connected-kept}
use virtual_capture_stream.Channel.Delivery.{
  IsFresh, IsFresh-Represents, Reach-Represents, no_samples,
}
use virtual_capture_stream.Channel.Serving.{
  serving, Serves-serving, carried-room, agreeable, agreeable-Accepts,
}

pub Reach-trans : {abi : Abi} {c d e : Channel} → Reach abi c d → Reach abi d e → Reach abi c e
Reach-trans r here = r
Reach-trans r (next q step) = next (Reach-trans r q) step

is_joined-source : (c : Channel) → is_joined c ≡ true → c.source.connected ≡ true
is_joined-source c e = ground arith

-- What a course of events does not touch.
record IsKept (c d : Channel) : Type 0 where
  received_kept : d.received ≡ c.received
  lost_kept : d.lost ≡ c.lost
  past_kept : d.past ≡ c.past
  marks_kept : d.disturbed ≡ c.disturbed

IsKept-trans : {c d e : Channel} → IsKept c d → IsKept d e → IsKept c e
IsKept-trans h k = record {
  received_kept = k.received_kept ∙ h.received_kept;
  lost_kept = k.lost_kept ∙ h.lost_kept;
  past_kept = k.past_kept ∙ h.past_kept;
  marks_kept = k.marks_kept ∙ h.marks_kept;
}

module _ (os : Os) (abi : Abi) (mt : AmMediaType) (v : IsFaithful abi) where
  -- The write thread empties its buffer into the pipe.
  write_all :
      (a : Fifo) (l : List MediaSampleX) (c : Channel)
      → c.sink.write_buffer ≡ l
      → c.sink.write_buffering ≡ true
      → is_joined c ≡ true
      → is_cut c ≡ false
      → Represents abi mt c a
      → (d : Channel) × Reach abi c d
        × Represents abi mt d a
        × (d.sink.write_buffer ≡ [])
        × (d.source ≡ c.source)
        × (is_cut d ≡ false)
        × IsKept c d
  write_all a [] c e w con whole h = (
    c,
    here,
    h,
    e,
    refl,
    whole,
    record { received_kept = refl; lost_kept = refl; past_kept = refl; marks_kept = refl },
  )
  write_all a (s ∷ rest) c e w con whole h =
      let p = record c.sink { write_buffer = rest } in
      let q = write_sample abi s p in
      let d : Channel = record c { sink = q; in_pipe = c.in_pipe ++ written c.sink q } in
      let kept = write_sample-rest abi s p in
      let still : is_cut d ≡ false = ground (arith, whole, kept.0) in
      let (e', more, h', emptied, source_kept, open_still, same) =
        write_all a rest d kept.1 (kept.2 ∙ w)
          (ap (λ b. b && c.source.connected) (write_sample-connected abi s p) ∙ con) still
          (writing-Represents abi mt c a s rest whole con e h) in
      (
        e',
        Reach-trans (next here (writing q whole con (write_next-front abi c.sink s rest w e))) more,
        h',
        emptied,
        source_kept,
        open_still,
        record {
          received_kept = same.received_kept;
          lost_kept = same.lost_kept;
          past_kept = same.past_kept;
          marks_kept = same.marks_kept;
        },
      )

  -- A call that takes the front of the queue out of the pipe.
  read_one :
      (c : Channel) (a : Fifo) (s : MediaSampleX) (l : List MediaSampleX)
      → c.source.connected ≡ true
      → c.source.running ≡ true
      → is_cut c ≡ false
      → (h : Represents abi mt c a) → h.carried ≡ s ∷ l
      → (d : Channel) × (x : MediaSampleX) × (rest : List MediaSampleX) × Reach abi c d
        × (a.queue ≡ x ∷ rest)
        × Represents abi mt d (record a { queue = rest; gone = a.gone ++ x ∷ [] })
        × (d.sink ≡ c.sink)
        × (d.source.connected ≡ true)
        × (d.source.running ≡ true)
        × (is_cut d ≡ false)
        × IsKept c d
  read_one c a s l con run whole h e =
      let p = c.source in
      let server = serving os p.h_pipe (reads p.h_pipe p.calls) c.in_pipe in
      let serves : Serves server p.h_pipe c.in_pipe p.calls =
        Serves-serving os p.h_pipe (reads p.h_pipe p.calls) c.in_pipe 0 c.in_pipe p.calls
          (omega arith) refl in
      let room =
        carried-room server abi v agreeable c s l agreeable-Accepts
          (subst (λ w. Carries abi w c.in_pipe) e h.on_wire) serves in
      let (x, rest, front_is, after) =
        filling-Represents abi mt server agreeable c a h.carried v agreeable-Accepts whole serves
          room h refl in
      let (con_kept, pipe_kept, run_kept) = fill_connected-kept server abi agreeable p in
      (
        record c {
          in_pipe = drop (read_off p (fill_connected server abi agreeable p).pin) c.in_pipe;
          source = (fill_connected server abi agreeable p).pin;
          filled = noted c.filled (fill_connected server abi agreeable p).sample;
        },
        x,
        rest,
        next here (
            filling server 0 agreeable (fill_connected server abi agreeable p) run con whole
              agreeable-Accepts serves (fill_buffer-connected server abi 0 agreeable p run con)
              room),
        front_is,
        after,
        refl,
        con_kept ∙ con,
        run_kept ∙ run,
        ground (arith, whole, con_kept, pipe_kept),
        record { received_kept = refl; lost_kept = refl; past_kept = refl; marks_kept = refl },
      )

  -- The stream thread empties the pipe.
  read_all :
      (q : List MediaSampleX) (c : Channel) (a : Fifo)
      → a.queue ≡ q
      → c.sink.write_buffer ≡ []
      → c.source.connected ≡ true
      → c.source.running ≡ true
      → is_cut c ≡ false
      → (h : Represents abi mt c a)
      → (d : Channel) × (b : Fifo) × Reach abi c d
        × Represents abi mt d b
        × (b.queue ≡ [])
        × (b.late ≡ [])
        × IsKept c d
  read_all [] c a e empty con run whole h = (
    c,
    a,
    here,
    h,
    e,
    h.uncut whole,
    record { received_kept = refl; lost_kept = refl; past_kept = refl; marks_kept = refl },
  )
  read_all (s ∷ q) c a e empty con run whole h =
      let waits : h.carried ≡ s ∷ q =
        sym (append-nil h.carried) ∙ ap (λ w. h.carried ++ w) (sym empty) ∙ sym h.in_order ∙ e in
      let (d, x, rest, step, front_is, after, same, still, runs_still, open_still, kept) =
        read_one c a s q con run whole h waits in
      let (d', b, more, last, none_left, none_late, all_kept) =
        read_all q d (record a { queue = rest; gone = a.gone ++ x ∷ [] }) (cc (front_is, e))
          (ap (λ p. p.write_buffer) same ∙ empty) still runs_still open_still after in
      (d', b, Reach-trans step more, last, none_left, none_late, IsKept-trans kept all_kept)

-- Nothing can get stuck: from every undisturbed state that the system reaches from its start, while both sides have
-- the pipe open and take themselves for connected, the write thread runs and the source is not stopped, it
-- can go on, with no further sample received or lost, to a state in which every sample but those lost
-- before has been delivered, in order, with times relative to the first sample of its run, whatever the
-- system answers but for the pipe.
pub Reach-delivers_all :
    (os : Os) (abi : Abi) (c d : Channel)
    → IsFaithful abi
    → IsFresh c
    → Reach abi c d
    → d.sink.write_buffering ≡ true
    → is_joined d ≡ true
    → d.source.running ≡ true
    → is_cut d ≡ false
    → d.disturbed ≡ false
    → (e : Channel) × (past : List (List MediaSampleX)) × (gone : List MediaSampleX) × Reach abi d e
      × (e.received ≡ d.received)
      × (e.lost ≡ d.lost)
      × (e.past ≡ d.past)
      × (e.disturbed ≡ false)
      × (d.received ≡ d.lost ++ (flatten past ++ gone))
      × (e.past ≡ map (run_delivered c.source.mt) past)
      × (e.filled ≡ run_delivered c.source.mt gone)
Reach-delivers_all os abi c d v fresh r writes joined run whole z =
    let mt = c.source.mt in
    let (a, h) = Reach-Represents abi mt no_samples v (IsFresh-Represents abi c fresh) r z in
    let (e, more, h', emptied, source_kept, still, same) =
      write_all os abi mt v a d.sink.write_buffer d refl writes joined whole h in
    let (f, b, rest, last, none_left, none_late, kept) =
      read_all os abi mt v a.queue e a refl emptied
        (ap (λ p. p.connected) source_kept ∙ is_joined-source d joined)
        (ap (λ p. p.running) source_kept ∙ run) still h' in
    let all = IsKept-trans same kept in
    let all_gone : d.received ≡ d.lost ++ (flatten b.past ++ b.gone) =
      cc (last.all_in, none_left, none_late, append-nil b.gone, all.received_kept, all.lost_kept) in
    (
      f,
      b.past,
      b.gone,
      Reach-trans more rest,
      all.received_kept,
      all.lost_kept,
      all.past_kept,
      all.marks_kept ∙ z,
      all_gone,
      last.past_out,
      last.all_out,
    )
