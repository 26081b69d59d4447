-- ===== src/Channel/SourceCalls.antt =====
-- What the calls that start and stop the source's pin, and reads that fail, do to the queue of samples
-- that the system stands for.
use virtual_capture_stream.Prelude.{
  Bool, ◌≡◌, refl, sym, ap, ◌∙◌, List, [], ◌∷◌, ◌++◌, append_assoc, append-nil, map, flatten,
  flatten-snoc, subst, arith, false, ◌&&◌,
}
use virtual_capture_stream.Win.{Os, OsCall, s_ok}
use virtual_capture_stream.MediaType.{AmMediaType}
use virtual_capture_stream.Sample.{MediaSampleX}
use virtual_capture_stream.Wire.{Abi}
use virtual_capture_stream.OutputPin.{OutputPin, SampleReplies, fill_connected, log}
use virtual_capture_stream.Channel.{Channel, is_cut, renewed}
use virtual_capture_stream.Channel.Fifo.{Fifo, Strands, Follows, run_delivered, Represents}

-- A call whose read fails.
pub fill_connected-starved :
    (os : Os) (abi : Abi) (r : SampleReplies) (p : OutputPin)
    → (os.read_reply (OsCall.read_file p.h_pipe abi.info_size ∷ p.calls)).success ≡ false
    → fill_connected os abi r p
      ≡ record { hr = s_ok; pin = log (OsCall.read_file p.h_pipe abi.info_size) p; sample = [] }
unfolding fill_connected
fill_connected-starved os abi r p e = ground arith

-- The pin of the source behind a call that leaves alone what the system stands for.
pub record IsSteady (p q : OutputPin) : Type 0 where
  pub same_connected : q.connected ≡ p.connected
  pub same_type : q.mt ≡ p.mt
  pub same_begun : q.first_sample_delivered ≡ p.first_sample_delivered
  pub same_start : q.rt_start ≡ p.rt_start

-- Only the flag of the thread and the history differ.
pub still-IsSteady :
    (p : OutputPin) (runs : Bool) (cs : List OsCall)
    → IsSteady p (record p { running = runs; calls = cs })
still-IsSteady p runs cs = record {
  same_connected = refl;
  same_type = refl;
  same_begun = refl;
  same_start = refl;
}

pub IsSteady-Follows :
    (mt : AmMediaType) (p q : OutputPin) (gone : List MediaSampleX)
    → IsSteady p q
    → Follows mt p gone
    → Follows mt q gone
IsSteady-Follows mt p q gone same f = record {
  same_type = same.same_type ∙ f.same_type;
  begun = same.same_begun ∙ f.begun;
  started = rw (same.same_begun, same.same_start) f.started;
}

module _ (abi : Abi) (mt : AmMediaType) where
  pub steady-Represents :
      (q : OutputPin) (c : Channel) (a : Fifo)
      → IsSteady c.source q
      → q.h_pipe ≡ c.source.h_pipe
      → Represents abi mt c a
      → Represents abi mt (record c { source = q }) a
  steady-Represents q c a same pipe h =
      let cuts : is_cut (record c { source = q }) ≡ is_cut c = cc (same.same_connected, pipe) in
      record {
        carried = h.carried;
        in_order = h.in_order;
        on_wire = h.on_wire;
        all_in = h.all_in;
        all_out = h.all_out;
        past_out = h.past_out;
        follows =
            λ whole. IsSteady-Follows mt c.source q a.gone same (h.follows (sym cuts ∙ whole));
        unseen = λ off whole.
            h.unseen (ap (λ b. c.sink.connected && b) (sym same.same_connected) ∙ off)
              (sym cuts ∙ whole);
        uncut = λ whole. h.uncut (sym cuts ∙ whole);
        cut = λ broken. h.cut (sym cuts ∙ broken);
        same_shut = h.same_shut ∙ sym cuts;
        strands = subst (λ k. Strands mt c.stranded a.late k) (sym cuts) h.strands;
      }

  map-snoc :
      (l : List (List MediaSampleX)) (run : List MediaSampleX)
      → map (run_delivered mt) (l ++ run ∷ [])
        ≡ map (run_delivered mt) l ++ run_delivered mt run ∷ []
  map-snoc [] run = refl
  map-snoc (x ∷ l) run = ap (λ r. run_delivered mt x ∷ r) (map-snoc l run)

  -- The pin forgets that it delivered a sample.
  pub renewing-Represents :
      (q : OutputPin) (c : Channel) (a : Fifo)
      → q.connected ≡ c.source.connected
      → q.h_pipe ≡ c.source.h_pipe
      → q.mt ≡ c.source.mt
      → q.first_sample_delivered ≡ false
      → Represents abi mt c a
      → Represents abi mt (renewed c q) (record a { past = a.past ++ a.gone ∷ []; gone = [] })
  renewing-Represents q c a con pipe same_mt off h =
      let cuts : is_cut (record c { source = q }) ≡ is_cut c = cc (con, pipe) in
      record {
        carried = h.carried;
        in_order = h.in_order;
        on_wire = h.on_wire;
        all_in = cc (
          h.all_in,
          flatten-snoc a.past a.gone,
          append_assoc (flatten a.past) a.gone (a.late ++ a.queue),
        );
        all_out = refl;
        past_out = cc (h.past_out, h.all_out, map-snoc a.past a.gone);
        follows = λ whole. record {
          same_type = same_mt ∙ (h.follows (sym cuts ∙ whole)).same_type;
          begun = off;
          started = rw off refl;
        };
        unseen = λ none_seen whole.
            let (out, empty) =
              h.unseen (ap (λ b. c.sink.connected && b) (sym con) ∙ none_seen) (sym cuts ∙ whole) in
            (
              (cc (flatten-snoc a.past a.gone, out.0, out.1, append-nil (flatten a.past)), refl),
              empty,
            );
        uncut = λ whole. h.uncut (sym cuts ∙ whole);
        cut = λ broken. h.cut (sym cuts ∙ broken);
        same_shut = h.same_shut ∙ sym cuts;
        strands = subst (λ k. Strands mt c.stranded a.late k) (sym cuts) h.strands;
      }
