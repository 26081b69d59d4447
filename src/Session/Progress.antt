-- ===== src/Session/Progress.antt =====
-- How all channels of a session go on together until everything that came in is delivered.
use virtual_capture_stream.Prelude.{
  ℕ, ◌<◌, true, false, ◌≡◌, inl, inr, refl, List, [], ◌∷◌, ◌++◌, some, subst, length, flatten, map,
}
use virtual_capture_stream.Win.{Os, OsCall, s_ok}
use virtual_capture_stream.MediaType.{AmMediaType}
use virtual_capture_stream.Sample.{MediaSampleX}
use virtual_capture_stream.Wire.{Abi, IsFaithful}
use virtual_capture_stream.Crt.{Crt}
use virtual_capture_stream.PipeClient.{pipehost, client_pipe_name, open_pipe, opened}
use virtual_capture_stream.Sink.{SinkPin, NewPin, Sink, new_sink}
use virtual_capture_stream.Sink.Publish.{connected_pins}
use virtual_capture_stream.Sink.Handles.{SinkOp, sink_run}
use virtual_capture_stream.OutputPin.{OutputPin}
use virtual_capture_stream.OutputPin.Fill.{Serves}
use virtual_capture_stream.Source.{Source, RawPin, create_output_pins}
use virtual_capture_stream.Source.Rebuild.{AllFit}
use virtual_capture_stream.Channel.{Channel, is_cut, is_joined, Reach, here, next}
use virtual_capture_stream.Channel.Fifo.{run_delivered}
use virtual_capture_stream.Channel.Flush.{Reach-delivers_all}
use virtual_capture_stream.Session.{AllPartners, description, create_output_pins-AllPartners}
use virtual_capture_stream.Session.Streams.{
  channel, channels, Runs, begun, later, AllIdle, AllReach, AllReach-Runs, channel-IsFresh,
}

module _ {abi : Abi} where
  Runs-trans : {cs ds es : List Channel} → Runs abi cs ds → Runs abi ds es → Runs abi cs es
  Runs-trans r begun = r
  Runs-trans r (later q m) = later (Runs-trans r q) m

  Runs-head : {c d : Channel} (cs : List Channel) → Reach abi c d → Runs abi (c ∷ cs) (d ∷ cs)
  Runs-head cs here = begun
  Runs-head cs (next r step) = later (Runs-head cs r) (inl (step, refl))

  Runs-tail : (c : Channel) {cs ds : List Channel} → Runs abi cs ds → Runs abi (c ∷ cs) (c ∷ ds)
  Runs-tail c begun = begun
  Runs-tail c (later r m) = later (Runs-tail c r) (inr (refl, m))

  -- What each channel reaches alone, all reach together.
  Runs-AllReach : (cs ds : List Channel) → AllReach abi cs ds → Runs abi cs ds
  Runs-AllReach [] [] h = begun
  Runs-AllReach [] (d ∷ ds) h = absurd h
  Runs-AllReach (c ∷ cs) [] h = absurd h
  Runs-AllReach (c ∷ cs) (d ∷ ds) h =
      Runs-trans (Runs-head cs h.0) (Runs-tail d (Runs-AllReach cs ds h.1))

-- Both ends are open and take themselves for connected, both threads run, and no call has fallen into the
-- middle of another.
pub record IsLive (d : Channel) : Type 0 where
  pub is_writing : d.sink.write_buffering ≡ true
  pub has_client : is_joined d ≡ true
  pub is_running : d.source.running ≡ true
  pub is_whole : is_cut d ≡ false
  pub undisturbed : d.disturbed ≡ false

abbrev pub AllLive : List Channel → Type 0
AllLive [] = Unit
AllLive (d ∷ ds) = IsLive d × AllLive ds

-- Whatever `d` had received and not lost has come out in `e`, run by run, with no sample received or
-- lost since.
pub record IsServed (mt : AmMediaType) (d e : Channel) : Type 0 where
  pub past_samples : List (List MediaSampleX)
  pub samples : List MediaSampleX
  pub still_undisturbed : e.disturbed ≡ false
  pub received_kept : e.received ≡ d.received
  pub lost_kept : e.lost ≡ d.lost
  pub all_out : d.received ≡ d.lost ++ (flatten past_samples ++ samples)
  pub past_delivered : e.past ≡ map (run_delivered mt) past_samples
  pub delivered : e.filled ≡ run_delivered mt samples

abbrev pub AllServed : List SinkPin → List Channel → List Channel → Type 0
AllServed [] [] [] = Unit
AllServed (x ∷ xs) (d ∷ ds) (e ∷ es) = IsServed x.pin.mt d e × AllServed xs ds es
AllServed _ _ _ = ⊥

module _ (os : Os) (abi : Abi) (v : IsFaithful abi) where
  channels-AllServed :
      (xs : List SinkPin) (qs : List OutputPin) (ds : List Channel)
      → AllPartners xs qs
      → AllIdle xs
      → AllReach abi (channels xs qs) ds
      → AllLive ds
      → (es : List Channel) × AllReach abi ds es × AllServed xs ds es
  channels-AllServed [] [] [] p i r l = ([], tt, tt)
  channels-AllServed [] [] (d ∷ ds) p i r l = absurd r
  channels-AllServed [] (q ∷ qs) ds p i r l = absurd p
  channels-AllServed (x ∷ xs) [] ds p i r l = absurd p
  channels-AllServed (x ∷ xs) (q ∷ qs) [] p i r l = absurd r
  channels-AllServed (x ∷ xs) (q ∷ qs) (d ∷ ds) p i r l =
      let (e, past, gone, more, received, lost, past_same, still, all, past_out, out) =
        Reach-delivers_all os abi (channel x q) d v (channel-IsFresh x q i.0 p.0) r.0 l.0.is_writing
          l.0.has_client l.0.is_running l.0.is_whole l.0.undisturbed in
      let (es, rest, served) = channels-AllServed xs qs ds p.1 i.1 r.1 l.1 in
      let here_served : IsServed q.mt d e = record {
        past_samples = past;
        samples = gone;
        still_undisturbed = still;
        received_kept = received;
        lost_kept = lost;
        all_out = all;
        past_delivered = past_out;
        delivered = out;
      } in
      (e ∷ es, (more, rest), (subst (λ mt. IsServed mt d e) p.0.same_type here_served, served))

-- Let a source read the answer of the thread of a sink with any past, when the filter's pipe opens,
-- takes the message mode and delivers the answer, every description fits, the fuel exceeds the number
-- of pins, and no connected pin holds a sample. Then, from every state that all pins of both filters
-- reach together in which each channel is open, both of its pins take themselves for connected, the
-- write threads run, no source pin is stopped, and no call has fallen into the middle of a round of a
-- write thread or of `FillBuffer` (but for the closing of the pipe), they can go on together to a state
-- in which each pin of the source has delivered whatever the pin of the sink in its place had received
-- and not lost, in order, with the media type of the sink's pin and times relative to the first sample
-- of its run.
pub create_output_pins-AllServed :
    (sink_os source_os : Os) (crt : Crt) (abi : Abi) (n : NewPin) (raw_pipename : List ℕ)
    (ops : List SinkOp) (s : Sink) (raw : RawPin) (h fuel : ℕ) (name : List ℕ) (c t : Source)
    (cs : List OsCall) (ds : List Channel)
    → IsFaithful abi
    → s ≡ sink_run sink_os crt abi ops (new_sink crt n raw_pipename).1
    → AllFit crt abi (connected_pins s.pin_list)
    → length (connected_pins s.pin_list) < fuel
    → open_pipe source_os (client_pipe_name pipehost name) 20000 fuel c.calls ≡ some (opened h, cs)
    → source_os.set_state_reply cs ≡ true
    → Serves source_os h (description crt abi s) (OsCall.set_named_pipe_handle_state h ∷ cs)
    → create_output_pins source_os crt abi raw fuel name c ≡ some (s_ok, t)
    → AllIdle (connected_pins s.pin_list)
    → Runs abi (channels (connected_pins s.pin_list) t.pin_list) ds
    → AllLive ds
    → (es : List Channel) × Runs abi ds es × AllServed (connected_pins s.pin_list) ds es
create_output_pins-AllServed sink_os os crt abi n raw_pipename ops s raw h fuel name c t cs ds v
      made fit lt open_ok mode serves done idle r live =
    let (u, created, partners) =
      create_output_pins-AllPartners sink_os os crt abi n raw_pipename ops s raw h fuel name c cs v
        made fit lt open_ok mode serves in
    let same : u ≡ t = cc (done, created) in
    let (es, more, served) =
      channels-AllServed os abi v (connected_pins s.pin_list) t.pin_list ds
        (subst (λ (w : Source). AllPartners (connected_pins s.pin_list) w.pin_list) same partners)
        idle (AllReach-Runs r) live in
    (es, Runs-AllReach ds es more, served)
