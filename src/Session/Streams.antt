-- ===== src/Session/Streams.antt =====
-- The pins of a sink filter and of a source filter that has read its description, each pair of them with
-- its pipe: all channels of a session at once.
use virtual_capture_stream.Prelude.{
  ℕ, ◌<◌, true, false, ◌≡◌, ◌⊎◌, inl, inr, refl, sym, List, [], ◌∷◌, some, subst, length,
}
use virtual_capture_stream.Win.{Os, OsCall, s_ok}
use virtual_capture_stream.Wire.{Abi, IsFaithful}
use virtual_capture_stream.Crt.{Crt}
use virtual_capture_stream.PipeClient.{pipehost, client_pipe_name, open_pipe, opened}
use virtual_capture_stream.Sink.{SinkPin, NewPin, Sink, new_sink}
use virtual_capture_stream.Sink.Publish.{connected_pins}
use virtual_capture_stream.Sink.Handles.{SinkOp, sink_run}
use virtual_capture_stream.OutputPin.{OutputPin}
use virtual_capture_stream.OutputPin.Fill.{Serves}
use virtual_capture_stream.Source.{Source, RawPin, create_output_pins}
use virtual_capture_stream.Source.Rebuild.{AllFit}
use virtual_capture_stream.Channel.{Channel, Step, Reach, here, next}
use virtual_capture_stream.Channel.Delivery.{IsFresh, InOrder, Reach-InOrder}
use virtual_capture_stream.Channel.Names.{Reach-names}
use virtual_capture_stream.Session.{
  ArePartners, AllPartners, description, create_output_pins-AllPartners,
}

-- An input pin and an output pin, with nothing in the pipe and nothing received or delivered.
abbrev pub channel : SinkPin → OutputPin → Channel
channel x q = record {
  sink = x.pin;
  in_pipe = [];
  source = q;
  received = [];
  past = [];
  filled = [];
  lost = [];
  broken = false;
  stranded = [];
  disturbed = false;
}

abbrev pub channels : List SinkPin → List OutputPin → List Channel
channels (x ∷ xs) (q ∷ qs) = channel x q ∷ channels xs qs
channels _ _ = []

-- A step of one of the channels.
abbrev pub Moves : Abi → List Channel → List Channel → Type 0
Moves abi (c ∷ cs) (d ∷ ds) = (Step abi c d × (ds ≡ cs)) ⊎ ((d ≡ c) × Moves abi cs ds)
Moves abi _ _ = ⊥

pub data Runs (abi : Abi) (cs : List Channel) : List Channel → Type 0 where
  begun : Runs abi cs cs
  later : {ds es : List Channel} → Runs abi cs ds → Moves abi ds es → Runs abi cs es

-- No sample waits in a pin.
abbrev pub AllIdle : List SinkPin → Type 0
AllIdle [] = Unit
AllIdle (x ∷ xs) = (x.pin.write_buffer ≡ []) × AllIdle xs

-- What each pin of the sink received comes out of its partner in order, with the pin's media type, and
-- the partner looks for the pin's pipe.
abbrev pub AllInOrder : Abi → List SinkPin → List Channel → Type 0
AllInOrder abi [] [] = Unit
AllInOrder abi (x ∷ xs) (d ∷ ds) =
    (d.disturbed ≡ false → InOrder abi x.pin.mt d)
    × (client_pipe_name pipehost d.source.name ≡ d.sink.pipename)
    × AllInOrder abi xs ds
AllInOrder abi _ _ = ⊥

abbrev pub AllReach : Abi → List Channel → List Channel → Type 0
AllReach abi [] [] = Unit
AllReach abi (c ∷ cs) (d ∷ ds) = Reach abi c d × AllReach abi cs ds
AllReach abi _ _ = ⊥

AllReach-refl : (abi : Abi) (cs : List Channel) → AllReach abi cs cs
AllReach-refl abi [] = tt
AllReach-refl abi (c ∷ cs) = (here, AllReach-refl abi cs)

AllReach-Moves :
    (abi : Abi) (cs ds es : List Channel)
    → AllReach abi cs ds
    → Moves abi ds es
    → AllReach abi cs es
AllReach-Moves abi [] [] es h m = absurd m
AllReach-Moves abi [] (d ∷ ds) es h m = absurd h
AllReach-Moves abi (c ∷ cs) [] es h m = absurd h
AllReach-Moves abi (c ∷ cs) (d ∷ ds) [] h m = absurd m
AllReach-Moves abi (c ∷ cs) (d ∷ ds) (e ∷ es) h (inl (step, same)) =
    (next h.0 step, subst (AllReach abi cs) (sym same) h.1)
AllReach-Moves abi (c ∷ cs) (d ∷ ds) (e ∷ es) h (inr (same, m)) =
    (subst (Reach abi c) (sym same) h.0, AllReach-Moves abi cs ds es h.1 m)

pub AllReach-Runs : {abi : Abi} {cs ds : List Channel} → Runs abi cs ds → AllReach abi cs ds
AllReach-Runs {abi} {cs} begun = AllReach-refl abi cs
AllReach-Runs {abi} {cs} (later {ds} {es} r m) = AllReach-Moves abi cs ds es (AllReach-Runs r) m

pub channel-IsFresh :
    (x : SinkPin) (q : OutputPin)
    → x.pin.write_buffer ≡ []
    → ArePartners x q
    → IsFresh (channel x q)
channel-IsFresh x q empty h = record {
  nothing_received = refl;
  nothing_filled = refl;
  no_past = refl;
  nothing_waits = empty;
  pipe_empty = refl;
  nothing_lost = refl;
  not_connected = h.not_connected;
  none_stranded = refl;
  undisturbed = refl;
  first_to_come = h.none_delivered;
}

channels-AllInOrder :
    (abi : Abi) (xs : List SinkPin) (qs : List OutputPin) (ds : List Channel)
    → IsFaithful abi
    → AllPartners xs qs
    → AllIdle xs
    → AllReach abi (channels xs qs) ds
    → AllInOrder abi xs ds
channels-AllInOrder abi [] [] [] v p i r = tt
channels-AllInOrder abi [] [] (d ∷ ds) v p i r = absurd r
channels-AllInOrder abi [] (q ∷ qs) ds v p i r = absurd p
channels-AllInOrder abi (x ∷ xs) [] ds v p i r = absurd p
channels-AllInOrder abi (x ∷ xs) (q ∷ qs) [] v p i r = absurd r
channels-AllInOrder abi (x ∷ xs) (q ∷ qs) (d ∷ ds) v p i r =
    let (pipe_kept, name_kept) = Reach-names abi (channel x q) d r.0 in
    (
      λ z.
          subst (λ mt. InOrder abi mt d) p.0.same_type
            (Reach-InOrder abi (channel x q) d v (channel-IsFresh x q i.0 p.0) r.0 z),
      cc (name_kept, pipe_kept, p.0.same_pipe),
      channels-AllInOrder abi xs qs ds v p.1 i.1 r.1,
    )

-- From end to end. Whatever was called on a new sink and its pins, as long as no connected pin holds a
-- sample; let a source read the answer of the sink's thread, when the filter's pipe opens, takes the
-- message mode and delivers the answer, every description fits, and the fuel exceeds the number of
-- pins. Then, for each connected pin of the sink, the source's pin of the same place looks for the pipe
-- that the sink's pin serves; and as long as no call but one that closes its pipe has fallen into the
-- middle of a round of its write thread or of a call of its `FillBuffer`, and however the threads and
-- calls of all pins interleave otherwise: what the sink's pin received comes out of the source's pin
-- once, in order and with the media type of the sink's pin, but for the samples dropped before both
-- took themselves for connected, those that a closed pipe lost, the first of which may have been set up
-- without its data, and those still on their way. The samples that are filled accept every setting.
pub create_output_pins-AllInOrder :
    (sink_os source_os : Os) (crt : Crt) (abi : Abi) (n : NewPin) (raw_pipename : List ℕ)
    (ops : List SinkOp) (s : Sink) (raw : RawPin) (h fuel : ℕ) (name : List ℕ) (c t : Source)
    (cs : List OsCall) (ds : List Channel)
    → IsFaithful abi
    → s ≡ sink_run sink_os crt abi ops (new_sink crt n raw_pipename).1
    → AllFit crt abi (connected_pins s.pin_list)
    → length (connected_pins s.pin_list) < fuel
    → open_pipe source_os (client_pipe_name pipehost name) 20000 fuel c.calls ≡ some (opened h, cs)
    → source_os.set_state_reply cs ≡ true
    → Serves source_os h (description crt abi s) (OsCall.set_named_pipe_handle_state h ∷ cs)
    → create_output_pins source_os crt abi raw fuel name c ≡ some (s_ok, t)
    → AllIdle (connected_pins s.pin_list)
    → Runs abi (channels (connected_pins s.pin_list) t.pin_list) ds
    → AllInOrder abi (connected_pins s.pin_list) ds
create_output_pins-AllInOrder sink_os os crt abi n raw_pipename ops s raw h fuel name c t cs ds v
      made fit lt open_ok mode serves done idle r =
    let (u, created, partners) =
      create_output_pins-AllPartners sink_os os crt abi n raw_pipename ops s raw h fuel name c cs v
        made fit lt open_ok mode serves in
    let same : u ≡ t = cc (done, created) in
    channels-AllInOrder abi (connected_pins s.pin_list) t.pin_list ds v
      (subst (λ (w : Source). AllPartners (connected_pins s.pin_list) w.pin_list) same partners)
      idle (AllReach-Runs r)
