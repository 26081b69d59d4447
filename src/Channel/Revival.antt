-- ===== src/Channel/Revival.antt =====
-- What brings a channel that nobody has cut to work: a sample that starts the write thread, an allocator
-- that makes the pipe, a start of the source's thread, which connects, and the sink that sees it.
use virtual_capture_stream.Prelude.{
  ℕ, ◌≡◌, ◌≢◌, refl, sym, ap, subst, ◌∙◌, List, [], ◌∷◌, ◌++◌, some, true, false, flatten, map, inl,
  inr, Bool-cases, ◌==◌, if◌then◌else◌, arith,
}
use virtual_capture_stream.Win.{Os, OsCall, s_ok}
use virtual_capture_stream.MediaType.{AllocatorProperties}
use virtual_capture_stream.Sample.{MediaSampleX, Memory, IMediaSample, new_sample}
use virtual_capture_stream.Wire.{Abi, IsFaithful}
use virtual_capture_stream.PipeClient.{pipehost, client_pipe_name, open_pipe}
use virtual_capture_stream.InputPin.{InputPin, receive}
use virtual_capture_stream.InputPin.Allocator.{notify_allocator, create_pipe, no_allocator}
use virtual_capture_stream.OutputPin.{
  OutputPin, connect_to_sink_pin, disconnect_pipe, on_thread_start_play,
}
use virtual_capture_stream.InputPin.Server.{connecting, listen_step}
use virtual_capture_stream.Channel.{
  Channel, is_cut, renewed, receiving, notifying, starting, opening, listening, listener_of, heard,
  Reach, here, next,
}
use virtual_capture_stream.Channel.Fifo.{run_delivered}
use virtual_capture_stream.Channel.Delivery.{IsFresh}
use virtual_capture_stream.Channel.Flush.{Reach-trans, Reach-delivers_all}

-- A system that makes pipes and opens them.
abbrev obliging : Os → Os
obliging os = record os {
  create_named_pipe_reply = λ cs. 1;
  create_file_reply = λ cs. 1;
  set_state_reply = λ cs. true;
}

notify_allocator-obliging :
    (os : Os) (props : AllocatorProperties) (p : InputPin)
    → let q = (notify_allocator (obliging os) props s_ok 1 no_allocator p).2 in
      (q.h_pipe ≢ 0) × (q.write_buffering ≡ p.write_buffering)
unfolding notify_allocator create_pipe
notify_allocator-obliging os props p = ground arith

abbrev connected_pin : OutputPin → OutputPin
connected_pin p =
    let name = client_pipe_name pipehost p.name in
    record p {
      h_pipe = 1;
      connected = true;
      calls =
          OsCall.set_named_pipe_handle_state 1
          ∷ OsCall.create_file name
          ∷ OsCall.create_event name
          ∷ (if p.h_pipe == 0 then p.calls else OsCall.close_handle p.h_pipe ∷ p.calls);
    }

connect_to_sink_pin-obliging :
    (os : Os) (p : OutputPin) → connect_to_sink_pin (obliging os) 1 p ≡ some (s_ok, connected_pin p)
unfolding connect_to_sink_pin open_pipe disconnect_pipe
connect_to_sink_pin-obliging os p = ground arith

-- Both threads run, and the source's pin is connected.
record IsJoined (c d : Channel) : Type 0 where
  kept_sink : d.sink ≡ c.sink
  same_received : d.received ≡ c.received
  same_lost : d.lost ≡ c.lost
  same_marks : d.disturbed ≡ c.disturbed
  is_running : d.source.running ≡ true
  is_connected : d.source.connected ≡ true
  is_whole : is_cut d ≡ false

join :
    (os : Os) (abi : Abi) (c : Channel)
    → c.sink.h_pipe ≢ 0
    → c.source.running ≡ true
    → is_cut c ≡ false
    → (d : Channel) × Reach abi c d × IsJoined c d
join os abi c piped runs whole = elim (Bool-cases c.source.connected) [
  | inl on ↦ (
    c,
    here,
    record {
      kept_sink = refl;
      same_received = refl;
      same_lost = refl;
      same_marks = refl;
      is_running = runs;
      is_connected = on;
      is_whole = whole;
    },
  )
  | inr off ↦ (
    record c { source = connected_pin c.source; broken = false },
    next here (
        opening (obliging os) 1 (connected_pin c.source) runs off piped
          (connect_to_sink_pin-obliging os c.source) (omega arith)),
    record {
      kept_sink = refl;
      same_received = refl;
      same_lost = refl;
      same_marks = refl;
      is_running = runs;
      is_connected = refl;
      is_whole = refl;
    },
  )
]

-- A client that connects is seen.
listen_step-accepts :
    (p : InputPin) → p.h_pipe ≢ 0 → (listen_step true (listener_of connecting p)).connected ≡ true
unfolding listen_step
listen_step-accepts p n = ground arith

receive-starts :
    (os : Os) (m : Memory) (base : ℕ) (s : IMediaSample) (p : InputPin)
    → (receive os m base s p).1.write_buffering ≡ true
unfolding receive
receive-starts os m base s p = ground arith

-- A channel can be brought back to work as long as nobody has cut it: from every state that the system
-- reaches from its start, and into which no call has fallen in the middle of another, in which the source does not take a closed pipe for its own, whether the threads
-- run, whether the sink has a pipe and whether the source is connected, the system can go on, with one
-- more sample, an allocator for the sink's pin and a start of the source's thread, undisturbed and with
-- nothing lost any more, to a state in which that sample and all before it that were not lost have been delivered, in
-- order, run by run, with times relative to the first sample of the run.
pub Reach-revives :
    (os : Os) (abi : Abi) (props : AllocatorProperties) (m : Memory) (base : ℕ) (s : IMediaSample)
    (c d : Channel)
    → IsFaithful abi
    → IsFresh c
    → Reach abi c d
    → is_cut d ≡ false
    → d.disturbed ≡ false
    → (e : Channel) × (past : List (List MediaSampleX)) × (gone : List MediaSampleX) × Reach abi d e
      × (e.received ≡ d.received ++ new_sample m 0 s ∷ [])
      × (e.lost ≡ d.lost)
      × (e.disturbed ≡ false)
      × (e.received ≡ e.lost ++ (flatten past ++ gone))
      × (e.past ≡ map (run_delivered c.source.mt) past)
      × (e.filled ≡ run_delivered c.source.mt gone)
unfolding on_thread_start_play
Reach-revives os abi props m base s c d v fresh r whole z =
    let fed = (receive os m base s d.sink).1 in
    let d1 : Channel = record d { sink = fed; received = d.received ++ new_sample m 0 s ∷ [] } in
    let piped = (notify_allocator (obliging os) props s_ok 1 no_allocator fed).2 in
    let d2 : Channel = record d1 { sink = piped } in
    let d3 : Channel = renewed d2 (on_thread_start_play 0 d.source).1 in
    let r1 : Reach abi d d1 = next here (receiving os m base s) in
    let r2 : Reach abi d d2 = next r1 (notifying (obliging os) props s_ok 1 no_allocator) in
    let r3 : Reach abi d d3 = next r2 (starting 0) in
    let (there, kept) = notify_allocator-obliging os props fed in
    let (d4, more, h) = join os abi d3 there refl whole in
    let d5 : Channel = record d4 {
      sink = heard (listen_step true (listener_of connecting d4.sink)) d4.sink;
    } in
    let r5 : Reach abi d d5 =
      next (Reach-trans r3 more) (listening connecting true (λ e. absurd (cc e))) in
    let writes : d5.sink.write_buffering ≡ true =
      ap (λ (p : InputPin). p.write_buffering) h.kept_sink
      ∙ kept
      ∙ receive-starts os m base s d.sink in
    let (e, past, gone, last, received, lost, _, still, all, past_out, out) =
      Reach-delivers_all os abi c d5 v fresh (Reach-trans r r5) writes
        (cc (
          listen_step-accepts d4.sink
              (subst (λ (p : InputPin). p.h_pipe ≢ 0) (sym h.kept_sink) there),
          h.is_connected,
        ))
        h.is_running h.is_whole (h.same_marks ∙ z) in
    (
      e,
      past,
      gone,
      Reach-trans r5 last,
      received ∙ h.same_received,
      lost ∙ h.same_lost,
      still,
      cc (received, lost, all),
      past_out,
      out,
    )
