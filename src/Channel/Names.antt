-- ===== src/Channel/Names.antt =====
-- What the steps of a channel keep: no step renames the pipe of the sink's pin or the pin of the source,
-- or takes back the mark of a disturbance.
use virtual_capture_stream.Prelude.{
  ◌≡◌, false, refl, ap, ◌∙◌, ℕ, some, arith, inl, inr, Option-cases,
}
use virtual_capture_stream.Win.{Os}
use virtual_capture_stream.Wire.{Abi}
use virtual_capture_stream.InputPin.{InputPin, receive, reset, end_of_stream, stop_server}
use virtual_capture_stream.InputPin.Allocator.{break_connect, notify_allocator}
use virtual_capture_stream.InputPin.Write.{write_next, write_sample}
use virtual_capture_stream.OutputPin.{
  OutputPin, SampleReplies, Filled, fill_buffer, fill_connected, fill_sample, fill_flags, fill_data,
  set_first_sample_delivered, connect_to_sink_pin, disconnect_pipe, stop, on_thread_destroy,
  on_thread_start_play,
}
use virtual_capture_stream.OutputPin
use virtual_capture_stream.OutputPin.Connect.{before_loop}
use virtual_capture_stream.PipeClient.{pipehost, client_pipe_name, open_pipe}
use virtual_capture_stream.Sample.{MediaSampleX}
use virtual_capture_stream.Channel.{
  Channel, Step, receiving, writing, losing, vanishing, listening, resetting, breaking, notifying,
  hanging_up, opening, failing, filling, stranding, starving, closing, halting, ending, starting,
  rerunning, disturbing, Reach, here, next,
}
use virtual_capture_stream.Channel.Messages.{write_next-inversion}

write_sample-pipename :
    (abi : Abi) (s : MediaSampleX) (p : InputPin) → (write_sample abi s p).pipename ≡ p.pipename
unfolding write_sample
write_sample-pipename abi s p = ground arith

write_next-pipename :
    (abi : Abi) (p q : InputPin) → write_next abi p ≡ some q → q.pipename ≡ p.pipename
write_next-pipename abi p q e =
    let (s, rest, front, made) = write_next-inversion abi p q p.write_buffer refl e in
    ap (λ r. r.pipename) made ∙ write_sample-pipename abi s (record p { write_buffer = rest })

connect_to_sink_pin-name :
    (os : Os) (fuel hr : ℕ) (p q : OutputPin)
    → connect_to_sink_pin os fuel p ≡ some (hr, q)
    → q.name ≡ p.name
unfolding connect_to_sink_pin
connect_to_sink_pin-name os fuel hr p q e =
    elim (Option-cases
      (open_pipe os (client_pipe_name pipehost p.name) 2000 fuel (before_loop p))) [
        | inl out ↦ ground arith
        | inr ((r, cs), found) ↦ ground arith
      ]

fill_connected-name :
    (os : Os) (abi : Abi) (r : SampleReplies) (p : OutputPin)
    → (fill_connected os abi r p).pin.name ≡ p.name
unfolding fill_connected fill_sample fill_flags fill_data set_first_sample_delivered
fill_connected-name os abi r p = ground arith

fill_buffer-name :
    (os : Os) (abi : Abi) (fuel : ℕ) (r : SampleReplies) (p : OutputPin) (f : Filled)
    → fill_buffer os abi fuel r p ≡ some f
    → f.pin.name ≡ p.name
unfolding fill_buffer disconnect_pipe
fill_buffer-name os abi fuel r p f e = elim (Option-cases (connect_to_sink_pin os fuel p)) [
  | inl out ↦ ground (arith, fill_connected-name os abi r p)
  | inr ((hr, q), found) ↦ ground (
    arith,
    fill_connected-name os abi r p,
    fill_connected-name os abi r q,
    connect_to_sink_pin-name os fuel hr p q found,
  )
]

module _ (abi : Abi) where
  Step-names :
      (c d : Channel)
      → Step abi c d
      → (d.sink.pipename ≡ c.sink.pipename) × (d.source.name ≡ c.source.name)
  unfolding receive reset break_connect notify_allocator end_of_stream stop_server stop
      on_thread_destroy on_thread_start_play OutputPin.reset
  Step-names c _ (receiving os m base s) = (ground arith, refl)
  Step-names c _ (writing q whole con e) = (write_next-pipename abi c.sink q e, refl)
  Step-names c _ (losing q s rest whole off front e) = (write_next-pipename abi c.sink q e, refl)
  Step-names c _ (vanishing q broken e) = (write_next-pipename abi c.sink q e, refl)
  Step-names c _ (listening stage reply answer) = (refl, refl)
  Step-names c _ resetting = (refl, refl)
  Step-names c _ (breaking os base slot) = (ground arith, refl)
  Step-names c _ (notifying os props base allocator slot) = (ground arith, refl)
  Step-names c _ (hanging_up os there) = (ground arith, refl)
  Step-names c _ (opening os fuel q run off there e n) =
      (refl, connect_to_sink_pin-name os fuel _ c.source q e)
  Step-names c _ (failing os fuel q run off e) =
      (refl, connect_to_sink_pin-name os fuel _ c.source q e)
  Step-names c _ (filling os fuel r f run con whole acc serves e room) =
      (refl, fill_buffer-name os abi fuel r c.source f e)
  Step-names c _
        (stranding sink_os os fuel r m rest f run con whole there acc pipe serves fails e twice) =
      (ground arith, fill_buffer-name os abi fuel r c.source f e)
  Step-names c _ (starving os fuel r f run broken fails e) =
      (refl, fill_buffer-name os abi fuel r c.source f e)
  Step-names c _ (closing os fuel r f off e) = (refl, fill_buffer-name os abi fuel r c.source f e)
  Step-names c _ halting = (refl, refl)
  Step-names c _ (ending base) = (refl, refl)
  Step-names c _ (starting base) = (refl, refl)
  Step-names c _ rerunning = (refl, refl)
  Step-names c _ (disturbing _ marked pipe name) = (pipe, name)

  -- A mark stays: a channel that is undisturbed was so before.
  pub Step-undisturbed : (c d : Channel) → Step abi c d → d.disturbed ≡ false → c.disturbed ≡ false
  Step-undisturbed c _ (receiving os m base s) z = z
  Step-undisturbed c _ (writing q whole con e) z = z
  Step-undisturbed c _ (losing q s rest whole off front e) z = z
  Step-undisturbed c _ (vanishing q broken e) z = z
  Step-undisturbed c _ (listening stage reply answer) z = z
  Step-undisturbed c _ resetting z = z
  Step-undisturbed c _ (breaking os base slot) z = z
  Step-undisturbed c _ (notifying os props base allocator slot) z = z
  Step-undisturbed c _ (hanging_up os there) z = z
  Step-undisturbed c _ (opening os fuel q run off there e n) z = z
  Step-undisturbed c _ (failing os fuel q run off e) z = z
  Step-undisturbed c _ (filling os fuel r f run con whole acc serves e room) z = z
  Step-undisturbed c _
        (stranding sink_os os fuel r m rest f run con whole there acc pipe serves fails e twice) z =
      z
  Step-undisturbed c _ (starving os fuel r f run broken fails e) z = z
  Step-undisturbed c _ (closing os fuel r f off e) z = z
  Step-undisturbed c _ halting z = z
  Step-undisturbed c _ (ending base) z = z
  Step-undisturbed c _ (starting base) z = z
  Step-undisturbed c _ rerunning z = z
  Step-undisturbed c _ (disturbing _ marked pipe name) z = absurd (cc (z, marked))

  pub Reach-names :
      (c d : Channel)
      → Reach abi c d
      → (d.sink.pipename ≡ c.sink.pipename) × (d.source.name ≡ c.source.name)
  Reach-names c _ here = (refl, refl)
  Reach-names c _ (next {d} {e} r step) =
      let (pipe, name) = Reach-names c d r in
      let (pipe', name') = Step-names d e step in (pipe' ∙ pipe, name' ∙ name)
