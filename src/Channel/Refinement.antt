-- ===== src/Channel/Refinement.antt =====
-- The system of both pins against a queue of samples: what goes in at the sink comes out at the source.
use virtual_capture_stream.Prelude.{refl, ◌∙◌, [], ◌∷◌, ◌++◌, ◌≡◌, true, false, arith, inr}
use virtual_capture_stream.MediaType.{AmMediaType}
use virtual_capture_stream.Sample.{new_sample}
use virtual_capture_stream.Wire.{Abi, IsFaithful}
use virtual_capture_stream.InputPin.{end_of_stream}
use virtual_capture_stream.OutputPin.{stop, on_thread_destroy, on_thread_start_play}
use virtual_capture_stream.OutputPin
use virtual_capture_stream.Channel.{
  Channel, Step, receiving, writing, losing, vanishing, listening, resetting, breaking, notifying,
  hanging_up, opening, failing, filling, stranding, starving, closing, halting, ending, starting,
  rerunning, disturbing,
}
use virtual_capture_stream.Channel.Messages.{write_next-taken, write_next-inversion}
use virtual_capture_stream.Channel.Fifo.{Fifo, FifoStep, idle, push, lose, renew, shut, Represents}
use virtual_capture_stream.Channel.SinkSteps.{
  receiving-Represents, writing-Represents, losing-Represents, vanishing-Represents,
}
use virtual_capture_stream.Channel.SinkCalls.{
  listening-Represents, resetting-Represents, breaking-Represents, notifying-Represents,
}
use virtual_capture_stream.Channel.SourceCalls.{
  still-IsSteady, steady-Represents, renewing-Represents,
}
use virtual_capture_stream.Channel.Calls.{
  opening-Represents, failing-Represents, filling-pops, starving-Represents, stopped-Represents,
}
use virtual_capture_stream.Channel.Stranding.{stranding-Represents}
use virtual_capture_stream.Channel.Closing.{end_of_stream-kept, closing-Represents}

module _ (abi : Abi) (mt : AmMediaType) where
  -- The system refines the queue, for every step that leaves it undisturbed. Each such step, from a
  -- state that stands for a queue of samples, appends the received sample to that queue, or delivers
  -- the sample at its front (its data, sync point and media times, and its times relative to the first
  -- sample delivered in this run), or loses the one at its front, which happens only while nothing has
  -- been delivered, or begins a new run, or shuts the queue, after which nothing is delivered, and
  -- loses what is on its way, the first of which the closing of the pipe in the middle of `FillBuffer`
  -- leaves set up without its data, or leaves the queue alone; and the new state stands for the new
  -- queue. The samples that are filled accept every setting.
  pub Step-Represents :
      (c d : Channel) (a : Fifo)
      → IsFaithful abi
      → Step abi c d
      → d.disturbed ≡ false
      → Represents abi mt c a
      → (b : Fifo) × FifoStep a b × Represents abi mt d b
  unfolding stop on_thread_destroy on_thread_start_play OutputPin.reset
  Step-Represents c _ a v (receiving os m base s) z h = (
    record a { queue = a.queue ++ new_sample m 0 s ∷ [] },
    push (new_sample m 0 s) refl,
    receiving-Represents abi mt os m base s c a h,
  )
  Step-Represents c _ a v (writing q whole con e) z h =
      let (s, rest, front, made) = write_next-inversion abi c.sink q c.sink.write_buffer refl e in
      (a, idle refl, rw made (writing-Represents abi mt c a s rest whole con front h))
  Step-Represents c _ a v (losing q s rest whole off front e) z h =
      let made = write_next-taken abi c.sink q s rest front e in
      let (first, out, after) = losing-Represents abi mt c a s rest whole off front h in
      (record a { queue = rest }, lose s rest (h.same_shut ∙ whole) first out refl, rw made after)
  Step-Represents c _ a v (vanishing q broken e) z h =
      let (s, rest, front, made) = write_next-inversion abi c.sink q c.sink.write_buffer refl e in
      let (first, after) = vanishing-Represents abi mt c a s rest broken front h in
      (
        record a { queue = rest; late = a.late ++ s ∷ []; is_shut = true },
        shut (s ∷ []) rest first refl,
        rw made after,
      )
  Step-Represents c _ a v (listening stage reply answer) z h =
      (a, idle refl, listening-Represents abi mt stage reply c a answer h)
  Step-Represents c _ a v resetting z h = (a, idle refl, resetting-Represents abi mt c a h)
  Step-Represents c _ a v (breaking os base slot) z h =
      (a, idle refl, breaking-Represents abi mt os base slot c a h)
  Step-Represents c _ a v (notifying os props base allocator slot) z h =
      (a, idle refl, notifying-Represents abi mt os props base allocator slot c a h)
  Step-Represents c _ a v (hanging_up os there) z h =
      let (buffer, seen) = end_of_stream-kept os c.sink in
      closing-Represents abi mt (end_of_stream os c.sink).1 c.source true c a buffer seen
        (still-IsSteady c.source c.source.running c.source.calls) (inr refl) h
  Step-Represents c _ a v (opening os fuel q run off there e n) z h =
      (a, idle refl, opening-Represents abi mt os fuel q c a off e n h)
  Step-Represents c _ a v (failing os fuel q run off e) z h =
      (a, idle refl, failing-Represents abi mt os fuel q c a off e h)
  Step-Represents c _ a v (filling os fuel r f run con whole acc serves e room) z h =
      filling-pops abi mt os fuel r f c a v run con whole acc serves e room h
  Step-Represents c _ a v
        (stranding sink_os os fuel r m rest f run con whole there acc pipe serves fails e twice) z
        h =
      stranding-Represents abi v mt sink_os os fuel r m rest f c a run con whole acc pipe serves e
        twice h
  Step-Represents c _ a v (starving os fuel r f run broken fails e) z h = (
    a,
    idle refl,
    starving-Represents abi mt os fuel r f c a run (ground (arith, broken)) fails e h,
  )
  Step-Represents c _ a v (closing os fuel r f off e) z h =
      stopped-Represents abi mt os fuel r f c a off e h
  Step-Represents c _ a v halting z h =
      (_, renew refl, renewing-Represents abi mt (stop c.source).1 c a refl refl refl refl h)
  Step-Represents c _ a v (ending base) z h = (
    a,
    idle refl,
    steady-Represents abi mt (on_thread_destroy base c.source).1 c a
        (still-IsSteady c.source false c.source.calls) refl h,
  )
  Step-Represents c _ a v (starting base) z h = (
    _,
    renew refl,
    renewing-Represents abi mt (on_thread_start_play base c.source).1 c a refl refl refl refl h,
  )
  Step-Represents c _ a v rerunning z h = (
    _,
    renew refl,
    renewing-Represents abi mt (OutputPin.reset c.source).1 c a refl refl refl refl h,
  )
  Step-Represents c _ a v (disturbing _ marked pipe name) z h = absurd (cc (z, marked))
