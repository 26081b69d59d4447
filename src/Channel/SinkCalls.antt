-- ===== src/Channel/SinkCalls.antt =====
-- What the listener thread and the graph's calls on the sink's pin do to the queue of samples that the
-- system stands for.
use virtual_capture_stream.Prelude.{
  Bool, ◌⊎◌, inl, inr, Bool-cases, ℕ, ◌≡◌, refl, sym, ap, ◌∙◌, [], ◌++◌, arith, false, ◌&&◌,
}
use virtual_capture_stream.Win.{Os}
use virtual_capture_stream.MediaType.{AmMediaType, AllocatorProperties}
use virtual_capture_stream.Wire.{Abi}
use virtual_capture_stream.InputPin.{InputPin, reset}
use virtual_capture_stream.InputPin.Allocator.{Slot, break_connect, notify_allocator}
use virtual_capture_stream.InputPin.Server.{Stage, listen_step}
use virtual_capture_stream.Channel.{Channel, is_cut, is_joined, IsAnswer, listener_of, heard}
use virtual_capture_stream.Channel.Fifo.{Fifo, NothingOut, Represents}

module _ (abi : Abi) (mt : AmMediaType) where
  -- What leaves the write buffer alone, with what the new mark of a client means.
  marked-Represents :
      (p : InputPin) (c : Channel) (a : Fifo)
      → p.write_buffer ≡ c.sink.write_buffer
      → (h : Represents abi mt c a)
      → (is_joined (record c { sink = p }) ≡ false
          → is_cut c ≡ false
          → NothingOut a × (h.carried ≡ []))
      → Represents abi mt (record c { sink = p }) a
  marked-Represents p c a same h unseen = record {
    carried = h.carried;
    in_order = h.in_order ∙ ap (λ l. h.carried ++ l) (sym same);
    on_wire = h.on_wire;
    all_in = h.all_in;
    all_out = h.all_out;
    past_out = h.past_out;
    follows = h.follows;
    unseen = unseen;
    uncut = h.uncut;
    cut = h.cut;
    same_shut = h.same_shut;
    strands = h.strands;
  }

  -- The same with the mark kept.
  moved-Represents :
      (p : InputPin) (c : Channel) (a : Fifo)
      → p.write_buffer ≡ c.sink.write_buffer
      → p.connected ≡ c.sink.connected
      → Represents abi mt c a
      → Represents abi mt (record c { sink = p }) a
  moved-Represents p c a same seen h =
      marked-Represents p c a same h
        (λ off. h.unseen (ap (λ b. b && c.source.connected) (sym seen) ∙ off))

  -- The mark changes only while the thread waits for a client, and then to what the pipe answers.
  listen_step-connected :
      (stage : Stage) (reply : Bool) (p : InputPin)
      → ((listen_step reply (listener_of stage p)).connected ≡ p.connected)
        ⊎ ((listen_step reply (listener_of stage p)).connected ≡ reply)
  unfolding listen_step
  listen_step-connected stage reply p = ground arith

  pub listening-Represents :
      (stage : Stage) (reply : Bool) (c : Channel) (a : Fifo)
      → IsAnswer c reply
      → Represents abi mt c a
      → Represents abi mt
          (record c { sink = heard (listen_step reply (listener_of stage c.sink)) c.sink })
          a
  listening-Represents stage reply c a no_client h =
      let p = heard (listen_step reply (listener_of stage c.sink)) c.sink in
      elim (listen_step-connected stage reply c.sink) [
        | inl same ↦ moved-Represents p c a refl same h
        | inr told ↦ marked-Represents p c a refl h (λ off whole. elim (Bool-cases (is_joined c)) [
          | inl had ↦
              let refused : reply ≡ false = ground (arith, told, off, had) in
              absurd (cc (no_client refused had, whole))
          | inr had_none ↦ h.unseen had_none whole
        ])
      ]

  pub resetting-Represents :
      (c : Channel) (a : Fifo)
      → Represents abi mt c a
      → Represents abi mt (record c { sink = (reset c.sink).1 }) a
  unfolding reset
  resetting-Represents c a h = moved-Represents (reset c.sink).1 c a refl refl h

  pub breaking-Represents :
      (os : Os) (base : ℕ) (slot : Slot) (c : Channel) (a : Fifo)
      → Represents abi mt c a
      → Represents abi mt (record c { sink = (break_connect os base slot c.sink).2 }) a
  unfolding break_connect
  breaking-Represents os base slot c a h =
      moved-Represents (break_connect os base slot c.sink).2 c a (ground arith) (ground arith) h

  pub notifying-Represents :
      (os : Os) (props : AllocatorProperties) (base allocator : ℕ) (slot : Slot) (c : Channel)
      (a : Fifo)
      → Represents abi mt c a
      → Represents abi mt
          (record c { sink = (notify_allocator os props base allocator slot c.sink).2 })
          a
  unfolding notify_allocator
  notifying-Represents os props base allocator slot c a h =
      moved-Represents (notify_allocator os props base allocator slot c.sink).2 c a (ground arith)
        (ground arith) h
