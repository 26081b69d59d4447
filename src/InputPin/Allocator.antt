-- ===== src/InputPin/Allocator.antt =====
-- The allocator that the sink filter keeps for all of its pins (`CVirtualStreamSink::m_pAllocator`):
-- `NotifyAllocator` and `BreakConnect` of src/VirtualStreamSinkInputPin.cpp. The null pointer is 0.
use virtual_capture_stream.Prelude.{
  ℕ, suc, List, [], ◌∷◌, ◌*◌, ◌%◌, ◌^◌, ◌+◌, ◌≡◌, ◌≢◌, ◌==◌, Bool, if◌then◌else◌, arith,
}
use virtual_capture_stream.Win.{Os, OsCall, Routine, s_ok, e_fail, failed, wait_object_0}
use virtual_capture_stream.MediaType.{AllocatorProperties}
use virtual_capture_stream.InputPin.{InputPin, log}

pub data RefCall : Type 0 where
  add_ref release : ℕ → RefCall

-- `refs` lists the calls of `AddRef` and `Release`, newest first.
pub record Slot : Type 0 where
  pub p_allocator : ℕ
  pub refs : List RefCall

-- `if (m_pAllocator) m_pAllocator->Release();`
abbrev pub release_held : Slot → Slot
release_held s =
    if s.p_allocator == 0 then s else record s { refs = release s.p_allocator ∷ s.refs }

abbrev pub hold : ℕ → Slot → Slot
hold a s = record { p_allocator = a; refs = add_ref a ∷ s.refs }

-- Both buffers of the pipe, in 32-bit arithmetic.
abbrev pub pipe_buffer_size : AllocatorProperties → ℕ
pipe_buffer_size props = props.cb_buffer * (props.c_buffers * 10) % 2 ^ 32

-- The pipe and the thread that listens on it, made on the first notification.
unfoldable pub create_pipe : Os → AllocatorProperties → InputPin → InputPin
create_pipe os props p =
    let size = pipe_buffer_size props in
    let made = OsCall.create_named_pipe p.pipename size 2000 ∷ p.calls in
    record p {
      h_pipe = os.create_named_pipe_reply p.calls;
      h_thread = os.create_thread_reply made;
      calls = OsCall.create_thread Routine.pin_instance_thread ∷ made;
    }

-- `base` is what `CBaseInputPin::NotifyAllocator` returns, `props` what the allocator reports.
unfoldable pub notify_allocator :
    Os → AllocatorProperties → ℕ → ℕ → Slot → InputPin → ℕ × Slot × InputPin
unfolding create_pipe
notify_allocator os props base a s p =
    if a == 0
    then (e_fail, s, p)
    else (base, hold a (release_held s), if p.h_pipe == 0 then create_pipe os props p else p)

-- The write thread is told to end, waited for and, if it does not end, terminated. The call of
-- `m_writeBuffer.empty()` that follows only asks whether the queue is empty.
unfoldable pub stop_writing : Os → InputPin → InputPin
stop_writing os p =
    let r = os.wait_reply p.calls in
    let waited = log (OsCall.wait_for_single_object p.h_thread2 10000) p in
    let ended =
      if r == wait_object_0 then waited else log (OsCall.terminate_thread p.h_thread2) waited in
    record ended { write_buffering = Bool.false; h_thread2 = 0 }

-- `base` is what `CBaseInputPin::BreakConnect` returns.
unfoldable pub break_connect : Os → ℕ → Slot → InputPin → ℕ × Slot × InputPin
unfolding stop_writing
break_connect os base s p = if failed base then (base, s, p) else (
  s_ok,
  record (release_held s) { p_allocator = 0 },
  if p.h_thread2 == 0 then p else stop_writing os p,
)

abbrev pub added : ℕ → List RefCall → ℕ
added a [] = 0
added a (add_ref b ∷ r) = if b == a then suc (added a r) else added a r
added a (release b ∷ r) = added a r

abbrev pub released : ℕ → List RefCall → ℕ
released a [] = 0
released a (add_ref b ∷ r) = released a r
released a (release b ∷ r) = if b == a then suc (released a r) else released a r

-- The references to `a` that are taken and not yet given back: one if `a` is the allocator that is
-- kept, and none otherwise.
abbrev pub IsBalanced : ℕ → Slot → Type 0
IsBalanced a s = added a s.refs ≡ released a s.refs + (if s.p_allocator == a then 1 else 0)

notify_allocator-IsBalanced :
    (os : Os) (props : AllocatorProperties) (base b a : ℕ) (s : Slot) (p : InputPin)
    → a ≢ 0
    → IsBalanced a s
    → IsBalanced a (notify_allocator os props base b s p).1
unfolding notify_allocator
notify_allocator-IsBalanced os props base b a s p n h = ground arith

break_connect-IsBalanced :
    (os : Os) (base a : ℕ) (s : Slot) (p : InputPin)
    → a ≢ 0
    → IsBalanced a s
    → IsBalanced a (break_connect os base s p).1
unfolding break_connect
break_connect-IsBalanced os base a s p n h = ground arith

-- What the pins of one filter do to the slot, each call with its own pin.
pub data SlotOp : Type 0 where
  notified : AllocatorProperties → ℕ → ℕ → InputPin → SlotOp
  broken : ℕ → InputPin → SlotOp

unfoldable pub slot_step : Os → SlotOp → Slot → Slot
slot_step os (notified props base a p) s = (notify_allocator os props base a s p).1
slot_step os (broken base p) s = (break_connect os base s p).1

unfoldable pub slot_run : Os → List SlotOp → Slot → Slot
slot_run os [] s = s
slot_run os (op ∷ ops) s = slot_run os ops (slot_step os op s)

abbrev pub no_allocator : Slot
no_allocator = record { p_allocator = 0; refs = [] }

slot_run-keeps :
    (os : Os) (a : ℕ) (ops : List SlotOp) (s : Slot)
    → a ≢ 0
    → IsBalanced a s
    → IsBalanced a (slot_run os ops s)
unfolding slot_run slot_step
slot_run-keeps os a [] s n h = h
slot_run-keeps os a (notified props base b p ∷ ops) s n h =
    slot_run-keeps os a ops _ n (notify_allocator-IsBalanced os props base b a s p n h)
slot_run-keeps os a (broken base p ∷ ops) s n h =
    slot_run-keeps os a ops _ n (break_connect-IsBalanced os base a s p n h)

-- After any calls of `NotifyAllocator` and `BreakConnect` by the pins of a new filter, the filter
-- holds exactly one reference to the allocator that it keeps and none to any other.
pub slot_run-IsBalanced :
    (os : Os) (ops : List SlotOp) (a : ℕ) → a ≢ 0 → IsBalanced a (slot_run os ops no_allocator)
slot_run-IsBalanced os ops a n = slot_run-keeps os a ops no_allocator n (ground arith)
