-- ===== src/OutputPin/Handles.antt =====
-- The handles of pipes that an output pin opens over its life (`ConnectToSinkPin`, `DisconnectPipe` and
-- the destructor of src/VirtualStreamSourceOutputPin.cpp).
use virtual_capture_stream.Prelude.{
  ℕ, zero, suc, ◌≡◌, ◌≢◌, List, [], ◌∷◌, ◌++◌, Option, none, some, ◌==◌, if◌then◌else◌, arith,
  Option-cases, inl, inr, subst,
}
use virtual_capture_stream.Win.{Os, OsCall, invalid_handle}
use virtual_capture_stream.Wire.{Abi}
use virtual_capture_stream.PipeClient.{
  OpenResult, opened, not_opened, open_pipe, pipehost, client_pipe_name,
}
use virtual_capture_stream.OutputPin.{
  OutputPin, SampleReplies, Filled, reset, stop, on_thread_destroy, on_thread_start_play,
  disconnect_pipe, connect_to_sink_pin, fill_data, fill_flags, fill_sample, fill_connected,
  fill_buffer,
}
use virtual_capture_stream.OutputPin.Connect.{before_loop}

-- The handles that `CreateFile` gave out, newest first.
abbrev pub files_opened : Os → List OsCall → List ℕ
files_opened os [] = []
files_opened os (OsCall.create_file n ∷ cs) =
    if os.create_file_reply cs == invalid_handle
    then files_opened os cs
    else os.create_file_reply cs ∷ files_opened os cs
files_opened os (_ ∷ cs) = files_opened os cs

-- The handles that were closed, newest first. To close `INVALID_HANDLE_VALUE` closes nothing.
abbrev pub files_closed : List OsCall → List ℕ
files_closed [] = []
files_closed (OsCall.close_handle h ∷ cs) =
    if h == invalid_handle then files_closed cs else h ∷ files_closed cs
files_closed (_ ∷ cs) = files_closed cs

-- The handles that were closed, and those whose pipe refused the message mode, newest first.
abbrev pub closed_or_left : Os → List OsCall → List ℕ
closed_or_left os [] = []
closed_or_left os (OsCall.close_handle h ∷ cs) = h ∷ closed_or_left os cs
closed_or_left os (OsCall.set_named_pipe_handle_state h ∷ cs) =
    if os.set_state_reply cs then closed_or_left os cs else h ∷ closed_or_left os cs
closed_or_left os (_ ∷ cs) = closed_or_left os cs

-- What a value of `m_hPipe` holds open.
abbrev pub held : ℕ → List ℕ
held h = if h == 0 then [] else if h == invalid_handle then [] else h ∷ []

-- `CreateFile` never gives out the null handle.
abbrev pub NeverNull : Os → Type 0
NeverNull os = (cs : List OsCall) → os.create_file_reply cs ≢ 0

-- The handles that are open are those that `m_hPipe` holds.
abbrev pub Owns : Os → OutputPin → Type 0
Owns os p = files_opened os p.calls ≡ held p.h_pipe ++ files_closed p.calls

pub disconnect_pipe-Owns :
    (os : Os) (p : OutputPin)
    → Owns os p
    → Owns os (disconnect_pipe p).1 × ((disconnect_pipe p).1.h_pipe ≡ 0)
unfolding disconnect_pipe
disconnect_pipe-Owns os p h = ground arith

-- What the loop that opens a pipe adds to a history.
abbrev pub Opening : Os → List OsCall → Option (OpenResult × List OsCall) → Type 0
Opening os cs none = Unit
Opening os cs (some (opened h, ds)) =
    (held h ≡ h ∷ [])
    × (files_opened os ds ≡ h ∷ files_opened os cs)
    × (files_closed ds ≡ files_closed cs)
    × (closed_or_left os ds ≡ closed_or_left os cs)
Opening os cs (some (not_opened, ds)) =
    (files_opened os ds ≡ files_opened os cs)
    × (files_closed ds ≡ files_closed cs)
    × (closed_or_left os ds ≡ closed_or_left os cs)

pub open_pipe-Opening :
    (os : Os) (name : List ℕ) (timeout fuel : ℕ) (cs : List OsCall)
    → NeverNull os
    → Opening os cs (open_pipe os name timeout fuel cs)
unfolding open_pipe
open_pipe-Opening os name timeout zero cs never = tt
open_pipe-Opening os name timeout (suc fuel) cs never = ground (
  arith,
  never cs,
  open_pipe-Opening os name timeout fuel
      (OsCall.wait_named_pipe name timeout ∷ OsCall.create_file name ∷ cs) never,
)

connect_to_sink_pin-Owns :
    (os : Os) (fuel hr : ℕ) (p q : OutputPin)
    → NeverNull os
    → connect_to_sink_pin os fuel p ≡ some (hr, q)
    → Owns os p
    → Owns os q
unfolding connect_to_sink_pin
connect_to_sink_pin-Owns os fuel hr p q never e h =
    let name = client_pipe_name pipehost p.name in
    let freed = disconnect_pipe-Owns os p h in
    elim (Option-cases (open_pipe os name 2000 fuel (before_loop p))) [
      | inl out ↦ ground arith
      | inr ((opened g, cs), found) ↦
          let grown : Opening os (before_loop p) (some (opened g, cs)) =
            subst (Opening os (before_loop p)) found
              (open_pipe-Opening os name 2000 fuel (before_loop p) never) in
          ground (arith, freed, grown)
      | inr ((not_opened, cs), found) ↦
          let grown : Opening os (before_loop p) (some (not_opened, cs)) =
            subst (Opening os (before_loop p)) found
              (open_pipe-Opening os name 2000 fuel (before_loop p) never) in
          ground (arith, freed, grown)
    ]

fill_connected-Owns :
    (os : Os) (abi : Abi) (r : SampleReplies) (p : OutputPin)
    → Owns os p
    → Owns os (fill_connected os abi r p).pin
unfolding fill_connected fill_sample fill_flags fill_data
fill_connected-Owns os abi r p h = ground arith

fill_buffer-Owns :
    (os : Os) (abi : Abi) (fuel : ℕ) (r : SampleReplies) (p : OutputPin) (f : Filled)
    → NeverNull os
    → fill_buffer os abi fuel r p ≡ some f
    → Owns os p
    → Owns os f.pin
unfolding fill_buffer
fill_buffer-Owns os abi fuel r p f never e h = elim (Option-cases (connect_to_sink_pin os fuel p)) [
  | inl out ↦ ground (arith, fill_connected-Owns os abi r p h, disconnect_pipe-Owns os p h)
  | inr ((hr, q), found) ↦
      let connected = connect_to_sink_pin-Owns os fuel hr p q never found h in
      ground (
        arith,
        fill_connected-Owns os abi r p h,
        fill_connected-Owns os abi r q connected,
        connected,
        disconnect_pipe-Owns os p h,
      )
]

-- What is called on a pin. A call of `FillBuffer` counts when it returns.
pub data PinStep (os : Os) (abi : Abi) (p : OutputPin) : OutputPin → Type 0 where
  filling :
      (fuel : ℕ) (r : SampleReplies) (f : Filled)
      → fill_buffer os abi fuel r p ≡ some f
      → PinStep os abi p f.pin
  starting : (base : ℕ) → PinStep os abi p (on_thread_start_play base p).1
  destroying : (base : ℕ) → PinStep os abi p (on_thread_destroy base p).1
  stopping : PinStep os abi p (stop p).1
  resetting : PinStep os abi p (reset p).1

pub PinStep-Owns :
    (os : Os) (abi : Abi) (p q : OutputPin)
    → NeverNull os
    → PinStep os abi p q
    → Owns os p
    → Owns os q
unfolding on_thread_start_play on_thread_destroy stop reset
PinStep-Owns os abi p _ never (filling fuel r f e) h = fill_buffer-Owns os abi fuel r p f never e h
PinStep-Owns os abi p _ never (starting base) h = h
PinStep-Owns os abi p _ never (destroying base) h = h
PinStep-Owns os abi p _ never stopping h = h
PinStep-Owns os abi p _ never resetting h = h
