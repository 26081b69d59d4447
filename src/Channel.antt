-- ===== src/Channel.antt =====
-- An input pin of the sink and the output pin of the source that reads from its pipe, as one system:
-- the calls of the graph and the threads of src/VirtualStreamSinkInputPin.cpp, the stream thread that
-- calls `FillBuffer` of src/VirtualStreamSourceOutputPin.cpp and the calls that start and stop it, and
-- the message pipe between them.
pub mod Messages
pub mod Fifo
pub mod SinkSteps
pub mod SinkCalls
pub mod SourceSteps
pub mod SourceCalls
pub mod Closing
pub mod Calls
pub mod Stranding
pub mod Refinement
pub mod Delivery
pub mod Lifetime
pub mod Names
pub mod Serving
pub mod Flush
pub mod Revival
use virtual_capture_stream.Prelude.{
  Bool, true, false, ℕ, ◌+◌, ◌-◌, ◌≤◌, ◌≡◌, ◌≢◌, List, [], ◌∷◌, ◌++◌, some, drop, length, ◌==◌,
  ◌&&◌, ◌||◌, if◌then◌else◌,
}
use virtual_capture_stream.Win.{Os, OsCall, s_ok, e_fail}
use virtual_capture_stream.MediaType.{AllocatorProperties}
use virtual_capture_stream.Sample.{MediaSampleX, IMediaSample, Memory, new_sample}
use virtual_capture_stream.Wire.{Abi}
use virtual_capture_stream.InputPin.{InputPin, receive, reset, end_of_stream}
use virtual_capture_stream.InputPin.Allocator.{Slot, break_connect, notify_allocator}
use virtual_capture_stream.InputPin.Write.{write_next}
use virtual_capture_stream.InputPin.Transmit.{written}
use virtual_capture_stream.InputPin.Server.{Stage, Listener, listen_step}
use virtual_capture_stream.OutputPin.{
  OutputPin, SampleCall, SampleReplies, Filled, fill_buffer, connect_to_sink_pin, stop,
  on_thread_destroy, on_thread_start_play,
}
use virtual_capture_stream.OutputPin
use virtual_capture_stream.OutputPin.Fill.{Serves, Accepts}

-- The messages in the pipe stand oldest first. `received`, `past`, `filled` and `lost` are the history:
-- the samples that `Receive` queued, what was done to each sample that `FillBuffer` set up, in the runs
-- of the source before this one and in this one, and the samples that the write thread dropped before
-- the listener saw the client. A run ends where the source's pin forgets that it delivered a sample.
-- `broken` says that the sink has closed the pipe that the source's pin opened last; the sink may have
-- another one by then. `stranded` are the samples that `FillBuffer` set up from a header whose data it
-- could not read any more, since the sink closed the pipe in between. `disturbed` marks the channel once
-- a call has fallen into the middle of another, where the steps below leave open what comes of it.
pub record Channel : Type 0 where
  pub sink : InputPin
  pub in_pipe : List (List ℕ)
  pub source : OutputPin
  pub received : List MediaSampleX
  pub past : List (List (List SampleCall))
  pub filled : List (List SampleCall)
  pub lost : List MediaSampleX
  pub broken : Bool
  pub stranded : List (List SampleCall)
  pub disturbed : Bool

-- The source took itself for connected, and one of the two sides has closed the pipe.
abbrev pub is_cut : Channel → Bool
is_cut c = c.source.connected && (c.source.h_pipe == 0 || c.broken)

-- Both pins take themselves for connected.
abbrev pub is_joined : Channel → Bool
is_joined c = c.sink.connected && c.source.connected

-- What `ConnectNamedPipe` may answer: yes at any time, for a client may also be the probe of `StopServer`
-- or another program, and no to a pin that has the source for its client only when that has gone.
abbrev pub IsAnswer : Channel → Bool → Type 0
IsAnswer c reply = reply ≡ false → is_joined c ≡ true → is_cut c ≡ true

-- The listener thread of a pin, and the pin with what a step of that thread leaves in it.
abbrev pub listener_of : Stage → InputPin → Listener
listener_of stage p = record {
  stage = stage;
  pipe_server_running = p.pipe_server_running;
  h_pipe = p.h_pipe;
  h_thread = p.h_thread;
  connected = p.connected;
  disconnects = 0;
}

abbrev pub heard : Listener → InputPin → InputPin
heard t p = record p {
  pipe_server_running = t.pipe_server_running;
  h_thread = t.h_thread;
  connected = t.connected;
}

-- A sample that is left untouched leaves no trace.
abbrev pub noted : List (List SampleCall) → List SampleCall → List (List SampleCall)
noted l [] = l
noted l (x ∷ xs) = l ++ (x ∷ xs) ∷ []

-- The source's pin begins a new run.
abbrev pub renewed : Channel → OutputPin → Channel
renewed c q = record c { source = q; past = c.past ++ c.filled ∷ []; filled = [] }

-- How often the handle was read from.
abbrev pub reads : ℕ → List OsCall → ℕ
reads h [] = 0
reads h (OsCall.read_file g n ∷ cs) = (if g == h then 1 else 0) + reads h cs
reads h (_ ∷ cs) = reads h cs

-- The messages that a call of `FillBuffer` takes out of the pipe, one for each of its reads.
abbrev pub read_off : OutputPin → OutputPin → ℕ
read_off p q = reads p.h_pipe q.calls - reads p.h_pipe p.calls

-- One step of the system. On the side of the sink: a sample comes in, the write thread makes a round of
-- its inner loop, with or without the source at the other end, the sink is run again and resets its pin, the pin is
-- disconnected from its upstream filter, is told of an allocator, which makes the pipe if there is none,
-- or is told that the stream ends, which closes the pipe if there is one, or the listener thread makes a
-- step, wherever it stands, and disconnects the source only when that has gone. On the side of the source: `FillBuffer`
-- connects to the sink's pin or fails to, reads a sample, fails to read, or finds the pin stopped; the pin
-- is stopped, its thread ends or starts to play, or the filter is run and resets the pin. A call of
-- `FillBuffer` that connects and reads is two steps, and the sample that it fills accepts every setting.
-- It returns once the pipe has answered all of its reads, so the pipe has held that many messages. What
-- is in the pipe goes with it when either side closes it, and what is written then is lost. The sink may
-- close the pipe between the two reads of `FillBuffer`, which then sets the sample up from its header
-- without its data. That the sink closes it between the two writes of a round makes no difference to the
-- other side: the round is the step before. Whatever else falls into the middle of a round or of
-- `FillBuffer` (`BreakConnect` terminates the write thread, the source's pin is reset or stopped from another
-- thread) is `disturbing`: what it leaves behind is open but for the names, and the channel is marked.
pub data Step (abi : Abi) (c : Channel) : Channel → Type 0 where
  receiving :
      (os : Os) (m : Memory) (base : ℕ) (s : IMediaSample)
      → Step abi c (record c {
        sink = (receive os m base s c.sink).1;
        received = c.received ++ new_sample m 0 s ∷ [];
      })
  writing :
      (q : InputPin)
      → is_cut c ≡ false
      → is_joined c ≡ true
      → write_next abi c.sink ≡ some q
      → Step abi c (record c { sink = q; in_pipe = c.in_pipe ++ written c.sink q })
  losing :
      (q : InputPin) (s : MediaSampleX) (rest : List MediaSampleX)
      → is_cut c ≡ false
      → is_joined c ≡ false
      → c.sink.write_buffer ≡ s ∷ rest
      → write_next abi c.sink ≡ some q
      → Step abi c (record c { sink = q; lost = c.lost ++ s ∷ [] })
  vanishing :
      (q : InputPin)
      → is_cut c ≡ true
      → write_next abi c.sink ≡ some q
      → Step abi c (record c { sink = q })
  listening :
      (stage : Stage) (reply : Bool)
      → IsAnswer c reply
      → Step abi c (record c { sink = heard (listen_step reply (listener_of stage c.sink)) c.sink })
  resetting : Step abi c (record c { sink = (reset c.sink).1 })
  breaking :
      (os : Os) (base : ℕ) (slot : Slot)
      → Step abi c (record c { sink = (break_connect os base slot c.sink).2 })
  notifying :
      (os : Os) (props : AllocatorProperties) (base allocator : ℕ) (slot : Slot)
      → Step abi c (record c { sink = (notify_allocator os props base allocator slot c.sink).2 })
  hanging_up :
      (os : Os)
      → c.sink.h_pipe ≢ 0
      → Step abi c (record c { sink = (end_of_stream os c.sink).1; in_pipe = []; broken = true })
  opening :
      (os : Os) (fuel : ℕ) (q : OutputPin)
      → c.source.running ≡ true
      → c.source.connected ≡ false
      → c.sink.h_pipe ≢ 0
      → connect_to_sink_pin os fuel c.source ≡ some (s_ok, q)
      → q.h_pipe ≢ 0
      → Step abi c (record c { source = q; broken = false })
  failing :
      (os : Os) (fuel : ℕ) (q : OutputPin)
      → c.source.running ≡ true
      → c.source.connected ≡ false
      → connect_to_sink_pin os fuel c.source ≡ some (e_fail, q)
      → Step abi c (record c { source = q })
  filling :
      (os : Os) (fuel : ℕ) (r : SampleReplies) (f : Filled)
      → c.source.running ≡ true
      → c.source.connected ≡ true
      → is_cut c ≡ false
      → Accepts r
      → Serves os c.source.h_pipe c.in_pipe c.source.calls
      → fill_buffer os abi fuel r c.source ≡ some f
      → read_off c.source f.pin ≤ length c.in_pipe
      → Step abi c (record c {
        in_pipe = drop (read_off c.source f.pin) c.in_pipe;
        source = f.pin;
        filled = noted c.filled f.sample;
      })
  stranding :
      (sink_os os : Os) (fuel : ℕ) (r : SampleReplies) (m : List ℕ) (rest : List (List ℕ))
      (f : Filled)
      → c.source.running ≡ true
      → c.source.connected ≡ true
      → is_cut c ≡ false
      → c.sink.h_pipe ≢ 0
      → Accepts r
      → c.in_pipe ≡ m ∷ rest
      → Serves os c.source.h_pipe (m ∷ []) c.source.calls
      → ((n k : ℕ)
          → (os.read_reply (
              OsCall.read_file c.source.h_pipe n
              ∷ OsCall.read_file c.source.h_pipe k
              ∷ c.source.calls)).success
            ≡ false)
      → fill_buffer os abi fuel r c.source ≡ some f
      → read_off c.source f.pin ≡ 2
      → Step abi c (record c {
        sink = (end_of_stream sink_os c.sink).1;
        in_pipe = [];
        source = f.pin;
        broken = true;
        stranded = noted c.stranded f.sample;
      })
  starving :
      (os : Os) (fuel : ℕ) (r : SampleReplies) (f : Filled)
      → c.source.running ≡ true
      → is_cut c ≡ true
      → (os.read_reply (OsCall.read_file c.source.h_pipe abi.info_size ∷ c.source.calls)).success
        ≡ false
      → fill_buffer os abi fuel r c.source ≡ some f
      → Step abi c (record c { source = f.pin; filled = noted c.filled f.sample })
  closing :
      (os : Os) (fuel : ℕ) (r : SampleReplies) (f : Filled)
      → c.source.running ≡ false
      → fill_buffer os abi fuel r c.source ≡ some f
      → Step abi c (record c { source = f.pin; in_pipe = []; filled = noted c.filled f.sample })
  halting : Step abi c (renewed c (stop c.source).1)
  ending : (base : ℕ) → Step abi c (record c { source = (on_thread_destroy base c.source).1 })
  starting : (base : ℕ) → Step abi c (renewed c (on_thread_start_play base c.source).1)
  rerunning : Step abi c (renewed c (OutputPin.reset c.source).1)
  disturbing :
      (d : Channel)
      → d.disturbed ≡ true
      → d.sink.pipename ≡ c.sink.pipename
      → d.source.name ≡ c.source.name
      → Step abi c d

pub data Reach (abi : Abi) (c : Channel) : Channel → Type 0 where
  here : Reach abi c c
  next : {d e : Channel} → Reach abi c d → Step abi d e → Reach abi c e
