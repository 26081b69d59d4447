-- ===== src/Examples/Channels.antt =====
-- Examples for a pin of the sink and a pin of the source as one system.
use virtual_capture_stream.Prelude.{
  ℕ, flatten, map, Option, none, some, true, false, ◌≡◌, refl, List, [], ◌∷◌, ◌++◌, drop, arith,
  if◌then◌else◌, ◌==◌,
}
use virtual_capture_stream.Win.{Os}
use virtual_capture_stream.Sample.{MediaSampleX, new_sample, get_buffer}
use virtual_capture_stream.InputPin.{InputPin, receive, end_of_stream}
use virtual_capture_stream.InputPin.Write.{header, payload, write_sample, write_next}
use virtual_capture_stream.InputPin.Transmit.{messages}
use virtual_capture_stream.OutputPin.{
  OutputPin, connect_to_sink_pin, Filled, fill_connected, fill_buffer, disconnect_pipe, stop,
  on_thread_start_play,
}
use virtual_capture_stream.PipeClient.{open_pipe}
use virtual_capture_stream.InputPin.Server.{connecting, listen_step}
use virtual_capture_stream.Channel.{
  Channel, Step, receiving, writing, losing, opening, listening, filling, stranding,
  starting as beginning, Reach, here, next, reads, read_off, noted,
}
use virtual_capture_stream.InputPin.Transmit.{written}
use virtual_capture_stream.Channel.Fifo.{Fifo, FifoStep, unstranded, run_delivered, Represents}
use virtual_capture_stream.Channel.Refinement.{Step-Represents}
use virtual_capture_stream.Channel.Delivery.{IsFresh, InOrder, Reach-InOrder}
use virtual_capture_stream.Channel.Revival.{Reach-revives}
use virtual_capture_stream.Examples.Data.{
  abi, abi-IsFaithful, props, os, os_with, accepting, upstream, memory, sending, playing,
  video_type,
}

-- Neither pin is connected, and the source's stream thread has started.
abbrev fresh : Channel
fresh = record {
  sink = record sending { write_buffer = []; connected = false };
  in_pipe = [];
  source = record playing { connected = false; h_pipe = 0 };
  received = [];
  past = [];
  filled = [];
  lost = [];
  broken = false;
  stranded = [];
  disturbed = false;
}

fresh-IsFresh : IsFresh fresh
fresh-IsFresh = record {
  nothing_received = refl;
  nothing_filled = refl;
  no_past = refl;
  nothing_waits = refl;
  pipe_empty = refl;
  nothing_lost = refl;
  not_connected = refl;
  none_stranded = refl;
  undisturbed = refl;
  first_to_come = refl;
}

abbrev sample : MediaSampleX
sample = new_sample memory 0 upstream

-- A sample comes in and is dropped.
abbrev early : Channel
early = record fresh { sink = (receive os memory 0 upstream fresh.sink).1; received = sample ∷ [] }

abbrev dropped : InputPin
dropped = write_sample abi sample fresh.sink

abbrev too_early : Channel
too_early = record early { sink = dropped; lost = sample ∷ [] }

early-too_early : Step abi early too_early
unfolding receive write_next
early-too_early = losing dropped sample [] refl refl refl refl

-- The pins are connected, and another sample comes in and is put into the pipe.
abbrev pin_of : Option (ℕ × OutputPin) → OutputPin
pin_of none = playing
pin_of (some (hr, q)) = q

abbrev open_channel : Channel
open_channel = record too_early { source = pin_of (connect_to_sink_pin os 1 fresh.source) }

too_early-open_channel : Step abi too_early open_channel
unfolding connect_to_sink_pin open_pipe write_sample receive
too_early-open_channel = opening os 1 open_channel.source refl refl (λ e. cc) refl (λ e. cc)

abbrev ready : Channel
ready = record open_channel { sink = record dropped { connected = true } }

open_channel-ready : Step abi open_channel ready
unfolding connect_to_sink_pin open_pipe write_sample listen_step
open_channel-ready = listening connecting true (λ e. absurd (cc e))

abbrev waiting : Channel
waiting = record ready {
  sink = (receive os memory 0 upstream ready.sink).1;
  received = sample ∷ sample ∷ [];
}

abbrev wrote : InputPin
wrote = write_sample abi sample ready.sink

abbrev sent_on : Channel
sent_on = record waiting { sink = wrote; in_pipe = ready.in_pipe ++ written waiting.sink wrote }

waiting-sent_on : Step abi waiting sent_on
unfolding receive write_next write_sample connect_to_sink_pin open_pipe
waiting-sent_on = writing wrote refl refl refl

fresh-sent_on : Reach abi fresh sent_on
fresh-sent_on =
    let a : Reach abi fresh early = next here (receiving os memory 0 upstream) in
    let b : Reach abi fresh too_early = next a early-too_early in
    let c : Reach abi fresh open_channel = next b too_early-open_channel in
    let d : Reach abi fresh ready = next c open_channel-ready in
    let e : Reach abi fresh waiting = next d (receiving os memory 0 upstream) in
    next e waiting-sent_on

-- The pipe serves the sample, and a call of `FillBuffer` takes it out.
abbrev pipe_os : Os
pipe_os = os_with (messages abi 300 0 sample)

abbrev filled_once : Filled
filled_once = fill_connected pipe_os abi accepting sent_on.source

abbrev delivered_one : Channel
delivered_one = record sent_on {
  in_pipe = drop (read_off sent_on.source filled_once.pin) sent_on.in_pipe;
  source = filled_once.pin;
  filled = noted [] filled_once.sample;
}

sent_on-delivered_one : Step abi sent_on delivered_one
unfolding write_sample new_sample fill_connected fill_buffer get_buffer receive connect_to_sink_pin
    open_pipe
sent_on-delivered_one =
    filling pipe_os 0 accepting filled_once refl refl refl (ground arith)
      (λ n h. (refl, λ m k. (refl, tt))) refl (omega arith)

abbrev one_waits : Fifo
one_waits = record { queue = sample ∷ []; past = []; gone = []; late = []; is_shut = false }

sent_on-Represents : Represents abi video_type sent_on one_waits
unfolding write_sample new_sample get_buffer receive connect_to_sink_pin open_pipe
sent_on-Represents = record {
  carried = sample ∷ [];
  in_order = refl;
  on_wire = (300, 0, [], refl, refl);
  all_in = refl;
  all_out = refl;
  past_out = refl;
  follows = λ z. record { same_type = refl; begun = refl; started = refl };
  unseen = λ off. absurd (cc off);
  uncut = λ z. refl;
  cut = λ broken. absurd (cc broken);
  same_shut = refl;
  strands = unstranded refl;
}

Step-Represents_example :
    (b : Fifo) × FifoStep one_waits b × Represents abi video_type delivered_one b
Step-Represents_example =
    Step-Represents abi video_type sent_on delivered_one one_waits abi-IsFaithful
      sent_on-delivered_one refl sent_on-Represents

-- The sink closes the pipe between the two reads of a call: the sample has its header without its data.
abbrev half_os : Os
half_os = record pipe_os {
  read_reply = λ cs.
      if reads sent_on.source.h_pipe cs == 1
      then pipe_os.read_reply cs
      else record { success = false; bytes = [] };
}

abbrev half_filled : Filled
half_filled = fill_connected half_os abi accepting sent_on.source

abbrev half_delivered : Channel
half_delivered = record sent_on {
  sink = (end_of_stream os sent_on.sink).1;
  in_pipe = [];
  source = half_filled.pin;
  broken = true;
  stranded = half_filled.sample ∷ [];
}

sent_on-half_delivered : Step abi sent_on half_delivered
unfolding write_sample new_sample fill_connected fill_buffer get_buffer receive connect_to_sink_pin
    open_pipe
sent_on-half_delivered =
    stranding os half_os 0 accepting (abi.info_bytes (header 300 0 sample)) (payload sample ∷ [])
      half_filled refl refl refl (λ e. cc) (ground arith) refl (λ n h. (refl, tt)) (λ n k. refl)
      refl refl

fresh-half_delivered : Reach abi fresh half_delivered
fresh-half_delivered = next fresh-sent_on sent_on-half_delivered

Reach-InOrder_example : InOrder abi video_type half_delivered
Reach-InOrder_example =
    Reach-InOrder abi fresh half_delivered abi-IsFaithful fresh-IsFresh fresh-half_delivered refl

Reach-revives_example :
    (e : Channel) × (past : List (List MediaSampleX)) × (gone : List MediaSampleX) × Reach abi
      sent_on e
    × (e.received ≡ sent_on.received ++ sample ∷ [])
    × (e.lost ≡ sent_on.lost)
    × (e.disturbed ≡ false)
    × (e.received ≡ e.lost ++ (flatten past ++ gone))
    × (e.past ≡ map (run_delivered video_type) past)
    × (e.filled ≡ run_delivered video_type gone)
unfolding write_sample connect_to_sink_pin open_pipe receive
Reach-revives_example =
    Reach-revives os abi props memory 0 upstream fresh sent_on abi-IsFaithful fresh-IsFresh
      fresh-sent_on refl refl

-- The source is stopped, and its thread closes the pipe; then it is started again, and the sample that
-- the write thread takes is lost.
abbrev closed : Channel
closed = record waiting { source = (disconnect_pipe (stop waiting.source).1).1; past = [] ∷ [] }

abbrev restarted : Channel
restarted = record closed { source = (on_thread_start_play 0 closed.source).1; past = [] ∷ [] ∷ [] }

abbrev vain : Channel
vain = record restarted { sink = wrote }
