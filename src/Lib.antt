-- ===== src/Lib.antt =====
-- Virtual capture stream: two DirectShow filters that carry media samples from one filter graph to
-- another over named pipes. The sink filter ends a graph; each of its input pins serves a pipe, and the
-- filter serves one more pipe on which it describes its connected pins. The source filter begins
-- another graph, possibly in another process: it reads the description, makes an output pin for each
-- pin of the sink, and each output pin then reads the samples from the pipe of its input pin.
--
-- The parts, and the files that model them:
--   Prelude, Prelude/{Tests, Lists, Words}: shared names, Boolean tests, lists with their laws
--     for simp, 32- and 64-bit words.
--   Win, MediaType, Crt: the parameters. `Os` is the system (pipes, threads, waits), `Sdk` the
--     constants of the Windows headers, `Crt` the text conversions, with the codes of Win written
--     out.
--   Wire: `Abi`, the bytes of the structures that go over the pipes, and its laws.
--   Sample: `CMediaSampleX` and `MediaSampleInfo` (src/MediaSampleX.h).
--   InputPin: an input pin of the sink (src/VirtualStreamSinkInputPin.cpp and .h). Its children:
--     Write (InstanceWritePipeThread), Transmit and Fifo (what that thread sends, and in which
--     order), Copy (the buffer of a sample), Allocator (NotifyAllocator and BreakConnect, with the
--     allocator slot that the pins of a filter share), Server (InstanceThread), Writer
--     (InstanceWritePipeThread step by step), Locking (BreakConnect, the write thread and the
--     pin's lock), Rounds (a round of it that may be cut short), Handles (the pipe's handle over
--     the life of a pin), Leftovers (Reset and EndOfStream while samples wait, and a pin without a
--     write thread), Base (what goes on to the base class, AddTrack, and SetStreamName of the
--     pin).
--   PinInfo: the message that describes a pin, as PipeOutMediaTypes writes and CreateOutputPins
--     reads it.
--   Sink: the sink filter (src/VirtualStreamSink.cpp and .h). Its children: Publish
--     (PipeOutMediaTypes), Server (InstanceThread), Pins (the list of pins as the graph changes),
--     Renaming and OldPipe (SetStreamName), Pipe and PinPipes (the pipes of the filter and of its
--     pins under each operation), Handles (all pipes over the filter's life), Names (the names of
--     the pins and of their pipes), Interface (NonDelegatingQueryInterface, SetLogFile).
--   PipeClient: the loop that opens a pipe, which both sides of the source share.
--   OutputPin: an output pin of the source (src/VirtualStreamSourceOutputPin.cpp and .h). Its
--     children: Fill and Playing (a call of FillBuffer, and the stream thread's calls, against the
--     write thread's messages), Restart (broken pipes and restarts), Desync (a sample that refuses
--     a setting), Torn (a sample without its data), Connect (ConnectToSinkPin), Caps
--     (property set, capabilities, buffers), Types (media types, the destructor), Handles (the
--     handles that a pin opens).
--   Source: the source filter (src/VirtualStreamSource.cpp and .h). Its children: Rebuild
--     (CreateOutputPins against the sink's description), Oversize (a description that its buffer
--     does not hold), StreamName (the constructor's choice), Stopping (Stop, and the stream
--     threads behind it), Life (constructor, destructor, CreateInstance, the interfaces and
--     setters), PinPipes, Describing and Handles (the pipes that the filter and its pins open over
--     the filter's life).
--   Channel: an input pin, its pipe and the output pin that reads it, as one system of threads
--     with a step relation, from before the connection to its end. Its children: Messages (what
--     the pipe holds), Fifo (a queue of samples as the specification), SinkSteps and SinkCalls
--     (the sink's steps), SourceSteps, SourceCalls and Calls (the source's steps), Closing (either
--     side closes the pipe), Stranding (the sink closes it between the two reads of a call) and
--     Refinement (the system against the queue), Names (what is never renamed, and the mark of a
--     disturbance), Delivery (what its histories are in every reachable state), Lifetime (behind a
--     closed pipe), Serving and Flush (how it goes on until all is delivered), Revival (how it
--     comes to work).
--   Session: a sink filter with any past and a source filter that reads its description. Its
--     children: Streams (the channels of all their pins, in any order) and Progress (how all of
--     them go on together).
--   Shutdown: StopServer, of a pin and of the filter, and the thread that it stops, in any
--     order. Its children: Threads (the two threads), Quiet (when the thread is over).
--   PropertyPage: the property page (src/VirtualStreamSinkPropertyPage.cpp and .h).
--   Trace and Registration: the trace file, and the registration of the filters
--     (src/global.cpp).
--   Examples: concrete pins, filters and systems (Data), and the theorems at work on them.
--
-- How code becomes definitions. A class is a record with the source's members, a method a function from
-- the record to the result code and the new record, named as in the source in lower case
-- (`NotifyAllocator` is `notify_allocator`). Calls of the system are logged, newest first, in the field
-- `calls` of the object that makes them, and `Os` answers a call as a function of that history, so one
-- system may answer the same call differently each time. Handles and pointers are numbers, 0 the null
-- pointer. A method of a base class is an argument: what it returns. Result codes are 32-bit patterns,
-- with `failed` reading the sign; times are 64-bit patterns, with differences modulo 2 ^ 64. A thread
-- is a step function with a program counter where another thread may step in, and one function where
-- only its effect matters.
--
-- Fuel. `drain` takes a round of fuel for each sample that waits and one more; `open_pipe` one for each
-- round that finds the pipe busy and one more; `read_pins` one for each pin of the description and one
-- more. With less, the result is `none` or, for `drain`, a queue that is not empty yet.
--
-- Not modelled: the base classes of DirectShow (libs/DirectShow), which are parameters; the calls of
-- FilterTrace inside other operations; locks, but for the pin's in InputPin/Locking; what is behind
-- a fixed text buffer that overflows. In Shutdown a wait may end at any time, so that nothing is said
-- there of when, and the probe of StopServer wakes nobody. In Channel a round of the write thread and a
-- call of FillBuffer are one step each, and the closing of the pipe between the two reads is another;
-- a write that the sink itself overtakes with the closing of the pipe is taken to come before it, which
-- only the order of the calls in its history can tell. What else falls into the middle of a step (a write
-- thread that is terminated there, a pin of the source that is stopped or reset) leaves the channel open
-- and marks it as disturbed, and the theorems are on channels that are not (InputPin/Fifo, InputPin/Rounds
-- and OutputPin/Torn have the terminated thread).
pub mod Prelude
pub mod Win
pub mod MediaType
pub mod Sample
pub mod Wire
pub mod Crt
pub mod PinInfo
pub mod InputPin
pub mod Sink
pub mod PipeClient
pub mod OutputPin
pub mod Source
pub mod Channel
pub mod Trace
pub mod Registration
pub mod Session
pub mod PropertyPage
pub mod Shutdown
pub mod Examples
