-- ===== src/Channel/Lifetime.antt =====
-- The end of a channel: `FillBuffer` sets up no sample once either side has closed the pipe.
use virtual_capture_stream.Prelude.{List, ◌++◌, flatten}
use virtual_capture_stream.OutputPin.{OutputPin, SampleCall, Filled, disconnect_pipe}
use virtual_capture_stream.OutputPin
use virtual_capture_stream.Channel.{Channel}

-- What was done to all samples that `FillBuffer` set up, in all runs.
abbrev pub all_filled : Channel → List (List SampleCall)
all_filled c = flatten c.past ++ c.filled
