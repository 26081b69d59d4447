-- ===== src/Win.antt =====
-- What the sources use of Windows: result codes, handles and the calls of the operating system.
-- A call is recorded in the history of the object that makes it, newest first, and its reply is a
-- function of that history (`Os`, a parameter everywhere), so every sequence of replies is covered.
use virtual_capture_stream.Prelude.{ℕ, Bool, List, Option, leb}

-- Result codes at their documented values, as 32-bit patterns.
abbrev pub s_ok : ℕ
s_ok = 0

abbrev pub s_false : ℕ
s_false = 1

abbrev pub e_notimpl : ℕ
e_notimpl = 0x80004001

abbrev pub e_pointer : ℕ
e_pointer = 0x80004003

abbrev pub e_fail : ℕ
e_fail = 0x80004005

abbrev pub e_unexpected : ℕ
e_unexpected = 0x8000ffff

abbrev pub e_outofmemory : ℕ
e_outofmemory = 0x8007000e

abbrev pub e_invalidarg : ℕ
e_invalidarg = 0x80070057

abbrev pub e_prop_set_unsupported : ℕ
e_prop_set_unsupported = 0x80070492

abbrev pub e_prop_id_unsupported : ℕ
e_prop_id_unsupported = 0x80070490

abbrev pub vfw_s_cant_cue : ℕ
vfw_s_cant_cue = 0x40268

-- `FAILED`: the sign bit is set.
abbrev pub failed : ℕ → Bool
failed hr = leb 0x80000000 hr

-- `INVALID_HANDLE_VALUE` and the error and wait codes that the sources test.
abbrev pub invalid_handle : ℕ
invalid_handle = 0xffffffff

abbrev pub error_pipe_busy : ℕ
error_pipe_busy = 231

abbrev pub error_more_data : ℕ
error_more_data = 234

abbrev pub error_pipe_connected : ℕ
error_pipe_connected = 535

abbrev pub wait_object_0 : ℕ
wait_object_0 = 0

abbrev pub wait_timeout : ℕ
wait_timeout = 258

-- The thread procedures of the sources.
pub data Routine : Type 0 where
  sink_instance_thread pin_instance_thread pin_write_thread : Routine

-- Texts are lists of code units, data is a list of bytes, handles and times are numbers.
pub data OsCall : Type 0 where
  create_named_pipe : List ℕ → ℕ → ℕ → OsCall
  create_thread : Routine → OsCall
  create_file : List ℕ → OsCall
  create_event : List ℕ → OsCall
  close_handle : ℕ → OsCall
  wait_for_single_object : ℕ → ℕ → OsCall
  terminate_thread : ℕ → OsCall
  connect_named_pipe : ℕ → OsCall
  disconnect_named_pipe : ℕ → OsCall
  flush_file_buffers : ℕ → OsCall
  set_named_pipe_handle_state : ℕ → OsCall
  wait_named_pipe : List ℕ → ℕ → OsCall
  write_file : ℕ → List ℕ → OsCall
  read_file : ℕ → ℕ → OsCall
  free_buffer : Option (List ℕ) → OsCall
  sleep : ℕ → OsCall

-- What `ReadFile` answers: its result and the bytes that it stored.
pub record ReadReply : Type 0 where
  pub success : Bool
  pub bytes : List ℕ

pub record Os : Type 0 where
  pub create_named_pipe_reply : List OsCall → ℕ
  pub create_thread_reply : List OsCall → ℕ
  pub create_file_reply : List OsCall → ℕ
  pub create_event_reply : List OsCall → ℕ
  pub wait_reply : List OsCall → ℕ
  pub last_error : List OsCall → ℕ
  pub connect_reply : List OsCall → Bool
  pub wait_named_pipe_reply : List OsCall → Bool
  pub set_state_reply : List OsCall → Bool
  -- The history begins with the read itself.
  pub read_reply : List OsCall → ReadReply
