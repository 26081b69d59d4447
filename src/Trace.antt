-- ===== src/Trace.antt =====
-- The trace file of both filters (`FilterTrace` and `SetTraceFile` of src/global.cpp), for a release
-- build. The file system is a list of files with their bytes; time, date and whether the system deletes
-- and opens a file are arguments. The formatting routines are bounded: where a text does not fit their
-- block they call the invalid parameter handler of the runtime, and leave the block empty if that returns.
use virtual_capture_stream.Prelude.{
  list_laws, ℕ, Bool, true, false, List, [], ◌∷◌, ◌++◌, Option, none, some, ◌≡◌, ◌≢◌, refl, ◌∙◌,
  append_assoc, ◌==◌, ◌&&◌, ltb, length, if◌then◌else◌, arith,
}
use virtual_capture_stream.Crt.{Crt}

abbrev pub text_eq : List ℕ → List ℕ → Bool
text_eq [] [] = true
text_eq (c ∷ s) (d ∷ t) = (c == d) && text_eq s t
text_eq _ _ = false

pub text_eq_refl : (s : List ℕ) → text_eq s s ≡ true
text_eq_refl [] = refl
text_eq_refl (c ∷ s) = ground (arith, text_eq_refl s)

abbrev pub Files : Type 0
Files = List (List ℕ × List ℕ)

abbrev without_file : List ℕ → Files → Files
without_file f [] = []
without_file f ((g, t) ∷ fs) = if text_eq f g then without_file f fs else (g, t) ∷ without_file f fs

-- `DeleteFile`, which may fail. Nobody looks at its answer.
unfoldable pub delete_file : Bool → List ℕ → Files → Files
delete_file can_delete f fs = if can_delete then without_file f fs else fs

-- Open for appending, write, close: a file that is missing is made.
unfoldable pub append_to : List ℕ → List ℕ → Files → Files
append_to f text [] = (f, text) ∷ []
append_to f text ((g, t) ∷ fs) =
    if text_eq f g then (g, t ++ text) ∷ fs else (g, t) ∷ append_to f text fs

abbrev pub content : List ℕ → Files → List ℕ
content f [] = []
content f ((g, t) ∷ fs) = if text_eq f g then t else content f fs

-- `g_szTraceFile` and the files.
pub record Tracer : Type 0 where
  pub trace_file : List ℕ
  pub files : Files

-- What `sprintf_s` leaves in a block of `n` characters, the terminating zero included.
abbrev pub bounded : ℕ → List ℕ → List ℕ
bounded n text = if ltb (length text) n then text else []

-- A file that is opened for text has a carriage return before each line feed.
abbrev pub text_mode : List ℕ → List ℕ
text_mode [] = []
text_mode (c ∷ s) = if c == 10 then 13 ∷ 10 ∷ text_mode s else c ∷ text_mode s

-- `[%s %s] %s`, of a message that was formatted itself, as the file gets it.
abbrev pub stamped : List ℕ → List ℕ → List ℕ → List ℕ
stamped date time text =
    text_mode (bounded 1024 (91 ∷ (date ++ 32 ∷ (time ++ 93 ∷ 32 ∷ bounded 1024 text))))

-- `can_open` says whether `_tfopen_s` succeeds; the text is the formatted message.
unfoldable pub filter_trace : Bool → List ℕ → List ℕ → List ℕ → Tracer → Tracer
filter_trace can_open date time text t = elim t.trace_file [
  | [] ↦ t
  | c ∷ name ↦
      if can_open
      then record t { files = append_to t.trace_file (stamped date time text) t.files }
      else t
]

-- `Trace [%s]` and a line end, with the path in the characters of `T2A`.
abbrev pub trace_line : Crt → List ℕ → List ℕ
trace_line crt path = 84 ∷ 114 ∷ 97 ∷ 99 ∷ 101 ∷ 32 ∷ 91 ∷ (crt.w2a path ++ 93 ∷ 10 ∷ [])

-- The null pointer is `none`.
unfoldable pub set_trace_file :
    Crt → Bool → Bool → List ℕ → List ℕ → Option (List ℕ) → Tracer → Tracer
unfolding filter_trace delete_file
set_trace_file crt can_delete can_open date time none t = record t { trace_file = [] }
set_trace_file crt can_delete can_open date time (some path) t =
    filter_trace can_open date time (trace_line crt path)
      (record { trace_file = path; files = delete_file can_delete path t.files })

content-without_file : (f : List ℕ) (fs : Files) → content f (without_file f fs) ≡ []
content-without_file f [] = refl
content-without_file f ((g, t) ∷ fs) = ground (arith, content-without_file f fs)

content-append_to :
    (f text : List ℕ) (fs : Files) → content f (append_to f text fs) ≡ content f fs ++ text
unfolding append_to
content-append_to f text [] = rw (text_eq_refl f)
content-append_to f text ((g, t) ∷ fs) = ground (arith, content-append_to f text fs)

abbrev pub traces : List (List ℕ × List ℕ × List ℕ) → Tracer → Tracer
traces [] t = t
traces ((date, time, text) ∷ ms) t = traces ms (filter_trace true date time text t)

abbrev pub stamped_all : List (List ℕ × List ℕ × List ℕ) → List ℕ
stamped_all [] = []
stamped_all ((date, time, text) ∷ ms) = stamped date time text ++ stamped_all ms

traces-content :
    (ms : List (List ℕ × List ℕ × List ℕ)) (t : Tracer)
    → t.trace_file ≢ []
    → content t.trace_file (traces ms t).files ≡ content t.trace_file t.files ++ stamped_all ms
unfolding filter_trace
traces-content [] t n = simp list_laws
traces-content ((date, time, text) ∷ ms) t n = ground (
  arith,
  traces-content ms (filter_trace true date time text t),
  content-append_to t.trace_file (stamped date time text) t.files,
  append_assoc (content t.trace_file t.files) (stamped date time text) (stamped_all ms),
)

-- What a trace file has when it is made the trace file: nothing, unless it cannot be deleted.
abbrev pub left_over : Bool → List ℕ → Files → List ℕ
left_over can_delete path fs = if can_delete then [] else content path fs

content-delete_file :
    (can_delete : Bool) (f : List ℕ) (fs : Files)
    → content f (delete_file can_delete f fs) ≡ left_over can_delete f fs
unfolding delete_file
content-delete_file true f fs = content-without_file f fs
content-delete_file false f fs = refl

-- After a trace file is set, it holds what it held before, if the system did not delete it, then the line
-- that names it, and then every message that was traced, in order, each with its stamp, a carriage return
-- before each line feed, and whatever does not fit the 1024 characters left empty; the path is not empty and
-- the file opens each time.
pub traces-set_trace_file :
    (crt : Crt) (can_delete : Bool) (date time path : List ℕ) (ms : List (List ℕ × List ℕ × List ℕ))
    (t : Tracer)
    → path ≢ []
    → content path (traces ms (set_trace_file crt can_delete true date time (some path) t)).files
      ≡ left_over can_delete path t.files ++ stamped_all ((date, time, trace_line crt path) ∷ ms)
unfolding set_trace_file
traces-set_trace_file crt can_delete date time path ms t n =
    traces-content ((date, time, trace_line crt path) ∷ ms)
      (record { trace_file = path; files = delete_file can_delete path t.files }) n
    ∙ rw (content-delete_file can_delete path t.files)
