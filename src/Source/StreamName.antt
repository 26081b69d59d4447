-- ===== src/Source/StreamName.antt =====
-- Which stream the source filter attaches to (the constructor in src/VirtualStreamSource.cpp).
use virtual_capture_stream.Prelude.{ℕ, ◌≡◌, ◌≢◌, refl, List, [], ◌∷◌, ◌++◌, none, some, arith}
use virtual_capture_stream.Crt.{Lacks}
use virtual_capture_stream.Source.{choose_stream_name, find_text, stream_option, behind_option}

-- The option is found behind a text without a slash.
find_text-behind :
    (pre t : List ℕ)
    → Lacks 47 pre
    → find_text stream_option (pre ++ (stream_option ++ t)) ≡ some (stream_option ++ t)
unfolding find_text
find_text-behind [] t h = refl
find_text-behind (c ∷ pre) t h = ground (arith, find_text-behind pre t h.1)

-- Without the environment variable, the stream's name is everything that follows `/stream` and one more
-- character on the command line, when no slash stands before the option and the rest is not empty.
pub choose_stream_name-command_line :
    (pre name : List ℕ) (c : ℕ)
    → Lacks 47 pre
    → name ≢ []
    → choose_stream_name [] (pre ++ (stream_option ++ c ∷ name)) ≡ some name
unfolding choose_stream_name
choose_stream_name-command_line pre name c h n =
    rw (find_text-behind pre (c ∷ name) h, behind_option) (ground arith)

-- A command line that ends with the option makes the constructor read past the end of the text.
choose_stream_name-past_end :
    (pre : List ℕ) → Lacks 47 pre → choose_stream_name [] (pre ++ stream_option) ≡ none
unfolding choose_stream_name
choose_stream_name-past_end pre h = rw (find_text-behind pre [] h, behind_option)
