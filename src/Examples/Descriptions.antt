-- ===== src/Examples/Descriptions.antt =====
-- Examples for a description that is longer than the source's buffer.
use virtual_capture_stream.Prelude.{
  ℕ, ◌≡◌, refl, false, List, [], ◌∷◌, ◌++◌, some, take, replicate, length, length-replicate,
  length-take, arith,
}
use virtual_capture_stream.Win.{Os, OsCall, s_ok, error_more_data}
use virtual_capture_stream.PipeClient.{open_pipe, client_pipe_name, pipehost}
use virtual_capture_stream.PinInfo.{write_pin_info, length-described}
use virtual_capture_stream.Sink.{SinkPin}
use virtual_capture_stream.Sink.Publish.{pin_message}
use virtual_capture_stream.Source.{Source, create_output_pins, bufsize}
use virtual_capture_stream.Source.Rebuild.{mirrors}
use virtual_capture_stream.Source.Oversize.{IsOversize, cropped, create_output_pins-cut_short}
use virtual_capture_stream.Examples.Data.{
  abi, abi-IsFaithful, crt, os_with, video_type, props, listed, raw, unmade,
}

-- A pin with the format block `b`.
abbrev large_with : List ℕ → SinkPin
large_with b = record (listed 2) {
  pin = record (listed 2).pin { mt = record video_type { cb_format = 100000; pb_format = b } };
}

large_with-IsOversize : (b : List ℕ) → length b ≡ 100000 → IsOversize crt abi (large_with b)
unfolding pin_message write_pin_info
large_with-IsOversize b e = record {
  plain = record { converts = refl; no_zero = ground arith; formats = refl };
  short = omega arith;
  whole = e;
  room = omega arith;
  large = omega (
    arith,
    length-described crt abi (65 ∷ []) (large_with b).pin.mt props (take 100000 b) abi-IsFaithful
        (omega arith),
    length-take 100000 b,
    e,
  );
}

-- The format block alone fills the buffer.
abbrev block : List ℕ
block = replicate 100000 7

abbrev large : SinkPin
large = large_with block

block-length : length block ≡ 100000
block-length = length-replicate 100000 (let seven : ℕ = 7 in seven)

-- The pipe holds its beginning only.
abbrev cropping_os : Os
cropping_os = record (os_with []) {
  last_error = λ cs. error_more_data;
  read_reply = λ cs. record { success = false; bytes = take bufsize (pin_message crt abi large) };
}

create_output_pins-cut_short_example :
    (t : Source) × (create_output_pins cropping_os crt abi raw 1 (83 ∷ []) unmade ≡ some (s_ok, t))
    × (t.pin_list ≡ mirrors raw [] ++ cropped abi raw large ∷ [])
unfolding open_pipe
create_output_pins-cut_short_example =
    create_output_pins-cut_short cropping_os crt abi raw 22 abi-IsFaithful [] large 1 (83 ∷ [])
      unmade (OsCall.create_file (client_pipe_name pipehost (83 ∷ [])) ∷ []) tt
      (large_with-IsOversize block block-length) (omega arith) refl refl tt
      (record { reply = refl; error = refl })
