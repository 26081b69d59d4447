-- ===== src/InputPin/Copy.antt =====
-- The copy that the sink keeps of a sample (`CMediaSampleX` of src/MediaSampleX.h), against what the
-- write thread reads from it.
use virtual_capture_stream.Prelude.{
  ℕ, ◌≤◌, ◌≡◌, true, List, ◌++◌, some, length, length-append, length-take, length-drop, take, drop,
  take-append, overwrite, is_pos32, arith, Option-cases, inl, inr,
}
use virtual_capture_stream.Sample.{IMediaSample, Memory, new_sample}
use virtual_capture_stream.InputPin.Write.{payload}

-- `malloc` gives a block of the size asked for, or none.
abbrev pub GivesBlocks : Memory → Type 0
GivesBlocks m = (n : ℕ) (block : List ℕ) → m.malloc n ≡ some block → length block ≡ n

overwritten-length :
    (n : ℕ) (bytes block : List ℕ)
    → length block ≡ n
    → length (take n bytes ++ drop (length (take n bytes)) block) ≡ n
overwritten-length n bytes block e = omega (
  arith,
  length-append (take n bytes) (drop (length (take n bytes)) block),
  length-take n bytes,
  length-drop (length (take n bytes)) block,
)

-- The write thread never reads past a sample's buffer: of every sample that the constructor made, the
-- data has as many bytes as the length says, also when there was no memory or no source pointer.
pub payload-new_sample :
    (m : Memory) (track : ℕ) (s : IMediaSample)
    → GivesBlocks m
    → is_pos32 (new_sample m track s).actual_data_length ≡ true
    → length (payload (new_sample m track s)) ≡ (new_sample m track s).actual_data_length
unfolding payload new_sample
payload-new_sample m track s g pos = elim (Option-cases (m.malloc s.get_actual_data_length)) [
  | inl nothing ↦ ground arith
  | inr (block, given) ↦ elim (Option-cases s.get_pointer) [
    | inl unset ↦
        ground (
          arith,
          length-take s.get_actual_data_length block,
          g s.get_actual_data_length block given,
        )
    | inr (bytes, pointed) ↦ ground (
      arith,
      length-take s.get_actual_data_length (overwrite (take s.get_actual_data_length bytes) block),
      overwritten-length s.get_actual_data_length bytes block
          (g s.get_actual_data_length block given),
    )
  ]
]

-- With memory and a source pointer to enough bytes, the data that the write thread reads is the source's.
pub payload-new_sample_copied :
    (m : Memory) (track : ℕ) (s : IMediaSample) (block bytes : List ℕ)
    → GivesBlocks m
    → is_pos32 s.get_actual_data_length ≡ true
    → m.malloc s.get_actual_data_length ≡ some block
    → s.get_pointer ≡ some bytes
    → s.get_actual_data_length ≤ length bytes
    → payload (new_sample m track s) ≡ take s.get_actual_data_length bytes
unfolding payload new_sample
payload-new_sample_copied m track s block bytes g pos given pointed enough = ground (
  arith,
  take-append s.get_actual_data_length (take s.get_actual_data_length bytes)
      (drop (length (take s.get_actual_data_length bytes)) block)
      (omega (arith, length-take s.get_actual_data_length bytes)),
)
