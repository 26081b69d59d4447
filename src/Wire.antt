-- ===== src/Wire.antt =====
-- The memory of the structures that go over the pipes as raw bytes. How the compiler lays a structure
-- out is a parameter (`Abi`); what the sources rely on is that `sizeof` bytes hold the structure,
-- and that the receiver finds in them what the sender stored.
use virtual_capture_stream.Prelude.{
  ℕ, ◌≡◌, ap, ◌∙◌, List, ◌++◌, append-nil, length, replicate, drop_all, length-replicate, overwrite,
  arith,
}
use virtual_capture_stream.Sample.{MediaSampleInfo}
use virtual_capture_stream.MediaType.{AmMediaType, AllocatorProperties}

-- `amt_bytes` holds the pointer `pbFormat` and not the block behind it, so what a reader finds has the
-- block that it gives itself.
pub record Abi : Type 0 where
  pub info_size : ℕ
  pub info_bytes : MediaSampleInfo → List ℕ
  pub info_of : List ℕ → MediaSampleInfo
  pub amt_size : ℕ
  pub amt_bytes : AmMediaType → List ℕ
  pub amt_of : List ℕ → List ℕ → AmMediaType
  pub alloc_size : ℕ
  pub alloc_bytes : AllocatorProperties → List ℕ
  pub alloc_of : List ℕ → AllocatorProperties

pub record IsFaithful (abi : Abi) : Type 0 where
  pub info_length : (x : MediaSampleInfo) → length (abi.info_bytes x) ≡ abi.info_size
  pub info_back : (x : MediaSampleInfo) → abi.info_of (abi.info_bytes x) ≡ x
  pub amt_length : (x : AmMediaType) → length (abi.amt_bytes x) ≡ abi.amt_size
  pub amt_back :
      (x : AmMediaType) (b : List ℕ) → abi.amt_of (abi.amt_bytes x) b ≡ record x { pb_format = b }
  pub alloc_length : (x : AllocatorProperties) → length (abi.alloc_bytes x) ≡ abi.alloc_size
  pub alloc_back : (x : AllocatorProperties) → abi.alloc_of (abi.alloc_bytes x) ≡ x

-- A read into a cleared structure: what the bytes do not cover stays zero.
unfoldable pub info_read : Abi → List ℕ → MediaSampleInfo
info_read abi bytes = abi.info_of (overwrite bytes (replicate abi.info_size 0))

-- A whole header that arrives is the header that was sent.
pub info_read-info_bytes :
    (abi : Abi) → IsFaithful abi → (x : MediaSampleInfo) → info_read abi (abi.info_bytes x) ≡ x
unfolding info_read
info_read-info_bytes abi v x =
    ap (λ rest. abi.info_of (abi.info_bytes x ++ rest))
      (drop_all (length (abi.info_bytes x)) (replicate abi.info_size 0)
        (omega (arith, v.info_length x, length-replicate abi.info_size (let z : ℕ = 0 in z))))
    ∙ ap abi.info_of (append-nil (abi.info_bytes x))
    ∙ v.info_back x
