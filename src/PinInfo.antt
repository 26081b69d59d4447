-- ===== src/PinInfo.antt =====
-- The message by which the sink describes one of its pins: written in `PipeOutMediaTypes`
-- (src/VirtualStreamSink.cpp), read in `CreateOutputPins` (src/VirtualStreamSource.cpp).
use virtual_capture_stream.Prelude.{
  ℕ, zero, suc, take-behind, ◌+◌, ◌<◌, ◌≤◌, length-take, ◌≡◌, refl, ap, ◌∙◌, List, [], ◌∷◌, ◌++◌,
  append-nil, length, length-append, length-replicate, length-drop, take, drop, replicate,
  take-append, drop-append, take_all, drop_all, overwrite, ◌==◌, if◌then◌else◌, arith,
}
use virtual_capture_stream.MediaType.{AmMediaType, AllocatorProperties}
use virtual_capture_stream.Wire.{Abi, IsFaithful}
use virtual_capture_stream.Crt.{Crt, Lacks, IsPlainName}

-- `szPinName`: the ANSI name in a cleared field of 100 bytes.
unfoldable pub name_field : Crt → List ℕ → List ℕ
name_field crt name = overwrite (crt.w2a name) (replicate 100 0)

-- `cbPinInfoBytes` bytes: name, media type, allocator properties, format block.
unfoldable pub write_pin_info : Crt → Abi → List ℕ → AmMediaType → AllocatorProperties → List ℕ
unfolding name_field
write_pin_info crt abi name amt props =
    name_field crt name
    ++ (abi.amt_bytes amt ++ (abi.alloc_bytes props ++ take amt.cb_format amt.pb_format))

-- The text before the first zero byte.
unfoldable pub until_zero : List ℕ → List ℕ
until_zero [] = []
until_zero (x ∷ xs) = if x == 0 then [] else x ∷ until_zero xs

-- What the source makes an output pin from.
pub record PinInfo : Type 0 where
  pub pin_name : List ℕ
  pub amt : AmMediaType
  pub alloc_props : AllocatorProperties

-- A format block of `n` cleared bytes, overwritten by what the stream still has.
abbrev read_format : ℕ → List ℕ → List ℕ
read_format n rest = overwrite (take n rest) (replicate n 0)

unfoldable pub read_pin_info : Crt → Abi → List ℕ → PinInfo
unfolding until_zero
read_pin_info crt abi msg =
    let amt_part = take abi.amt_size (drop 100 msg) in
    let rest = drop abi.amt_size (drop 100 msg) in
    let n = (abi.amt_of amt_part []).cb_format in
    record {
      pin_name = crt.format (crt.a2w (until_zero (take 100 msg)));
      amt = abi.amt_of amt_part (read_format n (drop abi.alloc_size rest));
      alloc_props = abi.alloc_of (take abi.alloc_size rest);
    }

-- The reader finds the text that stands before the zeros.
until_zero-field :
    (name : List ℕ) (n : ℕ)
    → Lacks 0 name
    → length name < n
    → until_zero (overwrite name (replicate n 0)) ≡ name
unfolding until_zero
until_zero-field [] zero h lt = elim lt [ ]
until_zero-field [] (suc n) h lt = refl
until_zero-field (x ∷ xs) zero h lt = elim lt [ ]
until_zero-field (x ∷ xs) (suc n) h lt = ground (arith, until_zero-field xs n h.1 (omega arith))

pub name_field-length :
    (crt : Crt) (name : List ℕ) → length (crt.w2a name) < 100 → length (name_field crt name) ≡ 100
unfolding name_field
name_field-length crt name lt = omega (
  arith,
  length-append (crt.w2a name) (drop (length (crt.w2a name)) (replicate 100 zero)),
  length-drop (length (crt.w2a name)) (replicate 100 zero),
  length-replicate 100 zero,
)

-- A message with the bytes `format` behind the allocator properties.
abbrev pub described : Crt → Abi → List ℕ → AmMediaType → AllocatorProperties → List ℕ → List ℕ
described crt abi name amt props format =
    name_field crt name ++ (abi.amt_bytes amt ++ (abi.alloc_bytes props ++ format))

pub length-described :
    (crt : Crt) (abi : Abi) (name : List ℕ) (amt : AmMediaType) (props : AllocatorProperties)
    (format : List ℕ)
    → IsFaithful abi
    → length (crt.w2a name) < 100
    → length (described crt abi name amt props format)
      ≡ 100 + (abi.amt_size + (abi.alloc_size + length format))
length-described crt abi name amt props format v lt = omega (
  arith,
  length-append (name_field crt name) (abi.amt_bytes amt ++ (abi.alloc_bytes props ++ format)),
  length-append (abi.amt_bytes amt) (abi.alloc_bytes props ++ format),
  length-append (abi.alloc_bytes props) format,
  name_field-length crt name lt,
  v.amt_length amt,
  v.alloc_length props,
)

-- A message that is cut off in the format bytes.
pub take-described :
    (crt : Crt) (abi : Abi) (name : List ℕ) (amt : AmMediaType) (props : AllocatorProperties)
    (format : List ℕ) (n k : ℕ)
    → IsFaithful abi
    → length (crt.w2a name) < 100
    → n ≡ 100 + (abi.amt_size + (abi.alloc_size + k))
    → take n (described crt abi name amt props format)
      ≡ described crt abi name amt props (take k format)
take-described crt abi name amt props format n k v lt e =
    take-behind n (abi.amt_size + (abi.alloc_size + k)) (name_field crt name) _
      (omega (arith, name_field-length crt name lt))
    ∙ ap (λ l. name_field crt name ++ l)
        (take-behind (abi.amt_size + (abi.alloc_size + k)) (abi.alloc_size + k) (abi.amt_bytes amt)
            _ (omega (arith, v.amt_length amt))
          ∙ ap (λ l. abi.amt_bytes amt ++ l)
              (take-behind (abi.alloc_size + k) k (abi.alloc_bytes props) format
                (omega (arith, v.alloc_length props))))

-- The four parts of a message.
record Parts (crt : Crt) (abi : Abi) (name : List ℕ) (amt : AmMediaType)
    (props : AllocatorProperties) (format msg : List ℕ) : Type 0 where
  field_part : take 100 msg ≡ name_field crt name
  amt_part : take abi.amt_size (drop 100 msg) ≡ abi.amt_bytes amt
  alloc_part : take abi.alloc_size (drop abi.amt_size (drop 100 msg)) ≡ abi.alloc_bytes props
  format_part : drop abi.alloc_size (drop abi.amt_size (drop 100 msg)) ≡ format

described-Parts :
    (crt : Crt) (abi : Abi) (name : List ℕ) (amt : AmMediaType) (props : AllocatorProperties)
    (format : List ℕ)
    → IsFaithful abi
    → length (crt.w2a name) < 100
    → Parts crt abi name amt props format (described crt abi name amt props format)
described-Parts crt abi name amt props format v lt = record {
  field_part = take-append 100 (name_field crt name) behind_name named;
  amt_part =
      rw unnamed (take-append abi.amt_size (abi.amt_bytes amt) behind_amt (v.amt_length amt));
  alloc_part =
      rw (unnamed, untyped)
        (take-append abi.alloc_size (abi.alloc_bytes props) format (v.alloc_length props));
  format_part =
      rw (unnamed, untyped)
        (drop-append abi.alloc_size (abi.alloc_bytes props) format (v.alloc_length props));
}
  where
    behind_amt : List ℕ
    behind_amt = abi.alloc_bytes props ++ format

    behind_name : List ℕ
    behind_name = abi.amt_bytes amt ++ behind_amt

    named : length (name_field crt name) ≡ 100
    named = name_field-length crt name lt

    unnamed : drop 100 (name_field crt name ++ behind_name) ≡ behind_name
    unnamed = drop-append 100 (name_field crt name) behind_name named

    untyped : drop abi.amt_size behind_name ≡ behind_amt
    untyped = drop-append abi.amt_size (abi.amt_bytes amt) behind_amt (v.amt_length amt)

-- What the source makes of a message whose format bytes may be fewer than the type states: the rest of
-- the block is cleared.
pub read_pin_info-described :
    (crt : Crt) (abi : Abi) (name : List ℕ) (amt : AmMediaType) (props : AllocatorProperties)
    (format : List ℕ)
    → IsFaithful abi
    → IsPlainName crt name
    → length (crt.w2a name) < 100
    → length format ≤ amt.cb_format
    → read_pin_info crt abi (described crt abi name amt props format) ≡ record {
      pin_name = name;
      amt = record amt { pb_format = overwrite format (replicate amt.cb_format 0) };
      alloc_props = props;
    }
unfolding read_pin_info name_field
read_pin_info-described crt abi name amt props format v plain lt le =
    rw (parts.field_part, parts.amt_part, parts.alloc_part, parts.format_part)
      (rw (read_name, plain.converts, plain.formats, v.amt_back amt [], whole)
        (rw (v.amt_back amt (overwrite format (replicate amt.cb_format 0)))
          (rw (v.alloc_back props))))
  where
    parts : Parts crt abi name amt props format (described crt abi name amt props format)
    parts = described-Parts crt abi name amt props format v lt

    read_name : until_zero (name_field crt name) ≡ crt.w2a name
    read_name = until_zero-field (crt.w2a name) 100 plain.no_zero lt

    whole : take amt.cb_format format ≡ format
    whole = take_all amt.cb_format format le

-- A read of as many bytes as there are fills the block.
read_format_all : (n : ℕ) (l : List ℕ) → length l ≡ n → read_format n l ≡ l
read_format_all n l e =
    ap (λ t. overwrite t (replicate n 0)) (take_all n l (omega arith))
    ∙ ap (◌++◌ l) (drop_all (length l) (replicate n 0) (omega (arith, length-replicate n zero)))
    ∙ append-nil l

-- The source rebuilds a pin's name, media type with its format block and allocator properties from
-- the message that the sink writes, for a name that survives the conversions and is shorter than 100
-- bytes, and a format block of the length that the type states.
pub read_pin_info-write_pin_info :
    (crt : Crt) (abi : Abi) (name : List ℕ) (amt : AmMediaType) (props : AllocatorProperties)
    → IsFaithful abi
    → IsPlainName crt name
    → length (crt.w2a name) < 100
    → length amt.pb_format ≡ amt.cb_format
    → read_pin_info crt abi (write_pin_info crt abi name amt props)
      ≡ record { pin_name = name; amt = amt; alloc_props = props }
unfolding write_pin_info
read_pin_info-write_pin_info crt abi name amt props v plain lt e =
    read_pin_info-described crt abi name amt props (take amt.cb_format amt.pb_format) v plain lt
      (omega (arith, length-take amt.cb_format amt.pb_format))
    ∙ ap
        (λ (b : List ℕ).
          let info : PinInfo = record {
            pin_name = name;
            amt = record amt { pb_format = b };
            alloc_props = props;
          } in
          info)
        (read_format_all amt.cb_format amt.pb_format e)
