-- ===== src/Examples/Data/Parameters.antt =====
-- A layout of the structures, text routines, constants and a system for the examples.
use virtual_capture_stream.Prelude.{
  ℕ, zero, suc, ◌≡◌, refl, Bool, true, false, List, [], ◌∷◌, Option, none, some, get_elem?, ◌==◌,
  ◌+◌, arith,
}
use virtual_capture_stream.Win.{Os, OsCall, ReadReply}
use virtual_capture_stream.MediaType.{AmMediaType, AllocatorProperties, Sdk}
use virtual_capture_stream.Sample.{MediaSampleInfo, zero_info}
use virtual_capture_stream.Wire.{Abi, IsFaithful}
use virtual_capture_stream.Crt.{Crt}

abbrev bit : Bool → ℕ
bit true = 1
bit false = 0

-- A layout with one cell for each member.
abbrev cells : MediaSampleInfo → List ℕ
cells x =
    x.actual_data_length
    ∷ x.media_time_start
    ∷ x.media_time_end
    ∷ x.time_start
    ∷ x.time_end
    ∷ x.time_offset
    ∷ x.media_time_offset
    ∷ x.size
    ∷ bit x.is_discontinuity
    ∷ bit x.is_preroll
    ∷ bit x.is_sync_point
    ∷ x.sample_properties
    ∷ []

abbrev of_cells : List ℕ → MediaSampleInfo
of_cells (a ∷ b ∷ c ∷ d ∷ e ∷ f ∷ g ∷ h ∷ i ∷ j ∷ k ∷ l ∷ []) = record {
  actual_data_length = a;
  media_time_start = b;
  media_time_end = c;
  time_start = d;
  time_end = e;
  time_offset = f;
  media_time_offset = g;
  size = h;
  is_discontinuity = i == 1;
  is_preroll = j == 1;
  is_sync_point = k == 1;
  sample_properties = l;
}
of_cells _ = zero_info

abbrev amt_of_cells : List ℕ → List ℕ → AmMediaType
amt_of_cells (a ∷ b ∷ c ∷ []) f = record { majortype = a; fields = b; cb_format = c; pb_format = f }
amt_of_cells _ f = record { majortype = 0; fields = 0; cb_format = 0; pb_format = f }

abbrev alloc_of_cells : List ℕ → AllocatorProperties
alloc_of_cells (a ∷ b ∷ c ∷ d ∷ []) = record {
  c_buffers = a;
  cb_buffer = b;
  cb_align = c;
  cb_prefix = d;
}
alloc_of_cells _ = record { c_buffers = 0; cb_buffer = 0; cb_align = 0; cb_prefix = 0 }

abbrev pub abi : Abi
abi = record {
  info_size = 12;
  info_bytes = cells;
  info_of = of_cells;
  amt_size = 3;
  amt_bytes = λ x. x.majortype ∷ x.fields ∷ x.cb_format ∷ [];
  amt_of = amt_of_cells;
  alloc_size = 4;
  alloc_bytes = λ x. x.c_buffers ∷ x.cb_buffer ∷ x.cb_align ∷ x.cb_prefix ∷ [];
  alloc_of = alloc_of_cells;
}

cells-back : (x : MediaSampleInfo) → of_cells (cells x) ≡ x
cells-back x = ground arith

pub abi-IsFaithful : IsFaithful abi
abi-IsFaithful = record {
  info_length = λ x. refl;
  info_back = cells-back;
  amt_length = λ x. refl;
  amt_back = λ x b. refl;
  alloc_length = λ x. refl;
  alloc_back = λ x. refl;
}

-- Text routines that change nothing, with one character for a number, and eight for a word.
abbrev pub crt : Crt
crt = record {
  w2a = λ t. t;
  a2w = λ t. t;
  format = λ t. t;
  format_int = λ n. n ∷ [];
  format_hex8 = λ n. 48 ∷ 48 ∷ 48 ∷ 48 ∷ 48 ∷ 48 ∷ 48 ∷ (48 + n) ∷ [];
}

abbrev pub sdk : Sdk
sdk = record {
  mediatype_video = 1;
  mediatype_audio = 2;
  mediatype_aux_line21_data = 3;
  iid_i_specify_property_pages = 4;
  iid_i_am_stream_config = 5;
  iid_i_ks_property_set = 6;
  iid_i_am_buffer_negotiation = 7;
  ampropsetid_pin = 8;
  amproperty_pin_category = 9;
  pin_category_capture = 10;
  ksproperty_support_get = 11;
}

-- The reads so far.
abbrev reads : List OsCall → ℕ
reads [] = 0
reads (OsCall.read_file h n ∷ cs) = suc (reads cs)
reads (_ ∷ cs) = reads cs

abbrev reply_of : Option (List ℕ) → ReadReply
reply_of none = record { success = false; bytes = [] }
reply_of (some m) = record { success = true; bytes = m }

abbrev nth_reply : List (List ℕ) → ℕ → ReadReply
nth_reply ms zero = reply_of none
nth_reply ms (suc k) = reply_of (get_elem? ms k)

-- A system where all goes well and the reads answer with these messages, and fail after them.
abbrev pub os_with : List (List ℕ) → Os
os_with ms = record {
  create_named_pipe_reply = λ cs. 20;
  create_thread_reply = λ cs. 21;
  create_file_reply = λ cs. 22;
  create_event_reply = λ cs. 23;
  wait_reply = λ cs. 0;
  last_error = λ cs. 0;
  connect_reply = λ cs. true;
  wait_named_pipe_reply = λ cs. true;
  set_state_reply = λ cs. true;
  read_reply = λ cs. nth_reply ms (reads cs);
}

abbrev pub os : Os
os = os_with []
