-- ===== src/MediaType.antt =====
-- Media types and allocator properties, as the filters pass them on. The identifiers that the
-- sources take from the SDK are a parameter (`Sdk`), those of src/global.h are written out.
use virtual_capture_stream.Prelude.{ℕ, List}

-- `AM_MEDIA_TYPE`: `fields` stands for the members that the sources never read by name, the pointers
-- among them; `pb_format` is the format block that the pointer leads to.
pub record AmMediaType : Type 0 where
  pub majortype : ℕ
  pub fields : ℕ
  pub cb_format : ℕ
  pub pb_format : List ℕ

-- `ALLOCATOR_PROPERTIES`.
pub record AllocatorProperties : Type 0 where
  pub c_buffers : ℕ
  pub cb_buffer : ℕ
  pub cb_align : ℕ
  pub cb_prefix : ℕ

-- Identifiers of the SDK.
pub record Sdk : Type 0 where
  pub mediatype_video : ℕ
  pub mediatype_audio : ℕ
  pub mediatype_aux_line21_data : ℕ
  pub iid_i_specify_property_pages : ℕ
  pub iid_i_am_stream_config : ℕ
  pub iid_i_ks_property_set : ℕ
  pub iid_i_am_buffer_negotiation : ℕ
  pub ampropsetid_pin : ℕ
  pub amproperty_pin_category : ℕ
  pub pin_category_capture : ℕ
  pub ksproperty_support_get : ℕ
