-- ===== src/Registration.antt =====
-- The filters that the module offers and how it registers them (src/global.cpp, identifiers of
-- src/global.h and src/VirtualStreamSinkPropertyPage.h). What COM and the filter mapper answer is a
-- parameter.
use virtual_capture_stream.Prelude.{
  ℕ, Bool, true, false, List, [], ◌∷◌, ◌++◌, Option, none, some, not, ◌&&◌, ◌==◌, if◌then◌else◌,
  take,
}
use virtual_capture_stream.Win.{s_ok, e_outofmemory, e_pointer, failed}

abbrev pub clsid_virtual_stream_sink : ℕ
clsid_virtual_stream_sink = 0x3c0ca9d9c46842dea7d5fbf61cd31f15

abbrev pub clsid_virtual_stream_source : ℕ
clsid_virtual_stream_source = 0xe35d2ef8fae34c188985950889af920d

abbrev pub clsid_property_page : ℕ
clsid_property_page = 0x2f92f7746086464cb23d7ff3e6490dd8

abbrev pub iid_i_virtual_stream_sink : ℕ
iid_i_virtual_stream_sink = 0xd2d430a6db144d2bb382b4e2cfbba5c4

abbrev pub iid_i_virtual_stream_source : ℕ
iid_i_virtual_stream_source = 0x72fea19017da419f885a43b80edefa7c

-- The major type of a pin in the registration tables.
pub data Major : Type 0 where
  video audio line21 : Major

-- The members of `AMOVIESETUP_PIN` that vary.
pub record SetupPin : Type 0 where
  pub is_output : Bool
  pub major : Major

abbrev pub psud_sink_pin_set : List SetupPin
psud_sink_pin_set =
    record { is_output = false; major = video }
    ∷ record { is_output = false; major = audio }
    ∷ record { is_output = false; major = line21 }
    ∷ []

abbrev pub psud_source_pin_set : List SetupPin
psud_source_pin_set =
    record { is_output = true; major = video }
    ∷ record { is_output = true; major = audio }
    ∷ record { is_output = true; major = line21 }
    ∷ []

-- The members of `AMOVIESETUP_FILTER`, but for the name and the merit.
pub record SetupFilter : Type 0 where
  pub clsid : ℕ
  pub pin_count : ℕ
  pub pins : List SetupPin

abbrev pub sud_virtual_stream_sink : SetupFilter
sud_virtual_stream_sink = record {
  clsid = clsid_virtual_stream_sink;
  pin_count = 3;
  pins = psud_sink_pin_set;
}

abbrev pub sud_virtual_stream_source : SetupFilter
sud_virtual_stream_source = record {
  clsid = clsid_virtual_stream_source;
  pin_count = 3;
  pins = psud_source_pin_set;
}

-- What a template's `CreateInstance` makes.
pub data Product : Type 0 where
  sink_filter property_page source_filter : Product

pub record Template : Type 0 where
  pub clsid : ℕ
  pub product : Product
  pub setup : Option SetupFilter

abbrev pub g_templates : List Template
g_templates =
    record {
      clsid = clsid_virtual_stream_sink;
      product = sink_filter;
      setup = some sud_virtual_stream_sink;
    }
    ∷ record { clsid = clsid_property_page; product = property_page; setup = none }
    ∷ record {
      clsid = clsid_virtual_stream_source;
      product = source_filter;
      setup = some sud_virtual_stream_source;
    }
    ∷ []

pub data RegCall : Type 0 where
  co_initialize co_uninitialize co_free_unused_libraries create_mapper : RegCall
  register_server : Bool → RegCall
  -- The filter's class and the pins that are registered with it.
  register_filter : ℕ → List SetupPin → RegCall
  unregister_video unregister_audio : ℕ → RegCall

-- The codes that the calls return.
pub record RegReplies : Type 0 where
  pub co_initialize_hr : ℕ
  pub register_server_hr : ℕ
  pub create_mapper_hr : ℕ
  pub register_filter_hr : ℕ
  pub unregister_audio_hr : ℕ

-- The server is told first, when the filters are registered.
abbrev with_server : RegReplies → Bool → ℕ × List RegCall → ℕ × List RegCall
with_server r b (hr, cs) =
    if not (failed hr) && b
    then (r.register_server_hr, cs ++ register_server true ∷ [])
    else (hr, cs)

-- Then the mapper, if there is one: of the source filter with two of its pins, or that it is gone from
-- both categories, where the code of the last call counts.
abbrev with_mapper : RegReplies → Bool → ℕ × List RegCall → ℕ × List RegCall
with_mapper r b (hr, cs) =
    if failed hr
    then (hr, cs)
    else if failed r.create_mapper_hr
    then (r.create_mapper_hr, cs ++ create_mapper ∷ [])
    else if b
    then (
      r.register_filter_hr,
      cs
          ++ create_mapper
            ∷ register_filter clsid_virtual_stream_source (take 2 psud_source_pin_set)
            ∷ [],
    )
    else (
      r.unregister_audio_hr,
      cs
          ++ create_mapper
            ∷ unregister_video clsid_virtual_stream_source
            ∷ unregister_audio clsid_virtual_stream_source
            ∷ [],
    )

-- The server is told last, when they are unregistered.
abbrev without_server : RegReplies → Bool → ℕ × List RegCall → ℕ × List RegCall
without_server r b (hr, cs) =
    if not (failed hr) && not b
    then (r.register_server_hr, cs ++ register_server false ∷ [])
    else (hr, cs)

abbrev finished : ℕ × List RegCall → ℕ × List RegCall
finished (hr, cs) = (hr, cs ++ co_free_unused_libraries ∷ co_uninitialize ∷ [])

unfoldable pub register_filters : RegReplies → Bool → ℕ × List RegCall
register_filters r b = finished (
    without_server r b (with_mapper r b (with_server r b (r.co_initialize_hr, co_initialize ∷ []))))

-- `u` are the answers while the old registration is removed; its code is dropped.
unfoldable pub dll_register_server : RegReplies → RegReplies → ℕ × List RegCall
unfolding register_filters
dll_register_server u r =
    let removed = register_filters u false in
    let made = register_filters r true in (made.0, removed.1 ++ made.1)

unfoldable pub dll_unregister_server : RegReplies → ℕ × List RegCall
unfolding register_filters
dll_unregister_server r = register_filters r false

-- `entry` is `DllEntryPoint` of the base library, by module, reason and reserved pointer.
unfoldable pub dll_main : (ℕ → ℕ → ℕ → Bool) → ℕ → ℕ → ℕ → Bool
dll_main entry module_handle reason reserved = entry module_handle reason reserved

-- `CreateInstance` of the sink filter: the code, if the caller asks for it, by whether there is memory.
unfoldable pub create_instance : Bool → Bool → Option ℕ
create_instance has_memory asked =
    if asked then (if has_memory then some s_ok else some e_outofmemory) else none

-- `GetPages` of the sink filter (src/VirtualStreamSink.cpp): the code, and what is stored, the number of
-- pages and the page in the block that `CoTaskMemAlloc` returns, 0 for no memory. `given` says whether
-- there is an output pointer.
unfoldable pub get_pages : Bool → ℕ → ℕ × Option (ℕ × Option ℕ)
get_pages given pages =
    if given
    then (if pages == 0
        then (e_outofmemory, some (1, none))
        else (s_ok, some (1, some clsid_property_page)))
    else (e_pointer, none)

-- The calls of a registration, which stops where one of the four that may fail does.
abbrev pub calls_made : RegReplies → List RegCall
calls_made r =
    if failed r.co_initialize_hr
    then []
    else register_server true
      ∷ (if failed r.register_server_hr
          then []
          else create_mapper
            ∷ (if failed r.create_mapper_hr
                then []
                else register_filter clsid_virtual_stream_source (take 2 psud_source_pin_set) ∷ []))
