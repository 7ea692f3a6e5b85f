-- ===== src/Normalize/Entities.antt =====
-- `buildEntitiesFromTimeline`: the goroutines and the channels of a timeline; and
-- `computeCapabilities`.
use mathlib.Core.List.{◌++◌ as append}
use gtv_final_submission.Prelude.Dict.{Dict, lookup, insert, or_zero}
use gtv_final_submission.Prelude.Int.{ℤ, pos, ltb_ℤ, int_eq}
use gtv_final_submission.Prelude.Sort.{sort_by, values}
use gtv_final_submission.Prelude.Members.{member}
use gtv_final_submission.Prelude.Text.{to_lower, trim_space}
use gtv_final_submission.Prelude.{
  String, Bool, true, not, ◌&&◌, ◌||◌, Option, none, some, List, [], ◌∷◌, ◌==◌, string_eq,
  if◌then◌else◌,
}
use gtv_final_submission.Timeline.{TimelineEvent}
use gtv_final_submission.Timeline.Kinds.{one_of, timeline_channel_identity, is_channel_event}
use gtv_final_submission.Prelude.TextOrder.{text_ltb}

pub record GoroutineEntity : Type 0 where
  pub gid : ℤ
  pub parent_gid : ℤ
  pub func : String
  pub role : String

pub record ChannelEntity : Type 0 where
  pub chan_id : String
  pub name : String
  pub elem_type : String
  pub capacity : ℤ
  pub ch_ptr : String
  pub aliases : List String

pub record EntitiesTable : Type 0 where
  pub goroutines : List GoroutineEntity
  pub channels : List ChannelEntity

-- The zero values that a map returns for a key that is missing.
abbrev pub no_goroutine : GoroutineEntity
no_goroutine = record { gid = pos 0; parent_gid = pos 0; func = ""; role = "" }

abbrev pub no_channel : ChannelEntity
no_channel = record {
  chan_id = "";
  name = "";
  elem_type = "";
  capacity = pos 0;
  ch_ptr = "";
  aliases = [];
}

abbrev pub first_text : String → String → String
first_text old new = if old == "" then new else old

abbrev pub first_number : ℤ → ℤ → ℤ
first_number old new = if old == pos 0 then new else old

unfoldable pub update_goroutine : TimelineEvent → GoroutineEntity → GoroutineEntity
update_goroutine ev ge = record {
  gid = first_number ge.gid ev.g;
  parent_gid = first_number ge.parent_gid ev.parent_g;
  func = first_text ge.func ev.func;
  role = first_text ge.role ev.role;
}

unfoldable pub add_goroutine : Dict ℤ GoroutineEntity → TimelineEvent → Dict ℤ GoroutineEntity
add_goroutine gs ev =
    if ev.g == pos 0
    then gs
    else insert ev.g (update_goroutine ev (or_zero no_goroutine (lookup ev.g gs))) gs

-- The closure `addAlias`.
unfoldable pub add_alias : String → List String → List String
add_alias alias known =
    let a = trim_space alias in if (a == "") || member a known then known else append known (a ∷ [])

unfoldable pub update_channel : String → TimelineEvent → ChannelEntity → ChannelEntity
update_channel id ev ce =
    let is_make = ev.event == "chan_make" in
    record {
      chan_id = first_text ce.chan_id id;
      ch_ptr = first_text ce.ch_ptr ev.ch_ptr;
      name = first_text ce.name ev.channel;
      aliases = add_alias ev.ch_ptr (add_alias ev.channel_key (add_alias ev.channel ce.aliases));
      elem_type = if is_make then first_text ce.elem_type ev.elem_type else ce.elem_type;
      capacity =
          if is_make && ltb_ℤ (pos 0) ev.capacity
          then first_number ce.capacity ev.capacity
          else ce.capacity;
    }

unfoldable pub add_channel : Dict String ChannelEntity → TimelineEvent → Dict String ChannelEntity
add_channel chs ev =
    let name = to_lower ev.event in
    let id = timeline_channel_identity ev in
    if (is_channel_event name || one_of ("chan_make" ∷ "chan_close" ∷ []) name) && not (id == "")
    then insert id (update_channel id ev (or_zero no_channel (lookup id chs))) chs
    else chs

unfoldable pub collect :
    Dict ℤ GoroutineEntity × Dict String ChannelEntity
    → List TimelineEvent
    → Dict ℤ GoroutineEntity × Dict String ChannelEntity
collect m [] = m
collect m (ev ∷ evs) = collect (add_goroutine m.0 ev, add_channel m.1 ev) evs

abbrev pub lower_gid : GoroutineEntity → GoroutineEntity → Bool
lower_gid g h = ltb_ℤ g.gid h.gid

abbrev pub lower_chan_id : ChannelEntity → ChannelEntity → Bool
lower_chan_id c d = text_ltb c.chan_id d.chan_id

abbrev pub tables : Dict ℤ GoroutineEntity × Dict String ChannelEntity → EntitiesTable
tables m = record {
  goroutines = sort_by lower_gid (values m.0);
  channels = sort_by lower_chan_id (values m.1);
}

unfoldable pub build_entities_from_timeline : List TimelineEvent → Option EntitiesTable
build_entities_from_timeline [] = none
build_entities_from_timeline (ev ∷ evs) = some (tables (collect ([], []) (ev ∷ evs)))

-- A set of strings, as the sorted list that sort.Strings makes of its keys.
unfoldable pub place_text : String → List String → List String
place_text s [] = s ∷ []
place_text s (t ∷ ts) =
    let rest = place_text s ts in
    if s == t then t ∷ ts else if text_ltb s t then s ∷ t ∷ ts else t ∷ rest

abbrev pub set_if : Bool → String → List String → List String
set_if b s caps = if b then place_text s caps else caps

abbrev pub name_capability : String → List String → List String
name_capability name caps =
    if name == "spawn"
    then place_text "spawn_edges" caps
    else if name == "chan_depth"
    then place_text "chan_depth" caps
    else if one_of ("select_case" ∷ "select_chosen" ∷ "select_begin" ∷ "select_end" ∷ []) name
    then place_text "select_cases" caps
    else if one_of
        ("chan_send_attempt" ∷ "chan_recv_attempt" ∷ "chan_send_commit" ∷ "chan_recv_commit" ∷ [])
        name
    then place_text "attempt_commit" caps
    else if one_of ("blocked_send" ∷ "blocked_receive" ∷ "go_block" ∷ "go_unblock" ∷ []) name
    then place_text "blocking_events" caps
    else if one_of ("goroutine_created" ∷ "goroutine_started" ∷ "go_start" ∷ []) name
    then place_text "goroutine_lifecycle" caps
    else caps

unfoldable pub event_capabilities : TimelineEvent → List String → List String
event_capabilities ev caps =
    set_if (not (ev.block_kind == "") || not (ev.unblock_kind == "")) "block_kind" (
      set_if (not (ev.role == "")) "roles" (
        set_if (not (ev.file == "") && ltb_ℤ (pos 0) ev.line) "file_line"
          (name_capability (to_lower ev.event) caps)))

unfoldable pub collect_capabilities : List String → List TimelineEvent → List String
collect_capabilities caps [] = caps
collect_capabilities caps (ev ∷ evs) = collect_capabilities (event_capabilities ev caps) evs

abbrev pub has_alias : List ChannelEntity → Bool
has_alias [] = Bool.false
has_alias (c ∷ cs) = elim c.aliases [ [] ↦ has_alias cs | a ∷ as' ↦ true ]

abbrev pub alias_capability : Option EntitiesTable → List String → List String
alias_capability none caps = caps
alias_capability (some t) caps = set_if (has_alias t.channels) "channel_aliases" caps

unfoldable pub compute_capabilities : List TimelineEvent → Option EntitiesTable → List String
compute_capabilities [] entities = []
compute_capabilities (ev ∷ evs) entities =
    alias_capability entities (collect_capabilities [] (ev ∷ evs))
