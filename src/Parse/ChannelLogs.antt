-- ===== src/Parse/ChannelLogs.antt =====
-- `ProcessEvent` on the messages of the log that name a channel or a goroutine's parent, and
-- `parseChNameMessage`.
use Prim.Native.Char.{Char, code}
use gtv_final_submission.Prelude.Dict.{lookup, insert, erase, or_zero}
use gtv_final_submission.Prelude.Int.{ℤ, pos, int_eq}
use gtv_final_submission.Prelude.Text.{trim_space, split_first, fields, starts_with, drop_text}
use gtv_final_submission.Prelude.{
  String, Bool, ◌&&◌, ◌||◌, nat_beq, Option, none, some, List, [], ◌∷◌, ◌==◌, string_eq,
  if◌then◌else◌,
}
use gtv_final_submission.Timeline.{Millis, zero_event}
use gtv_final_submission.Parse.Fresh.{count_at}
use gtv_final_submission.Parse.Machine.{Callback, M, ◌>>=◌, ◌>>◌, get_state, modify, emit, attempt}
use gtv_final_submission.Parse.Region.{RegionOp, parse_region_op}
use gtv_final_submission.Parse.State.{ParseState}

-- The text up to the first of the blanks " \t\n".
until_blank : String → String
until_blank String.[] = ""
until_blank (String.◌∷◌ c s) =
    let rest = until_blank s in
    if nat_beq (code c) 32 || (nat_beq (code c) 9 || nat_beq (code c) 10)
    then ""
    else String.◌∷◌ c rest

is_quote : Char → Bool
is_quote c = nat_beq (code c) 34 || nat_beq (code c) 39

quotes_skipped : String → String
unfolding is_quote
quotes_skipped String.[] = ""
quotes_skipped (String.◌∷◌ c s) =
    let rest = quotes_skipped s in if is_quote c then rest else String.◌∷◌ c s

quotes_cut : String → String
unfolding is_quote
quotes_cut String.[] = ""
quotes_cut (String.◌∷◌ c s) =
    let rest = quotes_cut s in if is_quote c && (rest == "") then "" else String.◌∷◌ c rest

abbrev pub first_of : List String → String
first_of [] = ""
first_of (w ∷ ws) = w

-- The channel that a region's label names, if it names one.
abbrev pub region_channel : String → RegionOp → String
region_channel name none = name
region_channel name (some (kind, ch)) = if ch == "" then name else ch

-- The text behind the key; none if the key is not in the message.
abbrev pub behind : String → String → Option String
behind key msg = elim (split_first msg key) [ none ↦ none | some (before, rest) ↦ some rest ]

unfoldable pub parse_ch_name_message : String → String × String
unfolding quotes_skipped quotes_cut
parse_ch_name_message message =
    let msg = trim_space message in
    let ptr : String = elim (behind "ptr=" msg) [
      | none ↦ ""
      | some rest ↦ first_of (fields (trim_space rest))
    ] in
    let name : String = elim (behind "name=" msg) [
      | none ↦ ""
      | some rest ↦ quotes_cut (quotes_skipped (trim_space rest))
    ] in
    if msg == ""
    then ("", "")
    else (ptr, if name == "" then "" else region_channel name (parse_region_op name))

-- The pointer behind "ptr=", or the text that is given.
unfoldable pub logged_ptr : String → String → String
unfolding until_blank
logged_ptr otherwise msg = elim (behind "ptr=" msg) [
  | none ↦ otherwise
  | some rest ↦ until_blank (trim_space rest)
]

module _ (gid : ℤ) where
  unfoldable pub note_ch_ptr : String → ParseState → ParseState
  note_ch_ptr ptr st = if ptr == "" then st else record st {
    channel_names = record st.channel_names {
      last_ch_ptr_by_g = insert gid ptr st.last_ch_ptr_by_g;
      last_ch_ptr_seq_by_g = insert gid (count_at gid st.event_index_by_g) st.last_ch_ptr_seq_by_g;
    };
  }

  unfoldable pub note_ch_name : String → ParseState → ParseState
  note_ch_name name st = if name == "" then st else record st {
    channel_names = record st.channel_names {
      last_ch_name_by_g = insert gid name st.last_ch_name_by_g;
      last_ch_name_seq_by_g =
          insert gid (count_at gid st.event_index_by_g) st.last_ch_name_seq_by_g;
    };
  }

  abbrev pub note_mapping : String → String → ParseState → ParseState
  note_mapping ptr name st = if (ptr == "") || (name == "") then st else record st {
    channel_names = record st.channel_names {
      channel_name_by_ptr = insert ptr name st.channel_name_by_ptr;
    };
  }

  -- The categories "ch_ptr" and "ch_name".
  unfoldable pub log_ch_ptr : String → ParseState → ParseState
  log_ch_ptr message = let msg = trim_space message in note_ch_ptr (logged_ptr msg msg)

  unfoldable pub log_ch_name : String → ParseState → ParseState
  log_ch_name message st =
      let msg = trim_space message in
      let p = parse_ch_name_message msg in
      let name = if p.1 == "" then msg else p.1 in
      if msg == "" then st else note_mapping p.0 name (note_ch_name name st)

module _ (cb : Callback) (gid : ℤ) (ts : Millis) where
  -- The category "chan_close".
  unfoldable pub log_chan_close : String → M (Unit {0})
  log_chan_close message = do
    st ← get_state
    let msg = trim_space message
    let ptr = logged_ptr msg msg
    attempt (
        emit cb (record zero_event {
          time_ms = ts;
          event = "chan_close";
          g = gid;
          role = or_zero "" (lookup gid st.roles);
          channel_key = ptr;
          ch_ptr = ptr;
          source = "log";
        }))

-- The id behind "sid=" in a message, or the text that is given.
unfoldable pub spawn_id : String → String → String
spawn_id otherwise msg =
    let word = first_of (fields msg) in
    if starts_with msg "sid="
    then trim_space (drop_text 4 msg)
    else if starts_with word "sid="
    then trim_space (drop_text 4 word)
    else otherwise

-- The category "spawn_parent".
unfoldable pub log_spawn_parent : ℤ → String → ParseState → ParseState
log_spawn_parent gid message st =
    let msg = trim_space message in
    if msg == ""
    then st
    else record st { spawn_parent_by_sid = insert (spawn_id msg msg) gid st.spawn_parent_by_sid }

-- The category "spawn_child": the parent is told once.
unfoldable pub log_spawn_child : Callback → ℤ → Millis → String → M (Unit {0})
log_spawn_child cb gid ts message = do
  st ← get_state
  let sid = spawn_id "" (trim_space message)
  modify (λ s.
      if sid == "" then s else record s { spawn_parent_by_sid = erase sid s.spawn_parent_by_sid })
  attempt (
      emit cb (record zero_event {
        time_ms = ts;
        event = "spawn";
        g = gid;
        parent_g = or_zero (pos 0) (lookup sid st.spawn_parent_by_sid);
        role = or_zero "" (lookup gid st.roles);
        source = "log";
      }))
