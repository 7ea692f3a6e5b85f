-- ===== src/Parse/Fresh.antt =====
-- The pointer and the name of the channel that a goroutine has logged before a region begins: they
-- are meant to be used once, and only while the log is recent.
use gtv_final_submission.Prelude.Dict.{Dict, lookup, insert, erase, or_zero, lookup-erase_self}
use gtv_final_submission.Prelude.Int.{ℤ, pos, int_eq, ◌+ℤ◌, ◌-ℤ◌, leb_ℤ}
use gtv_final_submission.Prelude.{String, none, some, ◌≡◌, ◌==◌, arith, if◌then◌else◌}
use gtv_final_submission.Parse.State.{ParseState}

-- `m[gid]` of a map of integers.
abbrev pub count_at : ℤ → Dict ℤ ℤ → ℤ
count_at gid m = or_zero (pos 0) (lookup gid m)

abbrev pub forget_ch_ptr : ℤ → ParseState → ParseState
forget_ch_ptr gid st = record st {
  channel_names = record st.channel_names {
    last_ch_ptr_by_g = erase gid st.last_ch_ptr_by_g;
    last_ch_ptr_seq_by_g = erase gid st.last_ch_ptr_seq_by_g;
  };
}

abbrev pub forget_ch_name : ℤ → ParseState → ParseState
forget_ch_name gid st = record st {
  channel_names = record st.channel_names {
    last_ch_name_by_g = erase gid st.last_ch_name_by_g;
    last_ch_name_seq_by_g = erase gid st.last_ch_name_seq_by_g;
  };
}

-- The text, and the state that has forgotten it.
unfoldable pub consume_fresh_ch_ptr : ℤ → ParseState → String × ParseState
unfolding ◌-ℤ◌
consume_fresh_ch_ptr gid st = elim (lookup gid st.last_ch_ptr_by_g) [
  | none ↦ ("", st)
  | some ptr ↦
      let seq = count_at gid st.last_ch_ptr_seq_by_g in
      if seq == pos 0
      then (ptr, forget_ch_ptr gid st)
      else if leb_ℤ (count_at gid st.event_index_by_g -ℤ seq) (pos 6)
      then (ptr, forget_ch_ptr gid st)
      else ("", forget_ch_ptr gid st)
]

unfoldable pub peek_fresh_ch_ptr : ℤ → ParseState → String
unfolding ◌-ℤ◌
peek_fresh_ch_ptr gid st = elim (lookup gid st.last_ch_ptr_by_g) [
  | none ↦ ""
  | some ptr ↦
      let seq = count_at gid st.last_ch_ptr_seq_by_g in
      if seq == pos 0
      then ptr
      else if leb_ℤ (count_at gid st.event_index_by_g -ℤ seq) (pos 6)
      then ptr
      else ""
]

unfoldable pub consume_fresh_ch_name : ℤ → ParseState → String × ParseState
unfolding ◌-ℤ◌
consume_fresh_ch_name gid st = elim (lookup gid st.last_ch_name_by_g) [
  | none ↦ ("", st)
  | some name ↦
      let seq = count_at gid st.last_ch_name_seq_by_g in
      if seq == pos 0
      then (name, forget_ch_name gid st)
      else if leb_ℤ (count_at gid st.event_index_by_g -ℤ seq) (pos 6)
      then (name, forget_ch_name gid st)
      else ("", forget_ch_name gid st)
]

unfoldable pub peek_fresh_ch_name : ℤ → ParseState → String
unfolding ◌-ℤ◌
peek_fresh_ch_name gid st = elim (lookup gid st.last_ch_name_by_g) [
  | none ↦ ""
  | some name ↦
      let seq = count_at gid st.last_ch_name_seq_by_g in
      if seq == pos 0
      then name
      else if leb_ℤ (count_at gid st.event_index_by_g -ℤ seq) (pos 6)
      then name
      else ""
]

unfoldable pub bump_event_index : ℤ → ParseState → ParseState
unfolding ◌+ℤ◌
bump_event_index gid st = record st {
  channel_names = record st.channel_names {
    event_index_by_g = insert gid (count_at gid st.event_index_by_g +ℤ pos 1) st.event_index_by_g;
  };
}

-- What is used is what was seen, of the pointer and of the name, and it is used once: whatever
-- became of the log, the goroutine has no pointer and no name left.
pub consume_once :
    (gid : ℤ) (st : ParseState)
    → let p = consume_fresh_ch_ptr gid st in
      let q = consume_fresh_ch_name gid st in
      (p.0 ≡ peek_fresh_ch_ptr gid st)
      × (q.0 ≡ peek_fresh_ch_name gid st)
      × (lookup gid p.1.last_ch_ptr_by_g ≡ none)
      × (lookup gid q.1.last_ch_name_by_g ≡ none)
      × (peek_fresh_ch_ptr gid p.1 ≡ "")
      × (peek_fresh_ch_name gid q.1 ≡ "")
unfolding consume_fresh_ch_ptr peek_fresh_ch_ptr consume_fresh_ch_name peek_fresh_ch_name
consume_once gid st =
    ground
      (arith, lookup-erase_self gid st.last_ch_ptr_by_g, lookup-erase_self gid st.last_ch_name_by_g)
