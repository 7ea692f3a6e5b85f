-- ===== src/Parse/Helpers.antt =====
-- Small operations on the parse state, and the names of what blocks a goroutine.
use mathlib.Core.List.{◌++◌ as append}
use gtv_final_submission.Prelude.Dict.{lookup, insert, or_zero}
use gtv_final_submission.Prelude.Int.{ℤ, pos, int_eq, ◌+ℤ◌, leb_ℤ, ltb_ℤ}
use gtv_final_submission.Prelude.Text.{to_lower, trim_space, contains}
use gtv_final_submission.Prelude.{
  ℕ, String, Bool, true, false, not, ◌&&◌, List, [], ◌∷◌, length, leb, ◌==◌, string_eq, text_eq,
  length-append, if◌then◌else◌, ◌≡◌, ◌≤◌, ◌⊎◌, inl, inr, refl, sym, arith, Bool-cases,
}
use gtv_final_submission.Timeline.{Millis}
use gtv_final_submission.Timeline.Kinds.{one_of}
use gtv_final_submission.Parse.State.{ParseState}

abbrev known_reason : String → String
known_reason reason = if trim_space reason == "" then "unknown" else reason

unfoldable pub add_blocked_duration : ℤ → String → Millis → ParseState → ParseState
unfolding ◌+ℤ◌
add_blocked_duration gid reason delta st = if leb_ℤ delta (pos 0) then st else record st {
  blocking = record st.blocking {
    blocked_total_ms =
        insert gid (or_zero (pos 0) (lookup gid st.blocked_total_ms) +ℤ delta) st.blocked_total_ms;
    blocked_total_by_reason =
        insert (known_reason reason)
          (or_zero (pos 0) (lookup (known_reason reason) st.blocked_total_by_reason) +ℤ delta)
          st.blocked_total_by_reason;
  };
}

unfoldable pub mark_progress : Millis → ParseState → ParseState
mark_progress ts st = record st {
  blocking = record st.blocking {
    last_progress_ms = if ltb_ℤ st.last_progress_ms ts then ts else st.last_progress_ms;
  };
}

unfoldable pub sync_wait_kind_from_runtime_reason : String → String
sync_wait_kind_from_runtime_reason reason =
    let lr = to_lower (trim_space reason) in
    if contains lr "rwmutex" && contains lr "rlock"
    then "rwmutex_rlock"
    else if contains lr "rwmutex" && contains lr "lock"
    then "rwmutex_lock"
    else if contains lr "mutex" && contains lr "lock"
    then "mutex_lock"
    else if contains lr "waitgroup"
    then "wg_wait"
    else if contains lr "cond"
    then "cond_wait"
    else ""

abbrev sync_wait_kinds : List String
sync_wait_kinds = "mutex_lock" ∷ "rwmutex_lock" ∷ "rwmutex_rlock" ∷ "wg_wait" ∷ "cond_wait" ∷ []

unfoldable pub is_sync_wait_kind : String → Bool
is_sync_wait_kind kind = one_of sync_wait_kinds kind

unfoldable pub unblock_kind_from_reason : String → String
unblock_kind_from_reason reason =
    if reason == "send"
    then "chan_send"
    else if reason == "recv"
    then "chan_recv"
    else if one_of ("chan_send" ∷ "chan_recv" ∷ sync_wait_kinds) reason
    then reason
    else "unknown"

abbrev pub max_samples : ℕ
max_samples = 20

unfoldable pub note_unparsed_region : String → ParseState → ParseState
note_unparsed_region label st =
    if label == ""
    then st
    else if leb max_samples (length st.unparsed_region_samples)
    then st
    else record st { unparsed_region_samples = append st.unparsed_region_samples (label ∷ []) }

-- The cause where no buffer is to blame.
abbrev idle_cause : String → String
idle_cause kind =
    if kind == "send" then "no_receiver" else if kind == "recv" then "no_sender" else "unknown"

-- The cause, the capacity and the number of messages in the buffer.
unfoldable pub block_cause_for : String → String → ParseState → String × ℤ × ℤ
block_cause_for kind ch_ptr st =
    let cap = or_zero (pos 0) (lookup ch_ptr st.cap_by_ptr) in
    let len = or_zero (pos 0) (lookup ch_ptr st.depth_by_ptr) in
    if ch_ptr == ""
    then ("unknown", pos 0, pos 0)
    else if ltb_ℤ (pos 0) cap && ((kind == "send") && leb_ℤ cap len)
    then ("buffer_full", cap, len)
    else if ltb_ℤ (pos 0) cap && ((kind == "recv") && leb_ℤ len (pos 0))
    then ("buffer_empty", cap, len)
    else (idle_cause kind, cap, len)

abbrev pub IsUnblocked : String → Type 0
IsUnblocked kind =
    (kind ≡ "") ⊎ ((is_sync_wait_kind kind ≡ true) × (unblock_kind_from_reason kind ≡ kind))

-- A synchronization that a runtime reason stands for, if any, is one that a goroutine waits for, and
-- the goroutine is unblocked under the same kind.
sync_wait_kind_unblocks :
    (reason : String) → IsUnblocked (sync_wait_kind_from_runtime_reason reason)
unfolding sync_wait_kind_from_runtime_reason is_sync_wait_kind unblock_kind_from_reason
sync_wait_kind_unblocks reason =
    let lr = to_lower (trim_space reason) in
    elim (Bool-cases (contains lr "rwmutex" && contains lr "rlock")) [
      | inl e ↦ rw (e, sync_wait_kind_from_runtime_reason) (inr (refl, refl))
      | inr e ↦ elim (Bool-cases (contains lr "rwmutex" && contains lr "lock")) [
        | inl f ↦ rw (e, f, sync_wait_kind_from_runtime_reason) (inr (refl, refl))
        | inr f ↦ elim (Bool-cases (contains lr "mutex" && contains lr "lock")) [
          | inl g ↦ rw (e, f, g, sync_wait_kind_from_runtime_reason) (inr (refl, refl))
          | inr g ↦ elim (Bool-cases (contains lr "waitgroup")) [
            | inl h ↦ rw (e, f, g, h, sync_wait_kind_from_runtime_reason) (inr (refl, refl))
            | inr h ↦ elim (Bool-cases (contains lr "cond")) [
              | inl i ↦ rw (e, f, g, h, i, sync_wait_kind_from_runtime_reason) (inr (refl, refl))
              | inr i ↦ rw (e, f, g, h, i, sync_wait_kind_from_runtime_reason) (inl refl)
            ]
          ]
        ]
      ]
    ]

-- What the maps of the state hold for a channel, by its pointer.
abbrev pub has_capacity : String → ParseState → ℤ
has_capacity ptr st = or_zero (pos 0) (lookup ptr st.cap_by_ptr)

abbrev pub holds : String → ParseState → ℤ
holds ptr st = or_zero (pos 0) (lookup ptr st.depth_by_ptr)

abbrev pub has_buffer : String → ParseState → Bool
has_buffer ptr st = not (ptr == "") && ltb_ℤ (pos 0) (has_capacity ptr st)

-- The causes that name the buffer of a channel, and the two numbers reported with them.
abbrev pub IsCause : String → String → ParseState → String × ℤ × ℤ → Type 0
IsCause kind ptr st (cause, cap, len) =
    ((cause == "buffer_full")
      ≡ (has_buffer ptr st && ((kind == "send") && leb_ℤ (has_capacity ptr st) (holds ptr st))))
    × ((cause == "buffer_empty")
        ≡ (has_buffer ptr st && ((kind == "recv") && leb_ℤ (holds ptr st) (pos 0))))
    × (cap ≡ (if ptr == "" then pos 0 else has_capacity ptr st))
    × (len ≡ (if ptr == "" then pos 0 else holds ptr st))

idle_cause_lem :
    (kind : String)
    → ((idle_cause kind == "buffer_full") ≡ false) × ((idle_cause kind == "buffer_empty") ≡ false)
idle_cause_lem kind = elim (Bool-cases (kind == "send")) [
  | inl e ↦ rw e (refl, refl)
  | inr e ↦ elim (Bool-cases (kind == "recv")) [
    | inl f ↦ rw (e, f) (refl, refl)
    | inr f ↦ rw (e, f) (refl, refl)
  ]
]

middle_true : (c s p : Bool) → (c && (s && p)) ≡ true → s ≡ true
middle_true c s p h = ground arith

and_false : (c : Bool) → (c && false) ≡ false
and_false c = ground arith

not_both :
    (kind : String) (c p q : Bool)
    → (c && ((kind == "send") && p)) ≡ true
    → (c && ((kind == "recv") && q)) ≡ false
not_both kind c p q h =
    rw ((text_eq kind "send").0 (middle_true c (kind == "send") p h)) (and_false c)

-- A goroutine is blocked by a full buffer exactly where it sends on a channel with a buffer that
-- holds as many messages as fit, and by an empty one exactly where it receives from a channel with a
-- buffer that holds none; what is reported with the cause is the channel's capacity and the number
-- of its messages, and 0 for both where there is no pointer.
pub block_cause_for_sound :
    (kind ch_ptr : String) (st : ParseState)
    → IsCause kind ch_ptr st (block_cause_for kind ch_ptr st)
unfolding block_cause_for
block_cause_for_sound kind ch_ptr st =
    let c : Bool = ltb_ℤ (pos 0) (has_capacity ch_ptr st) in
    let full : Bool = (kind == "send") && leb_ℤ (has_capacity ch_ptr st) (holds ch_ptr st) in
    let empty : Bool = (kind == "recv") && leb_ℤ (holds ch_ptr st) (pos 0) in
    elim (Bool-cases (ch_ptr == "")) [
      | inl e ↦ rw (e, block_cause_for) (refl, refl, refl, refl)
      | inr e ↦ elim (Bool-cases (c && full)) [
        | inl f ↦ rw (e, f, block_cause_for) (refl, sym (not_both kind c _ _ f), refl, refl)
        | inr f ↦ elim (Bool-cases (c && empty)) [
          | inl g ↦ rw (e, f, g, block_cause_for) (refl, refl, refl, refl)
          | inr g ↦
              let (not_full, not_empty) = idle_cause_lem kind in
              rw (e, f, g, block_cause_for) (not_full, not_empty, refl, refl)
        ]
      ]
    ]

-- If at most 20 labels are kept, at most 20 are after one more is noted.
note_unparsed_region_bounded :
    (label : String) (st : ParseState)
    → length st.unparsed_region_samples ≤ max_samples
    → length (note_unparsed_region label st).unparsed_region_samples ≤ max_samples
unfolding note_unparsed_region
note_unparsed_region_bounded label st h =
    ground (arith, length-append st.unparsed_region_samples (label ∷ []))
