-- ===== src/Audit/Blocked.antt =====
-- `auditSummaryEvent`: for how long goroutines have been blocked.
use Prim.Native.String.{◌++◌}
use mathlib.Core.List.{◌++◌ as append}
use gtv_final_submission.Prelude.Dict.{Dict, lookup, insert, or_zero}
use gtv_final_submission.Prelude.Int.{ℤ, pos, ltb_ℤ, ◌+ℤ◌, ◌-ℤ◌, int_eq}
use gtv_final_submission.Prelude.Sort.{sort_by}
use gtv_final_submission.Prelude.Text.{show_ℤ}
use gtv_final_submission.Prelude.{
  ℕ, zero, suc, String, Bool, List, [], ◌∷◌, ◌==◌, string_eq, if◌then◌else◌,
}
use gtv_final_submission.Timeline.{Millis, Fields, durations, millis}
use gtv_final_submission.Parse.State.{ParseState}
use gtv_final_submission.Unmatched.{set_field}

-- The variables of the loops: a goroutine with a time, and the times by their reasons.
pub record Waits : Type 0 where
  pub items : List (ℤ × Millis)
  pub by_reason : Dict String Millis

-- How long the present block has lasted.
abbrev pub present : ParseState → Millis → Millis
present st begun =
    let delta = st.last_time_ms -ℤ begun in if ltb_ℤ delta (pos 0) then pos 0 else delta

abbrev known_reason : String → String
known_reason reason = if reason == "" then "unknown" else reason

-- A goroutine that is blocked is listed with its total and the present block.
unfoldable pub add_present : ParseState → Dict ℤ Millis → Waits → Waits
add_present st [] w = w
add_present st ((gid, begun) ∷ m) w =
    let delta = present st begun in
    let reason = known_reason (or_zero "" (lookup gid st.blocked_reason_by_g)) in
    add_present st m (record {
      items =
          append w.items ((gid, delta +ℤ or_zero (pos 0) (lookup gid st.blocked_total_ms)) ∷ []);
      by_reason = insert reason (or_zero (pos 0) (lookup reason w.by_reason) +ℤ delta) w.by_reason;
    })

-- The goroutines that were blocked, and after them those that are.
unfoldable pub waits : ParseState → Waits
waits st =
    add_present st st.blocked_at
      (record { items = st.blocked_total_ms; by_reason = st.blocked_total_by_reason })

abbrev pub longer : ℤ × Millis → ℤ × Millis → Bool
longer a b = ltb_ℤ b.1 a.1

abbrev pub first_items : ℕ → List (ℤ × Millis) → List (ℤ × Millis)
first_items zero l = []
first_items (suc n) [] = []
first_items (suc n) (i ∷ l) = i ∷ first_items n l

unfoldable pub longest : Millis → List (ℤ × Millis) → Millis
longest most [] = most
longest most (i ∷ l) = longest (if ltb_ℤ most i.1 then i.1 else most) l

unfoldable pub top_of : Dict String Millis → List (ℤ × Millis) → Dict String Millis
top_of top [] = top
top_of top (i ∷ l) = top_of (insert ("g" ++ show_ℤ i.0) i.1 top) l

-- The five longest.
abbrev pub top_items : ParseState → List (ℤ × Millis)
top_items st = first_items 5 (sort_by longer (waits st).items)

abbrev pub if_any {ℓ} : {A : Type ℓ} → List A → (Fields → Fields) → Fields → Fields
if_any [] f fs = fs
if_any (x ∷ xs) f fs = f fs

unfoldable pub add_blocked : ParseState → Fields → Fields
add_blocked st fs =
    let items = top_items st in
    let top = top_of [] items in
    let most = longest (pos 0) items in
    let fs1 = if ltb_ℤ (pos 0) most then set_field "max_blocked_ms" (millis most) fs else fs in
    let fs2 = if_any top (set_field "blocked_total_ms_by_gid" (durations top)) fs1 in
    if_any (waits st).by_reason
      (set_field "blocked_total_ms_by_reason" (durations (waits st).by_reason)) fs2
