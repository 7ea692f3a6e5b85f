-- ===== src/Parse/Finalize.antt =====
-- `finalizePendingGoroutines`: the end of a trace decides on the goroutines that still wait. The
-- order in which a range visits the goroutines is a parameter.
use gtv_final_submission.Prelude.Dict.{
  lookup, or_zero, is_some, keys, lookup-erase_self, lookup-insert_self,
}
use gtv_final_submission.Prelude.Int.{ℤ, int_eq}
use gtv_final_submission.Prelude.Text.{contains}
use gtv_final_submission.Prelude.{
  String, true, some, List, [], ◌∷◌, if◌then◌else◌, ◌≡◌, ◌∙◌, ap, refl, inl, inr, Bool-cases,
  Option-cases, string_eq,
}
use gtv_final_submission.Timeline.{GoroutineFilterMode}
use gtv_final_submission.Parse.Goroutines.{
  on_goroutines, mark_goroutine_interested, ensure_role, set_role, role_for_name, pending_name,
  has_channel_ops,
}
use gtv_final_submission.Parse.Machine.{inc_audit}
use gtv_final_submission.Parse.State.{ParseState}

-- The goroutine is kept; its name is looked up behind the deletion.
unfoldable pub keep_goroutine : String → ℤ → ParseState → ParseState
unfolding mark_goroutine_interested ensure_role role_for_name
keep_goroutine fallback gid st =
    let marked = mark_goroutine_interested gid st in
    ensure_role gid (role_for_name (pending_name gid marked) fallback) marked

unfoldable pub keep_or_drop : ℤ → ParseState → ParseState
unfolding has_channel_ops keep_goroutine inc_audit
keep_or_drop gid st =
    if has_channel_ops gid st
    then keep_goroutine "worker" gid st
    else inc_audit "goroutine_lifecycle_filtered_by_missing_ops" st

abbrev pub for_each : (ℤ → ParseState → ParseState) → List ℤ → ParseState → ParseState
for_each f [] st = st
for_each f (gid ∷ gids) st = for_each f gids (f gid st)

abbrev pub clear_pending : ParseState → ParseState
clear_pending = on_goroutines λ gs. record gs { pending_goroutines = [] }

abbrev pub decide : GoroutineFilterMode → List ℤ → ParseState → ParseState
decide GoroutineFilterMode.legacy gids st = st
decide GoroutineFilterMode.all gids st = for_each (keep_goroutine "unknown") gids st
decide GoroutineFilterMode.ops gids st = for_each keep_or_drop gids st

unfoldable pub finalize_pending_goroutines : (List ℤ → List ℤ) → ParseState → ParseState
unfolding keep_or_drop
finalize_pending_goroutines order st =
    let audited = on_goroutines (λ gs. record gs { pending_goroutines_audited = true }) st in
    if st.pending_goroutines_audited
    then st
    else clear_pending (decide st.opt.goroutine_filter (order (keys st.pending_goroutines)) audited)

-- The flag stays as it is.
keep_goroutine-audited :
    (fallback : String) (gid : ℤ) (st : ParseState)
    → (keep_goroutine fallback gid st).pending_goroutines_audited ≡ st.pending_goroutines_audited
unfolding keep_goroutine ensure_role set_role mark_goroutine_interested
keep_goroutine-audited fallback gid st = elim (Bool-cases (is_some (lookup gid st.roles))) [
  | inl e ↦ rw (e, keep_goroutine) refl
  | inr e ↦ rw (e, keep_goroutine) refl
]

keep_or_drop-audited :
    (gid : ℤ) (st : ParseState)
    → (keep_or_drop gid st).pending_goroutines_audited ≡ st.pending_goroutines_audited
unfolding keep_or_drop inc_audit
keep_or_drop-audited gid st = elim (Bool-cases (has_channel_ops gid st)) [
  | inl e ↦ rw (e, keep_or_drop) (keep_goroutine-audited "worker" gid st)
  | inr e ↦ rw (e, keep_or_drop) refl
]

for_each-audited :
    (f : ℤ → ParseState → ParseState)
    → ((gid : ℤ) (st : ParseState)
        → (f gid st).pending_goroutines_audited ≡ st.pending_goroutines_audited)
    → (gids : List ℤ) (st : ParseState)
    → (for_each f gids st).pending_goroutines_audited ≡ st.pending_goroutines_audited
for_each-audited f h [] st = refl
for_each-audited f h (gid ∷ gids) st = for_each-audited f h gids (f gid st) ∙ h gid st

decide-audited :
    (mode : GoroutineFilterMode) (gids : List ℤ) (st : ParseState)
    → (decide mode gids st).pending_goroutines_audited ≡ st.pending_goroutines_audited
decide-audited GoroutineFilterMode.legacy gids st = refl
decide-audited GoroutineFilterMode.all gids st =
    for_each-audited (keep_goroutine "unknown") (keep_goroutine-audited "unknown") gids st
decide-audited GoroutineFilterMode.ops gids st =
    for_each-audited keep_or_drop keep_or_drop-audited gids st

finalize_audited :
    (order : List ℤ → List ℤ) (st : ParseState)
    → st.pending_goroutines_audited ≡ true
    → finalize_pending_goroutines order st ≡ st
unfolding finalize_pending_goroutines
finalize_audited order st e = rw (e, finalize_pending_goroutines) refl

finalize-audited :
    (order : List ℤ → List ℤ) (st : ParseState)
    → (finalize_pending_goroutines order st).pending_goroutines_audited ≡ true
unfolding finalize_pending_goroutines
finalize-audited order st = elim (Bool-cases st.pending_goroutines_audited) [
  | inl e ↦ rw (finalize_audited order st e) e
  | inr e ↦
      rw (e, finalize_pending_goroutines)
        (decide-audited st.opt.goroutine_filter (order (keys st.pending_goroutines))
          (on_goroutines (λ gs. record gs { pending_goroutines_audited = true }) st))
]

-- The end of a trace is decided once: a second call changes nothing; and the first one leaves no
-- goroutine that waits.
pub finalize_once :
    (order : List ℤ → List ℤ) (st : ParseState)
    → let st' = finalize_pending_goroutines order st in
      (finalize_pending_goroutines order st' ≡ st')
      × ((if st.pending_goroutines_audited then st.pending_goroutines else [])
          ≡ st'.pending_goroutines)
unfolding finalize_pending_goroutines
finalize_once order st = (
  finalize_audited order (finalize_pending_goroutines order st) (finalize-audited order st),
  elim (Bool-cases st.pending_goroutines_audited) [
    | inl e ↦ rw (e, finalize_pending_goroutines) refl
    | inr e ↦ rw (e, finalize_pending_goroutines) refl
  ],
)

role_for_name_blank : (fallback : String) → role_for_name "" fallback ≡ fallback
unfolding role_for_name contains
role_for_name_blank fallback = refl

ensure_role-lookup :
    (gid : ℤ) (role : String) (st : ParseState)
    → lookup gid (ensure_role gid role st).roles ≡ some (or_zero role (lookup gid st.roles))
unfolding ensure_role set_role
ensure_role-lookup gid role st = elim (Option-cases (lookup gid st.roles)) [
  | inl e ↦ rw (e, ensure_role) (lookup-insert_self gid role st.roles)
  | inr (r, e) ↦ rw (e, ensure_role) e
]

marked_name : (gid : ℤ) (st : ParseState) → pending_name gid (mark_goroutine_interested gid st) ≡ ""
unfolding mark_goroutine_interested
marked_name gid st = rw (lookup-erase_self gid st.pending_goroutines, pending_name) refl

-- A goroutine that is kept has the fallback as its role if it had none, whatever its name is, since
-- the name is looked up after it was deleted.
pub keep_goroutine_role :
    (fallback : String) (gid : ℤ) (st : ParseState)
    → lookup gid (keep_goroutine fallback gid st).roles
      ≡ some (or_zero fallback (lookup gid st.roles))
unfolding keep_goroutine mark_goroutine_interested
keep_goroutine_role fallback gid st =
    let marked : ParseState = mark_goroutine_interested gid st in
    let role : String = role_for_name (pending_name gid marked) fallback in
    let same : role ≡ fallback =
      ap (λ name. role_for_name name fallback) (marked_name gid st)
      ∙ role_for_name_blank fallback in
    ensure_role-lookup gid role marked ∙ ap (λ r. some (or_zero r (lookup gid st.roles))) same
