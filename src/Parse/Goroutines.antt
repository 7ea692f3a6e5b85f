-- ===== src/Parse/Goroutines.antt =====
-- The lifecycle of a goroutine: its events are held back until it is known to be of interest.
use gtv_final_submission.Prelude.Dict.{
  lookup, insert, erase, or_zero, is_some, lookup-erase_self, lookup-insert_self,
}
use gtv_final_submission.Prelude.Int.{ℤ, pos, int_eq}
use gtv_final_submission.Prelude.Text.{contains}
use gtv_final_submission.Prelude.{
  String, Bool, true, ◌||◌, none, some, ◌==◌, string_eq, if◌then◌else◌, ◌≡◌, refl, inl, inr,
  Bool-cases, ap, ◌≢◌,
}
use gtv_final_submission.Timeline.{Millis, TimelineEvent, GoroutineFilterMode, zero_event}
use gtv_final_submission.Parse.Machine.{
  Callback, Machine, M, Outcome, done, ◌>>=◌, ◌>>◌, skip, get_state, modify, emit, attempt,
}
use gtv_final_submission.Parse.Select.{new_id, draw_id}
use gtv_final_submission.Parse.State.{ParseState, Goroutines, PendingGoroutine}

abbrev pub on_goroutines : (Goroutines → Goroutines) → ParseState → ParseState
on_goroutines f st = record st { goroutines = f st.goroutines }

unfoldable pub mark_goroutine_interested : ℤ → ParseState → ParseState
mark_goroutine_interested gid = on_goroutines λ gs. record gs {
  interested = insert gid tt gs.interested;
  pending_goroutines = erase gid gs.pending_goroutines;
}

unfoldable pub set_role : ℤ → String → ParseState → ParseState
set_role gid role = on_goroutines λ gs. record gs {
  roles = insert gid role gs.roles;
  last_main_g = if role == "main" then gid else gs.last_main_g;
  last_worker_g = if role == "worker" then gid else gs.last_worker_g;
  last_server_g = if role == "server" then gid else gs.last_server_g;
  last_client_g = if role == "client" then gid else gs.last_client_g;
}

unfoldable pub ensure_role : ℤ → String → ParseState → ParseState
unfolding set_role
ensure_role gid role st = if is_some (lookup gid st.roles) then st else set_role gid role st

-- The names of the program's own goroutines; the modes but "all" agree.
abbrev pub is_workload : String → Bool
is_workload name = (name == "main.main") || contains name "/workload."

unfoldable pub should_track_goroutine : GoroutineFilterMode → String → Bool
should_track_goroutine GoroutineFilterMode.legacy name = is_workload name
should_track_goroutine GoroutineFilterMode.all name = true
should_track_goroutine GoroutineFilterMode.ops name = is_workload name

unfoldable pub role_for_name : String → String → String
role_for_name name fallback =
    if name == "main.main"
    then "main"
    else if contains name "/workload."
    then "worker"
    else fallback

unfoldable pub has_channel_ops : ℤ → ParseState → Bool
has_channel_ops gid st =
    is_some (lookup gid st.active)
    || (is_some (lookup gid st.last)
        || (is_some (lookup gid st.last_ch_ptr_by_g) || is_some (lookup gid st.last_ch_name_by_g)))

abbrev pub shown_name : PendingGoroutine → String
shown_name p = if p.name == "" then "?" else p.name

-- `st.pendingGoroutines[gid].name`: the name of a goroutine that does not wait is empty.
abbrev pub pending_name : ℤ → ParseState → String
pending_name gid st = elim (lookup gid st.pending_goroutines) [ none ↦ "" | some p ↦ p.name ]

abbrev pub lifecycle_event : String → Millis → ℤ → PendingGoroutine → String → TimelineEvent
lifecycle_event event t gid p role = record zero_event {
  time_ms = t;
  event = event;
  g = gid;
  func = shown_name p;
  role = role;
  source = "state";
}

-- The change of the state of a goroutine that an operation shows to be of interest.
unfoldable pub take_interest : ℤ → String → ParseState → ParseState
unfolding mark_goroutine_interested ensure_role role_for_name
take_interest gid fallback st =
    ensure_role gid (role_for_name (pending_name gid st) fallback)
      (mark_goroutine_interested gid st)

module _ (cb : Callback) (gid : ℤ) where
  -- The event of the atomic mode, whose id is drawn.
  abbrev pub atomic_start : PendingGoroutine → String → M (Unit {0})
  atomic_start p role = do
    st ← get_state
    modify draw_id
    attempt (
        emit cb (record (lifecycle_event "go_start" p.started_at gid p role) {
          id = new_id "g" st;
          parent_g = if shown_name p == "main.main" then pos 0 else st.last_main_g;
        }))

  abbrev pub started : PendingGoroutine → String → M (Unit {0})
  started p role = do
    emit cb (lifecycle_event "goroutine_started" p.started_at gid p role)
    st ← get_state
    if st.opt.emit_atomic then atomic_start p role else skip

  abbrev pub release : PendingGoroutine → String → M (Unit {0})
  release p role = do
    if p.has_created
        then emit cb (lifecycle_event "goroutine_created" p.created_at gid p role)
        else skip
    if p.has_started then started p role else skip
    modify (on_goroutines λ gs. record gs { pending_goroutines = erase gid gs.pending_goroutines })

  unfoldable pub emit_pending_lifecycle : M (Unit {0})
  emit_pending_lifecycle m = elim (lookup gid m.st.pending_goroutines) [
    | none ↦ skip m
    | some p ↦ release p (or_zero "" (lookup gid m.st.roles)) m
  ]

  abbrev pub activate_in_mode : GoroutineFilterMode → M (Unit {0})
  activate_in_mode GoroutineFilterMode.all =
      modify (take_interest gid "unknown") >> emit_pending_lifecycle
  activate_in_mode GoroutineFilterMode.legacy = skip
  activate_in_mode GoroutineFilterMode.ops =
      modify (take_interest gid "worker") >> emit_pending_lifecycle

  unfoldable pub activate_goroutine_from_op : M (Unit {0})
  unfolding emit_pending_lifecycle take_interest
  activate_goroutine_from_op m =
      if is_some (lookup gid m.st.interested)
      then (m, done tt)
      else activate_in_mode m.st.opt.goroutine_filter m

-- The fields of the lifecycle alone are changed by what an activation does to the state.
pending_taken :
    (gid : ℤ) (fallback : String) (st : ParseState)
    → lookup gid (take_interest gid fallback st).pending_goroutines ≡ none
unfolding take_interest mark_goroutine_interested ensure_role set_role
pending_taken gid fallback st = elim (Bool-cases (is_some (lookup gid st.roles))) [
  | inl e ↦ rw (e, take_interest) (lookup-erase_self gid st.pending_goroutines)
  | inr e ↦ rw (e, take_interest) (lookup-erase_self gid st.pending_goroutines)
]

interest_taken :
    (gid : ℤ) (fallback : String) (st : ParseState)
    → is_some (lookup gid (take_interest gid fallback st).interested) ≡ true
unfolding take_interest mark_goroutine_interested ensure_role set_role
interest_taken gid fallback st = elim (Bool-cases (is_some (lookup gid st.roles))) [
  | inl e ↦ rw (e, take_interest) (ap is_some (lookup-insert_self gid tt st.interested))
  | inr e ↦ rw (e, take_interest) (ap is_some (lookup-insert_self gid tt st.interested))
]

emit_pending_lifecycle-none :
    (cb : Callback) (gid : ℤ) (m : Machine)
    → lookup gid m.st.pending_goroutines ≡ none
    → emit_pending_lifecycle cb gid m ≡ (m, done tt)
unfolding emit_pending_lifecycle
emit_pending_lifecycle-none cb gid m h = rw (h, emit_pending_lifecycle) refl

-- What an activation leaves: the events as they were, no error, and the interest.
abbrev pub IsSilent : ℤ → Machine → Machine × Outcome (Unit {0}) → Type 0
IsSilent gid m r =
    (r.0.out ≡ m.out) × (r.1 ≡ done tt) × (is_some (lookup gid r.0.st.interested) ≡ true)

interest-IsSilent :
    (cb : Callback) (gid : ℤ) (m : Machine) (fallback : String)
    → IsSilent gid m
        (emit_pending_lifecycle cb gid (record m { st = take_interest gid fallback m.st }))
interest-IsSilent cb gid m fallback =
    let m1 : Machine = record m { st = take_interest gid fallback m.st } in
    rw (emit_pending_lifecycle-none cb gid m1 (pending_taken gid fallback m.st))
      (refl, refl, interest_taken gid fallback m.st)

activate_in_mode-IsSilent :
    (cb : Callback) (gid : ℤ) (m : Machine) (mode : GoroutineFilterMode)
    → mode ≢ GoroutineFilterMode.legacy
    → IsSilent gid m (activate_in_mode cb gid mode m)
activate_in_mode-IsSilent cb gid m GoroutineFilterMode.all h = interest-IsSilent cb gid m "unknown"
activate_in_mode-IsSilent cb gid m GoroutineFilterMode.ops h = interest-IsSilent cb gid m "worker"
activate_in_mode-IsSilent cb gid m GoroutineFilterMode.legacy h = elim (h refl) [ ]

-- Outside the legacy mode an operation makes its goroutine one of interest, but no event of its
-- lifecycle is emitted, whatever waited: the record is deleted before it is read.
pub activate_goroutine_from_op-IsSilent :
    (cb : Callback) (gid : ℤ) (m : Machine)
    → m.st.opt.goroutine_filter ≢ GoroutineFilterMode.legacy
    → IsSilent gid m (activate_goroutine_from_op cb gid m)
unfolding activate_goroutine_from_op
activate_goroutine_from_op-IsSilent cb gid m h =
    elim (Bool-cases (is_some (lookup gid m.st.interested))) [
      | inl e ↦ rw (e, activate_goroutine_from_op) (refl, refl, e)
      | inr e ↦
          rw (e, activate_goroutine_from_op)
            (activate_in_mode-IsSilent cb gid m m.st.opt.goroutine_filter h)
    ]
