-- ===== src/Parse/SyncWait.antt =====
-- The synchronization that a goroutine is about to wait for, from the region it is in.
use gtv_final_submission.Prelude.Dict.{lookup, insert, erase, lookup-erase_self, lookup-insert_self}
use gtv_final_submission.Prelude.Int.{ℤ, int_eq}
use gtv_final_submission.Prelude.Text.{starts_with}
use gtv_final_submission.Prelude.{
  String, Bool, true, ◌&&◌, ◌||◌, not, none, some, ◌==◌, string_eq, text_eq, if◌then◌else◌, ◌≡◌,
  refl, sym, ap, inl, inr, Bool-cases,
}
use gtv_final_submission.Timeline.{Millis}
use gtv_final_submission.Parse.Helpers.{is_sync_wait_kind, sync_wait_kind_from_runtime_reason}
use gtv_final_submission.Parse.Keys.{parse_ch_key, channel_key}
use gtv_final_submission.Parse.State.{ParseState, SyncWaitCandidate}

unfoldable pub set_sync_wait_candidate : ℤ → String → String → Millis → ParseState → ParseState
set_sync_wait_candidate gid kind ch t st = if not (is_sync_wait_kind kind) then st else record st {
  blocking = record st.blocking {
    sync_wait_candidate_by_g =
        insert gid
          (record {
            kind = kind;
            channel = ch;
            channel_key = if not (ch == "") then channel_key (parse_ch_key ch) "" else "";
            start_ms = t;
          })
          st.sync_wait_candidate_by_g;
  };
}

unfoldable pub clear_sync_wait_candidate : ℤ → String → ParseState → ParseState
clear_sync_wait_candidate gid kind st = elim (lookup gid st.sync_wait_candidate_by_g) [
  | none ↦ st
  | some cur ↦ if not (kind == "") && not (cur.kind == kind) then st else record st {
    blocking = record st.blocking {
      sync_wait_candidate_by_g = erase gid st.sync_wait_candidate_by_g;
    };
  }
]

-- The kind, the channel, its key and the confidence.
unfoldable pub infer_sync_wait_context : ℤ → String → ParseState → String × String × String × String
infer_sync_wait_context gid reason st = elim (lookup gid st.sync_wait_candidate_by_g) [
  | some cand ↦ (cand.kind, cand.channel, cand.channel_key, "high")
  | none ↦
      let kind = sync_wait_kind_from_runtime_reason reason in
      if kind == "" then ("", "", "", "") else (kind, "", "", "medium")
]

unfoldable pub is_sync_region_kind : String → Bool
is_sync_region_kind kind =
    starts_with kind "mutex_" || (starts_with kind "rwmutex_" || starts_with kind "wg_")

abbrev candidate : String → String → Millis → SyncWaitCandidate
candidate kind ch t = record {
  kind = kind;
  channel = ch;
  channel_key = if not (ch == "") then channel_key (parse_ch_key ch) "" else "";
  start_ms = t;
}

set_sync_wait_candidate-lookup :
    (gid : ℤ) (kind ch : String) (t : Millis) (st : ParseState)
    → is_sync_wait_kind kind ≡ true
    → lookup gid (set_sync_wait_candidate gid kind ch t st).sync_wait_candidate_by_g
      ≡ some (candidate kind ch t)
unfolding set_sync_wait_candidate
set_sync_wait_candidate-lookup gid kind ch t st h =
    rw (h, set_sync_wait_candidate)
      (lookup-insert_self gid (candidate kind ch t) st.sync_wait_candidate_by_g)

clear_sync_wait_candidate-lookup :
    (gid : ℤ) (cur : SyncWaitCandidate) (st : ParseState)
    → lookup gid st.sync_wait_candidate_by_g ≡ some cur
    → lookup gid (clear_sync_wait_candidate gid cur.kind st).sync_wait_candidate_by_g ≡ none
unfolding clear_sync_wait_candidate
clear_sync_wait_candidate-lookup gid cur st h = elim (Bool-cases (cur.kind == "")) [
  | inl e ↦ rw (h, e, clear_sync_wait_candidate) (lookup-erase_self gid st.sync_wait_candidate_by_g)
  | inr e ↦
      rw (h, e, (text_eq cur.kind cur.kind).1 refl, clear_sync_wait_candidate)
        (lookup-erase_self gid st.sync_wait_candidate_by_g)
]

infer_without_candidate :
    (gid : ℤ) (reason : String) (st : ParseState)
    → lookup gid st.sync_wait_candidate_by_g ≡ none
    → (infer_sync_wait_context gid reason st).0 ≡ sync_wait_kind_from_runtime_reason reason
unfolding infer_sync_wait_context
infer_without_candidate gid reason st h =
    elim (Bool-cases (sync_wait_kind_from_runtime_reason reason == "")) [
      | inl e ↦
          rw (h, e, infer_sync_wait_context)
            (sym ((text_eq (sync_wait_kind_from_runtime_reason reason) "").0 e))
      | inr e ↦ rw (h, e, infer_sync_wait_context) refl
    ]

infer_with_candidate :
    (gid : ℤ) (reason : String) (cur : SyncWaitCandidate) (st : ParseState)
    → lookup gid st.sync_wait_candidate_by_g ≡ some cur
    → infer_sync_wait_context gid reason st ≡ (cur.kind, cur.channel, cur.channel_key, "high")
unfolding infer_sync_wait_context
infer_with_candidate gid reason cur st h = rw (h, infer_sync_wait_context) refl

-- From the begin of the region of a synchronization to its end: in between the wait is inferred from
-- the region with high confidence, whatever the runtime gives as its reason, and the end of the
-- region of that kind leaves the runtime's reason alone.
pub sync_wait_roundtrip :
    (gid : ℤ) (kind ch reason : String) (t : Millis) (st : ParseState)
    → is_sync_wait_kind kind ≡ true
    → let begun = set_sync_wait_candidate gid kind ch t st in
      let ended = clear_sync_wait_candidate gid kind begun in
      let (k, c, key, confidence) = infer_sync_wait_context gid reason begun in
      (k ≡ kind)
      × (c ≡ ch)
      × (confidence ≡ "high")
      × (lookup gid ended.sync_wait_candidate_by_g ≡ none)
      × ((infer_sync_wait_context gid reason ended).0 ≡ sync_wait_kind_from_runtime_reason reason)
unfolding set_sync_wait_candidate clear_sync_wait_candidate infer_sync_wait_context
sync_wait_roundtrip gid kind ch reason t st h =
    let begun : ParseState = set_sync_wait_candidate gid kind ch t st in
    let held = set_sync_wait_candidate-lookup gid kind ch t st h in
    let seen = infer_with_candidate gid reason (candidate kind ch t) begun held in
    let gone = clear_sync_wait_candidate-lookup gid (candidate kind ch t) begun held in
    (
      ap (λ r. r.0) seen,
      ap (λ r. r.1) seen,
      ap (λ r. r.3) seen,
      gone,
      infer_without_candidate gid reason (clear_sync_wait_candidate gid kind begun) gone,
    )
