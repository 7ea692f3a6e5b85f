-- ===== src/Parse/Messages/Selects.antt =====
-- The rule for message ids at a select whose chosen case is emitted.
use gtv_final_submission.Prelude.Int.{ℤ}
use gtv_final_submission.Prelude.{
  ℕ, ◌<◌, String, ◌&&◌, Option, none, some, List, [], ◌∷◌, ◌≡◌, refl, ◌==◌, nat_eq, string_eq,
  if◌then◌else◌, inl, inr, Bool-cases,
}
use gtv_final_submission.Timeline.{Millis}
use gtv_final_submission.Parse.Keys.{op_key, channel_key, parse_ch_key}
use gtv_final_submission.Parse.Machine.{Callback, Machine, M, modify, ◌>>◌, done, inc_audit, give}
use gtv_final_submission.Parse.Messages.{one_if, KeepsIds}
use gtv_final_submission.Parse.Messages.Moves.{Spares, count_pair-Spares}
use gtv_final_submission.Parse.Pairing.{put_sends, count_pair}
use gtv_final_submission.Parse.Queues.{sends_at}
use gtv_final_submission.Parse.State.{SendRecord, ChKey}
use gtv_final_submission.Parse.Messages.Rule.{IdOk, if-IdOk, spare-IdOk, take-IdOk}
use gtv_final_submission.Parse.Select.{
  take_select, match_select_recv, choose_send, choose_recv, emit_select_chosen_case,
  wait_select_recv, select_queue, remember_choice, wait_select, case_ptr,
}
use gtv_final_submission.Parse.State.{SelectCaseInfo}
use gtv_final_submission.Parse.Messages.Choices.{credit, choose_send-IdOk, choose_recv-IdOk}

wait_select_recv-Spares : (key : ChKey) (k : String) → Spares (wait_select_recv key k)
unfolding wait_select_recv wait_select
wait_select_recv-Spares key k st = elim (Bool-cases (key.name == "")) [
  | inl e ↦ rw (e, wait_select_recv) (refl, refl)
  | inr e ↦ rw (e, wait_select_recv) (refl, refl)
]

module _ (cb : Callback) (keeps : KeepsIds cb) (n : ℕ) (nonzero : 0 < n) where
  -- What a match leaves: the send that was taken may be received.
  abbrev Matches : M (Option SendRecord) → Machine → Type 0
  Matches p m =
      (m' : Machine) × (o : Option SendRecord) × (p m ≡ (m', done o)) × IdOk n (credit n o) m'

  take_select-Matches :
      (key : ChKey) (k channel_id : String) (q : List SendRecord) (m : Machine)
      → sends_at m.st k ≡ q
      → IdOk n 0 m
      → Matches (take_select cb key k channel_id q) m
  unfolding take_select
  take_select-Matches key k channel_id [] m e ok =
      let m1 : Machine = record m { st = wait_select_recv key k m.st } in
      (m1, none, refl, spare-IdOk n 0 m m1 refl (wait_select_recv-Spares key k m.st) ok)
  take_select-Matches key k channel_id (sr ∷ q) m e ok =
      let m1 : Machine = record m { st = put_sends k q m.st } in
      let m2 : Machine = record m { st = count_pair channel_id m1.st } in
      (
        m2,
        some sr,
        refl,
        spare-IdOk n (one_if (sr.msg_id == n)) m1 m2 refl (count_pair-Spares channel_id m1.st)
            (take-IdOk n k sr q m e ok),
      )

  match_select_recv-Matches :
      (info : SelectCaseInfo) (m : Machine) → IdOk n 0 m → Matches (match_select_recv cb info) m
  unfolding match_select_recv
  match_select_recv-Matches info m ok =
      let key : ChKey = parse_ch_key info.ch_name in
      let k : String = select_queue cb m.st key (op_key key (case_ptr info)) in
      let id : String = if info.ch_key == "" then channel_key key info.ch_ptr else info.ch_key in
      elim (Bool-cases ((info.ch_name == "") && ((info.ch_key == "") && (info.ch_ptr == "")))) [
        | inl e ↦ (m, none, rw (e, match_select_recv) refl, ok)
        | inr e ↦
            let (m', o, same, ok') = take_select-Matches key k id (sends_at m.st k) m refl ok in
            (m', o, rw (e, match_select_recv) same, ok')
      ]

  module _ (sid : String) (info : SelectCaseInfo) (t : Millis) (gid : ℤ) where
    choose_matched-IdOk :
        (p : M (Option SendRecord)) (m : Machine)
        → Matches p m
        → IdOk n 0 (choose_recv cb sid info t gid p m).0
    choose_matched-IdOk p m (m', o, e, ok) =
        choose_recv-IdOk cb keeps n sid info t gid p m m' o e nonzero ok

    -- Where the wrappers around the callback keep the name and the id of an event, the communication of
    -- a chosen case keeps the rule for any id but 0 that had it before: the id is received
    -- and queued at most as often as it is sent, at most once, and not before it is drawn.
    pub emit_select_chosen_case_unique :
        (m : Machine) → IdOk n 0 m → IdOk n 0 (emit_select_chosen_case cb sid info t gid m).0
    unfolding emit_select_chosen_case inc_audit
    emit_select_chosen_case_unique m ok =
        let m1 : Machine = record m { st = remember_choice cb sid info t gid m.st } in
        let none_there : M (Unit {0}) = modify (inc_audit "missing_channel_identity") in
        let sending : M (Unit {0}) = choose_send cb sid info t gid in
        let receiving : M (Unit {0}) = choose_recv cb sid info t gid (match_select_recv cb info) in
        let other : M (Unit {0}) = choose_recv cb sid info t gid (give none) in
        let no_send : M (Unit {0}) = if info.kind == "recv" then receiving else other in
        let chosen : M (Unit {0}) = if info.kind == "send" then sending else no_send in
        if-IdOk n ((info.ch_ptr == "") && ((info.ch_key == "") && (info.ch_name == ""))) none_there
          (modify (remember_choice cb sid info t gid) >> chosen) m ok
          (if-IdOk n (info.kind == "send") sending no_send m1
            (choose_send-IdOk cb keeps n sid info t gid m1 ok)
            (if-IdOk n (info.kind == "recv") receiving other m1
              (choose_matched-IdOk (match_select_recv cb info) m1
                (match_select_recv-Matches info m1 ok))
              (choose_matched-IdOk (give none) m1 (m1, none, refl, ok))))
