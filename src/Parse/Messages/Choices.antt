-- ===== src/Parse/Messages/Choices.antt =====
-- The rule for message ids at the communication of a select.
use gtv_final_submission.Prelude.Int.{ℤ, ltb_ℤ}
use gtv_final_submission.Prelude.{
  ℕ, ◌+◌, ◌<◌, String, false, ◌&&◌, Option, none, some, ◌≡◌, ap, refl, ◌==◌, arith, nat_eq,
  string_eq, if◌then◌else◌, inl, inr, Option-cases, Bool-cases,
}
use gtv_final_submission.Timeline.{TimelineEvent, Millis}
use gtv_final_submission.Parse.Keys.{parse_ch_key}
use gtv_final_submission.Parse.Machine.{
  Callback, Machine, M, emit, attempt, modify, ◌>>◌, done, inc_audit, skip,
}
use gtv_final_submission.Parse.Messages.{one_if, KeepsIds}
use gtv_final_submission.Parse.Messages.Moves.{
  Spares, emit-Moves, settle_send-Moves, Moves-Spares, record_channel_activity-Spares,
}
use gtv_final_submission.Parse.Activity.{record_channel_activity}
use gtv_final_submission.Parse.Pairing.{count_matched, settle_send, count_unknown, draw_msg_id}
use gtv_final_submission.Parse.Queues.{resolve_pending_select_recv, pop_pending_recv}
use gtv_final_submission.Parse.State.{ParseState, SendRecord, ChKey}
use gtv_final_submission.Parse.Messages.Rule.{
  IdOk, Moves-trans, Moves-le, draw-IdOk, if-IdOk, done-IdOk, then-IdOk, spare-IdOk, emit-IdOk,
  draw-IdOk,
}
use gtv_final_submission.Parse.Select.{
  conclude_case, choose_send, choose_recv, chosen_event, draw_id, attempt_event, commit_event,
  case_attempt, case_commit, emit_atomic_case, finish_case, count_named, chosen_recv, case_channel,
  role_of, case_ptr,
}
use gtv_final_submission.Parse.State.{SelectCaseInfo}

attempt_event_lem :
    (info : SelectCaseInfo)
    → ((attempt_event info == "chan_send") ≡ false) × ((attempt_event info == "chan_recv") ≡ false)
attempt_event_lem info = elim (Bool-cases (info.kind == "send")) [
  | inl e ↦ rw e (refl, refl)
  | inr e ↦ rw e (refl, refl)
]

commit_event_lem :
    (info : SelectCaseInfo)
    → ((commit_event info == "chan_send") ≡ false) × ((commit_event info == "chan_recv") ≡ false)
commit_event_lem info = elim (Bool-cases (info.kind == "send")) [
  | inl e ↦ rw e (refl, refl)
  | inr e ↦ rw e (refl, refl)
]

-- The errors of the callback are dropped.
settle_send-done :
    (cb : Callback) (count : ParseState → ParseState) (key : ChKey) (ch_ptr channel_id : String)
    (sr : SendRecord) (m : Machine)
    → (settle_send cb count key ch_ptr channel_id sr m).1 ≡ done tt
unfolding settle_send
settle_send-done cb count key ch_ptr channel_id sr m =
    elim (Option-cases (pop_pending_recv cb.range m.st key ch_ptr)) [
      | inr ((r, st), e) ↦ rw (e, settle_send) refl
      | inl e ↦ elim (Option-cases (resolve_pending_select_recv cb.range m.st key ch_ptr)) [
        | inr (k, f) ↦ rw (e, f, settle_send) refl
        | inl f ↦ rw (e, f, settle_send) refl
      ]
    ]

-- The receipts of the id that the receive of the chosen case may use.
abbrev pub credit : ℕ → Option SendRecord → ℕ
credit n none = 0
credit n (some sr) = one_if (sr.msg_id == n)

module _ (cb : Callback) (keeps : KeepsIds cb) (n : ℕ) where
  -- An event of another name.
  quiet-IdOk :
      (ev : TimelineEvent) (d : ℕ) (m : Machine)
      → ((ev.event == "chan_send") ≡ false) × ((ev.event == "chan_recv") ≡ false)
      → IdOk n d m
      → IdOk n d (emit cb ev m).0
  quiet-IdOk ev d m (no_send, no_recv) ok =
      emit-IdOk cb keeps n ev d d m no_send
        (omega (arith, ap (λ b. one_if (b && (ev.msg_id == n))) no_recv)) ok

  module _ (sid : String) (info : SelectCaseInfo) (t : Millis) (gid : ℤ) where
    emit_atomic_case-IdOk :
        (m : Machine) → IdOk n 0 m → IdOk n 0 (emit_atomic_case cb sid info t gid m).0
    unfolding draw_id
    emit_atomic_case-IdOk m ok =
        let st1 : ParseState = draw_id m.st in
        let m1 : Machine = record m { st = draw_id st1 } in
        let begun : TimelineEvent = case_attempt cb sid info t gid m.st in
        let ended : TimelineEvent = case_commit cb sid info t gid m.st st1 in
        quiet-IdOk ended 0 (emit cb begun m1).0 (commit_event_lem info)
          (quiet-IdOk begun 0 m1 (attempt_event_lem info) ok)

    conclude_case-IdOk : (m : Machine) → IdOk n 0 m → IdOk n 0 (conclude_case cb sid info t gid m).0
    unfolding conclude_case
    conclude_case-IdOk m ok =
        let st1 : ParseState = record m.st {
          blocking = record m.st.blocking {
            last_progress_ms = if ltb_ℤ m.st.last_progress_ms t then t else m.st.last_progress_ms;
          };
        } in
        let m1 : Machine = record m { st = st1 } in
        let m2 : Machine = record m {
          st = record_channel_activity cb.range info.kind gid info.ch_key t st1;
        } in
        let atomic : M (Unit {0}) = emit_atomic_case cb sid info t gid in
        let step : M (Unit {0}) = if m2.st.opt.emit_atomic then atomic else skip in
        let active =
          spare-IdOk n 0 m1 m2 refl
            (record_channel_activity-Spares cb.range info.kind gid info.ch_key t st1) ok in
        let emitted =
          if-IdOk n m2.st.opt.emit_atomic atomic skip m2 (emit_atomic_case-IdOk m2 active) active in
        then-IdOk n (modify (finish_case cb sid info t gid)) (step m2).0 (step m2).1 emitted emitted

    count_named-Spares : (id : String) → Spares (count_named cb sid info t gid id)
    unfolding count_matched
    count_named-Spares id st = elim (Bool-cases (id == "")) [
      | inl e ↦ rw e (refl, refl)
      | inr e ↦ rw e (refl, refl)
    ]

    pub choose_send-IdOk : (m : Machine) → IdOk n 0 m → IdOk n 0 (choose_send cb sid info t gid m).0
    unfolding choose_send draw_msg_id count_unknown count_matched inc_audit
    choose_send-IdOk m ok =
        let key : ChKey = parse_ch_key info.ch_name in
        let id : String = case_channel cb sid info t gid key in
        let s : ℕ = one_if (m.st.next_msg_id == n) in
        let count : ParseState → ParseState = count_named cb sid info t gid id in
        let sr : SendRecord = record {
          time_ms = t;
          g = gid;
          role = role_of cb sid info t gid m.st;
          ptr = case_ptr info;
          msg_id = m.st.next_msg_id;
        } in
        let m1 : Machine = record m { st = count_unknown id (draw_msg_id m.st) } in
        let m2 : Machine = (settle_send cb count key (case_ptr info) id sr m1).0 in
        let m3 : Machine = record m2 { st = inc_audit "select_chosen_emitted_chan_send" m2.st } in
        let ev : TimelineEvent = record (chosen_event cb sid info t gid m.st "chan_send") {
          source = "paired";
          msg_id = m.st.next_msg_id;
        } in
        let m4 : Machine = (emit cb ev m3).0 in
        let settled =
          settle_send-Moves cb keeps n count key (case_ptr info) id sr m1 (count_named-Spares id) in
        let sends = emit-Moves cb keeps n ev m3 in
        let counted = Moves-Spares n 0 s m1 m1 m2 m3 (refl, refl) refl (refl, refl) refl settled in
        let drawn =
          draw-IdOk n m m1 m4 refl refl refl
            (Moves-le n (0 + s) (s + 0) s s m1 m4 (omega arith) (omega arith)
              (Moves-trans n 0 s s 0 m1 m3 m4 counted sends))
            ok in
        let after : M (Unit {0}) =
          modify (inc_audit "select_chosen_emitted_chan_send")
          >> (attempt (emit cb ev) >> conclude_case cb sid info t gid) in
        done-IdOk n after m2 (settle_send cb count key (case_ptr info) id sr m1).1
          (settle_send-done cb count key (case_ptr info) id sr m1) (conclude_case-IdOk m4 drawn)

    chosen_recv-IdOk :
        (o : Option SendRecord) (st : ParseState) (m : Machine)
        → 0 < n
        → IdOk n (credit n o) m
        → IdOk n 0
            (emit cb
              (chosen_recv cb sid info t gid o (chosen_event cb sid info t gid st "chan_recv"))
              m).0
    chosen_recv-IdOk none st m nonzero ok =
        let ev : TimelineEvent =
          chosen_recv cb sid info t gid none (chosen_event cb sid info t gid st "chan_recv") in
        emit-IdOk cb keeps n ev 0 0 m refl (ground arith) ok
    chosen_recv-IdOk (some sr) st m nonzero ok =
        let ev : TimelineEvent =
          chosen_recv cb sid info t gid (some sr) (chosen_event cb sid info t gid st "chan_recv") in
        emit-IdOk cb keeps n ev (one_if (sr.msg_id == n)) 0 m refl (omega arith) ok

    pub choose_recv-IdOk :
        (match_it : M (Option SendRecord)) (m m' : Machine) (o : Option SendRecord)
        → match_it m ≡ (m', done o)
        → 0 < n
        → IdOk n (credit n o) m'
        → IdOk n 0 (choose_recv cb sid info t gid match_it m).0
    unfolding choose_recv inc_audit
    choose_recv-IdOk match_it m m' o e nonzero ok =
        let m1 : Machine = record m' { st = inc_audit "select_chosen_emitted_chan_recv" m'.st } in
        let ev : TimelineEvent =
          chosen_recv cb sid info t gid o (chosen_event cb sid info t gid m'.st "chan_recv") in
        rw (e, choose_recv)
          (conclude_case-IdOk (emit cb ev m1).0 (chosen_recv-IdOk o m'.st m1 nonzero ok))
