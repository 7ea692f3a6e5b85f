-- ===== src/Parse/Select.antt =====
-- The communication of a select statement, known from its logs: the send or receive of the chosen
-- case joins the pairing of the regions.
use Prim.Native.String.{◌++◌ as append}
use gtv_final_submission.Prelude.Dict.{lookup, insert, erase, or_zero}
use gtv_final_submission.Prelude.Int.{ℤ, pos, negsuc, int_eq, ltb_ℤ}
use gtv_final_submission.Prelude.Text.{atoi, show_ℕ}
use gtv_final_submission.Prelude.{
  zero, suc, String, true, ◌&&◌, Option, none, some, List, [], ◌∷◌, ◌==◌, string_eq, if◌then◌else◌,
}
use gtv_final_submission.Timeline.{Millis, TimelineEvent, zero_event}
use gtv_final_submission.Topology.{is_pointer_string}
use gtv_final_submission.Parse.Activity.{record_channel_activity}
use gtv_final_submission.Parse.Keys.{parse_ch_key, channel_key, op_key}
use gtv_final_submission.Parse.Machine.{
  Callback, M, ◌>>=◌, ◌>>◌, done, skip, give, get_state, modify, emit, attempt, inc_audit,
}
use gtv_final_submission.Parse.Pairing.{
  on_pairing, count_matched, count_unknown, count_pair, draw_msg_id, put_sends, settle_send,
  or_name,
}
use gtv_final_submission.Parse.Queues.{sends_at, select_recvs_at, find_send_queue_by_name}
use gtv_final_submission.Parse.State.{ParseState, SelectCaseInfo, SendRecord, ChKey}

unfoldable pub parse_select_index : String → ℤ
parse_select_index raw = if raw == "" then negsuc 0 else or_zero (negsuc 0) (atoi raw)

abbrev is_case : Option SelectCaseInfo → Option SelectCaseInfo
is_case none = none
is_case (some info) = if info.kind == "" then none else some info

abbrev case_at : List SelectCaseInfo → ℤ → Option SelectCaseInfo
case_at [] i = none
case_at (c ∷ cs) (pos zero) = some c
case_at (c ∷ cs) (pos (suc i)) = case_at cs (pos i)
case_at (c ∷ []) (negsuc n) = some c
case_at (c ∷ d ∷ cs) (negsuc n) = none

-- The case with the index, or the only case if there is no index; a hole in the list has no kind.
unfoldable pub select_case_for_chosen : ParseState → String → ℤ → Option SelectCaseInfo
select_case_for_chosen st sid idx = is_case (case_at (or_zero [] (lookup sid st.select_cases)) idx)

-- `newID`: the id, and the state that has drawn it.
abbrev pub new_id : String → ParseState → String
new_id prim st = append prim (show_ℕ st.next_id)

unfoldable pub draw_id : ParseState → ParseState
draw_id st = record st { attempts = record st.attempts { next_id = suc st.next_id } }

abbrev pub case_ptr : SelectCaseInfo → String
case_ptr info =
    if (info.ch_ptr == "") && is_pointer_string info.ch_key then info.ch_key else info.ch_ptr

abbrev pub attempt_event : SelectCaseInfo → String
attempt_event info = if info.kind == "send" then "chan_send_attempt" else "chan_recv_attempt"

abbrev pub commit_event : SelectCaseInfo → String
commit_event info = if info.kind == "send" then "chan_send_commit" else "chan_recv_commit"

unfoldable pub wait_select : String → ParseState → ParseState
wait_select k st =
    on_pairing
      (λ p. record p {
        pending_select_recv = insert k (suc (select_recvs_at st k)) p.pending_select_recv;
      })
      st

-- A receive without a send waits under its key, and under the name of its channel.
unfoldable pub wait_select_recv : ChKey → String → ParseState → ParseState
unfolding wait_select
wait_select_recv key k st =
    if key.name == "" then wait_select k st else wait_select (op_key key "") (wait_select k st)

module _ (cb : Callback) where
  unfoldable pub select_queue : ParseState → ChKey → String → String
  select_queue st key k = elim (sends_at st k) [
    | sr ∷ q ↦ k
    | [] ↦ or_zero k (find_send_queue_by_name cb.range st key)
  ]

  -- The message id and the sender, if a send was there.
  unfoldable pub take_select : ChKey → String → String → List SendRecord → M (Option SendRecord)
  take_select key k channel_id [] = do modify (wait_select_recv key k); give none
  take_select key k channel_id (sr ∷ q) = do
    modify (put_sends k q)
    modify (count_pair channel_id)
    give (some sr)

  unfoldable pub match_select_recv : SelectCaseInfo → M (Option SendRecord)
  unfolding take_select select_queue
  match_select_recv info m =
      let key = parse_ch_key info.ch_name in
      let k = select_queue m.st key (op_key key (case_ptr info)) in
      let id = if info.ch_key == "" then channel_key key info.ch_ptr else info.ch_key in
      if (info.ch_name == "") && ((info.ch_key == "") && (info.ch_ptr == ""))
      then (m, done none)
      else take_select key k id (sends_at m.st k) m

  module _ (sid : String) (info : SelectCaseInfo) (t : Millis) (gid : ℤ) where
    abbrev pub role_of : ParseState → String
    role_of st = or_zero "" (lookup gid st.roles)

    -- The event of the chosen case.
    abbrev pub chosen_event : ParseState → String → TimelineEvent
    chosen_event st event = record zero_event {
      time_ms = t;
      event = event;
      g = gid;
      role = role_of st;
      channel = info.ch_name;
      channel_key = info.ch_key;
      ch_ptr = info.ch_ptr;
      missing_ptr = info.ch_ptr == "";
      select_id = sid;
    }

    abbrev pub case_channel : ChKey → String
    case_channel key =
        or_name (if info.ch_key == "" then channel_key key (case_ptr info) else info.ch_key) key

    abbrev pub count_named : String → ParseState → ParseState
    count_named channel_id st = if channel_id == "" then st else count_matched channel_id st

    abbrev pub finish_case : ParseState → ParseState
    finish_case st = record st {
      selects = record st.selects {
        select_emitted = insert sid true st.select_emitted;
        sel_pending = erase sid st.sel_pending;
      };
    }

    abbrev pub case_attempt : ParseState → TimelineEvent
    case_attempt st = record (chosen_event st (attempt_event info)) {
      id = new_id "a" st;
      source = "select";
    }

    abbrev pub case_commit : ParseState → ParseState → TimelineEvent
    case_commit st st' = record (chosen_event st (commit_event info)) {
      id = new_id "c" st';
      attempt_id = new_id "a" st;
      pair_id = new_id "a" st;
      source = "select";
    }

    -- The attempt and the commit of the atomic mode.
    abbrev pub emit_atomic_case : M (Unit {0})
    emit_atomic_case = do
      st ← get_state
      modify draw_id
      st' ← get_state
      modify draw_id
      attempt (emit cb (case_attempt st))
      attempt (emit cb (case_commit st st'))

    -- What follows the emission of the communication.
    unfoldable pub conclude_case : M (Unit {0})
    conclude_case = do
      modify λ st. record st {
        blocking = record st.blocking {
          last_progress_ms = if ltb_ℤ st.last_progress_ms t then t else st.last_progress_ms;
        };
      }
      modify (record_channel_activity cb.range info.kind gid info.ch_key t)
      st ← get_state
      if st.opt.emit_atomic then emit_atomic_case else skip
      modify finish_case

    unfoldable pub choose_send : M (Unit {0})
    unfolding conclude_case
    choose_send = do
      st ← get_state
      modify draw_msg_id
      modify (count_unknown (case_channel (parse_ch_key info.ch_name)))
      settle_send cb (count_named (case_channel (parse_ch_key info.ch_name)))
          (parse_ch_key info.ch_name) (case_ptr info) (case_channel (parse_ch_key info.ch_name))
          (record {
            time_ms = t;
            g = gid;
            role = role_of st;
            ptr = case_ptr info;
            msg_id = st.next_msg_id;
          })
      modify (inc_audit "select_chosen_emitted_chan_send")
      attempt (
          emit cb
            (record (chosen_event st "chan_send") { source = "paired"; msg_id = st.next_msg_id }))
      conclude_case

    abbrev pub chosen_recv : Option SendRecord → TimelineEvent → TimelineEvent
    chosen_recv none ev = record ev { source = "select" }
    chosen_recv (some sr) ev = record ev { source = "paired"; peer_g = sr.g; msg_id = sr.msg_id }

    unfoldable pub choose_recv : M (Option SendRecord) → M (Unit {0})
    unfolding conclude_case
    choose_recv match_it = do
      sr ← match_it
      st ← get_state
      modify (inc_audit "select_chosen_emitted_chan_recv")
      attempt (emit cb (chosen_recv sr (chosen_event st "chan_recv")))
      conclude_case

    abbrev pub remember_choice : ParseState → ParseState
    remember_choice st = record st {
      selects = record st.selects {
        last_select_chosen_by_g = insert gid info st.last_select_chosen_by_g;
        last_select_chosen_seq_by_g =
            insert gid (or_zero (pos 0) (lookup gid st.event_index_by_g))
              st.last_select_chosen_seq_by_g;
      };
    }

    unfoldable pub emit_select_chosen_case : M (Unit {0})
    unfolding choose_send choose_recv match_select_recv
    emit_select_chosen_case =
        if (info.ch_ptr == "") && ((info.ch_key == "") && (info.ch_name == ""))
        then modify (inc_audit "missing_channel_identity")
        else do
          modify remember_choice
          if info.kind == "send"
              then choose_send
              else if info.kind == "recv"
              then choose_recv (match_select_recv info)
              else choose_recv (give none)
