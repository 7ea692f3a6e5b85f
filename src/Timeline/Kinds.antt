-- ===== src/Timeline/Kinds.antt =====
-- The sorts of events that traceproc.go tells apart by their names, and the flags of an event whose
-- channel or peer is not known.
use gtv_final_submission.Prelude.Int.{int_eq, pos}
use gtv_final_submission.Prelude.Text.{to_lower}
use gtv_final_submission.Prelude.{
  String, Bool, true, false, ◌&&◌, ◌||◌, not, List, [], ◌∷◌, ◌==◌, nat_eq, string_eq, if◌then◌else◌,
}
use gtv_final_submission.Timeline.Event.{TimelineEvent}

abbrev pub one_of : List String → String → Bool
one_of [] name = false
one_of (n ∷ ns) name = (n == name) || one_of ns name

unfoldable pub timeline_channel_identity : TimelineEvent → String
timeline_channel_identity ev = if not (ev.channel_key == "") then ev.channel_key else ev.channel

abbrev pub goroutine_events : List String
goroutine_events =
    "goroutine_created" ∷ "goroutine_started" ∷ "go_create" ∷ "go_start" ∷ "spawn"
    ∷ "worker_starting" ∷ "channels_created" ∷ "blocked_send" ∷ "blocked_receive" ∷ "block_send"
    ∷ "block_recv" ∷ "unblocked" ∷ "block" ∷ "unblock" ∷ "select_begin" ∷ "select_case"
    ∷ "select_chosen" ∷ "select_dropped" ∷ "select_end" ∷ []

unfoldable pub is_goroutine_event : String → Bool
is_goroutine_event name = one_of goroutine_events name

abbrev pub channel_events : List String
channel_events =
    "chan_make" ∷ "chan_close" ∷ "chan_send" ∷ "chan_recv" ∷ "chan_depth" ∷ "send_complete"
    ∷ "recv_attempt" ∷ "recv_complete" ∷ "chan_send_attempt" ∷ "chan_recv_attempt"
    ∷ "chan_send_commit" ∷ "chan_recv_commit" ∷ "blocked_send" ∷ "blocked_receive" ∷ "block_send"
    ∷ "block_recv" ∷ "block" ∷ "unblock" ∷ "select_case" ∷ []

unfoldable pub is_channel_event : String → Bool
is_channel_event name = one_of channel_events name

unfoldable pub is_pairing_event : String → String → Bool
is_pairing_event name source =
    if one_of ("chan_send" ∷ "chan_recv" ∷ []) name
    then to_lower source == "paired"
    else one_of ("chan_send_commit" ∷ "chan_recv_commit" ∷ []) name

-- The condition under which a send has no known receiver, and a receive no known sender.
unfoldable pub has_no_peer : TimelineEvent → Bool
has_no_peer ev = (ev.peer_g == pos 0) && ((ev.pair_id == "") && (ev.msg_id == 0))

flag_channel : TimelineEvent → TimelineEvent
flag_channel ev =
    if is_channel_event (to_lower ev.event) && (timeline_channel_identity ev == "")
    then record ev { unknown_channel = true }
    else ev

flag_peer : String → TimelineEvent → TimelineEvent
flag_peer name ev =
    if name == "chan_send"
    then (if has_no_peer ev then record ev { unknown_receiver = true } else ev)
    else if name == "chan_recv"
    then (if has_no_peer ev then record ev { unknown_sender = true } else ev)
    else ev

unfoldable pub annotate_unknown_endpoints : TimelineEvent → TimelineEvent
unfolding flag_channel flag_peer
annotate_unknown_endpoints ev = flag_peer (to_lower ev.event) (flag_channel ev)
