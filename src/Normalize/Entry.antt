-- ===== src/Normalize/Entry.antt =====
-- One event in the maps of entities.
use gtv_final_submission.Prelude.Dict.{Dict, lookup, keys, or_zero}
use gtv_final_submission.Prelude.Int.{ℤ, pos, ltb_ℤ, int_eq, int_beq_iff}
use gtv_final_submission.Prelude.Members.{member}
use gtv_final_submission.Prelude.Sort.{
  IsTotal, insert-member, IsRoster, insert-IsRoster, lookup-IsKeyed,
}
use gtv_final_submission.Prelude.Text.{to_lower}
use gtv_final_submission.Prelude.TextOrder.{text_ltb, text_ltb-total}
use gtv_final_submission.Prelude.{
  String, Bool, false, not, ◌&&◌, ◌||◌, List, [], ◌∷◌, ◌==◌, string_eq, ◌≡◌, refl, ◌∙◌, inl, inr,
  arith, Bool-cases, Option-cases,
}
use gtv_final_submission.Timeline.{TimelineEvent}
use gtv_final_submission.Timeline.Kinds.{one_of, timeline_channel_identity, is_channel_event}
use gtv_final_submission.Normalize.Entities.{
  GoroutineEntity, ChannelEntity, no_goroutine, no_channel, update_goroutine, update_channel,
  add_goroutine, add_channel,
}

pub int-IsTotal : IsTotal ltb_ℤ
int-IsTotal a b h n = ground (arith, int_beq_iff a b)

pub text-IsTotal : IsTotal text_ltb
text-IsTotal a b h n = text_ltb-total a b h n

abbrev pub gid_of : GoroutineEntity → ℤ
gid_of ge = ge.gid

abbrev pub chan_id_of : ChannelEntity → String
chan_id_of ce = ce.chan_id

-- The event names the goroutine, or the channel.
abbrev pub runs_on : ℤ → TimelineEvent → Bool
runs_on x ev = not (ev.g == pos 0) && (ev.g == x)

abbrev pub is_on_channel : TimelineEvent → Bool
is_on_channel ev =
    let name = to_lower ev.event in
    is_channel_event name || one_of ("chan_make" ∷ "chan_close" ∷ []) name

abbrev pub names_channel : String → TimelineEvent → Bool
names_channel x ev =
    let id = timeline_channel_identity ev in is_on_channel ev && (not (id == "") && (id == x))

abbrev pub some_event : (TimelineEvent → Bool) → List TimelineEvent → Bool
some_event p [] = false
some_event p (ev ∷ evs) = p ev || some_event p evs

updated_gid :
    (ev : TimelineEvent) (gs : Dict ℤ GoroutineEntity)
    → (ev.g == pos 0) ≡ false
    → IsRoster gid_of gs
    → (update_goroutine ev (or_zero no_goroutine (lookup ev.g gs))).gid ≡ ev.g
unfolding update_goroutine
updated_gid ev gs n r = elim (Option-cases (lookup ev.g gs)) [
  | inl e ↦ rw e refl
  | inr (v, e) ↦
      let same : v.gid ≡ ev.g = lookup-IsKeyed gid_of ev.g gs v r.is_keyed e in rw e (ground arith)
]

pub add_goroutine-IsRoster :
    (gs : Dict ℤ GoroutineEntity) (ev : TimelineEvent)
    → IsRoster gid_of gs
    → IsRoster gid_of (add_goroutine gs ev)
unfolding add_goroutine
add_goroutine-IsRoster gs ev r = elim (Bool-cases (ev.g == pos 0)) [
  | inl z ↦ rw (z, add_goroutine) r
  | inr n ↦
      rw (n, add_goroutine)
        (insert-IsRoster gid_of ev.g (update_goroutine ev (or_zero no_goroutine (lookup ev.g gs)))
          gs (updated_gid ev gs n r) r)
]

pub add_goroutine-member :
    (x : ℤ) (gs : Dict ℤ GoroutineEntity) (ev : TimelineEvent)
    → member x (keys (add_goroutine gs ev)) ≡ (runs_on x ev || member x (keys gs))
unfolding add_goroutine
add_goroutine-member x gs ev = elim (Bool-cases (ev.g == pos 0)) [
  | inl z ↦ rw (z, add_goroutine) refl
  | inr n ↦
      rw (n, add_goroutine)
        (insert-member ev.g x (update_goroutine ev (or_zero no_goroutine (lookup ev.g gs))) gs)
]

updated_chan_id :
    (ev : TimelineEvent) (chs : Dict String ChannelEntity)
    → (timeline_channel_identity ev == "") ≡ false
    → IsRoster chan_id_of chs
    → let id = timeline_channel_identity ev in
      (update_channel id ev (or_zero no_channel (lookup id chs))).chan_id ≡ id
unfolding update_channel
updated_chan_id ev chs n r =
    let id = timeline_channel_identity ev in
    elim (Option-cases (lookup id chs)) [
      | inl e ↦ rw e refl
      | inr (v, e) ↦
          let same : v.chan_id ≡ id = lookup-IsKeyed chan_id_of id chs v r.is_keyed e in
          rw (e, same, n) refl
    ]

pub add_channel-IsRoster :
    (chs : Dict String ChannelEntity) (ev : TimelineEvent)
    → IsRoster chan_id_of chs
    → IsRoster chan_id_of (add_channel chs ev)
unfolding add_channel
add_channel-IsRoster chs ev r =
    let id = timeline_channel_identity ev in
    elim (Bool-cases (is_on_channel ev && not (id == ""))) [
      | inl z ↦
          rw (z, add_channel)
            (insert-IsRoster chan_id_of id
              (update_channel id ev (or_zero no_channel (lookup id chs))) chs
              (updated_chan_id ev chs (ground arith) r) r)
      | inr n ↦ rw (n, add_channel) r
    ]

pub add_channel-member :
    (x : String) (chs : Dict String ChannelEntity) (ev : TimelineEvent)
    → member x (keys (add_channel chs ev)) ≡ (names_channel x ev || member x (keys chs))
unfolding add_channel
add_channel-member x chs ev =
    let id = timeline_channel_identity ev in
    elim (Bool-cases (is_on_channel ev && not (id == ""))) [
      | inl z ↦
          rw (z, add_channel)
            (insert-member id x (update_channel id ev (or_zero no_channel (lookup id chs))) chs
              ∙ ground arith)
      | inr n ↦ rw (n, add_channel) (ground arith)
    ]
