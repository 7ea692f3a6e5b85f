-- ===== src/Normalize/Roster.antt =====
-- The entities of a timeline: each goroutine and each channel once.
use gtv_final_submission.Prelude.Dict.{Dict, keys}
use gtv_final_submission.Prelude.Int.{ℤ, ltb_ℤ, int_eq}
use gtv_final_submission.Prelude.Members.{member}
use gtv_final_submission.Prelude.Sort.{IsAscending, IsRoster, sort_by-IsRoster}
use gtv_final_submission.Prelude.TextOrder.{text_ltb}
use gtv_final_submission.Prelude.{
  String, Bool, false, ◌||◌, some, List, [], ◌∷◌, map, string_eq, ◌≡◌, refl, sym, ap, ◌∙◌, arith,
  subst,
}
use gtv_final_submission.Timeline.{TimelineEvent}
use gtv_final_submission.Normalize.Entities.{
  GoroutineEntity, ChannelEntity, EntitiesTable, add_goroutine, add_channel, collect, tables,
  build_entities_from_timeline,
}
use gtv_final_submission.Normalize.Entry.{
  int-IsTotal, text-IsTotal, gid_of, chan_id_of, runs_on, names_channel, some_event,
  add_goroutine-IsRoster, add_goroutine-member, add_channel-IsRoster, add_channel-member,
}

abbrev pub Maps : Type 0
Maps = Dict ℤ GoroutineEntity × Dict String ChannelEntity

abbrev IsGood : Maps → Type 0
IsGood m = IsRoster gid_of m.0 × IsRoster chan_id_of m.1

collect-IsGood : (m : Maps) (evs : List TimelineEvent) → IsGood m → IsGood (collect m evs)
unfolding collect
collect-IsGood m [] g = g
collect-IsGood m (ev ∷ evs) (g, c) =
    collect-IsGood (add_goroutine m.0 ev, add_channel m.1 ev) evs
      (add_goroutine-IsRoster m.0 ev g, add_channel-IsRoster m.1 ev c)

collect-goroutines :
    (x : ℤ) (m : Maps) (evs : List TimelineEvent)
    → member x (keys (collect m evs).0) ≡ (some_event (runs_on x) evs || member x (keys m.0))
unfolding collect
collect-goroutines x m [] = refl
collect-goroutines x m (ev ∷ evs) =
    let next : Maps = (add_goroutine m.0 ev, add_channel m.1 ev) in
    ground (arith, collect-goroutines x next evs, add_goroutine-member x m.0 ev)

or_swap : (a b c : Bool) → (a || (b || c)) ≡ ((b || a) || c)
or_swap a b c = ground arith

collect-channels :
    (x : String) (m : Maps) (evs : List TimelineEvent)
    → member x (keys (collect m evs).1) ≡ (some_event (names_channel x) evs || member x (keys m.1))
unfolding collect
collect-channels x m [] = refl
collect-channels x m (ev ∷ evs) =
    let next : Maps = (add_goroutine m.0 ev, add_channel m.1 ev) in
    let b = names_channel x ev in
    collect-channels x next evs
    ∙ ap (λ (c : Bool). some_event (names_channel x) evs || c) (add_channel-member x m.1 ev)
    ∙ or_swap (some_event (names_channel x) evs) b (member x (keys m.1))

abbrev pub no_maps : Maps
no_maps = ([], [])

no_maps-IsGood : IsGood no_maps
no_maps-IsGood =
    (record { is_keyed = tt; is_distinct = tt }, record { is_keyed = tt; is_distinct = tt })

or_false : (b : Bool) → (b || false) ≡ b
or_false b = ground arith

table_is :
    (events : List TimelineEvent) (t : EntitiesTable)
    → build_entities_from_timeline events ≡ some t
    → tables (collect no_maps events) ≡ t
unfolding build_entities_from_timeline
table_is [] t h = cc
table_is (ev ∷ evs) t h = cc

-- The goroutines of a table of entities ascend strictly by their ids, and are exactly those on which
-- some event runs, 0 left out.
pub build_entities-goroutines :
    (events : List TimelineEvent) (t : EntitiesTable)
    → build_entities_from_timeline events ≡ some t
    → IsAscending gid_of ltb_ℤ t.goroutines
      × ((x : ℤ) → member x (map gid_of t.goroutines) ≡ some_event (runs_on x) events)
unfolding member
build_entities-goroutines events t h =
    let m = collect no_maps events in
    let r =
      sort_by-IsRoster gid_of ltb_ℤ m.0 int-IsTotal
        (collect-IsGood no_maps events no_maps-IsGood).0 in
    let same = ap (λ (u : EntitiesTable). u.goroutines) (table_is events t h) in
    (
      subst (IsAscending gid_of ltb_ℤ) (same) r.0,
      λ x.
          ap (λ (l : List GoroutineEntity). member x (map gid_of l)) (sym same)
          ∙ r.1 x
          ∙ collect-goroutines x no_maps events
          ∙ or_false (some_event (runs_on x) events),
    )

-- The channels of a table of entities ascend strictly by their identities, and are exactly those
-- that some event on a channel names, an empty name left out.
pub build_entities-channels :
    (events : List TimelineEvent) (t : EntitiesTable)
    → build_entities_from_timeline events ≡ some t
    → IsAscending chan_id_of text_ltb t.channels
      × ((x : String) → member x (map chan_id_of t.channels) ≡ some_event (names_channel x) events)
unfolding member
build_entities-channels events t h =
    let m = collect no_maps events in
    let r =
      sort_by-IsRoster chan_id_of text_ltb m.1 text-IsTotal
        (collect-IsGood no_maps events no_maps-IsGood).1 in
    let same = ap (λ (u : EntitiesTable). u.channels) (table_is events t h) in
    (
      subst (IsAscending chan_id_of text_ltb) (same) r.0,
      λ x.
          ap (λ (l : List ChannelEntity). member x (map chan_id_of l)) (sym same)
          ∙ r.1 x
          ∙ collect-channels x no_maps events
          ∙ or_false (some_event (names_channel x) events),
    )
