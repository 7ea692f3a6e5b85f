-- ===== src/Normalize/Identity.antt =====
-- The identity of the channel in every event of an envelope.
use Prim.Native.String.{◌++◌}
use gtv_final_submission.Prelude.Int.{int_eq}
use gtv_final_submission.Prelude.Dict.{Dict}
use gtv_final_submission.Prelude.Text.{to_lower, show_ℤ, prefix_nonempty}
use gtv_final_submission.Prelude.{
  ℕ, suc, String, Bool, true, false, not, ◌&&◌, List, [], ◌∷◌, ◌==◌, string_eq, text_eq, ◌≡◌, ◌≢◌,
  refl, sym, ◌∙◌, inl, inr, arith, Bool-cases, All, All-append, if◌then◌else◌, subst,
}
use gtv_final_submission.Timeline.{TimelineEvent, normalize_mode}
use gtv_final_submission.Timeline.Kinds.{
  is_channel_event, timeline_channel_identity, annotate_unknown_endpoints,
}
use gtv_final_submission.Normalize.Fields.{
  Aliases, learn_names, normalize_event, normalize_events, identify, unknown_name, has_no_identity,
  settle_names,
}
use gtv_final_submission.Normalize.Summary.{validate_channel_identities, is_summary, sort_events}
use gtv_final_submission.Normalize.Envelope.{normalized, normalize_timeline}
use gtv_final_submission.Normalize.Order.{sort_events-All}
use gtv_final_submission.Normalize.Shape.{
  drop_summaries, drop_summaries-All, arranged, arranged_all, envelope-IsClosedBy,
}

abbrev pub IsIdentified : TimelineEvent → Type 0
IsIdentified ev = has_no_identity ev ≡ false

and_false : (b : Bool) → (b && false) ≡ false
and_false b = ground arith

identity_filled :
    (b : Bool) (k c u : String)
    → (u == "") ≡ false
    → (let key = if k == "" then u else k in b && ((if not (key == "") then key else c) == ""))
      ≡ false
identity_filled b k c u h = elim (Bool-cases (k == "")) [
  | inl e ↦ rw (e, h, h) (and_false b)
  | inr e ↦ rw (e, e, e) (and_false b)
]

identify-IsIdentified : (ev : TimelineEvent) → IsIdentified (identify ev)
unfolding identify timeline_channel_identity
identify-IsIdentified ev = elim (Bool-cases (has_no_identity ev)) [
  | inl e ↦
      rw (e, identify)
        (identity_filled (is_channel_event (to_lower ev.event)) ev.channel_key
          (if ev.channel == "" then unknown_name ev else ev.channel) (unknown_name ev)
          (prefix_nonempty "unknown:" (show_ℤ ev.g ++ ":" ++ show_ℤ ev.seq) refl))
  | inr e ↦ rw (e, identify) e
]

module _ (ev : TimelineEvent) where
  annotate_event : (annotate_unknown_endpoints ev).event ≡ ev.event
  unfolding annotate_unknown_endpoints
  annotate_event = ground arith

  annotate_key : (annotate_unknown_endpoints ev).channel_key ≡ ev.channel_key
  unfolding annotate_unknown_endpoints
  annotate_key = ground arith

  annotate_channel : (annotate_unknown_endpoints ev).channel ≡ ev.channel
  unfolding annotate_unknown_endpoints
  annotate_channel = ground arith

annotate_same :
    (ev : TimelineEvent) → has_no_identity (annotate_unknown_endpoints ev) ≡ has_no_identity ev
unfolding timeline_channel_identity
annotate_same ev = rw (annotate_event ev, annotate_key ev, annotate_channel ev) refl

normalize_events-IsIdentified :
    (names : Dict String String) (i : ℕ) (al : Aliases) (l : List TimelineEvent)
    → All IsIdentified (normalize_events names i al l).0
unfolding normalize_events normalize_event
normalize_events-IsIdentified names i al [] = tt
normalize_events-IsIdentified names i al (ev ∷ l) =
    let r = settle_names names i al ev in
    (
      annotate_same (identify r.1) ∙ identify-IsIdentified r.1,
      normalize_events-IsIdentified names (suc i) r.0 l,
    )

normalized-IsIdentified : (l : List TimelineEvent) → All IsIdentified (normalized l).0
unfolding normalized
normalized-IsIdentified l =
    normalize_events-IsIdentified (learn_names [] l) 0 (record { ptr_aliases = []; alias_seq = 0 })
      l

summary-IsIdentified : (ev : TimelineEvent) → is_summary ev ≡ true → IsIdentified ev
unfolding is_channel_event
summary-IsIdentified ev h = rw ((text_eq (to_lower ev.event) "audit_summary").0 h) refl

summaries : (l : List TimelineEvent) → All (λ ev. is_summary ev ≡ true) l → All IsIdentified l
summaries [] a = tt
summaries (ev ∷ l) (p, a) = (summary-IsIdentified ev p, summaries l a)

validate_silent : (l : List TimelineEvent) → All IsIdentified l → validate_channel_identities l ≡ []
unfolding validate_channel_identities
validate_silent [] a = refl
validate_silent (ev ∷ l) (p, a) = rw p (validate_silent l a)

-- In a mode that is not "teach", validateChannelIdentities finds nothing to warn of in the events of
-- an envelope: each event on a channel has the identity of one.
pub normalize_timeline-validate :
    (mode : String) (events : List TimelineEvent)
    → normalize_mode mode ≢ "teach"
    → validate_channel_identities (normalize_timeline mode events).events ≡ []
normalize_timeline-validate mode events other =
    let l = (normalized events).0 in
    let c = envelope-IsClosedBy mode events in
    let all : All IsIdentified (arranged mode l) =
      subst (All IsIdentified) (sym (arranged_all mode l other)) (normalized-IsIdentified events) in
    let body = drop_summaries (sort_events (arranged mode l)) in
    validate_silent (normalize_timeline mode events).events (
      subst (All IsIdentified) (sym c.1) (
        All-append IsIdentified body c.0
          (drop_summaries-All IsIdentified (sort_events (arranged mode l))
            (sort_events-All IsIdentified (arranged mode l) all))
          (summaries c.0 c.3)))
