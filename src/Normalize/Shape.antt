-- ===== src/Normalize/Shape.antt =====
-- The events of the envelope: their order, and where the audit summary stands.
use mathlib.Core.List.{Perm, append-nil}
use mathlib.Core.List.Perm
use gtv_final_submission.Prelude.Text.{to_lower}
use gtv_final_submission.Prelude.{
  String, true, false, List, [], ◌∷◌, ◌++◌, ◌==◌, string_eq, text_eq, ◌≡◌, ◌≢◌, ◌≤◌, refl, sym, ap,
  ◌∙◌, inl, inr, arith, Bool-cases, All, if◌then◌else◌, length, subst,
}
use gtv_final_submission.Timeline.{Fields, TimelineEvent, zero_event, counters, normalize_mode}
use gtv_final_submission.Unmatched.{set_field}
use gtv_final_submission.Normalize.Summary.{
  comes_before, place_event, sort_events, filter_events, is_summary, merge_summary,
  merge_audit_summaries,
}
use gtv_final_submission.Normalize.Envelope.{
  set_value, set_last, arrange, close, count_by_type, is_teach, normalized, normalize_timeline,
}
use gtv_final_submission.Normalize.Order.{
  IsSorted, IsOrdered, sort_events-IsSorted, IsSorted-IsOrdered,
}

abbrev pub IsPlain : TimelineEvent → Type 0
IsPlain ev = is_summary ev ≡ false

abbrev pub drop_summaries : List TimelineEvent → List TimelineEvent
drop_summaries [] = []
drop_summaries (ev ∷ evs) =
    let rest = drop_summaries evs in if is_summary ev then rest else ev ∷ rest

merge_keeps :
    (m : TimelineEvent) (l : List TimelineEvent) → (merge_audit_summaries m l).0 ≡ drop_summaries l
unfolding merge_audit_summaries
merge_keeps m [] = refl
merge_keeps m (ev ∷ l) = rw (merge_keeps (if is_summary ev then merge_summary m ev else m) l) refl

pub drop_summaries-All :
    (P : TimelineEvent → Type 0) (l : List TimelineEvent) → All P l → All P (drop_summaries l)
drop_summaries-All P [] a = tt
drop_summaries-All P (ev ∷ l) (p, a) = elim (Bool-cases (is_summary ev)) [
  | inl e ↦ rw e (drop_summaries-All P l a)
  | inr e ↦ rw e (p, drop_summaries-All P l a)
]

drop_summaries-IsSorted : (l : List TimelineEvent) → IsSorted l → IsSorted (drop_summaries l)
drop_summaries-IsSorted [] o = tt
drop_summaries-IsSorted (ev ∷ l) (a, o) = elim (Bool-cases (is_summary ev)) [
  | inl e ↦ rw e (drop_summaries-IsSorted l o)
  | inr e ↦
      rw e (drop_summaries-All (λ x. comes_before x ev ≡ false) l a, drop_summaries-IsSorted l o)
]

drop_summaries-IsPlain : (l : List TimelineEvent) → All IsPlain (drop_summaries l)
drop_summaries-IsPlain [] = tt
drop_summaries-IsPlain (ev ∷ l) = elim (Bool-cases (is_summary ev)) [
  | inl e ↦ rw e (drop_summaries-IsPlain l)
  | inr e ↦ rw e (e, drop_summaries-IsPlain l)
]

drop_cons :
    (ev : TimelineEvent) (l m : List TimelineEvent)
    → Perm (drop_summaries l) (drop_summaries m)
    → Perm (drop_summaries (ev ∷ l)) (drop_summaries (ev ∷ m))
drop_cons ev l m h = elim (Bool-cases (is_summary ev)) [
  | inl e ↦ rw e h
  | inr e ↦ rw e (Perm.cons ev h)
]

drop_swap :
    (a b : TimelineEvent) (l : List TimelineEvent)
    → Perm (drop_summaries (a ∷ b ∷ l)) (drop_summaries (b ∷ a ∷ l))
drop_swap a b l = elim (Bool-cases (is_summary a)) [
  | inl e ↦ rw e (Perm.refl _)
  | inr e ↦ elim (Bool-cases (is_summary b)) [
    | inl f ↦ rw (e, f) (Perm.refl _)
    | inr f ↦ rw (e, f) (Perm.swap b a (drop_summaries l))
  ]
]

drop_place :
    (ev : TimelineEvent) (l : List TimelineEvent)
    → Perm (drop_summaries (place_event ev l)) (drop_summaries (ev ∷ l))
unfolding place_event
drop_place ev [] = Perm.refl (drop_summaries (ev ∷ []))
drop_place ev (e ∷ l) = elim (Bool-cases (comes_before e ev)) [
  | inl first ↦
      rw (first, place_event)
        (Perm.trans (drop_cons e (place_event ev l) (ev ∷ l) (drop_place ev l)) (drop_swap e ev l))
  | inr after ↦ rw (after, place_event) (Perm.refl (drop_summaries (ev ∷ e ∷ l)))
]

drop_sort : (l : List TimelineEvent) → Perm (drop_summaries (sort_events l)) (drop_summaries l)
unfolding sort_events
drop_sort [] = Perm.refl []
drop_sort (ev ∷ l) =
    Perm.trans (drop_place ev (sort_events l)) (drop_cons ev (sort_events l) l (drop_sort l))

set_last-snoc :
    (f : Fields → Fields) (l : List TimelineEvent) (m : TimelineEvent)
    → is_summary m ≡ true
    → set_last f (l ++ (m ∷ [])) ≡ l ++ (set_value f m ∷ [])
unfolding set_last
set_last-snoc f [] m h = rw h refl
set_last-snoc f (a ∷ []) m h = rw h refl
set_last-snoc f (a ∷ b ∷ l) m h =
    ap (λ (t : List TimelineEvent). a ∷ t) (set_last-snoc f (b ∷ l) m h)

set_last_plain : (f : Fields → Fields) (l : List TimelineEvent) → All IsPlain l → set_last f l ≡ l
unfolding set_last
set_last_plain f [] a = refl
set_last_plain f (e ∷ []) a = rw a.0 refl
set_last_plain f (e ∷ b ∷ l) a =
    ap (λ (t : List TimelineEvent). e ∷ t) (set_last_plain f (b ∷ l) a.1)

-- What follows the events is the one summary, if there is one.
abbrev pub IsClosedBy : List TimelineEvent → List TimelineEvent → Type 0
IsClosedBy evs l =
    (tail : List TimelineEvent) × (l ≡ evs ++ tail)
    × (length tail ≤ 1)
    × All (λ ev. is_summary ev ≡ true) tail

summary_name :
    (name : String) → (name == "audit_summary") ≡ true → (to_lower name == "audit_summary") ≡ true
unfolding to_lower
summary_name name e = rw ((text_eq name "audit_summary").0 e) refl

close-IsClosedBy :
    (evs : List TimelineEvent) (m : TimelineEvent)
    → All IsPlain evs
    → IsClosedBy evs (close (evs, m))
unfolding close
close-IsClosedBy evs m plain = elim (Bool-cases (m.event == "audit_summary")) [
  | inl e ↦
      let f = set_field "event_counts_by_type" (counters (count_by_type [] (evs ++ (m ∷ [])))) in
      let s : is_summary m ≡ true = summary_name m.event e in
      rw (e, close) (set_value f m ∷ [], set_last-snoc f evs m s, omega arith, (s, tt))
  | inr e ↦
      let f = set_field "event_counts_by_type" (counters (count_by_type [] evs)) in
      rw (e, close) ([], set_last_plain f evs plain ∙ sym (append-nil evs), omega arith, tt)
]

drop_append :
    (l m : List TimelineEvent)
    → All IsPlain l
    → All (λ ev. is_summary ev ≡ true) m
    → drop_summaries (l ++ m) ≡ l
drop_append [] [] a b = refl
drop_append [] (e ∷ m) a b = rw b.0 (drop_append [] m tt b.1)
drop_append (e ∷ l) m a b = rw a.0 (ap (λ (t : List TimelineEvent). e ∷ t) (drop_append l m a.1 b))

-- What "teach" keeps of the events, and the other modes, which keep all.
abbrev pub arranged : String → List TimelineEvent → List TimelineEvent
arranged mode l = (if is_teach mode then filter_events mode [] l else (l, [])).0

pub arranged_all :
    (mode : String) (l : List TimelineEvent) → normalize_mode mode ≢ "teach" → arranged mode l ≡ l
arranged_all mode l other =
    let e : is_teach mode ≡ false = ground (arith, text_eq (normalize_mode mode) "teach") in
    rw (e, arranged) refl

arrange_is :
    (mode : String) (l : List TimelineEvent)
    → (arrange mode l).0 ≡ drop_summaries (sort_events (arranged mode l))
unfolding arrange
arrange_is mode l = merge_keeps zero_event (sort_events (arranged mode l))

pub envelope-IsClosedBy :
    (mode : String) (events : List TimelineEvent)
    → IsClosedBy
        (drop_summaries (sort_events (arranged mode (normalized events).0)))
        (normalize_timeline mode events).events
unfolding normalize_timeline
envelope-IsClosedBy mode events =
    let l = (normalized events).0 in
    let body = drop_summaries (sort_events (arranged mode l)) in
    subst (λ (k : List TimelineEvent). IsClosedBy body (close (k, (arrange mode l).1)))
      (sym (arrange_is mode l))
      (close-IsClosedBy body (arrange mode l).1
        (drop_summaries-IsPlain (sort_events (arranged mode l))))

-- The events of an envelope stand in the order of their times, those of one time in that of their
-- sequence numbers, then of their goroutines, then of their names in lower case; none of them is an
-- audit summary, but for at most one summary that comes last.
pub normalize_timeline-IsOrdered :
    (mode : String) (events : List TimelineEvent)
    → (body : List TimelineEvent) × IsOrdered body
      × All IsPlain body
      × IsClosedBy body (normalize_timeline mode events).events
normalize_timeline-IsOrdered mode events =
    let l = sort_events (arranged mode (normalized events).0) in
    (
      drop_summaries l,
      IsSorted-IsOrdered (drop_summaries l)
          (drop_summaries-IsSorted l (sort_events-IsSorted (arranged mode (normalized events).0))),
      drop_summaries-IsPlain l,
      envelope-IsClosedBy mode events,
    )

-- In a mode that is not "teach", the events of an envelope that are no audit summary are the events
-- that the loop made and that are none, each as often as it made it.
pub normalize_timeline_keeps :
    (mode : String) (events : List TimelineEvent)
    → normalize_mode mode ≢ "teach"
    → Perm
        (drop_summaries (normalize_timeline mode events).events)
        (drop_summaries (normalized events).0)
normalize_timeline_keeps mode events other =
    let l = (normalized events).0 in
    let same : arranged mode l ≡ l = arranged_all mode l other in
    let c = envelope-IsClosedBy mode events in
    let body = drop_summaries (sort_events (arranged mode l)) in
    subst (λ (k : List TimelineEvent). Perm k (drop_summaries l))
      (sym (
        ap drop_summaries c.1
        ∙ drop_append body c.0 (drop_summaries-IsPlain (sort_events (arranged mode l))) c.3))
      (subst (λ (k : List TimelineEvent). Perm (drop_summaries (sort_events k)) (drop_summaries l))
        (sym same) (drop_sort l))
