-- ===== src/Topology/Soundness.antt =====
-- `ValidateTopology` of internal/traceproc/topology.go, against a specification of the timelines
-- that it is for.
use gtv_final_submission.Prelude.Dict.{Dict, lookup, insert, lookup-insert}
use gtv_final_submission.Prelude.{
  ℕ, suc, String, true, false, Option, none, some, List, [], ◌∷◌, ◌≡◌, ◌≢◌, ◌↔◌, ◌⊎◌, inl, inr,
  refl, sym, ap, subst, ◌∙◌, arith, ◌==◌, text_eq, string_eq, if◌then◌else◌, Bool-cases,
}
use gtv_final_submission.Timeline.{TimelineEvent}
use gtv_final_submission.Topology.{
  or_cons, or_none, no_normalized_identity, TopologyValidator, TopologyError, pointer_from_event,
  channel_identity, event_kind, clashes, observe, observe_all, validate_topology,
  normalize_channel_key, normalize_pointer,
}

-- A pointer of an event is an identity of its channel, or there is another one.
pointer-has_identity : (ev : TimelineEvent) → pointer_from_event ev ≢ "" → channel_identity ev ≢ ""
unfolding pointer_from_event channel_identity
pointer-has_identity ev h = ground (
  arith,
  text_eq (normalize_pointer ev.ch_ptr) "",
  text_eq (normalize_channel_key ev.channel_key) "",
  text_eq (normalize_channel_key ev.channel) "",
)

-- What one round needs to report nothing.
abbrev Agrees : Dict String String → TimelineEvent → Type 0
Agrees m ev =
    (identity : String)
    → pointer_from_event ev ≢ ""
    → lookup (pointer_from_event ev) m ≡ some identity
    → identity ≡ channel_identity ev

abbrev pub Named : TimelineEvent → Type 0
Named ev = event_kind ev.event ≢ "" → channel_identity ev ≢ ""

-- The map after a round that reports nothing.
abbrev noted : Dict String String → TimelineEvent → Dict String String
noted m ev = elim (pointer_from_event ev == "") [
  | true ↦ m
  | false ↦ insert (pointer_from_event ev) (channel_identity ev) m
]

module _ (m : Dict String String) (ev : TimelineEvent) (idx : ℕ) where
  abbrev v : TopologyValidator
  v = record { pointer_to_identity = m }

  observe-Agrees : (observe v ev idx).1 ≡ none → Agrees m ev
  unfolding observe
  observe-Agrees h identity p found =
      ground (arith, text_eq (pointer_from_event ev) "", text_eq identity (channel_identity ev))

  observe-Named : (observe v ev idx).1 ≡ none → Named ev
  unfolding observe
  observe-Named h k e = ground (
    arith,
    text_eq (pointer_from_event ev) "",
    text_eq (channel_identity ev) "",
    text_eq (event_kind ev.event) "",
  )

  observe-noted :
      (observe v ev idx).1 ≡ none → (observe v ev idx).0.pointer_to_identity ≡ noted m ev
  unfolding observe
  observe-noted h = ground (arith, text_eq (pointer_from_event ev) "")

  clashes-eq-none :
      (o : Option String)
      → lookup (pointer_from_event ev) m ≡ o
      → pointer_from_event ev ≢ ""
      → Agrees m ev
      → clashes o (channel_identity ev) ≡ none
  clashes-eq-none none found p a = refl
  clashes-eq-none (some i) found p a = rw ((text_eq i (channel_identity ev)).1 (a i p found))

  observe_passes : Agrees m ev → Named ev → (observe v ev idx).1 ≡ none
  unfolding observe
  observe_passes a n = ground (
    arith,
    text_eq (pointer_from_event ev) "",
    text_eq (channel_identity ev) "",
    text_eq (event_kind ev.event) "",
    pointer-has_identity ev,
    λ (p : pointer_from_event ev ≢ ""). clashes-eq-none (lookup (pointer_from_event ev) m) refl p a,
  )

-- Membership in the events of a timeline.
abbrev pub In : TimelineEvent → List TimelineEvent → Type 0
In a [] = ⊥
In a (ev ∷ evs) = (a ≡ ev) ⊎ In a evs

-- Two events with one pointer have one channel identity.
abbrev pub SamePointer : TimelineEvent → TimelineEvent → Type 0
SamePointer a b =
    pointer_from_event a ≢ ""
    → pointer_from_event a ≡ pointer_from_event b
    → channel_identity a ≡ channel_identity b

abbrev pub IsPointerConsistent : List TimelineEvent → Type 0
IsPointerConsistent evs = (a b : TimelineEvent) → In a evs → In b evs → SamePointer a b

-- Every send and receive has a channel identity.
abbrev pub IsNamed : List TimelineEvent → Type 0
IsNamed evs = (a : TimelineEvent) → In a evs → Named a

abbrev AllAgree : Dict String String → List TimelineEvent → Type 0
AllAgree m evs = (a : TimelineEvent) → In a evs → Agrees m a

lookup-noted :
    (m : Dict String String) (ev a : TimelineEvent)
    → pointer_from_event a ≢ ""
    → lookup (pointer_from_event a) (noted m ev) ≡ (
        if pointer_from_event ev == pointer_from_event a
        then some (channel_identity ev)
        else lookup (pointer_from_event a) m)
lookup-noted m ev a p = ground (
  arith,
  text_eq (pointer_from_event ev) "",
  text_eq (pointer_from_event ev) (pointer_from_event a),
  lookup-insert (pointer_from_event ev) (pointer_from_event a) (channel_identity ev) m,
)

-- Events that agree with the map after a round agree with the event of that round, and with the map.
module _ (m : Dict String String) (ev a : TimelineEvent) where
  Agrees-SamePointer : Agrees (noted m ev) a → SamePointer ev a
  Agrees-SamePointer h p e =
      h (channel_identity ev) (λ q. p (e ∙ q))
        (rw (lookup-noted m ev a (λ q. p (e ∙ q)), (text_eq _ _).1 e))

  Agrees-before : Agrees m ev → Agrees (noted m ev) a → Agrees m a
  Agrees-before old h i p found =
      elim (Bool-cases (pointer_from_event ev == pointer_from_event a)) [
        | inl e ↦
            let same = (text_eq (pointer_from_event ev) (pointer_from_event a)).0 e in
            let q : pointer_from_event ev ≢ "" = λ r. p (sym same ∙ r) in
            old i q (rw same found) ∙ Agrees-SamePointer h q same
        | inr other ↦ h i p (rw (lookup-noted m ev a p, other) found)
      ]

  Agrees-after : Agrees m a → SamePointer ev a → Agrees (noted m ev) a
  Agrees-after old same i p found =
      elim (Bool-cases (pointer_from_event ev == pointer_from_event a)) [
        | inl e ↦
            let one = (text_eq (pointer_from_event ev) (pointer_from_event a)).0 e in
            let first : i ≡ channel_identity ev = ground (arith, lookup-noted m ev a p) in
            first ∙ same (λ r. p (sym one ∙ r)) one
        | inr other ↦ old i p (ground (arith, lookup-noted m ev a p))
      ]

-- No error from a round on, in terms of the map before it.
abbrev Passes : Dict String String → List TimelineEvent → Type 0
Passes m evs = AllAgree m evs × IsPointerConsistent evs × IsNamed evs

abbrev errors : Dict String String → ℕ → List TimelineEvent → List TopologyError
errors m idx evs = observe_all (record { pointer_to_identity = m }) idx evs

Passes-cons :
    (m : Dict String String) (ev : TimelineEvent) (evs : List TimelineEvent)
    → Agrees m ev
    → Named ev
    → Passes (noted m ev) evs
    → Passes m (ev ∷ evs)
Passes-cons m ev evs a n (all, same, named) = (agree, consistent, names)
  where
    agree : AllAgree m (ev ∷ evs)
    agree b (inl e) = subst (Agrees m) (sym e) a
    agree b (inr i) = Agrees-before m ev b a (all b i)

    consistent : IsPointerConsistent (ev ∷ evs)
    consistent b c (inl p) (inl q) = λ _ _. ap channel_identity (p ∙ sym q)
    consistent b c (inl p) (inr j) = rw p (Agrees-SamePointer m ev c (all c j))
    consistent b c (inr i) (inl q) =
        rw q (λ p e. sym (Agrees-SamePointer m ev b (all b i) (λ r. p (e ∙ r)) (sym e)))
    consistent b c (inr i) (inr j) = same b c i j

    names : IsNamed (ev ∷ evs)
    names b (inl e) = rw e n
    names b (inr i) = named b i

Passes-tail :
    (m : Dict String String) (ev : TimelineEvent) (evs : List TimelineEvent)
    → Passes m (ev ∷ evs)
    → Passes (noted m ev) evs
Passes-tail m ev evs (all, same, named) = (
  λ b i. Agrees-after m ev b (all b (inr i)) (same ev b (inl refl) (inr i)),
  λ b c i j. same b c (inr i) (inr j),
  λ b i. named b (inr i),
)

or_cons-nil :
    (o : Option TopologyError) (errs : List TopologyError)
    → or_cons o errs ≡ []
    → (o ≡ none) × (errs ≡ [])
or_cons-nil none errs h = (refl, h)
or_cons-nil (some err) errs h = cc

step_errors :
    (m : Dict String String) (idx : ℕ) (ev : TimelineEvent) (evs : List TimelineEvent)
    → (observe (record { pointer_to_identity = m }) ev idx).1 ≡ none
    → errors m idx (ev ∷ evs) ≡ errors (noted m ev) (suc idx) evs
unfolding observe_all
step_errors m idx ev evs h =
    rw h (ap (λ (n : Dict String String). errors n (suc idx) evs) (observe-noted m ev idx h))

errors_sound :
    (m : Dict String String) (idx : ℕ) (evs : List TimelineEvent)
    → errors m idx evs ≡ []
    → Passes m evs
unfolding observe_all
errors_sound m idx [] h = (λ a i. elim i [ ], λ a b i. elim i [ ], λ a i. elim i [ ])
errors_sound m idx (ev ∷ evs) h =
    let quiet = (or_cons-nil _ _ h).0 in
    Passes-cons m ev evs (observe-Agrees m ev idx quiet) (observe-Named m ev idx quiet)
      (errors_sound (noted m ev) (suc idx) evs (sym (step_errors m idx ev evs quiet) ∙ h))

errors_complete :
    (m : Dict String String) (idx : ℕ) (evs : List TimelineEvent)
    → Passes m evs
    → errors m idx evs ≡ []
unfolding observe_all
errors_complete m idx [] p = refl
errors_complete m idx (ev ∷ evs) p =
    step_errors m idx ev evs (observe_passes m ev idx (p.0 ev (inl refl)) (p.2 ev (inl refl)))
    ∙ errors_complete (noted m ev) (suc idx) evs (Passes-tail m ev evs p)

or_none-eq-none : (errs : List TopologyError) → or_none errs ≡ none → errs ≡ []
or_none-eq-none [] h = refl
or_none-eq-none (err ∷ errs) h = cc

-- `ValidateTopology` returns no error exactly when every pointer that an event carries has one
-- channel identity throughout, and every send and receive has an identity, which need not be a
-- pointer: its key or its name will do.
pub validate_topology_iff :
    (evs : List TimelineEvent)
    → (validate_topology evs ≡ none) ↔ (IsPointerConsistent evs × IsNamed evs)
unfolding validate_topology lookup
validate_topology_iff [] = (λ h. ((λ a b i. elim i [ ]), λ a i. elim i [ ]), λ h. refl)
validate_topology_iff (ev ∷ evs) = (
  λ h. let p = errors_sound [] 0 (ev ∷ evs) (or_none-eq-none _ h) in (p.1, p.2),
  λ h. rw (errors_complete [] 0 (ev ∷ evs) (λ a i j p e. cc, h.0, h.1)),
)

-- The error for a pointer without an identity is never reported.
pub no_identity_unreachable :
    (v : TopologyValidator) (ev : TimelineEvent) (idx n : ℕ) (name ptr : String)
    → (observe v ev idx).1 ≢ some (no_normalized_identity n name ptr)
unfolding observe
no_identity_unreachable v ev idx n name ptr = λ h. ground (
  arith,
  text_eq (pointer_from_event ev) "",
  text_eq (channel_identity ev) "",
  pointer-has_identity ev,
)
