-- ===== src/Deadlock/Quiet.antt =====
-- `quiescenceWarningEvent`: the goroutines that it lists.
use mathlib.Core.List.{Perm}
use mathlib.Core.List.Perm
use gtv_final_submission.Prelude.Dict.{keys}
use gtv_final_submission.Prelude.Int.{ℤ, pos, ◌≤ℤ◌, ◌-ℤ◌, leb_ℤ}
use gtv_final_submission.Prelude.{List, [], ◌∷◌, ◌≡◌, inl, inr, arith, Bool-cases, some, length}
use gtv_final_submission.Timeline.{Millis, TimelineEvent, object, field, millis, number, gids, end}
use gtv_final_submission.Parse.State.{ParseState}
use gtv_final_submission.Deadlock.Search.{place, sort_gids, quiescence_warning_event}

abbrev pub IsSorted : List ℤ → Type 0
IsSorted [] = Unit
IsSorted (g ∷ []) = Unit
IsSorted (g ∷ h ∷ hs) = (g ≤ℤ h) × IsSorted (h ∷ hs)

place-IsSorted : (g : ℤ) (l : List ℤ) → IsSorted l → IsSorted (place g l)
unfolding place
place-IsSorted g [] s = tt
place-IsSorted g (h ∷ []) s = ground arith
place-IsSorted g (h ∷ i ∷ l) s = ground (arith, place-IsSorted g (i ∷ l) s.1)

sort_gids-IsSorted : (l : List ℤ) → IsSorted (sort_gids l)
unfolding sort_gids
sort_gids-IsSorted [] = tt
sort_gids-IsSorted (g ∷ l) = place-IsSorted g (sort_gids l) (sort_gids-IsSorted l)

place-Perm : (g : ℤ) (l : List ℤ) → Perm (place g l) (g ∷ l)
unfolding place
place-Perm g [] = Perm.refl (g ∷ [])
place-Perm g (h ∷ l) = elim (Bool-cases (leb_ℤ g h)) [
  | inl e ↦ rw (e, place) (Perm.refl (g ∷ h ∷ l))
  | inr e ↦ rw (e, place) (Perm.trans (Perm.cons h (place-Perm g l)) (Perm.swap g h l))
]

sort_gids-Perm : (l : List ℤ) → Perm (sort_gids l) l
unfolding sort_gids
sort_gids-Perm [] = Perm.refl []
sort_gids-Perm (g ∷ l) = Perm.trans (place-Perm g (sort_gids l)) (Perm.cons g (sort_gids-Perm l))

-- A warning of quiescenceWarningEvent lists the blocked goroutines, each as often as it is blocked,
-- in ascending order, and says how long there was no progress, which is at least the threshold.
pub quiescence_warning_event_lists :
    (st : ParseState) (threshold : Millis) (ev : TimelineEvent)
    → quiescence_warning_event st threshold ≡ some ev
    → (l : List ℤ) × IsSorted l
      × Perm l (keys st.blocked)
      × (threshold ≤ℤ (st.last_time_ms -ℤ st.last_progress_ms))
      × (ev.value
          ≡ object (
              field "since_ms" (millis (st.last_time_ms -ℤ st.last_progress_ms)) (
                field "blocked_count"
                  (number (pos (length l)))
                  (field "blocked_gids" (gids l) end))))
unfolding quiescence_warning_event
quiescence_warning_event_lists st threshold ev e =
    let l = sort_gids (keys st.blocked) in
    (
      l,
      sort_gids-IsSorted (keys st.blocked),
      sort_gids-Perm (keys st.blocked),
      ground arith,
      ground arith,
    )
