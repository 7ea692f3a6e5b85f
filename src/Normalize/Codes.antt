-- ===== src/Normalize/Codes.antt =====
-- The codes of the warnings of an envelope.
use Prim.Native.String.{◌++◌}
use mathlib.Core.List.{◌++◌ as append}
use gtv_final_submission.Prelude.Int.{pos, int_eq}
use gtv_final_submission.Prelude.Dict.{Dict}
use gtv_final_submission.Prelude.Text.{to_lower, starts_with, show_ℤ, to_lower-starts_with}
use gtv_final_submission.Prelude.{
  ℕ, suc, String, Bool, true, false, ◌&&◌, List, [], ◌∷◌, ◌==◌, string_eq, nat_eq, ◌≡◌, refl, ◌⊎◌,
  arith, All, All-append, if◌then◌else◌,
}
use gtv_final_submission.Timeline.{TimelineEvent}
use gtv_final_submission.Timeline.Kinds.{is_goroutine_event, is_pairing_event}
use gtv_final_submission.Normalize.Fields.{
  Aliases, learn_names, normalize_event, normalize_events, identify, has_no_identity, settle_names,
  warn_goroutine, warn_identity, warn_pairing,
}
use gtv_final_submission.Normalize.Summary.{WarningEntry, warning_code, code_warnings}
use gtv_final_submission.Normalize.Envelope.{normalized, normalize_timeline}

abbrev pub IsCoded : WarningEntry → Type 0
IsCoded w =
    (w.code ≡ "missing_goroutine_id")
    ⊎ ((w.code ≡ "missing_channel_identity") ⊎ (w.code ≡ "missing_pairing_fields"))

abbrev HasCode : String → Type 0
HasCode w = IsCoded (record { code = warning_code w; message = w })

goroutine_coded : (w : String) → starts_with (to_lower w) "missing goroutine id" ≡ true → HasCode w
unfolding warning_code
goroutine_coded w h = ground arith

identity_coded :
    (w : String) → starts_with (to_lower w) "missing channel identity" ≡ true → HasCode w
unfolding warning_code
identity_coded w h = ground arith

pairing_coded : (w : String) → starts_with (to_lower w) "missing pairing fields" ≡ true → HasCode w
unfolding warning_code
pairing_coded w h = ground arith

module _ (rest : String) where
  abbrev goroutine_warning : String
  goroutine_warning = "missing goroutine id" ++ rest

  abbrev identity_warning : String
  identity_warning = "missing channel identity" ++ rest

  abbrev pairing_warning : String
  pairing_warning = "missing pairing fields" ++ rest

  goroutine-HasCode : HasCode goroutine_warning
  unfolding to_lower
  goroutine-HasCode =
      goroutine_coded goroutine_warning (to_lower-starts_with "missing goroutine id" rest refl)

  identity-HasCode : HasCode identity_warning
  unfolding to_lower
  identity-HasCode =
      identity_coded identity_warning (to_lower-starts_with "missing channel identity" rest refl)

  pairing-HasCode : HasCode pairing_warning
  unfolding to_lower
  pairing-HasCode =
      pairing_coded pairing_warning (to_lower-starts_with "missing pairing fields" rest refl)

abbrev if_so : Bool → String → List String
if_so b w = if b then w ∷ [] else []

if_so-All : (b : Bool) (w : String) → HasCode w → All HasCode (if_so b w)
if_so-All true w h = (h, tt)
if_so-All false w h = tt

warn_goroutine-All : (ev : TimelineEvent) → All HasCode (warn_goroutine ev)
unfolding warn_goroutine
warn_goroutine-All ev =
    let rest : String =
      " for "
      ++ ev.event
      ++ " ("
      ++ "seq="
      ++ show_ℤ ev.seq
      ++ " time_ns="
      ++ show_ℤ ev.time_ns
      ++ ")" in
    if_so-All (is_goroutine_event (to_lower ev.event) && (ev.g == pos 0)) (goroutine_warning rest)
      (goroutine-HasCode rest)

warn_identity-All : (ev : TimelineEvent) → All HasCode (warn_identity ev)
unfolding warn_identity
warn_identity-All ev =
    let rest : String =
      " for "
      ++ ev.event
      ++ " (g="
      ++ show_ℤ ev.g
      ++ " "
      ++ "seq="
      ++ show_ℤ ev.seq
      ++ " time_ns="
      ++ show_ℤ ev.time_ns
      ++ ")" in
    if_so-All (has_no_identity ev) (identity_warning rest) (identity-HasCode rest)

warn_pairing-All : (ev : TimelineEvent) → All HasCode (warn_pairing ev)
unfolding warn_pairing
warn_pairing-All ev =
    let rest : String =
      " for "
      ++ ev.event
      ++ " (g="
      ++ show_ℤ ev.g
      ++ " "
      ++ "seq="
      ++ show_ℤ ev.seq
      ++ " time_ns="
      ++ show_ℤ ev.time_ns
      ++ ")" in
    if_so-All
      (is_pairing_event (to_lower ev.event) ev.source
        && ((ev.peer_g == pos 0) && ((ev.pair_id == "") && (ev.msg_id == 0))))
      (pairing_warning rest) (pairing-HasCode rest)

normalize_events-HasCode :
    (names : Dict String String) (i : ℕ) (al : Aliases) (l : List TimelineEvent)
    → All HasCode (normalize_events names i al l).1
unfolding normalize_events normalize_event
normalize_events-HasCode names i al [] = tt
normalize_events-HasCode names i al (ev ∷ l) =
    let r = settle_names names i al ev in
    let e = r.1 in
    All-append HasCode
      (append (warn_goroutine e) (append (warn_identity e) (warn_pairing (identify e))))
      (normalize_events names (suc i) r.0 l).1
      (All-append HasCode (warn_goroutine e) (append (warn_identity e) (warn_pairing (identify e)))
        (warn_goroutine-All e)
        (All-append HasCode (warn_identity e) (warn_pairing (identify e)) (warn_identity-All e)
          (warn_pairing-All (identify e))))
      (normalize_events-HasCode names (suc i) r.0 l)

code_warnings-IsCoded : (ws : List String) → All HasCode ws → All IsCoded (code_warnings ws)
code_warnings-IsCoded [] a = tt
code_warnings-IsCoded (w ∷ ws) (p, a) = (p, code_warnings-IsCoded ws a)

-- In every mode, each warning of an envelope has one of the codes missing_goroutine_id,
-- missing_channel_identity and missing_pairing_fields, and so neither
-- validation_channel_identity_missing nor the fallback warning.
pub normalize_timeline-IsCoded :
    (mode : String) (events : List TimelineEvent)
    → All IsCoded (normalize_timeline mode events).warnings_v2
unfolding normalize_timeline normalized
normalize_timeline-IsCoded mode events = code_warnings-IsCoded (normalized events).1 (
    normalize_events-HasCode (learn_names [] events) 0 (record { ptr_aliases = []; alias_seq = 0 })
      events)
