-- ===== src/Parse/Machine.antt =====
-- The effects of a handler: it mutates the parse state, hands events to the callback `emit`, and
-- returns early with the callback's error. The environment variable, the callback and the order in
-- which a range visits the keys of a map are parameters.
use gtv_final_submission.Prelude.Dict.{lookup, insert, or_zero}
use gtv_final_submission.Prelude.{suc, String, Bool, true, false, List, [], ◌∷◌, ◌++◌, string_eq}
use gtv_final_submission.Timeline.{TimelineEvent}
use gtv_final_submission.Parse.State.{ParseState}

-- `wrap` is what the wrappers around the callback do to an event; `refuses` is the callback's
-- answer, by the events before and the event itself; `range` orders the keys of a map.
pub record Callback : Type 0 where
  pub wrap : TimelineEvent → TimelineEvent
  pub refuses : List TimelineEvent → TimelineEvent → Bool
  pub range : List String → List String
  pub skip_pairing_channels : List String

-- `out` holds the events handed to the callback, in order.
pub record Machine : Type 0 where
  pub st : ParseState
  pub out : List TimelineEvent

pub data Outcome (A : Type 0) : Type 0 where
  done : A → Outcome A
  failed : Outcome A

abbrev pub M : Type 0 → Type 0
M A = Machine → Machine × Outcome A

abbrev pub run_on : {A B : Type 0} → (A → M B) → Machine → Outcome A → Machine × Outcome B
run_on f m (done a) = f a m
run_on f m failed = (m, failed)

infixl 5 ◌>>=◌ ◌>>◌
abbrev pub ◌>>=◌ : {S T : Type 0} → M S → (S → M T) → M T
◌>>=◌ p f m = run_on f (p m).0 (p m).1

abbrev pub ◌>>◌ : {T : Type 0} → M (Unit {0}) → M T → M T
p >> q = p >>= λ _. q

abbrev pub give : {A : Type 0} → A → M A
give a m = (m, done a)

abbrev pub skip : M (Unit {0})
skip m = (m, done tt)

-- A read and a write of the state.
abbrev pub get_state : M ParseState
get_state m = (m, done m.st)

abbrev pub modify : (ParseState → ParseState) → M (Unit {0})
modify f m = (record m { st = f m.st }, done tt)

abbrev pub answer : Bool → Outcome (Unit {0})
answer true = failed
answer false = done tt

unfoldable pub emit : Callback → TimelineEvent → M (Unit {0})
emit cb ev m =
    let e = cb.wrap ev in (record m { out = m.out ++ e ∷ [] }, answer (cb.refuses m.out e))

-- `_ = …`: the error is dropped.
abbrev pub attempt : M (Unit {0}) → M (Unit {0})
attempt p m = ((p m).0, done tt)

unfoldable pub inc_audit : String → ParseState → ParseState
inc_audit reason st = record st {
  audit_counts = insert reason (suc (or_zero 0 (lookup reason st.audit_counts))) st.audit_counts;
}
