-- ===== src/StateMachine.antt =====
-- packages/platform-common/src/platform_common/state_machine.py: the generic state machine, and
-- below it the two that the services define. A state machine object is its current state and its
-- table of transitions; `ValueError` is the only error.
pub mod Laws
pub mod Trip
pub mod Driver
mod Tests
use lojinextv.Prelude.{
  Bool, true, false, ◌||◌, Option, none, some, List, [], ◌∷◌, ite, if◌then◌else◌,
}

pub record StateMachine {ℓ} (S : Type ℓ) : Type ℓ where
  pub current_state : S
  -- `dict.get(state, set())`: a state without an entry has no successor
  pub valid_transitions : S → List S

module _ {ℓ} {S : Type ℓ} (dec : Discrete S) where
  -- `==` on enum members
  unfoldable pub same : S → S → Bool
  same a b = ite (dec a b) true false

  -- `next_state in allowed`
  unfoldable pub contains : S → List S → Bool
  unfolding same
  contains a [] = false
  contains a (x ∷ xs) = same a x || contains a xs

  unfoldable pub can_transition_to : StateMachine S → S → Bool
  unfolding contains same
  can_transition_to sm next =
      if same sm.current_state next
      then true
      else contains next (sm.valid_transitions sm.current_state)

  -- `none` is the ValueError, and the machine stays as it was
  unfoldable pub transition_to : StateMachine S → S → StateMachine S × Option S
  unfolding can_transition_to
  transition_to sm next =
      if can_transition_to sm next
      then (record sm { current_state = next }, some next)
      else (sm, none)

  -- a sequence of requests to one machine; a refused one changes nothing
  unfoldable pub run : StateMachine S → List S → StateMachine S
  unfolding transition_to
  run sm [] = sm
  run sm (next ∷ rest) = run (transition_to sm next).0 rest
