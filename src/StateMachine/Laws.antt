-- ===== src/StateMachine/Laws.antt =====
-- What the generic state machine accepts, for every table of transitions.
use mathlib.Core.Path.{subst}
use mathlib.Core.List.{Memᴰ}
use lojinextv.Prelude.{
  ◌≡◌, sym, ◌↔◌, ◌⊎◌, inl, inr, true, some, none, List, [], ◌∷◌, arith, Bool-cases, All,
}
use lojinextv.StateMachine.{StateMachine, same, contains, can_transition_to, transition_to}

-- a property of all successors holds of each
pub All-Mem {ℓ κ} : {S : Type ℓ} (P : S → Type κ) (x : S) (xs : List S) → All P xs → Memᴰ x xs → P x
All-Mem P x [] ps m = elim m [ ]
All-Mem P x (y ∷ xs) ps (Memᴰ.head e) = subst P (sym e) ps.0
All-Mem P x (y ∷ xs) ps (Memᴰ.tail m) = All-Mem P x xs ps.1 m

module _ {ℓ} {S : Type ℓ} (dec : Discrete S) where
  pub same_iff : (a b : S) → (same dec a b ≡ true) ↔ (a ≡ b)
  unfolding same
  same_iff a b = ground arith

  contains→Mem : (a : S) (xs : List S) → contains dec a xs ≡ true → Memᴰ a xs
  unfolding contains
  contains→Mem a [] h = cc
  contains→Mem a (x ∷ xs) h = elim (dec a x) [
    | yes e ↦ Memᴰ.head e
    | no n ↦ Memᴰ.tail (contains→Mem a xs (ground arith))
  ]

  Mem→contains : (a : S) (xs : List S) → Memᴰ a xs → contains dec a xs ≡ true
  unfolding contains
  Mem→contains a [] m = elim m [ ]
  Mem→contains a (x ∷ xs) (Memᴰ.head e) = ground arith
  Mem→contains a (x ∷ xs) (Memᴰ.tail m) = ground (arith, Mem→contains a xs m)

  -- what a machine may move to
  abbrev pub Allowed : StateMachine S → S → Type ℓ
  Allowed sm next = (sm.current_state ≡ next) ⊎ Memᴰ next (sm.valid_transitions sm.current_state)

  can→Allowed :
      (sm : StateMachine S) (next : S) → can_transition_to dec sm next ≡ true → Allowed sm next
  unfolding can_transition_to
  can→Allowed sm next h = elim (dec sm.current_state next) [
    | yes e ↦ inl e
    | no n ↦ inr (contains→Mem next (sm.valid_transitions sm.current_state) (ground arith))
  ]

  Allowed→can :
      (sm : StateMachine S) (next : S) → Allowed sm next → can_transition_to dec sm next ≡ true
  unfolding can_transition_to
  Allowed→can sm next (inl e) = ground arith
  Allowed→can sm next (inr m) =
      ground (arith, Mem→contains next (sm.valid_transitions sm.current_state) m)

  -- A request is accepted exactly if it asks for the present state or for one that the table lists.
  pub transition_to_iff :
      (sm : StateMachine S) (next : S)
      → ((transition_to dec sm next).1 ≡ some next) ↔ Allowed sm next
  unfolding transition_to
  transition_to_iff sm next =
      (λ h. can→Allowed sm next (ground arith), λ a. ground (arith, Allowed→can sm next a))

  -- For every table: an accepted request leaves the machine in the state that it asked for, and a
  -- refused one, for a state that is neither the present one nor listed, leaves it as it was.
  pub transition_to_state :
      (sm : StateMachine S) (next : S)
      → (((transition_to dec sm next).1 ≡ some next)
          × ((transition_to dec sm next).0 ≡ record sm { current_state = next }))
        ⊎ (((transition_to dec sm next).1 ≡ none)
            × ((transition_to dec sm next).0 ≡ sm)
            × ¬ Allowed sm next)
  unfolding transition_to
  transition_to_state sm next = elim (Bool-cases (can_transition_to dec sm next)) [
    | inl y ↦ inl (ground arith, ground arith)
    | inr n ↦ inr (ground arith, ground arith, λ a. ground (arith, Allowed→can sm next a))
  ]
