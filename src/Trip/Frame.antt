-- ===== src/Trip/Frame.antt =====
-- What no assignment of an edit touches.
use lojinextv.Prelude.{
  ℕ, ◌≡◌, refl, ◌∙◌, String, Option, none, some, List, [], ◌∷◌, inl, inr, Bool-cases, str_eq,
}
use lojinextv.Trip.Tables.{Trip}
use lojinextv.Trip.Overlap.{same_value}
use lojinextv.Trip.Edit.{
  Sent, absent, sent, EditTripRequest, Step, assign, assign_start, assign_timezone, steps,
  run_steps,
}

-- what no edit touches, beside the version that the write counts up
abbrev pub Frame : Trip → Trip → Type 0
Frame t u = (u.id ≡ t.id) × (u.version ≡ t.version) × (u.status ≡ t.status)

Frame-trans : (t u w : Trip) → Frame t u → Frame u w → Frame t w
Frame-trans t u w (a, b, c) (a', b', c') = (a' ∙ a, b' ∙ b, c' ∙ c)

assign-Frame :
    (get : Trip → Option ℕ) (set : Option ℕ → Trip → Trip) (name : String) (s : Sent)
    → ((v : Option ℕ) (t : Trip) → Frame t (set v t))
    → (t : Trip) → Frame t (assign get set name s t).0
assign-Frame get set name absent h t = (refl, refl, refl)
assign-Frame get set name (sent v) h t = elim (Bool-cases (same_value (get t) v)) [
  | inl y ↦ rw y (refl, refl, refl)
  | inr y ↦ rw y (h v t)
]

assign_start-Frame : (start : Option ℕ) (t : Trip) → Frame t (assign_start start t).0
assign_start-Frame none t = (refl, refl, refl)
assign_start-Frame (some start) t =
    elim (Bool-cases (same_value (some start) (some t.trip_datetime_utc))) [
      | inl y ↦ rw y (refl, refl, refl)
      | inr y ↦ rw y (refl, refl, refl)
    ]

assign_timezone-Frame : (zone : Option String) (t : Trip) → Frame t (assign_timezone zone t).0
assign_timezone-Frame none t = (refl, refl, refl)
assign_timezone-Frame (some zone) t = elim (Bool-cases (str_eq zone t.trip_timezone)) [
  | inl y ↦ rw y (refl, refl, refl)
  | inr y ↦ rw y (refl, refl, refl)
]

abbrev Frames : List Step → Type 0
Frames [] = Unit {0}
Frames (f ∷ fs) = ((t : Trip) → Frame t (f t).0) × Frames fs

run_steps-Frame : (fs : List Step) → Frames fs → (t : Trip) → Frame t (run_steps fs t).0
unfolding run_steps
run_steps-Frame [] h t = (refl, refl, refl)
run_steps-Frame (f ∷ fs) (h, hs) t =
    Frame-trans t (f t).0 (run_steps fs (f t).0).0 (h t) (run_steps-Frame fs hs (f t).0)

pub assigned-Frame :
    (start : Option ℕ) (body : EditTripRequest) (t : Trip)
    → Frame t (run_steps (steps start body) t).0
assigned-Frame start body t =
    run_steps-Frame (steps start body)
      (
        (λ u. assign_start-Frame start u),
        (
          (λ u. assign_timezone-Frame body.trip_timezone u),
          (
            (λ u. assign-Frame _ _ _ body.driver_id (λ v w. (refl, refl, refl)) u),
            (
              (λ u. assign-Frame _ _ _ body.vehicle_id (λ v w. (refl, refl, refl)) u),
              (
                (λ u. assign-Frame _ _ _ body.trailer_id (λ v w. (refl, refl, refl)) u),
                (
                  (λ u. assign-Frame _ _ _ body.tare_weight_kg (λ v w. (refl, refl, refl)) u),
                  (
                    (λ u. assign-Frame _ _ _ body.gross_weight_kg (λ v w. (refl, refl, refl)) u),
                    (
                      (λ u. assign-Frame _ _ _ body.net_weight_kg (λ v w. (refl, refl, refl)) u),
                      tt,
                    ),
                  ),
                ),
              ),
            ),
          ),
        ),
      )
      t
