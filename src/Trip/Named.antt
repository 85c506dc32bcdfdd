-- ===== src/Trip/Named.antt =====
-- The values that an edit assigns and the names that it records.
pub mod Each
pub mod Rest
use lojinextv.Prelude.{
  ℕ, ◌≡◌, refl, sym, ap, ◌∙◌, String, Bool, true, false, not, ◌||◌, Option, none, some, List, [],
  ◌∷◌, ◌++◌, arith, any, if◌then◌else◌, Bool-cases, inl, inr, str_eq,
}
use lojinextv.Trip.Tables.{Trip}
use lojinextv.Trip.Overlap.{same_value}
use lojinextv.Trip.Edit.{
  Sent, absent, sent, sent_or, EditTripRequest, Step, assign, assign_start, assign_timezone, steps,
  run_steps, noted,
}

abbrev pub is : String → String → Bool
is n k = str_eq k n

same_value_refl : (a : Option ℕ) → same_value a a ≡ true
same_value_refl none = refl
same_value_refl (some a) = ground arith

same_value_eq : (a b : Option ℕ) → same_value a b ≡ true → a ≡ b
same_value_eq none none h = refl
same_value_eq none (some b) h = cc
same_value_eq (some a) none h = cc
same_value_eq (some a) (some b) h = let e : a ≡ b = ground arith in ap (λ k. some k) e

pub any-append :
    (p : String → Bool) (xs ys : List String) → any p (xs ++ ys) ≡ (any p xs || any p ys)
any-append p [] ys = refl
any-append p (x ∷ xs) ys = elim (Bool-cases (p x)) [
  | inl y ↦ rw y refl
  | inr y ↦ rw y (any-append p xs ys)
]

pub or_false : (b : Bool) → (b || false) ≡ b
or_false true = refl
or_false false = refl

-- A field of a row and its name: the name is recorded exactly if the field has another value, and the
-- field has the value that was sent, if one was.
pub record Field (n : String) (get : Trip → Option ℕ) (s : Sent) (t u : Trip)
    (changed : List String) : Type 0 where
  pub named : any (is n) changed ≡ not (same_value (get t) (get u))
  pub value : get u ≡ sent_or s (get t)

abbrev pub sent_start : Option ℕ → Sent
sent_start none = absent
sent_start (some k) = sent (some k)

-- what leaves a field and its name alone
abbrev pub Foreign : String → (Trip → Option ℕ) → Trip → Trip × List String → Type 0
Foreign n get t r = (get r.0 ≡ get t) × (any (is n) r.1 ≡ false)

-- one more step
infixr 20 ◌▸◌
abbrev pub ◌▸◌ : {A B : Type 0} → A → B → A × B
a ▸ b = (a, b)

module _ (n : String) (get : Trip → Option ℕ) where
  untouched : (s : Sent) (t : Trip) → s ≡ absent → Field n get s t t []
  untouched absent t h = record { named = sym (ap not (same_value_refl (get t))); value = refl }
  untouched (sent v) t h = cc

  pub assign-Field :
      (set : Option ℕ → Trip → Trip) (name : String)
      → is n name ≡ true
      → ((v : Option ℕ) (t : Trip) → get (set v t) ≡ v)
      → (s : Sent) (t : Trip)
      → Field n get s t (assign get set name s t).0 (assign get set name s t).1
  assign-Field set name i h absent t = untouched absent t refl
  assign-Field set name i h (sent v) t = elim (Bool-cases (same_value (get t) v)) [
    | inl y ↦ rw y (record {
      named = sym (ap not (same_value_refl (get t)));
      value = same_value_eq (get t) v y;
    })
    | inr y ↦ rw y (record {
      named = ap (λ b. b || false) i ∙ sym (ap not (ap (same_value (get t)) (h v t) ∙ y));
      value = h v t;
    })
  ]

  pub assign-Foreign :
      (get' : Trip → Option ℕ) (set : Option ℕ → Trip → Trip) (name : String)
      → is n name ≡ false
      → ((v : Option ℕ) (t : Trip) → get (set v t) ≡ get t)
      → (s : Sent) (t : Trip) → Foreign n get t (assign get' set name s t)
  assign-Foreign get' set name i h absent t = (refl, refl)
  assign-Foreign get' set name i h (sent v) t = elim (Bool-cases (same_value (get' t) v)) [
    | inl y ↦ rw y (refl, refl)
    | inr y ↦ rw (y, i) (h v t, refl)
  ]

  pub start-Foreign :
      is n "trip_datetime_utc" ≡ false
      → ((k : ℕ) (t : Trip) → get (record t { trip_datetime_utc = k }) ≡ get t)
      → (start : Option ℕ) (t : Trip) → Foreign n get t (assign_start start t)
  start-Foreign i h none t = (refl, refl)
  start-Foreign i h (some k) t =
      elim (Bool-cases (same_value (some k) (some t.trip_datetime_utc))) [
        | inl y ↦ rw y (refl, refl)
        | inr y ↦ rw (y, i) (h k t, refl)
      ]

  pub zone-Foreign :
      is n "trip_timezone" ≡ false
      → ((z : String) (t : Trip) → get (record t { trip_timezone = z }) ≡ get t)
      → (zone : Option String) (t : Trip) → Foreign n get t (assign_timezone zone t)
  zone-Foreign i h none t = (refl, refl)
  zone-Foreign i h (some z) t = elim (Bool-cases (str_eq z t.trip_timezone)) [
    | inl y ↦ rw y (refl, refl)
    | inr y ↦ rw (y, i) (h z t, refl)
  ]

  abbrev pub Foreigns : List Step → Type 0
  Foreigns [] = Unit {0}
  Foreigns (f ∷ fs) = ((t : Trip) → Foreign n get t (f t)) × Foreigns fs

  pub run_steps-Foreign :
      (fs : List Step) → Foreigns fs → (t : Trip) → Foreign n get t (run_steps fs t)
  unfolding run_steps
  run_steps-Foreign [] h t = (refl, refl)
  run_steps-Foreign (f ∷ fs) (h, hs) t =
      let (e, a) = h t in
      let (e', a') = run_steps-Foreign fs hs (f t).0 in
      (
        e' ∙ e,
        any-append (is n) (f t).1 (run_steps fs (f t).0).1
            ∙ ap (λ b. b || any (is n) (run_steps fs (f t).0).1) a
            ∙ a',
      )

  -- the field's own step, between steps that leave it alone
  pub run_steps-Field :
      (s : Sent) (fs gs : List Step) (f : Step)
      → Foreigns fs
      → ((t : Trip) → Field n get s t (f t).0 (f t).1)
      → Foreigns gs
      → (t : Trip) → Field n get s t (run_steps (fs ++ f ∷ gs) t).0 (run_steps (fs ++ f ∷ gs) t).1
  unfolding run_steps
  run_steps-Field s [] gs f h own k t =
      let o = own t in
      let (e, a) = run_steps-Foreign gs k (f t).0 in
      record {
        named =
            any-append (is n) (f t).1 (run_steps gs (f t).0).1
            ∙ ap (λ b. any (is n) (f t).1 || b) a
            ∙ or_false (any (is n) (f t).1)
            ∙ o.named
            ∙ ap (λ g. not (same_value (get t) g)) (sym e);
        value = e ∙ o.value;
      }
  run_steps-Field s (g ∷ fs) gs f (h, hs) own k t =
      let (e, a) = h t in
      let o = run_steps-Field s fs gs f hs own k (g t).0 in
      record {
        named =
            any-append (is n) (g t).1 (run_steps (fs ++ f ∷ gs) (g t).0).1
            ∙ ap (λ b. b || any (is n) (run_steps (fs ++ f ∷ gs) (g t).0).1) a
            ∙ o.named
            ∙ ap (λ x. not (same_value x (get (run_steps (fs ++ f ∷ gs) (g t).0).0))) e;
        value = o.value ∙ ap (sent_or s) e;
      }

  -- what comes after the assignments, and leaves the field and its name alone
  pub extend :
      (s : Sent) (t u v : Trip) (c rest : List String)
      → Field n get s t u c
      → get v ≡ get u
      → any (is n) rest ≡ false
      → Field n get s t v (c ++ rest)
  extend s t u v c rest o e a = record {
    named =
        any-append (is n) c rest
        ∙ ap (λ b. any (is n) c || b) a
        ∙ or_false (any (is n) c)
        ∙ o.named
        ∙ ap (λ g. not (same_value (get t) g)) (sym e);
    value = e ∙ o.value;
  }

module _ {n : String} {get : Trip → Option ℕ} {s : Sent} {t u : Trip} {c : List String} where
  pub retarget : (v : Trip) → Field n get s t u c → get v ≡ get u → Field n get s t v c
  retarget v o e = record {
    named = o.named ∙ ap (λ g. not (same_value (get t) g)) (sym e);
    value = e ∙ o.value;
  }

-- the fields of a row after an edit, and the names that it records of them
pub record Fields (body : EditTripRequest) (start : Sent) (t u : Trip) (changed : List String)
    : Type 0 where
  pub begin : Field "trip_datetime_utc" (λ r. some r.trip_datetime_utc) start t u changed
  pub driver : Field "driver_id" (λ r. r.driver_id) body.driver_id t u changed
  pub vehicle : Field "vehicle_id" (λ r. r.vehicle_id) body.vehicle_id t u changed
  pub trailer : Field "trailer_id" (λ r. r.trailer_id) body.trailer_id t u changed
  pub tare : Field "tare_weight_kg" (λ r. r.tare_weight_kg) body.tare_weight_kg t u changed
  pub gross : Field "gross_weight_kg" (λ r. r.gross_weight_kg) body.gross_weight_kg t u changed
  pub net : Field "net_weight_kg" (λ r. r.net_weight_kg) body.net_weight_kg t u changed

pub start-Field :
    (start : Option ℕ) (t : Trip)
    → Field "trip_datetime_utc"
        (λ r. some r.trip_datetime_utc)
        (sent_start start)
        t
        (assign_start start t).0
        (assign_start start t).1
start-Field none t = untouched "trip_datetime_utc" (λ r. some r.trip_datetime_utc) absent t refl
start-Field (some k) t = elim (Bool-cases (same_value (some k) (some t.trip_datetime_utc))) [
  | inl y ↦ rw y (record {
    named = sym (ap not (same_value_refl (some t.trip_datetime_utc)));
    value = sym (same_value_eq (some k) (some t.trip_datetime_utc) y);
  })
  | inr y ↦ rw y (record { named = ground arith; value = refl })
]
