-- ===== src/Trip/Rounds.antt =====
-- The rounds of enrichment workers: a claim, the loading of a claimed row, and, when the location
-- service has answered, the end on the tables as they are then. Rounds of several workers interleave.
use lojinextv.Prelude.{
  ℕ, ◌≡◌, refl, sym, ap, ◌∙◌, String, Bool, true, false, not, ◌&&◌, ◌||◌, Option, none, some, List,
  [], ◌∷◌, ◌==◌, arith, elem, map, filter, take, zero, suc, find, All, update_where, if◌then◌else◌,
  Bool-cases, Option-cases, inl, inr, some-injective, find-yes, find-no,
}
use mathlib.Core.Path.{subst}
use lojinextv.Exec.{Result-cases, ok}
use lojinextv.Trip.{select_trip}
use lojinextv.Trip.Tables.{TripDb, Enrichment, RouteStatus}
use lojinextv.Trip.Worker.{
  Settings, claimable, candidates, claim_enrichment, claim_enrichments, is_mine, EnrichmentContext,
  LocationAnswer, Resolution, load_enrichment_context, resolve_route_context, failed_row, saved_row,
  save_enrichment_result, mark_processing_error, finish_enrichment,
}

-- the tables, and what workers have loaded, with the token of its claim
pub record World : Type 0 where
  pub db : TripDb
  pub loaded : List (ℕ × EnrichmentContext)

pub data In {A : Type 0} (x : A) : List A → Type 0 where
  first : {xs : List A} → In x (x ∷ xs)
  after : {y : A} {xs : List A} → In x xs → In x (y ∷ xs)

pub data Step (st : Settings) : World → World → Type 0 where
  claims :
      {w : World} (now batch_size token worker : ℕ) (locked : ℕ → Bool)
      → Step st w
          (record w { db = (claim_enrichments st now locked batch_size token worker w.db).1 })
  loads :
      {w : World} (trip_id id token : ℕ) (c : EnrichmentContext)
      → load_enrichment_context trip_id id token w.db ≡ some c
      → Step st w (record w { loaded = (token, c) ∷ w.loaded })
  finishes :
      {w : World} (now : ℕ) (jitter : ℕ → ℕ) (token : ℕ) (c : EnrichmentContext)
      (answer : LocationAnswer) (refused : Option String)
      → In (token, c) w.loaded
      → Step st w (record w { db = finish_enrichment st now jitter c token answer refused w.db })

pub data Reached (st : Settings) : World → World → Type 0 where
  start : {w : World} → Reached st w w
  later : {u v w : World} → Reached st u v → Step st v w → Reached st u w

pub in_All : {A : Type 0} (P : A → Type 0) (x : A) (xs : List A) → In x xs → All P xs → P x
in_All P x [] i t = elim i [ ]
in_All P _ (x ∷ xs) first (p, ps) = p
in_All P x (y ∷ xs) (after i) (p, ps) = in_All P x xs i ps

-- an UPDATE keeps what each row that it writes keeps
pub All-update_where :
    (P : Enrichment → Type 0) (q : Enrichment → Bool) (f : Enrichment → Enrichment)
    (es : List Enrichment)
    → ((e : Enrichment) → In e es → q e ≡ true → P e → P (f e))
    → All P es
    → All P (update_where q f es)
All-update_where P q f [] h t = tt
All-update_where P q f (e ∷ es) h (p, t) =
    let rest = All-update_where P q f es (λ x i. h x (after i)) t in
    elim (Bool-cases (q e)) [ inl y ↦ rw y (h e first y p, rest) | inr y ↦ rw y (p, rest) ]

pub find_All :
    (P : Enrichment → Type 0) (q : Enrichment → Bool) (es : List Enrichment) (e : Enrichment)
    → All P es
    → find q es ≡ some e
    → P e × (q e ≡ true)
find_All P q [] e t h = cc
find_All P q (x ∷ es) e (p, t) h = elim (Bool-cases (q x)) [
  | inl y ↦
      let k : x ≡ e = some-injective (sym (find-yes q x es y) ∙ h) in
      subst (λ z. P z × (q z ≡ true)) k (p, y)
  | inr y ↦ find_All P q es e t (sym (find-no q x es y) ∙ h)
]

-- the primary key
abbrev pub Apart : List Enrichment → Type 0
Apart [] = Unit {0}
Apart (e ∷ es) = All (λ (f : Enrichment). (f.id == e.id) ≡ false) es × Apart es

module _ (q : Enrichment → Bool) (f : Enrichment → Enrichment)
    (same : (e : Enrichment) → (f e).id ≡ e.id) where
  written_id : (b : Bool) (e : Enrichment) → (if b then f e else e).id ≡ e.id
  written_id true e = same e
  written_id false e = refl

  ids-update_where :
      (k k' : ℕ) (es : List Enrichment)
      → k' ≡ k
      → All (λ (x : Enrichment). (x.id == k) ≡ false) es
      → All (λ (x : Enrichment). (x.id == k') ≡ false) (update_where q f es)
  ids-update_where k k' [] e t = tt
  ids-update_where k k' (x ∷ es) e (p, t) = (
    ap (λ z. z == k') (written_id (q x) x) ∙ ap (λ z. x.id == z) e ∙ p,
    ids-update_where k k' es e t,
  )

  pub Apart-update_where : (es : List Enrichment) → Apart es → Apart (update_where q f es)
  Apart-update_where [] t = tt
  Apart-update_where (e ∷ es) (p, t) =
      (ids-update_where e.id _ es (written_id (q e) e) p, Apart-update_where es t)

-- the rows of a claim
elem-take :
    (k n : ℕ) (es : List Enrichment)
    → elem k (map (λ e. e.id) (take n es)) ≡ true
    → elem k (map (λ e. e.id) es) ≡ true
elem-take k zero [] h = h
elem-take k zero (e ∷ es) h = cc
elem-take k (suc n) [] h = h
elem-take k (suc n) (e ∷ es) h = elim (Bool-cases (k == e.id)) [
  | inl y ↦ rw y refl
  | inr y ↦
      let h' : elem k (map (λ x. x.id) (take n es)) ≡ true =
        sym (ap (λ b. b || elem k (map (λ x. x.id) (take n es))) y) ∙ h in
      rw y (elem-take k n es h')
]

turned : (a b : ℕ) → (b == a) ≡ false → (a == b) ≡ false
turned a b h = ground arith

not_filtered :
    (k : ℕ) (q : Enrichment → Bool) (es : List Enrichment)
    → All (λ (x : Enrichment). (x.id == k) ≡ false) es
    → elem k (map (λ e. e.id) (filter q es)) ≡ false
not_filtered k q [] t = refl
not_filtered k q (e ∷ es) (p, t) = elim (Bool-cases (q e)) [
  | inl y ↦ rw y (rw (turned k e.id p) (not_filtered k q es t))
  | inr y ↦ rw y (not_filtered k q es t)
]

filtered :
    (q : Enrichment → Bool) (es : List Enrichment) (e : Enrichment)
    → Apart es
    → In e es
    → elem e.id (map (λ x. x.id) (filter q es)) ≡ true
    → q e ≡ true
filtered q [] e a i h = elim i [ ]
filtered q (e ∷ es) _ (p, a) first h = elim (Bool-cases (q e)) [
  | inl y ↦ y
  | inr y ↦
      let h' : elem e.id (map (λ x. x.id) (filter q es)) ≡ true =
        sym (
          ap
            (λ b.
              elem e.id
                (map (λ (x : Enrichment). x.id) (if b then e ∷ filter q es else filter q es)))
            y)
        ∙ h in
      let n = not_filtered e.id q es p in cc
]
filtered q (x ∷ es) e (p, a) (after i) h = elim (Bool-cases (q x)) [
  | inl y ↦
      let h' : (e.id == x.id) || elem e.id (map (λ x. x.id) (filter q es)) ≡ true =
        sym (
          ap
            (λ b.
              elem e.id
                (map (λ (z : Enrichment). z.id) (if b then x ∷ filter q es else filter q es)))
            y)
        ∙ h in
      let n = in_All (λ (f : Enrichment). (f.id == x.id) ≡ false) e es i p in
      filtered q es e a i (sym (ap (λ b. b || elem e.id (map (λ z. z.id) (filter q es))) n) ∙ h')
  | inr y ↦
      let h' : elem e.id (map (λ x. x.id) (filter q es)) ≡ true =
        sym (
          ap
            (λ b.
              elem e.id
                (map (λ (z : Enrichment). z.id) (if b then x ∷ filter q es else filter q es)))
            y)
        ∙ h in
      filtered q es e a i h'
]

-- only rows that can be claimed are
pub candidates-claimable :
    (st : Settings) (now : ℕ) (locked : ℕ → Bool) (n : ℕ) (es : List Enrichment) (e : Enrichment)
    → Apart es
    → In e es
    → elem e.id (candidates st now locked n es) ≡ true
    → claimable st now e ≡ true
unfolding candidates
candidates-claimable st now locked n es e a i h =
    let q : Enrichment → Bool = λ e. claimable st now e && not (locked e.id) in
    let y = filtered q es e a i (elem-take e.id n (filter q es) h) in ground (arith, y)

-- what a claim keeps of each row, if the claim of a row that can be claimed keeps it
pub claim-All :
    (P : Enrichment → Type 0) (st : Settings) (now batch_size token worker : ℕ) (locked : ℕ → Bool)
    (d : TripDb)
    → ((e : Enrichment)
        → claimable st now e ≡ true
        → P e
        → P (claim_enrichment st now token worker e))
    → Apart d.enrichments
    → All P d.enrichments
    → All P (claim_enrichments st now locked batch_size token worker d).1.enrichments
unfolding claim_enrichments
claim-All P st now batch_size token worker locked d h a t =
    All-update_where P _ _ d.enrichments
      (λ e i y. h e (candidates-claimable st now locked batch_size d.enrichments e a i y)) t

-- what a worker's end keeps of each row, if the two ways to write a row of its claim do
module _ (P : Enrichment → Type 0) (st : Settings) (now : ℕ) (jitter : ℕ → ℕ)
    (c : EnrichmentContext) (token : ℕ) (answer : LocationAnswer)
    (hf : (e : Enrichment) (text : String)
      → is_mine c.enrichment_id token e ≡ true
      → P e
      → P (failed_row st now jitter text e))
    (hs : (e : Enrichment) (r : Resolution) (b : Bool)
      → is_mine c.enrichment_id token e ≡ true
      → resolve_route_context c answer ≡ ok r
      → P e
      → P (saved_row st now jitter c r.0 b r.2 e)) where
  mark-All :
      (text : String) (d : TripDb)
      → All P d.enrichments
      → All P (mark_processing_error st now jitter c.enrichment_id token text d).enrichments
  unfolding mark_processing_error
  mark-All text d t = All-update_where P _ _ d.enrichments (λ e i y. hf e text y) t

  save-All :
      (r : Resolution) (d : TripDb)
      → resolve_route_context c answer ≡ ok r
      → All P d.enrichments
      → All P (save_enrichment_result st now jitter c token r d).enrichments
  unfolding save_enrichment_result
  save-All (status, found, code) d y t =
      elim (Option-cases (find (is_mine c.enrichment_id token) d.enrichments)) [
        | inl n ↦ rw (save_enrichment_result, n) t
        | inr (e, k) ↦ elim (Option-cases (select_trip c.trip_id d.trips)) [
          | inl n ↦ rw (save_enrichment_result, k, n) t
          | inr (u, l) ↦
              rw (save_enrichment_result, k, l)
                (All-update_where P _ _ d.enrichments (λ x i z. hs x (status, found, code) _ z y) t)
        ]
      ]

  pub finish-All :
      (refused : Option String) (d : TripDb)
      → All P d.enrichments
      → All P (finish_enrichment st now jitter c token answer refused d).enrichments
  unfolding finish_enrichment
  finish-All refused d t = elim (Result-cases (resolve_route_context c answer)) [
    | inr (e, y) ↦ rw (finish_enrichment, y) (mark-All e d t)
    | inl (r, y) ↦ elim (Option-cases refused) [
      | inl n ↦ rw (finish_enrichment, y, n) (save-All r d y t)
      | inr (e, n) ↦ rw (finish_enrichment, y, n) (mark-All e d t)
    ]
  ]

mark-Apart :
    (st : Settings) (now id token : ℕ) (jitter : ℕ → ℕ) (text : String) (d : TripDb)
    → Apart d.enrichments
    → Apart (mark_processing_error st now jitter id token text d).enrichments
unfolding mark_processing_error failed_row
mark-Apart st now id token jitter text d a = Apart-update_where _ _ (λ e. refl) d.enrichments a

save-Apart :
    (st : Settings) (now token : ℕ) (jitter : ℕ → ℕ) (c : EnrichmentContext) (r : Resolution)
    (d : TripDb)
    → Apart d.enrichments
    → Apart (save_enrichment_result st now jitter c token r d).enrichments
unfolding save_enrichment_result saved_row
save-Apart st now token jitter c (status, found, code) d a =
    elim (Option-cases (find (is_mine c.enrichment_id token) d.enrichments)) [
      | inl n ↦ rw (save_enrichment_result, n) a
      | inr (e, k) ↦ elim (Option-cases (select_trip c.trip_id d.trips)) [
        | inl n ↦ rw (save_enrichment_result, k, n) a
        | inr (u, l) ↦
            rw (save_enrichment_result, k, l) (Apart-update_where _ _ (λ e. refl) d.enrichments a)
      ]
    ]

-- the primary key stays one
pub Step-Apart :
    (st : Settings) (v w : World) → Step st v w → Apart v.db.enrichments → Apart w.db.enrichments
unfolding claim_enrichments claim_enrichment finish_enrichment
Step-Apart st v _ (claims now n token worker locked) a =
    Apart-update_where _ _ (λ e. refl) v.db.enrichments a
Step-Apart st v _ (loads trip_id id token c h) a = a
Step-Apart st v _ (finishes now jitter token c answer refused i) a =
    elim (Result-cases (resolve_route_context c answer)) [
      | inr (e, y) ↦
          rw (finish_enrichment, y) (mark-Apart st now c.enrichment_id token jitter e v.db a)
      | inl (r, y) ↦ elim (Option-cases refused) [
        | inl n ↦ rw (finish_enrichment, y, n) (save-Apart st now token jitter c r v.db a)
        | inr (e, n) ↦
            rw (finish_enrichment, y, n) (mark-Apart st now c.enrichment_id token jitter e v.db a)
      ]
    ]

abbrev loaded_id : Option EnrichmentContext → Option ℕ
loaded_id none = none
loaded_id (some c) = some c.enrichment_id

abbrev loaded_status : Option EnrichmentContext → Option RouteStatus
loaded_status none = none
loaded_status (some c) = some c.route_status

-- what a worker has loaded is what the row of its claim says
pub load_row :
    (trip_id id token : ℕ) (d : TripDb) (c : EnrichmentContext)
    → load_enrichment_context trip_id id token d ≡ some c
    → (e : Enrichment) × (find (is_mine id token) d.enrichments ≡ some e)
      × (c.enrichment_id ≡ id)
      × (c.route_status ≡ e.route_status)
unfolding load_enrichment_context
load_row trip_id id token d c h = elim (Option-cases (find (is_mine id token) d.enrichments)) [
  | inl n ↦
      let q : load_enrichment_context trip_id id token d ≡ none =
        rw (load_enrichment_context, n) refl in
      cc
  | inr (e, k) ↦ elim (Option-cases (select_trip trip_id d.trips)) [
    | inl n ↦
        let q : load_enrichment_context trip_id id token d ≡ none =
          rw (load_enrichment_context, k, n) refl in
        cc
    | inr (t, l) ↦
        let i : loaded_id (load_enrichment_context trip_id id token d) ≡ some id =
          rw (load_enrichment_context, k, l) refl in
        let r : loaded_status (load_enrichment_context trip_id id token d) ≡ some e.route_status =
          rw (load_enrichment_context, k, l) refl in
        (
          e,
          k,
          some-injective (sym (ap loaded_id h) ∙ i),
          some-injective (sym (ap loaded_status h) ∙ r),
        )
  ]
]
