-- ===== src/Fleet/Spec/Outcome.antt =====
-- What a new version does to the histories: it is appended to that of its vehicle, and the others
-- stay.
use lojinextv.Prelude.{
  ℕ, ◌+◌, ◌≡◌, ◌≢◌, refl, sym, ap, ◌∙◌, Bool, true, false, not, Option, none, some, List, [], ◌∷◌,
  ◌++◌, arith, ltb, ◌==◌, any, update_where, ◌&&◌, ◌||◌, inl, inr, ltb→lt, Bool-cases, length,
  length-append, append_nil,
}
use lojinextv.Exec.{ok}
use lojinextv.Fleet.Tables.{Vehicle, SpecVersion, SpecAttributes, InitialSpec, Db}
use lojinextv.Fleet.Session.{IfMatch, Etag, Context, select_vehicle}
use lojinextv.Fleet.Vehicle.Rows.{select-write_self, select_vehicle-id}
use lojinextv.Fleet.Spec.{rows_of, get_max_version_no, closed, is_open, respecified, effective_from}
use lojinextv.Fleet.Spec.History.{
  Chain, IsHistory, IsAfter, appended, appended-Chain, close_last, last_open, middle_closed,
  max_version-Chain, top,
}
use lojinextv.Fleet.Spec.Create.{with_version, inverted, Versioned, created, create-Versioned}

-- the test of `inverted` on the rows of one vehicle
abbrev pub starts_late : ℕ → SpecVersion → Bool
starts_late t s = s.is_current && not (ltb s.effective_from_utc t)

module _ (id t : ℕ) where
  pub rows_of-closed :
      (specs : List SpecVersion)
      → rows_of id (update_where (is_open id) (closed t) specs)
        ≡ update_where (λ s. s.is_current) (closed t) (rows_of id specs)
  rows_of-closed [] = refl
  rows_of-closed (s ∷ ss) = ground (arith, rows_of-closed ss)

  rows_of-closed_other :
      (other : ℕ) (specs : List SpecVersion)
      → other ≢ id
      → rows_of other (update_where (is_open id) (closed t) specs) ≡ rows_of other specs
  rows_of-closed_other other [] n = refl
  rows_of-closed_other other (s ∷ ss) n = ground (arith, rows_of-closed_other other ss n)

  pub inverted-rows_of :
      (specs : List SpecVersion) → inverted id t specs ≡ any (starts_late t) (rows_of id specs)
  inverted-rows_of [] = refl
  inverted-rows_of (s ∷ ss) =
      let rest = inverted-rows_of ss in
      elim (Bool-cases (s.vehicle_id == id)) [
        | inr n ↦ rw (n, rest) refl
        | inl y ↦ rw (y, rest) refl
      ]

rows_of-append :
    (id : ℕ) (xs ys : List SpecVersion) → rows_of id (xs ++ ys) ≡ rows_of id xs ++ rows_of id ys
rows_of-append id [] ys = refl
rows_of-append id (x ∷ xs) ys = ground (arith, rows_of-append id xs ys)

==_refl : (n : ℕ) → (n == n) ≡ true
==_refl n = ground arith

rows_of-with_version :
    (id : ℕ) (s : SpecVersion) (specs : List SpecVersion)
    → s.vehicle_id ≡ id
    → rows_of id (with_version id s specs) ≡ appended s (rows_of id specs)
rows_of-with_version id s specs e =
    rows_of-append id (update_where (is_open id) (closed s.effective_from_utc) specs) (s ∷ [])
    ∙ rw (rows_of-closed id s.effective_from_utc specs, e, ==_refl id) refl

rows_of_none : (other : ℕ) (s : SpecVersion) → s.vehicle_id ≢ other → rows_of other (s ∷ []) ≡ []
rows_of_none other s n = ground (arith, n)

rows_of-with_version_other :
    (id other : ℕ) (s : SpecVersion) (specs : List SpecVersion)
    → s.vehicle_id ≡ id
    → other ≢ id
    → rows_of other (with_version id s specs) ≡ rows_of other specs
rows_of-with_version_other id other s specs e n =
    rows_of-append other (update_where (is_open id) (closed s.effective_from_utc) specs) (s ∷ [])
    ∙ rw
        (
          rows_of-closed_other id s.effective_from_utc other specs n,
          rows_of_none other s (λ h. n (sym h ∙ e)),
        )
        (append_nil (rows_of other specs))

on_time : (c l r : Bool) → c ≡ true → ((c && not l) || r) ≡ false → l ≡ true
on_time true true r k h = refl
on_time true false r k h = cc
on_time false l r k h = cc

or_right : (a b : Bool) → (a || b) ≡ false → b ≡ false
or_right true b h = cc
or_right false b h = h

pub late→IsAfter :
    (t n b : ℕ) (rows : List SpecVersion)
    → Chain n (some b) rows
    → any (starts_late t) rows ≡ false
    → IsAfter t rows
late→IsAfter t n b [] c h = tt
late→IsAfter t n b (s ∷ []) c h =
    let (o, k) = last_open n b s c in ltb→lt s.effective_from_utc t (on_time _ _ _ k h)
late→IsAfter t n b (s ∷ x ∷ xs) c h =
    let (u, o, k, m, r) = middle_closed n b s x xs c in
    late→IsAfter t (n + 1) u (x ∷ xs) r (or_right (starts_late t s) _ h)

-- The rows of a vehicle are a history, and its stream version is the number of the last of them.
pub record Consistent (id : ℕ) (d : Db) : Type 0 where
  pub master : Vehicle
  pub selected : select_vehicle id d.vehicles ≡ some master
  pub history : IsHistory (rows_of id d.specs)
  pub counted : master.spec_stream_version ≡ length (rows_of id d.specs)

pub top_one : (rows : List SpecVersion) → top 1 rows ≡ length rows
top_one [] = refl
top_one (s ∷ ss) = omega arith

length-closed : (t : ℕ) (rows : List SpecVersion) → length (close_last t rows) ≡ length rows
length-closed t [] = refl
length-closed t (s ∷ ss) = omega (arith, length-closed t ss)

length-appended :
    (s : SpecVersion) (rows : List SpecVersion) → length (appended s rows) ≡ length rows + 1
length-appended s rows =
    length-append (close_last s.effective_from_utc rows) (s ∷ [])
    ∙ omega (arith, length-closed s.effective_from_utc rows)

append-IsHistory :
    (s : SpecVersion) (rows : List SpecVersion) (o : Option ℕ)
    → Chain 1 o rows
    → any (starts_late s.effective_from_utc) rows ≡ false
    → s.version_no ≡ length rows + 1
    → s.effective_to_utc ≡ none
    → s.is_current ≡ true
    → IsHistory (appended s rows)
append-IsHistory s [] none c l v e i =
    (some s.effective_from_utc, (v, refl, rw e i, rw e tt, rw e tt))
append-IsHistory s [] (some b) c l v e i = absurd c
append-IsHistory s (x ∷ xs) none c l v e i = absurd c
append-IsHistory s (x ∷ xs) (some b) c l v e i = (
  some b,
  appended-Chain 1 b s (x ∷ xs) c (late→IsAfter s.effective_from_utc 1 b (x ∷ xs) c l)
      (omega (arith, v)) e i,
)

abbrev pub stream_of : Option Vehicle → ℕ
stream_of none = 0
stream_of (some v) = v.spec_stream_version

module _ (checks : SpecAttributes → Bool) (ctx : Context) (id : ℕ) (body : InitialSpec)
    (m : IfMatch) (d : Db) where
  module _ (x : SpecVersion × Etag) (done : (created checks ctx id body m d).0 ≡ ok x) where
    abbrev pub after : Db
    after = (created checks ctx id body m d).1

    pub effect : Versioned ctx id body m d x after
    effect = create-Versioned checks ctx id body m d x done

    own : x.0.vehicle_id ≡ id
    own = rw effect.answer refl

    pub own_rows : rows_of id after.specs ≡ appended x.0 (rows_of id d.specs)
    own_rows = rw effect.rows (rows_of-with_version id x.0 d.specs own)

    -- A new version of one vehicle leaves the rows of every other vehicle as they were.
    pub create-rows_of_other :
        (other : ℕ) → other ≢ id → rows_of other after.specs ≡ rows_of other d.specs
    create-rows_of_other other n =
        rw effect.rows (rows_of-with_version_other id other x.0 d.specs own n)

    max_version-rows : Consistent id d → get_max_version_no id d ≡ length (rows_of id d.specs)
    unfolding get_max_version_no
    max_version-rows c =
        max_version-Chain 1 c.history.0 (rows_of id d.specs) c.history.1
        ∙ top_one (rows_of id d.specs)

    numbered : Consistent id d → x.0.version_no ≡ length (rows_of id d.specs) + 1
    numbered c = rw effect.answer (ap (λ k. k + 1) (max_version-rows c))

    in_time : any (starts_late x.0.effective_from_utc) (rows_of id d.specs) ≡ false
    in_time =
        rw effect.answer
          (sym (inverted-rows_of id (effective_from ctx body) d.specs) ∙ effect.in_order)

    open_end : (x.0.effective_to_utc ≡ none) × (x.0.is_current ≡ true)
    open_end = rw effect.answer (refl, refl)

    -- A new version that is taken keeps the rows of its vehicle a history (numbers from 1, windows
    -- that follow each other without a gap, the last of them open) whose length is the stream
    -- version of the vehicle, and has the next number.
    pub create-Consistent :
        Consistent id d → Consistent id after × (x.0.version_no ≡ length (rows_of id d.specs) + 1)
    create-Consistent c = (
      record {
        master = respecified ctx effect.old;
        selected = rw effect.written (
            select-write_self id (respecified ctx effect.old) effect.old d.vehicles effect.found
              (select_vehicle-id id d.vehicles effect.old effect.found));
        history = rw own_rows (
            append-IsHistory x.0 (rows_of id d.specs) c.history.0 c.history.1 in_time (numbered c)
              open_end.0 open_end.1);
        counted =
            rw (own_rows, length-appended x.0 (rows_of id d.specs))
              (ap (λ k. k + 1) (ap stream_of (sym effect.found ∙ c.selected) ∙ c.counted));
      },
      numbered c,
    )
