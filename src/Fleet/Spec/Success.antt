-- ===== src/Fleet/Spec/Success.antt =====
-- When a new version is taken: the constraints of the table refuse none but a version that does not
-- begin after the current one.
use lojinextv.Prelude.{
  ℕ, ◌+◌, ◌≤◌, ◌<◌, ◌≡◌, refl, sym, ap, ◌∙◌, Bool, true, false, not, Option, none, some, List, [],
  ◌∷◌, arith, ltb, le→not-ltb, if◌then◌else◌, inl, inr, Bool-cases, update_where, any, ◌==◌, ◌||◌,
  ◌&&◌, length,
}
use lojinextv.Exec.{ok, err}
use lojinextv.Fleet.Tables.{
  MasterStatus, Vehicle, SpecVersion, SpecAttributes, InitialSpec, OutboxPayload, Db,
}
use lojinextv.Fleet.Session.{
  spec_version_overlap, version, spec, Context, select_vehicle, max_payload, is_some, status_eq,
}
use lojinextv.Fleet.Vehicle.{vehicle}
use lojinextv.Fleet.Spec.{
  rows_of, is_open, closed, conflicts, windows_overlap, get_max_version_no, new_version,
  effective_from, create_vehicle_spec_version,
}
use lojinextv.Fleet.Spec.History.{
  Chain, IsAfter, close_last, last_open, middle_closed, max_version-Chain,
}
use lojinextv.Fleet.Spec.Create.{inverted, created}
use lojinextv.Fleet.Spec.Outcome.{
  Consistent, starts_late, inverted-rows_of, rows_of-closed, late→IsAfter, top_one,
}

-- `conflicts` within one vehicle
abbrev clashes : SpecVersion → SpecVersion → Bool
clashes a b =
    (a.version_no == b.version_no) || (a.is_current && b.is_current) || windows_overlap a b

conflicts-rows_of :
    (a : SpecVersion) (specs : List SpecVersion)
    → any (conflicts a) specs ≡ any (clashes a) (rows_of a.vehicle_id specs)
unfolding conflicts
conflicts-rows_of a [] = refl
conflicts-rows_of a (s ∷ ss) = ground (arith, conflicts-rows_of a ss)

lt→not-== : (a b : ℕ) → b < a → (a == b) ≡ false
lt→not-== a b h = ground arith

not_both : (b : Bool) → ((b && false) || false) ≡ false
not_both true = refl
not_both false = refl

not_either : (a b : Bool) → a ≡ false → b ≡ false → (a || b) ≡ false
not_either a b h k = rw (h, k) refl

closed_apart :
    (a s : SpecVersion) (u : ℕ)
    → s.version_no < a.version_no
    → s.is_current ≡ false
    → s.effective_to_utc ≡ some u
    → u ≤ a.effective_from_utc
    → clashes a s ≡ false
closed_apart a s u v c e l =
    rw (lt→not-== a.version_no s.version_no v, c, e, le→not-ltb a.effective_from_utc u l)
      (not_both _)

-- a history that the instant is after begins before it
starts_before :
    (t n b : ℕ) (rows : List SpecVersion) → Chain n (some b) rows → IsAfter t rows → b < t
starts_before t n b [] c i = absurd c
starts_before t n b (s ∷ []) c i = omega (arith, i, c.1)
starts_before t n b (s ∷ x ∷ xs) c i =
    let (u, o, k, m, r) = middle_closed n b s x xs c in
    omega (arith, m, starts_before t (n + 1) u (x ∷ xs) r i)

untouched : (t : ℕ) (s : SpecVersion) (c : Bool) → c ≡ false → (if c then closed t s else s) ≡ s
untouched t s false h = refl
untouched t s true h = cc

no_clash :
    (a : SpecVersion) (n b : ℕ) (rows : List SpecVersion)
    → Chain n (some b) rows
    → IsAfter a.effective_from_utc rows
    → n + length rows ≤ a.version_no
    → any (clashes a) (close_last a.effective_from_utc rows) ≡ false
no_clash a n b [] c i l = refl
no_clash a n b (s ∷ []) c i l =
    let (o, k) = last_open n b s c in
    rw k (
      not_either (clashes a (closed a.effective_from_utc s)) false
        (closed_apart a (closed a.effective_from_utc s) a.effective_from_utc (omega (arith, l, c.0))
          refl refl (omega arith))
        refl)
no_clash a n b (s ∷ x ∷ xs) c i l =
    let (u, o, k, m, r) = middle_closed n b s x xs c in
    ap (λ z. clashes a z || any (clashes a) (close_last a.effective_from_utc (x ∷ xs)))
      (untouched a.effective_from_utc s s.is_current k)
    ∙ not_either (clashes a s) _
        (closed_apart a s u (omega (arith, l, c.0)) k o
          (omega (arith, starts_before a.effective_from_utc (n + 1) u (x ∷ xs) r i)))
        (no_clash a (n + 1) u (x ∷ xs) r i (omega (arith, l)))

no_clash_any :
    (a : SpecVersion) (o : Option ℕ) (rows : List SpecVersion)
    → Chain 1 o rows
    → any (starts_late a.effective_from_utc) rows ≡ false
    → a.version_no ≡ length rows + 1
    → any (clashes a) (close_last a.effective_from_utc rows) ≡ false
no_clash_any a none [] c l v = refl
no_clash_any a none (x ∷ xs) c l v = absurd c
no_clash_any a (some b) rows c l v =
    no_clash a 1 b rows c (late→IsAfter a.effective_from_utc 1 b rows c l) (omega (arith, v))

active_row :
    (v : Vehicle)
    → v.soft_deleted_at_utc ≡ none
    → v.status ≡ MasterStatus.active
    → (is_some v.soft_deleted_at_utc || not (status_eq v.status MasterStatus.active)) ≡ false
active_row v l a = rw (l, a) refl

==_self : (n : ℕ) → (n == n) ≡ true
==_self n = ground arith

module _ (checks : SpecAttributes → Bool) (ctx : Context) (id : ℕ) (body : InitialSpec)
    (d : Db) where
  abbrev next : SpecVersion
  unfolding get_max_version_no
  next = new_version ctx id body (get_max_version_no id d + 1)

  next_number : Consistent id d → get_max_version_no id d + 1 ≡ length (rows_of id d.specs) + 1
  unfolding get_max_version_no
  next_number c =
      ap (λ k. k + 1)
        (max_version-Chain 1 c.history.0 (rows_of id d.specs) c.history.1
          ∙ top_one (rows_of id d.specs))

  accepted :
      Consistent id d
      → inverted id (effective_from ctx body) d.specs ≡ false
      → any (conflicts next) (update_where (is_open id) (closed (effective_from ctx body)) d.specs)
        ≡ false
  unfolding next get_max_version_no
  accepted c h =
      conflicts-rows_of next _
      ∙ ap (any (clashes next)) (rows_of-closed id (effective_from ctx body) d.specs)
      ∙ no_clash_any next c.history.0 (rows_of id d.specs) c.history.1
          (sym (inverted-rows_of id (effective_from ctx body) d.specs) ∙ h) (next_number c)

  -- For an active and consistent vehicle whose stream version is named, if the database takes the
  -- columns and the row and no event is too large, a new version is taken with the next number and
  -- the next ETag, unless it does not begin after the current one, which is refused as an overlap.
  pub create_decides :
      (v : Vehicle)
      → Consistent id d
      → select_vehicle id d.vehicles ≡ some v
      → v.soft_deleted_at_utc ≡ none
      → v.status ≡ MasterStatus.active
      → checks body.attributes ≡ true
      → ctx.flush ≡ none
      → ((p : OutboxPayload) → ltb max_payload (ctx.json_length p) ≡ false)
      → (created checks ctx id body (version v.spec_stream_version) d).0 ≡ (
          if inverted id (effective_from ctx body) d.specs
          then err spec_version_overlap
          else ok (
            new_version ctx id body (length (rows_of id d.specs) + 1),
            spec vehicle id (v.spec_stream_version + 1),
          ))
  unfolding create_vehicle_spec_version
  create_decides v c f l a k u p =
      elim (Bool-cases (inverted id (effective_from ctx body) d.specs)) [
        | inl y ↦ rw (f, active_row v l a, ==_self v.spec_stream_version, y) refl
        | inr y ↦
            rw (f, active_row v l a, ==_self v.spec_stream_version, y, k, accepted c y, u, p _)
              (ap (λ n. ok (new_version ctx id body n, spec vehicle id (v.spec_stream_version + 1)))
                (next_number c))
      ]
