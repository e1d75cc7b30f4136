-- ===== src/Binder/Modify/Targets.antt =====
-- The target columns of INSERT and UPDATE: in range, with the names given, and distinct.
use chili_db.Prelude.{
  ℕ, suc, ◌≡◌, refl, subst, inl, inr, true, false, not, List, [], ◌∷◌, ◌++◌, some, ◌==◌, length,
  get_elem?, All, arith, Bool-cases, eq→==, Yields, bind-Yields, guard-Yields,
  get_elem?-append_middle, length-append_one,
}
use mathlib.Core.List.{append_assoc}
use chili_db.Bytes.{Bytes, bytes_eq}
use chili_db.Binder.Types.{ColumnSchema}
use chili_db.Binder.Modify.{positions, the_position, target, new_target, listed_targets}
use chili_db.Catalog.Codec.{seen_index}

-- The column at an index has the name.
abbrev pub Named : List ColumnSchema → Bytes → ℕ → Type 0
Named columns name i =
    (c : ColumnSchema) × (get_elem? columns i ≡ some c) × (bytes_eq c.name name ≡ true)

-- A target is named, and not one of those seen.
abbrev pub NewTarget : List ColumnSchema → List ℕ → Bytes → ℕ → Type 0
NewTarget columns seen name i = Named columns name i × (seen_index i seen ≡ false)

module _ (name : Bytes) (pre : List ColumnSchema) (c : ColumnSchema) (cs : List ColumnSchema) where
  shifted :
      All (Named ((pre ++ c ∷ []) ++ cs) name) (positions name (length (pre ++ c ∷ [])) cs)
      → All (Named (pre ++ c ∷ cs) name) (positions name (suc (length pre)) cs)
  shifted h =
      subst (λ n. All (Named (pre ++ c ∷ cs) name) (positions name n cs)) (length-append_one pre c)
        (subst (λ all. All (Named all name) (positions name (length (pre ++ c ∷ [])) cs))
          (append_assoc pre (c ∷ []) cs) h)

positions-Named :
    (name : Bytes) (pre cs : List ColumnSchema)
    → All (Named (pre ++ cs) name) (positions name (length pre) cs)
positions-Named name pre [] = tt
positions-Named name pre (c ∷ cs) =
    let rest : All (Named (pre ++ c ∷ cs) name) (positions name (suc (length pre)) cs) =
      shifted name pre c cs (positions-Named name (pre ++ c ∷ []) cs) in
    elim (Bool-cases (bytes_eq c.name name)) [
      | inl is ↦ rw is ((c, get_elem?-append_middle pre c cs, is), rest)
      | inr other ↦ rw other rest
    ]

-- How the targets of a list of names are found, each new.
abbrev pub AreTargets : List ColumnSchema → List ℕ → List Bytes → List ℕ → Type 0
AreTargets columns seen [] [] = Unit
AreTargets columns seen (n ∷ ns) [] = ⊥
AreTargets columns seen [] (t ∷ ts) = ⊥
AreTargets columns seen (n ∷ ns) (t ∷ ts) =
    NewTarget columns seen n t × AreTargets columns (t ∷ seen) ns ts

abbrev pub Distinct : List ℕ → Type 0
Distinct [] = Unit
Distinct (t ∷ ts) = (seen_index t ts ≡ false) × Distinct ts

module _ (columns : List ColumnSchema) where
  -- The targets are distinct, and none is one of those seen.
  AreTargets-fresh :
      (seen : List ℕ) (names : List Bytes) (ts : List ℕ) (t : ℕ)
      → AreTargets columns seen names ts
      → seen_index t seen ≡ true
      → seen_index t ts ≡ false
  AreTargets-fresh seen [] [] t h is = refl
  AreTargets-fresh seen (n ∷ ns) (u ∷ us) t h is = elim (Bool-cases (t == u)) [
    | inl same ↦ let e : t ≡ u = ground arith in let fresh : seen_index u seen ≡ false = h.0.1 in cc
    | inr other ↦ rw other (AreTargets-fresh (u ∷ seen) ns us t h.1 (rw other is))
  ]
  AreTargets-fresh seen (n ∷ ns) [] t h is = absurd h
  AreTargets-fresh seen [] (u ∷ us) t h is = absurd h

  pub AreTargets-Distinct :
      (seen : List ℕ) (names : List Bytes) (ts : List ℕ)
      → AreTargets columns seen names ts
      → Distinct ts
  AreTargets-Distinct seen [] [] h = tt
  AreTargets-Distinct seen (n ∷ ns) (t ∷ ts) h = (
    AreTargets-fresh (t ∷ seen) ns ts t h.1 (rw (eq→== t t refl) refl),
    AreTargets-Distinct (t ∷ seen) ns ts h.1,
  )
  AreTargets-Distinct seen (n ∷ ns) [] h = absurd h
  AreTargets-Distinct seen [] (t ∷ ts) h = absurd h

module _ (E : Type 0) (columns : List ColumnSchema) where
  target-Named : (name : Bytes) → Yields (Named columns name) (target {E = E} columns name)
  unfolding target
  target-Named name = of (positions name 0 columns) (positions-Named name [] columns)
    where
      of :
          (is : List ℕ)
          → All (Named columns name) is
          → Yields (Named columns name) (the_position {E = E} name is)
      of [] h = tt
      of (i ∷ []) h = h.0
      of (i ∷ j ∷ is) h = tt

  pub new_target-NewTarget :
      (seen : List ℕ) (name : Bytes)
      → Yields (NewTarget columns seen name) (new_target {E = E} columns seen name)
  new_target-NewTarget seen name =
      bind-Yields (NewTarget columns seen name) (Named columns name) (target {E = E} columns name) _
        (target-Named name)
        (λ i named.
          guard-Yields (NewTarget columns seen name) (not (seen_index i seen)) _ _
            (λ fresh. (named, ground arith)))

  pub listed_targets-AreTargets :
      (names : List Bytes) (seen : List ℕ)
      → Yields (AreTargets columns seen names) (listed_targets {E = E} columns names seen)
  unfolding listed_targets
  listed_targets-AreTargets [] seen = tt
  listed_targets-AreTargets (n ∷ ns) seen =
      bind-Yields (AreTargets columns seen (n ∷ ns)) (NewTarget columns seen n)
        (new_target {E = E} columns seen n) _ (new_target-NewTarget seen n)
        (λ i new.
          bind-Yields (AreTargets columns seen (n ∷ ns)) (AreTargets columns (i ∷ seen) ns)
            (listed_targets {E = E} columns ns (i ∷ seen)) _
            (listed_targets-AreTargets ns (i ∷ seen)) (λ is rest. (new, rest)))
