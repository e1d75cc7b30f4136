-- ===== src/Binder/Modify/Filling.antt =====
-- The slots of a row after the loop over its expressions and the targets.
use chili_db.Prelude.{
  ℕ, ◌<◌, ◌≡◌, refl, sym, ap, subst, ◌∙◌, inl, inr, false, List, [], ◌∷◌, Option, none, some, ok,
  err, panic, ◌==◌, if◌then◌else◌, length, get_elem?, set, get_elem?-set_self, get_elem?-set_ne,
  length-set, get_elem?-eq-some, arith, Bool-cases, lt→ltb, Yields, bind-Yields,
}
use chili_db.Parser.Ast
use chili_db.Binder.Types.{ColumnSchema}
use chili_db.Binder.Ast.{Expr}
use chili_db.Binder.Number.{Floats}
use chili_db.Binder.Coercion.{assignment}
use chili_db.Binder.Statement.{Answer}
use chili_db.Binder.Modify.{no_tables, replaced_at, assigned, fill, null_value}
use chili_db.Binder.Modify.Targets.{Distinct}
use chili_db.Binder.Modify.Assigning.{IsValue, HasType, assigned-IsValue}
use chili_db.Catalog.Codec.{seen_index}

-- The expression of a row for a column, by the targets.
abbrev pub given : ℕ → List ℕ → List Ast.Expr → Option Ast.Expr
given j [] row = none
given j (t ∷ ts) [] = none
given j (t ∷ ts) (e ∷ es) = if j == t then some e else given j ts es

given_unseen :
    (j : ℕ) (ts : List ℕ) (es : List Ast.Expr) → seen_index j ts ≡ false → given j ts es ≡ none
given_unseen j [] es h = refl
given_unseen j (t ∷ ts) [] h = refl
given_unseen j (t ∷ ts) (e ∷ es) h =
    let other : (j == t) ≡ false = ground arith in
    let rest : seen_index j ts ≡ false = ground arith in rw other (given_unseen j ts es rest)

abbrev pub InRange : List ColumnSchema → List ℕ → Type 0
InRange columns [] = Unit
InRange columns (t ∷ ts) =
    ((c : ColumnSchema) × (get_elem? columns t ≡ some c)) × InRange columns ts

module _ (floats : Floats) (E : Type 0) (columns : List ColumnSchema) where
  open floats use {Float}

  -- The value of a column that is not a target.
  abbrev pub IsNull : ColumnSchema → Expr Float → Type 0
  IsNull c v = HasType floats no_tables c.data_type v × (assignment null_value c.data_type ≡ ok v)

  abbrev pub IsGiven : Option Ast.Expr → ColumnSchema → Expr Float → Type 0
  IsGiven none c v = IsNull c v
  IsGiven (some e) c v = IsValue floats no_tables e c v

  -- What a slot of `normalized` becomes.
  abbrev pub Slot :
      Option Ast.Expr → ColumnSchema → (before after : Option (Option (Expr Float))) → Type 0
  Slot none c before after = after ≡ before
  Slot (some e) c before after =
      (v : Expr Float) × (after ≡ some (some v)) × IsValue floats no_tables e c v

  pub record Filled (es : List Ast.Expr) (ts : List ℕ) (before after : List (Option (Expr Float)))
      : Type 0 where
    pub width : length after ≡ length before
    pub slots :
        (j : ℕ) (c : ColumnSchema)
        → get_elem? columns j ≡ some c
        → Slot (given j ts es) c (get_elem? before j) (get_elem? after j)

  -- One more target.
  set-Slot :
      (e : Ast.Expr) (es : List Ast.Expr) (t : ℕ) (ts : List ℕ) (v : Expr Float)
      (before after : List (Option (Expr Float))) (j : ℕ) (c : ColumnSchema)
      → get_elem? columns j ≡ some c
      → seen_index t ts ≡ false
      → t < length before
      → (c' : ColumnSchema) × (get_elem? columns t ≡ some c') × IsValue floats no_tables e c' v
      → Slot (given j ts es) c (get_elem? (set before t (some v)) j) (get_elem? after j)
      → Slot (given j (t ∷ ts) (e ∷ es)) c (get_elem? before j) (get_elem? after j)
  set-Slot e es t ts v before after j c at fresh lt value h = elim (Bool-cases (j == t)) [
    | inl here ↦ rw here (at_target (ground arith))
    | inr other ↦ rw other (
        subst (λ b. Slot (given j ts es) c b (get_elem? after j))
          (get_elem?-set_ne before t j (some v) (λ e. ground arith)) h)
  ]
    where
      at_target :
          j ≡ t
          → (v' : Expr Float) × (get_elem? after j ≡ some (some v'))
            × IsValue floats no_tables e c v'
      at_target is =
          let column : value.0 ≡ c =
            (let found : get_elem? columns t ≡ some value.0 = value.1 in cc) in
          let unseen : given j ts es ≡ none =
            given_unseen j ts es (subst (λ i. seen_index i ts ≡ false) (sym is) fresh) in
          let unchanged : get_elem? after j ≡ get_elem? (set before t (some v)) j =
            subst (λ g. Slot g c (get_elem? (set before t (some v)) j) (get_elem? after j)) unseen
              h in
          (
            v,
            unchanged
                ∙ ap (get_elem? (set before t (some v))) is
                ∙ get_elem?-set_self before t (some v) lt,
            subst (λ x. IsValue floats no_tables e x v) column value.2,
          )

  pub fill-Filled :
      (es : List Ast.Expr) (ts : List ℕ) (before : List (Option (Expr Float)))
      → Distinct ts
      → InRange columns ts
      → length before ≡ length columns
      → Yields (Filled es ts before) (fill floats {E = E} columns es ts before)
  unfolding fill
  fill-Filled [] [] before distinct inside wide = record { width = refl; slots = λ j c at. refl }
  fill-Filled [] (t ∷ ts) before distinct inside wide = record {
    width = refl;
    slots = λ j c at. refl;
  }
  fill-Filled (e ∷ es) [] before distinct inside wide = record {
    width = refl;
    slots = λ j c at. refl;
  }
  fill-Filled (e ∷ es) (t ∷ ts) before distinct inside wide =
      bind-Yields (Filled (e ∷ es) (t ∷ ts) before) (IsValue floats no_tables e inside.0.0)
        (assigned floats {E = E} no_tables columns t e) _
        (assigned-IsValue floats no_tables E columns t inside.0.0 e inside.0.1)
        (λ v value.
          bind-Yields (Filled (e ∷ es) (t ∷ ts) before) (λ next. next ≡ set before t (some v))
            (replaced_at {E = E} before t (some v)) (fill floats {E = E} columns es ts)
            (rw (lt→ltb t (length before) (below inside.0.1)) refl)
            (λ next is.
              subst
                (λ n.
                  Yields (Filled (e ∷ es) (t ∷ ts) before) (fill floats {E = E} columns es ts n))
                (sym is)
                (after_set v value (fill floats {E = E} columns es ts (set before t (some v))) (
                  fill-Filled es ts (set before t (some v)) distinct.1 inside.1
                    (length-set before t (some v) ∙ wide)))))
    where
      below : get_elem? columns t ≡ some inside.0.0 → t < length before
      below at = let lt : t < length columns = get_elem?-eq-some columns t at in omega arith

      after_set :
          (v : Expr Float)
          → IsValue floats no_tables e inside.0.0 v
          → (m : Answer E (List (Option (Expr Float))))
          → Yields (Filled es ts (set before t (some v))) m
          → Yields (Filled (e ∷ es) (t ∷ ts) before) m
      after_set v value (ok after) h = record {
        width = h.width ∙ length-set before t (some v);
        slots = λ j c at.
            set-Slot e es t ts v before after j c at distinct.0 (below inside.0.1)
              (inside.0.0, inside.0.1, value) (h.slots j c at);
      }
      after_set v value (err x) h = tt
      after_set v value panic h = absurd h
