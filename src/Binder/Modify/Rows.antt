-- ===== src/Binder/Modify/Rows.antt =====
-- The rows that INSERT binds: each column of the table gets its value.
use chili_db.Prelude.{
  ℕ, zero, suc, ◌≡◌, refl, sym, ap, subst, ◌∙◌, List, [], ◌∷◌, Option, none, some, ok, err, panic,
  length, get_elem?, arith, Yields, bind-Yields,
}
use chili_db.Parser.Ast
use chili_db.Binder.Types.{ColumnSchema}
use chili_db.Binder.Ast.{Expr}
use chili_db.Binder.Number.{Floats}
use chili_db.Binder.Coercion.{assignment}
use chili_db.Binder.Expression.Typing.{IsTyped, KindTyped}
use chili_db.Binder.Statement.{Answer}
use chili_db.Binder.Modify.{no_tables, unset, fill, null_value, value_or_null, complete, bind_row}
use chili_db.Binder.Modify.Targets.{Distinct}
use chili_db.Binder.Modify.Assigning.{lifted-Yields, IsValue, assignment-HasType}
use chili_db.Binder.Modify.Filling.{given, InRange, IsNull, IsGiven, Slot, Filled, fill-Filled}

module _ (floats : Floats) (E : Type 0) (columns : List ColumnSchema) where
  open floats use {Float}

  abbrev Value : Option (Expr Float) → ColumnSchema → Expr Float → Type 0
  Value (some w) c v = v ≡ w
  Value none c v = IsNull floats E columns c v

  value_or_null-Value :
      (x : Option (Expr Float)) (c : ColumnSchema)
      → Yields (Value x c) (value_or_null floats {E = E} x c)
  unfolding IsTyped KindTyped
  value_or_null-Value (some w) c = refl
  value_or_null-Value none c =
      lifted-Yields E (IsNull floats E columns c) (assignment null_value c.data_type)
        (assignment-HasType floats no_tables null_value c.data_type (refl, refl))

  record Completed (slots : List (Option (Expr Float))) (cs : List ColumnSchema)
      (row : List (Expr Float)) : Type 0 where
    width : length row ≡ length cs
    values :
        (j : ℕ) (c : ColumnSchema) (x : Option (Expr Float))
        → get_elem? cs j ≡ some c
        → get_elem? slots j ≡ some x
        → (v : Expr Float) × (get_elem? row j ≡ some v) × Value x c v

  complete-Completed :
      (slots : List (Option (Expr Float))) (cs : List ColumnSchema)
      → length slots ≡ length cs
      → Yields (Completed slots cs) (complete floats {E = E} slots cs)
  unfolding complete
  complete-Completed [] [] same = record { width = refl; values = λ j c x at slot. cc }
  complete-Completed (x ∷ xs) [] same = absurd (omega arith)
  complete-Completed [] (c ∷ cs) same = absurd (omega arith)
  complete-Completed (x ∷ xs) (c ∷ cs) same =
      bind-Yields (Completed (x ∷ xs) (c ∷ cs)) (Value x c) (value_or_null floats {E = E} x c) _
        (value_or_null-Value x c)
        (λ v value.
          bind-Yields (Completed (x ∷ xs) (c ∷ cs)) (Completed xs cs)
            (complete floats {E = E} xs cs) _ (complete-Completed xs cs (omega arith))
            (λ row h. record { width = ap suc h.width; values = extended v value row h }))
    where
      extended :
          (v : Expr Float)
          → Value x c v
          → (row : List (Expr Float)) → Completed xs cs row
          → (j : ℕ) (c' : ColumnSchema) (x' : Option (Expr Float)) → get_elem? (c ∷ cs) j ≡ some c'
          → get_elem? (x ∷ xs) j ≡ some x'
          → (v' : Expr Float) × (get_elem? (v ∷ row) j ≡ some v') × Value x' c' v'
      extended v value row h zero c' x' at slot =
          let column : c ≡ c' = cc in
          let same_slot : x ≡ x' = cc in
          (v, refl, subst (λ k. Value x' k v) column (subst (λ y. Value y c v) same_slot value))
      extended v value row h (suc j) c' x' at slot = h.values j c' x' at slot

  -- A value for each column of the table, given or NULL.
  pub record IsRow (ts : List ℕ) (es : List Ast.Expr) (row : List (Expr Float)) : Type 0 where
    pub width : length row ≡ length columns
    pub all_given : length es ≡ length ts
    pub values :
        (j : ℕ) (c : ColumnSchema)
        → get_elem? columns j ≡ some c
        → (v : Expr Float) × (get_elem? row j ≡ some v)
          × IsGiven floats E columns (given j ts es) c v

  unset_at :
      (cs : List ColumnSchema) (j : ℕ) (c : ColumnSchema)
      → get_elem? cs j ≡ some c
      → get_elem? (unset {F = Float} cs) j ≡ some none
  unset_at [] j c at = cc
  unset_at (x ∷ xs) zero c at = refl
  unset_at (x ∷ xs) (suc j) c at = unset_at xs j c at

  length-unset : (cs : List ColumnSchema) → length (unset {F = Float} cs) ≡ length cs
  length-unset [] = refl
  length-unset (c ∷ cs) = ap suc (length-unset cs)

  Slot-IsGiven :
      (g : Option Ast.Expr) (c : ColumnSchema) (slots : List (Option (Expr Float)))
      (row : List (Expr Float)) (j : ℕ)
      → get_elem? columns j ≡ some c
      → Slot floats E columns g c (some none) (get_elem? slots j)
      → Completed slots columns row
      → (v : Expr Float) × (get_elem? row j ≡ some v) × IsGiven floats E columns g c v
  Slot-IsGiven none c slots row j at slot h = h.values j c none at slot
  Slot-IsGiven (some e) c slots row j at (w, slot, value) h =
      let (v, there, same) = h.values j c (some w) at slot in
      (v, there, subst (λ x. IsValue floats no_tables e c x) (sym same) value)

  pub bind_row-IsRow :
      (ts : List ℕ) (es : List Ast.Expr)
      → Distinct ts
      → InRange columns ts
      → length es ≡ length ts
      → Yields (IsRow ts es) (bind_row floats {E = E} columns ts es)
  bind_row-IsRow ts es distinct inside same =
      bind-Yields (IsRow ts es) (Filled floats E columns es ts (unset columns))
        (fill floats {E = E} columns es ts (unset columns)) _
        (fill-Filled floats E columns es ts (unset columns) distinct inside (length-unset columns))
        (λ slots filled.
          weaken slots filled (complete floats {E = E} slots columns)
            (complete-Completed slots columns (filled.width ∙ length-unset columns)))
    where
      weaken :
          (slots : List (Option (Expr Float)))
          → Filled floats E columns es ts (unset columns) slots
          → (m : Answer E (List (Expr Float))) → Yields (Completed slots columns) m
          → Yields (IsRow ts es) m
      weaken slots filled (ok row) h = record {
        width = h.width;
        all_given = same;
        values = λ j c at.
            Slot-IsGiven (given j ts es) c slots row j at
              (subst (λ b. Slot floats E columns (given j ts es) c b (get_elem? slots j))
                (unset_at columns j c at) (filled.slots j c at))
              h;
      }
      weaken slots filled (err x) h = tt
      weaken slots filled panic h = absurd h
