-- ===== src/Binder/Modify/Inserting.antt =====
-- What INSERT binds.
use chili_db.Prelude.{
  ℕ, suc, ◌<◌, ◌≡◌, refl, sym, subst, false, not, List, [], ◌∷◌, ◌++◌, ok, err, panic, ◌==◌, length,
  is_empty, All, arith, Yields, bind-Yields, guard-Yields, get_elem?-append_middle,
  length-append_one,
}
use mathlib.Core.List.{append_assoc}
use chili_db.Bytes.{Bytes}
use chili_db.Parser.Ast
use chili_db.Binder.Types.{ColumnSchema}
use chili_db.Binder.Ast.{Expr}
use chili_db.Binder.Number.{Floats}
use chili_db.Binder.Statement.{Catalog, Answer}
use chili_db.Binder.Modify.{
  indices_from, targets_of, check_rows, bind_row, bind_rows, Insert, lookup_table, bind_insert,
}
use chili_db.Binder.Modify.Targets.{
  Distinct, AreTargets, AreTargets-Distinct, listed_targets-AreTargets,
}
use chili_db.Binder.Modify.Assigning.{IsTable, lookup_table-IsTable}
use chili_db.Binder.Modify.Filling.{InRange}
use chili_db.Binder.Modify.Rows.{IsRow, bind_row-IsRow}
use chili_db.Catalog.Codec.{seen_index}

-- The named columns, each once, or all in order.
abbrev pub AreChosen : List ColumnSchema → List Bytes → List ℕ → Type 0
AreChosen columns [] ts = ts ≡ indices_from 0 columns
AreChosen columns (n ∷ ns) ts = AreTargets columns [] (n ∷ ns) ts

AreTargets-InRange :
    (columns : List ColumnSchema) (seen : List ℕ) (names : List Bytes) (ts : List ℕ)
    → AreTargets columns seen names ts
    → InRange columns ts
AreTargets-InRange columns seen [] [] h = tt
AreTargets-InRange columns seen (n ∷ ns) (t ∷ ts) h =
    ((h.0.0.0, h.0.0.1), AreTargets-InRange columns (t ∷ seen) ns ts h.1)
AreTargets-InRange columns seen (n ∷ ns) [] h = absurd h
AreTargets-InRange columns seen [] (t ∷ ts) h = absurd h

indices_from-fresh :
    (cs : List ColumnSchema) (i t : ℕ) → t < i → seen_index t (indices_from i cs) ≡ false
indices_from-fresh [] i t lt = refl
indices_from-fresh (c ∷ cs) i t lt =
    let other : (t == i) ≡ false = ground arith in
    rw other (indices_from-fresh cs (suc i) t (omega arith))

indices_from-Distinct : (cs : List ColumnSchema) (i : ℕ) → Distinct (indices_from i cs)
indices_from-Distinct [] i = tt
indices_from-Distinct (c ∷ cs) i =
    (indices_from-fresh cs (suc i) i (omega arith), indices_from-Distinct cs (suc i))

indices_from-InRange :
    (pre cs : List ColumnSchema) → InRange (pre ++ cs) (indices_from (length pre) cs)
indices_from-InRange pre [] = tt
indices_from-InRange pre (c ∷ cs) = (
  (c, get_elem?-append_middle pre c cs),
  subst (λ n. InRange (pre ++ c ∷ cs) (indices_from n cs)) (length-append_one pre c)
      (subst (λ all. InRange all (indices_from (length (pre ++ c ∷ [])) cs))
        (append_assoc pre (c ∷ []) cs) (indices_from-InRange (pre ++ c ∷ []) cs)),
)

module _ (E : Type 0) (columns : List ColumnSchema) where
  targets_of-AreChosen :
      (names : List Bytes) → Yields (AreChosen columns names) (targets_of {E = E} columns names)
  targets_of-AreChosen [] = refl
  targets_of-AreChosen (n ∷ ns) = listed_targets-AreTargets E columns (n ∷ ns) []

  AreChosen-InRange :
      (names : List Bytes) (ts : List ℕ) → AreChosen columns names ts → InRange columns ts
  AreChosen-InRange [] ts h = subst (InRange columns) (sym h) (indices_from-InRange [] columns)
  AreChosen-InRange (n ∷ ns) ts h = AreTargets-InRange columns [] (n ∷ ns) ts h

  AreChosen-Distinct : (names : List Bytes) (ts : List ℕ) → AreChosen columns names ts → Distinct ts
  AreChosen-Distinct [] ts h = subst Distinct (sym h) (indices_from-Distinct columns 0)
  AreChosen-Distinct (n ∷ ns) ts h = AreTargets-Distinct columns [] (n ∷ ns) ts h

  check_rows-All :
      (i expected : ℕ) (rows : List (List Ast.Expr))
      → Yields (λ u. All (λ row. length row ≡ expected) rows) (check_rows {E = E} i expected rows)
  unfolding check_rows
  check_rows-All i expected [] = tt
  check_rows-All i expected (row ∷ rows) =
      guard-Yields (λ u. All (λ r. length r ≡ expected) (row ∷ rows)) (length row == expected) _ _
        (λ same.
          guard-Yields (λ u. All (λ r. length r ≡ expected) (row ∷ rows)) (not (is_empty row)) _ _
            (λ some_value.
              weaken (ground arith) (check_rows {E = E} (suc i) expected rows)
                (check_rows-All (suc i) expected rows)))
    where
      weaken :
          length row ≡ expected
          → (m : Answer E (Unit {0})) → Yields (λ u. All (λ r. length r ≡ expected) rows) m
          → Yields (λ u. All (λ r. length r ≡ expected) (row ∷ rows)) m
      weaken same (ok u) h = (same, h)
      weaken same (err e) h = tt
      weaken same panic h = absurd h

module _ (floats : Floats) (E : Type 0) where
  open floats use {Float}

  -- One bound row for each row of values.
  abbrev pub AreRows :
      List ColumnSchema → List ℕ → List (List Ast.Expr) → List (List (Expr Float)) → Type 0
  AreRows columns ts [] [] = Unit
  AreRows columns ts (es ∷ rows) [] = ⊥
  AreRows columns ts [] (row ∷ bound) = ⊥
  AreRows columns ts (es ∷ rows) (row ∷ bound) =
      IsRow floats E columns ts es row × AreRows columns ts rows bound

module _ (floats : Floats) (catalog : Catalog) where
  open floats use {Float}
  open catalog use {Error, get_table}

  bind_rows-AreRows :
      (columns : List ColumnSchema) (ts : List ℕ) (rows : List (List Ast.Expr))
      → Distinct ts
      → InRange columns ts
      → All (λ row. length row ≡ length ts) rows
      → Yields (AreRows floats Error columns ts rows) (bind_rows floats {E = Error} columns ts rows)
  unfolding bind_rows
  bind_rows-AreRows columns ts [] distinct inside widths = tt
  bind_rows-AreRows columns ts (es ∷ rows) distinct inside widths =
      bind-Yields (AreRows floats Error columns ts (es ∷ rows)) (IsRow floats Error columns ts es)
        (bind_row floats {E = Error} columns ts es) _
        (bind_row-IsRow floats Error columns ts es distinct inside widths.0)
        (λ row is.
          bind-Yields (AreRows floats Error columns ts (es ∷ rows))
            (AreRows floats Error columns ts rows) (bind_rows floats {E = Error} columns ts rows) _
            (bind_rows-AreRows columns ts rows distinct inside widths.1) (λ bound all. (is, all)))

  pub record IsInsert (name : Bytes) (names : List Bytes) (rows : List (List Ast.Expr))
      (i : Insert Float) : Type 0 where
    pub table : IsTable floats catalog name i.table
    pub some_row : is_empty rows ≡ false
    pub targets : List ℕ
    pub chosen : AreChosen i.table.schema.columns names targets
    pub bound : AreRows floats Error i.table.schema.columns targets rows i.rows

  -- INSERT never panics. What it binds is the table that the catalog has under the name, with one
  -- row for each row of values, of which there is one at least. The targets are the named columns,
  -- each once, or all columns in order. A row has one expression for each target, and its bound row
  -- one value for each column of the table: at a target the row's expression, bound without tables
  -- and converted to the column's type, elsewhere a NULL of that type, all well typed.
  pub bind_insert-IsInsert :
      (name : Bytes) (names : List Bytes) (rows : List (List Ast.Expr))
      → Yields (IsInsert name names rows) (bind_insert floats catalog name names rows)
  unfolding bind_insert
  bind_insert-IsInsert name names rows =
      bind-Yields (IsInsert name names rows) (IsTable floats catalog name)
        (lookup_table floats catalog name) _ (lookup_table-IsTable floats catalog name)
        (λ table is.
          bind-Yields (IsInsert name names rows) (AreChosen table.schema.columns names)
            (targets_of table.schema.columns names) _
            (targets_of-AreChosen Error table.schema.columns names)
            (λ ts chosen.
              guard-Yields (IsInsert name names rows) (not (is_empty rows)) _ _ (λ some_row.
                bind-Yields (IsInsert name names rows)
                  (λ u. All (λ row. length row ≡ length ts) rows) (check_rows 0 (length ts) rows) _
                  (check_rows-All Error table.schema.columns 0 (length ts) rows)
                  (λ u widths.
                    bind-Yields (IsInsert name names rows)
                      (AreRows floats Error table.schema.columns ts rows)
                      (bind_rows floats table.schema.columns ts rows) _
                      (bind_rows-AreRows table.schema.columns ts rows
                        (AreChosen-Distinct Error table.schema.columns names ts chosen)
                        (AreChosen-InRange Error table.schema.columns names ts chosen) widths)
                      (λ bound all. record {
                        table = is;
                        some_row = ground arith;
                        targets = ts;
                        chosen = chosen;
                        bound = all;
                      })))))
