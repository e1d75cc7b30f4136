-- ===== src/Binder/Context/Resolution.antt =====
-- Name resolution as a specification: all the columns of a scope that match, counted.
use chili_db.Prelude.{
  ℕ, suc, ◌+◌, ◌<◌, ◌≡◌, refl, sym, ap, fun_ext, ◌∙◌, inl, inr, Bool, true, false, List, [], ◌∷◌,
  ◌++◌, Option, none, some, ok, err, panic, ◌>>=◌, ltb, le→ltb, if◌then◌else◌, arith, Bool-cases,
}
use mathlib.Core.List.{reverse}
use chili_db.Bytes.{Bytes, bytes_eq}
use chili_db.Binder.Types.{ColumnSchema}
use chili_db.Binder.Ast.{BindError, unknown_column, ambiguous_column, R}
use chili_db.Binder.Context.{
  RelationBinding, Scope, BindContext, Found, once, scan_columns, has_name, qualified,
  scan_relations, next_scope, scan_scopes, column_expr, resolve_column,
}

abbrev pub kept_if {ℓ} : {A : Type ℓ} → Bool → A → List A → List A
kept_if true a xs = a ∷ xs
kept_if false a xs = xs

-- The columns with the name, in order.
abbrev pub columns_named : Bytes → ℕ → ℕ → List ColumnSchema → List Found
columns_named name relation i [] = []
columns_named name relation i (c ∷ cs) =
    kept_if (bytes_eq c.name name) (record { relation = relation; column_index = i; column = c })
      (columns_named name relation (suc i) cs)

abbrev pub matches_if : Bool → List Found → List Found → List Found
matches_if true xs ys = xs ++ ys
matches_if false xs ys = ys

-- The columns of a scope that a name may mean.
abbrev pub matches : Option Bytes → Bytes → List RelationBinding → List Found
matches qualifier name [] = []
matches qualifier name (r ∷ rs) =
    matches_if (has_name qualifier r) (columns_named name r.table.relation 0 r.table.schema.columns)
      (matches qualifier name rs)

abbrev pub counted_if : Bool → Option Bytes → ℕ → ℕ
counted_if true qualifier n = qualified qualifier n
counted_if false qualifier n = n

-- How many relations of a scope have the qualifier's name; none has a missing one.
abbrev pub relations_named : Option Bytes → List RelationBinding → ℕ
relations_named qualifier [] = 0
relations_named qualifier (r ∷ rs) =
    counted_if (has_name qualifier r) qualifier (relations_named qualifier rs)

abbrev pub the_match : BindError → BindError → ℕ → R Found → List Found → R Found
the_match ambiguous unknown n outer [] = if ltb 0 n then err unknown else outer
the_match ambiguous unknown n outer (m ∷ []) = ok m
the_match ambiguous unknown n outer (m ∷ m' ∷ ms) = err ambiguous

-- The innermost scope that has a match, or the qualifier's name, decides.
abbrev pub decided : Option Bytes → Bytes → List Scope → R Found
decided qualifier name [] = err (unknown_column qualifier name)
decided qualifier name (s ∷ ss) =
    if ltb 1 (relations_named qualifier s.relations)
    then err (ambiguous_column qualifier name)
    else the_match (ambiguous_column qualifier name) (unknown_column qualifier name)
        (relations_named qualifier s.relations) (decided qualifier name ss)
        (matches qualifier name s.relations)

module _ (ambiguous : BindError) where
  all_once : Option Found → List Found → R (Option Found)
  all_once found [] = ok found
  all_once found (m ∷ ms) = once ambiguous found m >>= λ f. all_once f ms

  all_once-append :
      (found : Option Found) (xs ys : List Found)
      → all_once found (xs ++ ys) ≡ (all_once found xs >>= λ f. all_once f ys)
  unfolding all_once
  all_once-append found [] ys = refl
  all_once-append none (x ∷ xs) ys = all_once-append (some x) xs ys
  all_once-append (some f) (x ∷ xs) ys = refl

  abbrev fails : (B : Type 0) → R B
  fails B = err ambiguous

  -- If it fails, it fails with this error.
  all_once-then :
      (found : Option Found) (xs : List Found) {B : Type 0}
      → (all_once found xs >>= λ f. fails B) ≡ fails B
  unfolding all_once
  all_once-then found [] = refl
  all_once-then none (x ∷ xs) = all_once-then (some x) xs
  all_once-then (some f) (x ∷ xs) = refl

  scan_columns-all_once :
      (name : Bytes) (relation i : ℕ) (cs : List ColumnSchema) (found : Option Found)
      → scan_columns ambiguous name relation i cs found
        ≡ all_once found (columns_named name relation i cs)
  unfolding scan_columns all_once
  scan_columns-all_once name relation i [] found = refl
  scan_columns-all_once name relation i (c ∷ cs) found = elim (Bool-cases (bytes_eq c.name name)) [
    | inl eq ↦ rw eq (
        ap
          (λ (next : Option Found → R (Option Found)).
            once ambiguous found (record { relation = relation; column_index = i; column = c })
            >>= next)
          (fun_ext (λ f. scan_columns-all_once name relation (suc i) cs f)))
    | inr ne ↦ rw ne (scan_columns-all_once name relation (suc i) cs found)
  ]

  abbrev counted : ℕ → R (Option Found) → R (Option Found × ℕ)
  counted n r = if ltb 1 n then err ambiguous else (r >>= λ f. ok (f, n))

>>=-assoc :
    {A B C : Type 0} (m : R A) (f : A → R B) (g : B → R C)
    → ((m >>= f) >>= g) ≡ (m >>= λ a. f a >>= g)
>>=-assoc (ok a) f g = refl
>>=-assoc (err e) f g = refl
>>=-assoc panic f g = refl

qualified-add :
    (qualifier : Option Bytes) (n m : ℕ)
    → qualified qualifier n + m ≡ n + counted_if true qualifier m
qualified-add none n m = refl
qualified-add (some q) n m = omega arith

module _ (ambiguous : BindError) (qualifier : Option Bytes) (name : Bytes) where
  -- After the columns `xs` come the matches `ys` of the other relations.
  counted-append :
      (found : Option Found) (xs ys : List Found) (n : ℕ)
      → (all_once ambiguous found xs >>= λ f. counted ambiguous n (all_once ambiguous f ys))
        ≡ counted ambiguous n (all_once ambiguous found (xs ++ ys))
  counted-append found xs ys n = elim (Bool-cases (ltb 1 n)) [
    | inl many ↦ rw many (all_once-then ambiguous found xs)
    | inr few ↦ rw few (
        sym
          (>>=-assoc (all_once ambiguous found xs) (λ f. all_once ambiguous f ys) (λ g. ok (g, n)))
        ∙ ap (λ r. r >>= λ g. ok (g, n)) (sym (all_once-append ambiguous found xs ys)))
  ]

  scan_relations-counted :
      (rs : List RelationBinding) (found : Option Found) (n : ℕ)
      → n < 2
      → scan_relations ambiguous qualifier name rs found n
        ≡ counted ambiguous
            (n + relations_named qualifier rs)
            (all_once ambiguous found (matches qualifier name rs))
  unfolding scan_relations all_once
  scan_relations-counted [] found n h =
      let same : n + 0 ≡ n = omega arith in rw (same, le→ltb 1 n (omega arith)) refl
  scan_relations-counted (r ∷ rs) found n h = elim (Bool-cases (has_name qualifier r)) [
    | inr other ↦ rw other (scan_relations-counted rs found n h)
    | inl same ↦ elim (Bool-cases (ltb 1 (qualified qualifier n))) [
      | inl many ↦
          let more : ltb 1 (n + counted_if true qualifier (relations_named qualifier rs)) ≡ true =
            too_many many in
          rw (same, many, more) refl
      | inr few ↦
          rw (same, few)
            (>>=-assoc (scan_columns ambiguous name r.table.relation 0 r.table.schema.columns found)
                (λ f. ok (f, qualified qualifier n))
                (λ (p : Option Found × ℕ). scan_relations ambiguous qualifier name rs p.0 p.1)
              ∙ onward (λ f m small. scan_relations-counted rs f m small) few)
    ]
  ]
    where
      xs : List Found
      xs = columns_named name r.table.relation 0 r.table.schema.columns

      too_many :
          ltb 1 (qualified qualifier n) ≡ true
          → ltb 1 (n + counted_if true qualifier (relations_named qualifier rs)) ≡ true
      too_many many = ground (arith, qualified-add qualifier n (relations_named qualifier rs))

      onward :
          ((f : Option Found) (m : ℕ)
            → m < 2
            → scan_relations ambiguous qualifier name rs f m
              ≡ counted ambiguous
                  (m + relations_named qualifier rs)
                  (all_once ambiguous f (matches qualifier name rs)))
          → ltb 1 (qualified qualifier n) ≡ false
          → (scan_columns ambiguous name r.table.relation 0 r.table.schema.columns found >>= λ f.
              scan_relations ambiguous qualifier name rs f (qualified qualifier n))
            ≡ counted ambiguous
                (n + counted_if true qualifier (relations_named qualifier rs))
                (all_once ambiguous found (xs ++ matches qualifier name rs))
      onward rest few =
          ap
            (λ (m : R (Option Found)).
              m >>= λ f. scan_relations ambiguous qualifier name rs f (qualified qualifier n))
            (scan_columns-all_once ambiguous name r.table.relation 0 r.table.schema.columns found)
          ∙ ap
              (λ (next : Option Found → R (Option Found × ℕ)). all_once ambiguous found xs >>= next)
              (fun_ext (λ f.
                rest f (qualified qualifier n) (ground arith)
                ∙ ap (λ m. counted ambiguous m (all_once ambiguous f (matches qualifier name rs)))
                    (qualified-add qualifier n (relations_named qualifier rs))))
          ∙ counted-append found xs (matches qualifier name rs)
              (n + counted_if true qualifier (relations_named qualifier rs))

  one_match :
      (ms : List Found) (unknown : BindError) (outer : R Found) (n : ℕ)
      → (counted ambiguous n (all_once ambiguous none ms) >>= next_scope unknown outer)
        ≡ (if ltb 1 n then err ambiguous else the_match ambiguous unknown n outer ms)
  unfolding all_once
  one_match [] unknown outer n = elim (Bool-cases (ltb 1 n)) [
    | inl many ↦ rw many refl
    | inr few ↦ rw few refl
  ]
  one_match (m ∷ []) unknown outer n = elim (Bool-cases (ltb 1 n)) [
    | inl many ↦ rw many refl
    | inr few ↦ rw few refl
  ]
  one_match (m ∷ m' ∷ ms) unknown outer n = elim (Bool-cases (ltb 1 n)) [
    | inl many ↦ rw many refl
    | inr few ↦ rw few refl
  ]

scan_scopes-decided :
    (qualifier : Option Bytes) (name : Bytes) (ss : List Scope)
    → scan_scopes qualifier name ss ≡ decided qualifier name ss
unfolding scan_scopes
scan_scopes-decided qualifier name [] = refl
scan_scopes-decided qualifier name (s ∷ ss) =
    ap
      (λ (outer : R Found).
        scan_relations (ambiguous_column qualifier name) qualifier name s.relations none 0
        >>= next_scope (unknown_column qualifier name) outer)
      (scan_scopes-decided qualifier name ss)
    ∙ ap
        (λ (r : R (Option Found × ℕ)).
          r >>= next_scope (unknown_column qualifier name) (decided qualifier name ss))
        (scan_relations-counted (ambiguous_column qualifier name) qualifier name s.relations none 0
            (omega arith)
          ∙ ap
              (λ n. counted (ambiguous_column qualifier name) n (
                all_once (ambiguous_column qualifier name) none
                  (matches qualifier name s.relations)))
              (zero_add (relations_named qualifier s.relations)))
    ∙ one_match (ambiguous_column qualifier name) qualifier name
        (matches qualifier name s.relations) (unknown_column qualifier name)
        (decided qualifier name ss) (relations_named qualifier s.relations)
  where
    zero_add : (n : ℕ) → 0 + n ≡ n
    zero_add n = omega arith

-- The early-exit loops of `resolve_column` compute the specification `decided`: from the innermost
-- scope outward, a scope where two relations have the qualifier's name, or two columns match, makes
-- the name ambiguous; one match is the answer; a scope with the qualifier's name and no match makes
-- it unknown, and any other scope passes the question on.
pub resolve_column-decided :
    {F : Type 0} (context : BindContext) (qualifier : Option Bytes) (name : Bytes)
    → resolve_column {F = F} context qualifier name
      ≡ (decided qualifier name (reverse context.scopes) >>= λ f. ok (column_expr f))
unfolding resolve_column
resolve_column-decided {F} context qualifier name =
    ap (λ (r : R Found). r >>= λ f. ok (column_expr {F = F} f))
      (scan_scopes-decided qualifier name (reverse context.scopes))
