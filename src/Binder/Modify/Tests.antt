-- ===== src/Binder/Modify/Tests.antt =====
-- INSERT INTO t (v) VALUES (7), and UPDATE t SET v = 7 WHERE v = 7, on a table t (id, v).
use chili_db.Prelude.{ℕ, ◌≡◌, refl, inr, true, false, List, [], ◌∷◌, none, some, ok, err, Yields}
use chili_db.Bytes.{Bytes}
use chili_db.Parser.Ast
use chili_db.Binder.Types.{TableSchema, null, boolean, int32, int64, text}
use chili_db.Binder.Ast.{pos, Scalar, Expr, expr, present, ExprKind}
use chili_db.Binder.Number.{Floats, number, valid_number, is_fractional, digits_value}
use chili_db.Binder.Coercion.{cast, numeric_common, comparison_common}
use chili_db.Binder.Context.{resolve_column}
use chili_db.Binder.Expression.{bind_expr}
use chili_db.Binder.Statement.{Catalog, duplicate_column, row_width}
use chili_db.Binder.Modify.{SetClause, target, lookup_table, bind_insert, bind_update}
use chili_db.Binder.Modify.Assigning.{IsUpdate, bind_update-IsUpdate}
use chili_db.Binder.Modify.Inserting.{IsInsert, bind_insert-IsInsert}

abbrev no_floats : Floats
no_floats = record { Float = ℕ; parse = λ s. none; is_finite = λ x. true; negate = λ x. x }

abbrev id : Bytes
id = 105 ∷ 100 ∷ []

abbrev v : Bytes
v = 118 ∷ []

abbrev t : Bytes
t = 116 ∷ []

abbrev schema : TableSchema
schema = record {
  name = t;
  columns =
      (record { name = id; data_type = text; nullable = true })
      ∷ (record { name = v; data_type = int64; nullable = true })
      ∷ [];
}

abbrev one_table : Catalog
one_table = record { Error = ℕ; get_table = λ name. inr (some schema) }

abbrev seven : Ast.Expr
seven = Ast.literal (Ast.number (55 ∷ []))

abbrev wide_seven : Expr ℕ
wide_seven =
    expr int64 false (ExprKind.cast (expr int32 false (ExprKind.literal (Scalar.int32 (pos 7)))))

-- The value is widened, and the other column is a NULL of its type.
inserted :
    bind_insert no_floats one_table t (v ∷ []) ((seven ∷ []) ∷ [])
    ≡ ok (record {
      table = record { relation = 0; schema = schema };
      rows =
          (expr text true (ExprKind.cast (expr null true (ExprKind.literal Scalar.null)))
            ∷ wide_seven
            ∷ [])
          ∷ [];
    })
unfolding bind_insert bind_expr number valid_number is_fractional digits_value cast
inserted = refl

repeated_target :
    bind_insert no_floats one_table t (v ∷ v ∷ []) ((seven ∷ seven ∷ []) ∷ [])
    ≡ err (duplicate_column v)
unfolding bind_insert
repeated_target = refl

wide_row :
    bind_insert no_floats one_table t (v ∷ []) ((seven ∷ []) ∷ (seven ∷ seven ∷ []) ∷ [])
    ≡ err (row_width 2 1 2)
unfolding bind_insert
wide_row = refl

-- WHERE v = 7
abbrev v_is_seven : Ast.MaybeExpr
v_is_seven = Ast.present (Ast.binary (Ast.identifier v) Ast.eq seven)

abbrev v_to_seven : List SetClause
v_to_seven = (record { column = v; value = seven }) ∷ []

-- The filter is bound too: both sides of the comparison are 64-bit integers.
updated :
    bind_update no_floats one_table t v_to_seven v_is_seven
    ≡ ok (record {
      table = record { relation = 0; schema = schema };
      assignments = (record { column_index = 1; value = wide_seven }) ∷ [];
      filter = present (
          expr boolean true (
            ExprKind.binary Ast.eq
              (expr int64 true (ExprKind.column (record { relation = 0; column_index = 1 })))
              wide_seven));
    })
unfolding bind_update bind_expr number valid_number is_fractional digits_value cast
    comparison_common numeric_common resolve_column lookup_table target
updated = refl

bind_insert-IsInsert_example :
    Yields
      (IsInsert no_floats one_table t (v ∷ []) ((seven ∷ []) ∷ []))
      (bind_insert no_floats one_table t (v ∷ []) ((seven ∷ []) ∷ []))
bind_insert-IsInsert_example =
    bind_insert-IsInsert no_floats one_table t (v ∷ []) ((seven ∷ []) ∷ [])

bind_update-IsUpdate_example :
    Yields
      (IsUpdate no_floats one_table t v_to_seven v_is_seven)
      (bind_update no_floats one_table t v_to_seven v_is_seven)
bind_update-IsUpdate_example = bind_update-IsUpdate no_floats one_table t v_to_seven v_is_seven
