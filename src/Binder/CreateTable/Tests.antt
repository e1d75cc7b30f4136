-- ===== src/Binder/CreateTable/Tests.antt =====
-- CREATE TABLE people (id INTEGER PRIMARY KEY, name VARCHAR(10) UNIQUE NOT NULL).
use chili_db.Prelude.{ℕ, ◌≡◌, refl, inr, List, [], ◌∷◌, none, some, err, Yields}
use chili_db.Bytes.{Bytes}
use chili_db.Parser.Ast
use chili_db.Parser.Ast.{ColumnDef}
use chili_db.Binder.Number.{digits_value}
use chili_db.Binder.Statement.{Catalog, invalid_type, invalid_constraint, multiple_primary_keys}
use chili_db.Binder.CreateTable.{bind_create_table, push_columns, declare}
use chili_db.Binder.CreateTable.Stored.{IsDeclared, bind_create_table-IsDeclared}

abbrev empty_catalog : Catalog
empty_catalog = record { Error = ℕ; get_table = λ name. inr none }

abbrev id : Bytes
id = 105 ∷ 100 ∷ []

abbrev name : Bytes
name = 110 ∷ 97 ∷ 109 ∷ 101 ∷ []

abbrev people : List ColumnDef
people =
    (record { name = id; data_type = Ast.integer; constraints = Ast.primary_key ∷ [] })
    ∷ (record {
      name = name;
      data_type = Ast.varchar (some (49 ∷ 48 ∷ []));
      constraints = Ast.unique ∷ Ast.not_null ∷ [];
    })
    ∷ []

-- A VARCHAR of length 0.
abbrev empty_text : List ColumnDef
empty_text = (record { name = id; data_type = Ast.varchar (some (48 ∷ [])); constraints = [] }) ∷ []

abbrev two_keys : List ColumnDef
two_keys =
    (record { name = id; data_type = Ast.integer; constraints = Ast.primary_key ∷ [] })
    ∷ (record { name = name; data_type = Ast.text; constraints = Ast.primary_key ∷ [] })
    ∷ []

empty_text_refused : bind_create_table empty_catalog name empty_text ≡ err (invalid_type (48 ∷ []))
unfolding bind_create_table push_columns declare digits_value
empty_text_refused = refl

two_keys_refused :
    bind_create_table empty_catalog name two_keys ≡ err (invalid_constraint multiple_primary_keys)
unfolding bind_create_table push_columns declare digits_value
two_keys_refused = refl

bind_create_table-IsDeclared_example :
    Yields (IsDeclared ℕ name people) (bind_create_table empty_catalog name people)
bind_create_table-IsDeclared_example = bind_create_table-IsDeclared empty_catalog name people
