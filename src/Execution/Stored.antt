-- ===== src/Execution/Stored.antt =====
-- What a batch of the server holds of a row, and the clauses that it has the columns for.
use hega_proto.Base.{
  Option, none, true, false, ◌++◌, split_dot, some_inj, ℕ, ◌≤◌, ◌<◌, ◌≡◌, refl, sym, ap, ◌∙◌, some,
  List, Str, length, All,
}
use mathlib.Core.Path.{subst}
use hega_proto.Base.Outcome.{ok}
use hega_proto.Ast.{AstExpr, column_ref, string_literal, comparison, connective, not_expr}
use hega_proto.Catalog.{TableSchema, ColumnSchema, column, is_string_type}
use hega_proto.Engine.{Engine, max_value}
use hega_proto.Query.Encryptor.{char_or_zero, string_operands}
use hega_proto.Sql.{Row, IsCharacter}
use hega_proto.Planner.{contains}
use hega_proto.Planner.Columns.{columns_of}

abbrev pub IsStoredText : (e : Engine) → ColumnSchema → Str → Str → (Str → Option ℕ) → Type 0
IsStoredText e c n t batch =
    (length t ≤ c.max_length)
    × All IsCharacter t
    × ((k : ℕ) → k < c.max_length → batch (e.string_physical_column n k) ≡ some (char_or_zero t k))

-- The batch that the server scans holds the row at a slot, in the columns of `scan`, as ingestion
-- stores it: a number in [0, 128] in its own column, an ASCII text that fits its column in one
-- physical column for each character, 0 past the end of the text. Other columns may be lacking.
pub record IsStored (e : Engine) (schema : TableSchema) (scan : List Str) (row : Row)
    (batch : Str → Option ℕ) : Type 0 where
  pub number :
      (n : Str) (c : ColumnSchema)
      → contains n scan ≡ true
      → column schema n ≡ ok c
      → is_string_type c.type ≡ false
      → (batch n ≡ some (row.number n)) × (row.number n ≤ max_value)
  pub text :
      (n : Str) (c : ColumnSchema)
      → contains n scan ≡ true
      → column schema n ≡ ok c
      → is_string_type c.type ≡ true
      → IsStoredText e c n (row.text n) batch

-- The column is written without an alias and is of a numeric type.
abbrev pub IsNumberColumn : TableSchema → AstExpr → Type 0
IsNumberColumn schema (column_ref n) =
    (split_dot n ≡ none)
    × (c : ColumnSchema) × (column schema n ≡ ok c)
    × (is_string_type c.type ≡ false)
IsNumberColumn schema _ = Unit

abbrev pub IsPlainComparison : TableSchema → AstExpr → AstExpr → Option (Str × Str) → Type 0
IsPlainComparison schema l r none = IsNumberColumn schema l × IsNumberColumn schema r
IsPlainComparison schema l r (some (n, s)) = split_dot n ≡ none

-- The columns of the clause are written without an alias, as the batch of one table has them, and
-- those that are compared as numbers are of a numeric type.
abbrev pub IsPlainClause : TableSchema → AstExpr → Type 0
IsPlainClause schema (comparison op l r) = IsPlainComparison schema l r (string_operands l r)
IsPlainClause schema (connective op l r) = IsPlainClause schema l × IsPlainClause schema r
IsPlainClause schema (not_expr l) = IsPlainClause schema l
IsPlainClause schema _ = Unit

-- The column of a string test is one of the columns of its operands.
pub string_operands-All :
    (P : Str → Type 0) (l r : AstExpr) (n s : Str)
    → string_operands l r ≡ some (n, s)
    → All P (columns_of l ++ columns_of r)
    → P n
string_operands-All P (column_ref m) (string_literal t) n s h p =
    subst P (ap (λ (q : Str × Str). q.0) (some_inj h)) p.0
string_operands-All P (string_literal t) (column_ref m) n s h p =
    subst P (ap (λ (q : Str × Str). q.0) (some_inj h)) p.0
string_operands-All P _ _ n s h p = cc

-- The values of a batch's columns, 0 where one is lacking.
abbrev pub values_of : (Str → Option ℕ) → Str → ℕ
values_of batch c = elim (batch c) [ none ↦ 0 | some v ↦ v ]

pub value-present :
    (batch : Str → Option ℕ) (c : Str) {v : ℕ} → batch c ≡ some v → values_of batch c ≡ v
value-present batch c h = rw (h, values_of) refl

pub present :
    (batch : Str → Option ℕ) (c : Str) {v : ℕ}
    → batch c ≡ some v
    → batch c ≡ some (values_of batch c)
present batch c h = h ∙ ap some (sym (value-present batch c h))
