-- ===== src/Sql.antt =====
-- What a WHERE clause means on a plaintext row: the semantics that the encrypted execution has to
-- meet. The source states it as `evalPlain` of client/client_main.cpp, disabled by `#if 0`, for a
-- column on the left of a literal; here also for a literal on the left and for two columns.
-- Two columns are compared by their numbers, which is their meaning where both are numeric; the texts
-- of two STRING columns, which the encrypted execution does not compare, are outside the theorems.
use hega_proto.Base.{
  ℕ, ◌≤◌, ◌<◌, ◌^◌, ◌≡◌, ◌⊎◌, Bool, true, false, not, ◌&&◌, ◌||◌, Option, none, some, Str, ltb, leb,
  ◌==◌, str_eq, bare_name, length, All,
}
use hega_proto.Base.Int.{pos}
use hega_proto.Base.Outcome.{ok}
use hega_proto.Ast.{
  Comparison, equal, not_equal, greater_than, less_than, greater_equal, less_equal, Connective,
  and_, or_, AstExpr, column_ref, int_literal, comparison, connective, not_expr,
}
use hega_proto.Catalog.{TableSchema, ColumnSchema, column, is_string_type}
use hega_proto.Engine.{max_value}
use hega_proto.Query.Encryptor.{string_operands}

-- The numbers and the texts of a row, by column reference.
pub record Row : Type 0 where
  pub number : Str → ℕ
  pub text : Str → Str

unfoldable pub compare_numbers : Comparison → ℕ → ℕ → Bool
compare_numbers equal a b = a == b
compare_numbers not_equal a b = not (a == b)
compare_numbers greater_than a b = ltb b a
compare_numbers less_than a b = ltb a b
compare_numbers greater_equal a b = leb b a
compare_numbers less_equal a b = leb a b

-- The value of a column reference or of an integer literal.
abbrev pub operand : Row → AstExpr → ℕ
operand row (column_ref n) = row.number n
operand row (int_literal (pos n)) = n
operand row _ = 0

abbrev pub negate_if_ne : Comparison → Bool → Bool
negate_if_ne equal b = b
negate_if_ne _ b = not b

abbrev pub connect : Connective → Bool → Bool → Bool
connect and_ a b = a && b
connect or_ a b = a || b

unfoldable pub holds : Row → AstExpr → Bool
unfolding compare_numbers
holds row (comparison op l r) = elim (string_operands l r) [
  | none ↦ compare_numbers op (operand row l) (operand row r)
  | some (n, s) ↦ negate_if_ne op (str_eq (row.text n) s)
]
holds row (connective op l r) = connect op (holds row l) (holds row r)
holds row (not_expr l) = not (holds row l)
holds row _ = false

-- A column or a literal in [0, 128].
abbrev pub IsOperand : AstExpr → Type 0
IsOperand (column_ref n) = Unit
IsOperand (int_literal (pos n)) = n ≤ max_value
IsOperand _ = ⊥

abbrev pub IsCharacter : ℕ → Type 0
IsCharacter c = (0 < c) × (c < 128)

abbrev pub IsEqualityTest : Comparison → Type 0
IsEqualityTest op = (op ≡ equal) ⊎ (op ≡ not_equal)

-- `=` or `!=` of a STRING column and an ASCII literal that fits the column.
pub record IsStringTest (schema : TableSchema) (op : Comparison) (n s : Str) : Type 0 where
  pub column_schema : ColumnSchema
  pub found : column schema (bare_name n) ≡ ok column_schema
  pub typed : is_string_type column_schema.type ≡ true
  pub op_ok : IsEqualityTest op
  pub fits : length s ≤ column_schema.max_length
  pub width_pos : 0 < column_schema.max_length
  pub width_u32 : column_schema.max_length < 2 ^ 32
  pub ascii : All IsCharacter s

abbrev pub IsComparison : TableSchema → Comparison → AstExpr → AstExpr → Option (Str × Str) → Type 0
IsComparison schema op l r none = IsOperand l × IsOperand r
IsComparison schema op l r (some (n, s)) = IsStringTest schema op n s

-- The predicates that the README lists: comparisons of a column with a literal or with a column,
-- AND, OR and NOT. A bare column or literal in the place of a predicate is not among them.
abbrev pub IsPredicate : TableSchema → AstExpr → Type 0
IsPredicate schema (comparison op l r) = IsComparison schema op l r (string_operands l r)
IsPredicate schema (connective op l r) = IsPredicate schema l × IsPredicate schema r
IsPredicate schema (not_expr l) = IsPredicate schema l
IsPredicate schema _ = ⊥
