-- ===== src/Semantic/Compare.antt =====
-- `validateComparison` of semantic/semantic.cpp, with its own lookup of columns.
use hega_proto.Base.{
  Bool, true, false, not, ◌&&◌, ◌||◌, none, some, List, [], ◌∷◌, ◌++◌, Str, codes, str_eq,
  split_dot, length, ltb, ◌==◌, if◌then◌else◌,
}
use hega_proto.Base.Outcome.{Result, err, semantic_error, ◌>>=◌, ◌>>◌, guard}
use hega_proto.Ast.{
  Comparison, equal, not_equal, AstExpr, column_ref, string_literal, comparison, JoinClause,
  SelectStatement, is_column, is_int, is_string,
}
use hega_proto.Ast.Print.{to_sql}
use hega_proto.Catalog.{
  Catalog, ColumnSchema, is_int64, is_string_type, get_table, has_column, column,
}
use hega_proto.Semantic.Throws.{is_empty_name, when, discard, quoted}

-- the loop over the joins in the lambda `resolve` of `validateComparison`
unfoldable pub resolve_joined : Catalog → List JoinClause → Str → Str → Str → Result ColumnSchema
unfolding get_table column
resolve_joined catalog [] ref alias name = err (quoted (codes "Unknown qualified column") ref)
resolve_joined catalog (j ∷ js) ref alias name =
    let later = resolve_joined catalog js ref alias name in
    let here = (do t ← get_table catalog j.right_table.table_name; column t name) in
    if str_eq alias j.right_table.alias then here else later

-- the lambda `resolve` of `validateComparison`
unfoldable pub resolve_operand : Catalog → SelectStatement → Str → Result ColumnSchema
unfolding split_dot resolve_joined get_table has_column column
resolve_operand catalog stmt ref = elim (split_dot ref) [
  | none ↦ do
    t ← get_table catalog stmt.table_name
    guard (has_column t ref) (quoted (codes "Unknown column") ref)
    column t ref
  | some (alias, name) ↦
      let own = (do t ← get_table catalog stmt.table_name; column t name) in
      let other = resolve_joined catalog stmt.joins ref alias name in
      if str_eq alias stmt.table_alias
        || (is_empty_name stmt.table_alias && str_eq alias stmt.table_name)
      then own
      else other
]

abbrev pub is_equality : Comparison → Bool
is_equality equal = true
is_equality not_equal = true
is_equality _ = false

-- `e.columnName` and `e.stringValue`, which are empty in a node of another kind
abbrev pub column_of : AstExpr → Str
column_of (column_ref n) = n
column_of _ = []

abbrev pub string_of : AstExpr → Str
string_of (string_literal s) = s
string_of _ = []

-- `lCol && (rLit || rString)`: the literal has the type of the column.
unfoldable pub check_literal_type :
    Catalog → SelectStatement → AstExpr → AstExpr → Result (Unit {0})
unfolding resolve_operand
check_literal_type catalog stmt col lit = when (is_column col && (is_int lit || is_string lit)) (do
  c ← resolve_operand catalog stmt (column_of col)
  guard
      (not
        ((is_int lit && not (is_int64 c.type)) || (is_string lit && not (is_string_type c.type))))
      (quoted (codes "Literal type does not match column") (column_of col)))

-- the lambda `checkNumeric`
unfoldable pub check_numeric : Catalog → SelectStatement → AstExpr → Result (Unit {0})
unfolding resolve_operand
check_numeric catalog stmt e = when (is_column e) (do
  c ← resolve_operand catalog stmt (column_of e)
  guard (is_int64 c.type) (
      semantic_error (
        codes "Column '"
        ++ column_of e
        ++ codes "' is not numeric; cannot use comparison operator")))

-- the branch `lString || rString`
unfoldable pub check_string_test :
    Catalog → SelectStatement → Comparison → AstExpr → AstExpr → Result (Unit {0})
unfolding resolve_operand
check_string_test catalog stmt op l r = do
  guard (is_equality op) (semantic_error (codes "STRING columns support only = and !="))
  let name = (if is_column l then column_of l else column_of r)
  c ← resolve_operand catalog stmt name
  guard (is_string_type c.type)
      (quoted (codes "String literal compared with non-STRING column") name)
  let literal = (if is_string l then string_of l else string_of r)
  guard (not (c.max_length == 0 || ltb c.max_length (length literal)))
      (semantic_error (codes "String literal for column '" ++ name ++ codes "' exceeds maxLength"))

-- The operands are a column and a literal, in either order, or two columns.
unfoldable pub check_shape : Comparison → AstExpr → AstExpr → Result (Unit {0})
unfolding to_sql
check_shape op l r =
    guard
      ((is_column l && (is_int r || is_string r))
        || ((is_int l || is_string l) && is_column r)
        || (is_column l && is_column r))
      (semantic_error (
        codes "Comparison must be between a column and a literal or two columns: "
        ++ to_sql (comparison op l r)))

-- the branch for `>`, `<`, `>=` and `<=`
unfoldable pub check_ordering :
    Catalog → SelectStatement → Comparison → AstExpr → AstExpr → Result (Unit {0})
unfolding check_numeric
check_ordering catalog stmt op l r = when (not (is_equality op)) (do
  check_numeric catalog stmt l
  check_numeric catalog stmt r
  guard (not (is_string l || is_string r))
      (semantic_error (codes "Ordering comparisons are only supported for INT64 columns")))

-- `if (lCol) resolve(l.columnName);`
unfoldable pub check_known : Catalog → SelectStatement → AstExpr → Result (Unit {0})
unfolding resolve_operand
check_known catalog stmt e =
    when (is_column e) (discard (resolve_operand catalog stmt (column_of e)))

-- `SemanticAnalyzer::validateComparison`
unfoldable pub validate_comparison :
    Catalog → SelectStatement → Comparison → AstExpr → AstExpr → Result (Unit {0})
unfolding check_shape check_known check_literal_type check_ordering check_string_test
validate_comparison catalog stmt op l r = do
  check_shape op l r
  check_known catalog stmt l
  check_known catalog stmt r
  check_literal_type catalog stmt l r
  check_literal_type catalog stmt r l
  check_ordering catalog stmt op l r
  when (is_string l || is_string r) (check_string_test catalog stmt op l r)
