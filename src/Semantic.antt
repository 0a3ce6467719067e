-- ===== src/Semantic.antt =====
-- semantic/semantic.cpp: the check of a statement against the catalog, before any encryption. The
-- scopes are a map from alias to schema; a lookup by a bare name passes over all of them, and its
-- result does not depend on their order.
pub mod Throws
pub mod Compare
pub mod Accepts
use hega_proto.Base.{
  ℕ, Bool, true, false, not, ◌&&◌, ◌||◌, Option, none, some, List, [], ◌∷◌, ◌++◌, Str, codes,
  str_eq, split_dot, length, ltb, ◌==◌, if◌then◌else◌,
}
use hega_proto.Base.Int.{negsuc, ltb_ℤ}
use hega_proto.Base.Dict.{Dict, lookup, insert}
use hega_proto.Base.Outcome.{Result, ok, err, Error, semantic_error, ◌>>=◌, ◌>>◌, guard}
use hega_proto.Ast.{
  Comparison, equal, not_equal, AstExpr, column_ref, int_literal, string_literal, comparison,
  connective, not_expr, OrderByColumn, JoinClause, SelectStatement, is_column, is_int, is_string,
}
use hega_proto.Ast.Print.{to_sql}
use hega_proto.Catalog.{
  Catalog, ColumnSchema, TableSchema, is_int64, is_string_type, type_eq, has_table, get_table,
  has_column, column, is_found,
}
use hega_proto.Semantic.Throws.{is_empty_name, when, discard, quoted}
use hega_proto.Semantic.Compare.{validate_comparison}

-- `scopes[join.rightTable.alias] = &catalog_.getTable(join.rightTable.tableName);`
unfoldable pub add_scopes : Catalog → List JoinClause → Dict TableSchema → Result (Dict TableSchema)
unfolding has_table get_table insert
add_scopes catalog [] scopes = ok scopes
add_scopes catalog (j ∷ js) scopes = do
  guard (has_table catalog j.right_table.table_name)
      (quoted (codes "Unknown table") j.right_table.table_name)
  t ← get_table catalog j.right_table.table_name
  add_scopes catalog js (insert j.right_table.alias t scopes)

-- the loop over the scopes for a bare name, with the column found so far
unfoldable pub resolve_bare : Str → Dict TableSchema → Option ColumnSchema → Result ColumnSchema
unfolding has_column column
resolve_bare ref [] none = err (quoted (codes "Unknown column") ref)
resolve_bare ref [] (some c) = ok c
resolve_bare ref ((_, t) ∷ scopes) found =
    let skipped = resolve_bare ref scopes found in
    let taken = (do
      guard (not (is_found found)) (quoted (codes "Ambiguous column") ref)
      c ← column t ref
      resolve_bare ref scopes (some c)) in
    if has_column t ref then taken else skipped

-- the lambda `resolve` of `analyze`
unfoldable pub resolve : Dict TableSchema → Str → Result ColumnSchema
unfolding lookup resolve_bare split_dot
resolve scopes ref = elim (split_dot ref) [
  | none ↦ resolve_bare ref scopes none
  | some (alias, name) ↦ elim (lookup alias scopes) [
    | none ↦ err (quoted (codes "Unknown qualified column") ref)
    | some t ↦ do
      guard (has_column t name) (quoted (codes "Unknown qualified column") ref)
      column t name
  ]
]

unfoldable pub resolve_all : Dict TableSchema → List Str → Result (Unit {0})
unfolding resolve
resolve_all scopes [] = ok tt
resolve_all scopes (c ∷ cs) = do discard (resolve scopes c); resolve_all scopes cs

unfoldable pub resolve_order : Dict TableSchema → List OrderByColumn → Result (Unit {0})
unfolding resolve
resolve_order scopes [] = ok tt
resolve_order scopes (o ∷ os) = do discard (resolve scopes o.column_name); resolve_order scopes os

-- the loop over the joins for a bare column: is it a column of one of their tables?
unfoldable pub joins_have : Catalog → List JoinClause → Str → Bool → Result Bool
unfolding get_table has_column
joins_have catalog [] n found = ok found
joins_have catalog (j ∷ js) n found = do
  t ← get_table catalog j.right_table.table_name
  joins_have catalog js n (has_column t n || found)

-- the case `ColumnRef` of `validateExpr`
unfoldable pub validate_column : Catalog → SelectStatement → Str → Result (Unit {0})
unfolding joins_have split_dot
validate_column catalog stmt n = elim (split_dot n) [
  | some _ ↦ ok tt
  | none ↦ do
    t ← get_table catalog stmt.table_name
    found ← joins_have catalog stmt.joins n (has_column t n)
    guard found (quoted (codes "Unknown column") n)
]

-- `SemanticAnalyzer::validateExpr`
unfoldable pub validate_expr : Catalog → SelectStatement → AstExpr → Result (Unit {0})
unfolding validate_column validate_comparison
validate_expr catalog stmt (column_ref n) = validate_column catalog stmt n
validate_expr catalog stmt (int_literal _) = ok tt
validate_expr catalog stmt (string_literal _) = ok tt
validate_expr catalog stmt (comparison op l r) = validate_comparison catalog stmt op l r
validate_expr catalog stmt (connective _ l r) = do
  validate_expr catalog stmt l
  validate_expr catalog stmt r
validate_expr catalog stmt (not_expr l) = validate_expr catalog stmt l

abbrev pub validate_where : Catalog → SelectStatement → Option AstExpr → Result (Unit {0})
validate_where catalog stmt none = ok tt
validate_where catalog stmt (some e) = validate_expr catalog stmt e

-- `join.condition` is an equality of two columns
abbrev pub join_columns : AstExpr → Result (Str × Str)
join_columns (comparison equal (column_ref l) (column_ref r)) = ok (l, r)
join_columns _ = err (semantic_error (codes "JOIN currently requires column equality in ON"))

unfoldable pub validate_joins : Dict TableSchema → List JoinClause → Result (Unit {0})
unfolding resolve split_dot
validate_joins scopes [] = ok tt
validate_joins scopes (j ∷ js) = do
  names ← join_columns j.condition
  left ← resolve scopes names.0
  right ← resolve scopes names.1
  guard (type_eq left.type right.type)
      (semantic_error (codes "JOIN columns must have compatible types"))
  guard (is_found (split_dot names.0) && is_found (split_dot names.1))
      (semantic_error (codes "JOIN columns must be qualified"))
  validate_joins scopes js

-- `if (stmt.limitCount < -1) throw ...;`
unfoldable pub check_limit : SelectStatement → Result (Unit {0})
check_limit stmt =
    guard (not (ltb_ℤ stmt.limit_count (negsuc 0)))
      (semantic_error (codes "LIMIT value must be non-negative"))

-- `stmt.tableAlias.empty() ? stmt.tableName : stmt.tableAlias`
abbrev pub scope_name : SelectStatement → Str
scope_name stmt = if is_empty_name stmt.table_alias then stmt.table_name else stmt.table_alias

-- `SemanticAnalyzer::analyze`
unfoldable pub analyze : Catalog → SelectStatement → Result TableSchema
unfolding add_scopes resolve_all validate_expr validate_joins resolve_order check_limit
analyze catalog stmt = do
  guard (not (is_empty_name stmt.table_name)) (semantic_error (codes "No table specified"))
  guard (has_table catalog stmt.table_name) (quoted (codes "Unknown table") stmt.table_name)
  schema ← get_table catalog stmt.table_name
  scopes ← add_scopes catalog stmt.joins (insert (scope_name stmt) schema [])
  resolve_all scopes stmt.projections
  validate_where catalog stmt stmt.where_clause
  validate_joins scopes stmt.joins
  resolve_order scopes stmt.order_by_columns
  check_limit stmt
  ok schema
