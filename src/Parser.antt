-- ===== src/Parser.antt =====
-- parser/parser.cpp and include/proto2/parser.h: the recursive-descent parser of SELECT statements.
pub mod Lexer
pub mod Expr
pub mod Within
pub mod Total
pub mod Lists
pub mod Ends
pub mod Digits
pub mod Words
pub mod Operands
pub mod Steps
pub mod Printable
pub mod RoundTrip
pub mod Clauses
pub mod Names
pub mod Orders
pub mod Joins
pub mod Later
pub mod Parts
pub mod Statement
pub mod Bounds
pub mod Strings
pub mod Aliases
use hega_proto.Base.{
  ℕ, zero, suc, ◌+◌, ◌-◌, ◌*◌, Bool, true, false, not, ◌&&◌, ◌||◌, Option, none, some, List, [],
  ◌∷◌, ◌++◌, Str, codes, str_eq, length, to_string, if◌then◌else◌,
}
use hega_proto.Base.Int.{ℤ, negsuc, pos, ltb_ℤ}
use hega_proto.Base.Outcome.{Result, ok, err, Error, parse_error, exhausted, ◌>>=◌, ◌>>◌, guard}
use hega_proto.Ast.{
  AstExpr, SortDirection, ascending, descending, OrderByColumn, TableRef, JoinClause,
  SelectStatement,
}
use hega_proto.Parser.Lexer.{
  skip_ws, starts_with, tail, try_keyword, consume_ident, consume_qualified, consume_int,
  expect_keyword,
}
use hega_proto.Parser.Expr.{parse_or}

-- a word that `parseTableRef` does not take for an alias; the comparison minds the case
unfoldable pub is_clause_word : Str → Bool
unfolding str_eq
is_clause_word w =
    str_eq w (codes "WHERE")
    || str_eq w (codes "ORDER")
    || str_eq w (codes "LIMIT")
    || str_eq w (codes "JOIN")
    || str_eq w (codes "INNER")
    || str_eq w (codes "ON")

module _ (size : ℕ) where
  -- the `try` block of `parseTableRef`: an alias without AS, else the text as it was
  unfoldable pub bare_alias : Str → Str → TableRef × Str
  unfolding consume_ident is_clause_word
  bare_alias table s = elim (consume_ident size s) [
    | err _ ↦ (record { table_name = table; alias = table }, s)
    | ok (candidate, r) ↦
        if is_clause_word candidate
        then (record { table_name = table; alias = table }, s)
        else (record { table_name = table; alias = candidate }, r)
  ]

  -- `parseTableRef`
  unfoldable pub parse_table_ref : Str → Result (TableRef × Str)
  unfolding bare_alias try_keyword consume_ident
  parse_table_ref s = do
    (table, r) ← consume_ident size s
    let (named, t) = try_keyword (codes "AS") r
    let with_as = (do
      (alias, u) ← consume_ident size t
      ok (record { table_name = table; alias = alias }, u))
    if named then with_as else ok (bare_alias table t)

  -- the loop of `parseProjectionList`, one round for each comma
  unfoldable pub projection_loop : ℕ → List Str → Str → Result (List Str × Str)
  unfolding consume_qualified starts_with skip_ws
  projection_loop zero columns s = err exhausted
  projection_loop (suc fuel) columns s =
      let more = (do
        (c, r) ← consume_qualified size (tail s)
        projection_loop fuel (columns ++ c ∷ []) (skip_ws r)) in
      if starts_with b',' s then more else ok (columns, s)

  -- `parseProjectionList`
  unfoldable pub parse_projection_list : ℕ → Str → Result (List Str × Str)
  unfolding projection_loop
  parse_projection_list fuel s =
      let r = skip_ws s in
      let columns = (do
        (c, t) ← consume_qualified size r
        projection_loop fuel (c ∷ []) (skip_ws t)) in
      if starts_with b'*' r then ok ([], tail r) else columns

  -- one column of `parseOrderByList` with its direction, and the spaces behind it
  unfoldable pub parse_order_column : Str → Result (OrderByColumn × Str)
  unfolding consume_qualified try_keyword skip_ws
  parse_order_column s = do
    (c, r) ← consume_qualified size s
    let (down, t) = try_keyword (codes "DESC") r
    let (_, u) = try_keyword (codes "ASC") t
    if down
        then ok (record { column_name = c; direction = descending }, skip_ws t)
        else ok (record { column_name = c; direction = ascending }, skip_ws u)

  unfoldable pub order_loop : ℕ → List OrderByColumn → Str → Result (List OrderByColumn × Str)
  unfolding parse_order_column starts_with
  order_loop zero columns s = err exhausted
  order_loop (suc fuel) columns s =
      let more = (do (c, r) ← parse_order_column (tail s); order_loop fuel (columns ++ c ∷ []) r) in
      if starts_with b',' s then more else ok (columns, s)

  -- `parseOrderByList`
  unfoldable pub parse_order_list : ℕ → Str → Result (List OrderByColumn × Str)
  unfolding order_loop
  parse_order_list fuel s = do (c, r) ← parse_order_column s; order_loop fuel (c ∷ []) r

  -- the loop over the joins: an INNER is passed also where no JOIN follows
  unfoldable pub join_loop : ℕ → List JoinClause → Str → Result (List JoinClause × Str)
  unfolding try_keyword parse_table_ref expect_keyword parse_or
  join_loop zero joins s = err exhausted
  join_loop (suc fuel) joins s =
      let (_, r) = try_keyword (codes "INNER") s in
      let (found, t) = try_keyword (codes "JOIN") r in
      let more = (do
        (table, u) ← parse_table_ref t
        v ← expect_keyword size (codes "ON") u
        (condition, w) ← parse_or size fuel v
        join_loop fuel (joins ++ record { right_table = table; condition = condition } ∷ []) w) in
      if found then more else ok (joins, t)

  unfoldable pub parse_where : ℕ → Str → Result (Option AstExpr × Str)
  unfolding try_keyword parse_or
  parse_where fuel s =
      let (found, r) = try_keyword (codes "WHERE") s in
      let clause = (do (e, t) ← parse_or size fuel r; ok (some e, t)) in
      if found then clause else ok (none, r)

  unfoldable pub parse_order : ℕ → Str → Result (List OrderByColumn × Str)
  unfolding try_keyword expect_keyword parse_order_list
  parse_order fuel s =
      let (found, r) = try_keyword (codes "ORDER") s in
      let clause = (do t ← expect_keyword size (codes "BY") r; parse_order_list fuel t) in
      if found then clause else ok ([], r)

  unfoldable pub parse_limit : Str → Result (ℤ × Str)
  unfolding try_keyword consume_int
  parse_limit s =
      let (found, r) = try_keyword (codes "LIMIT") s in
      let clause = (do
        (n, t) ← consume_int size r
        guard (not (ltb_ℤ n (pos 0))) (parse_error (codes "LIMIT value must be non-negative"))
        ok (n, t)) in
      if found then clause else ok (negsuc 0, r)

  -- `parseSelect`
  unfoldable pub parse_select : ℕ → Str → Result (SelectStatement × Str)
  unfolding expect_keyword parse_projection_list parse_table_ref join_loop parse_where parse_order
      parse_limit
  parse_select fuel s = do
    a ← expect_keyword size (codes "SELECT") s
    (projections, b) ← parse_projection_list fuel a
    c ← expect_keyword size (codes "FROM") b
    (from, d) ← parse_table_ref c
    (joins, e) ← join_loop fuel [] d
    (where_clause, f) ← parse_where fuel e
    (order, g) ← parse_order fuel f
    (limit, h) ← parse_limit g
    ok (
      record {
        projections = projections;
        table_name = from.table_name;
        table_alias = from.alias;
        joins = joins;
        where_clause = where_clause;
        order_by_columns = order;
        limit_count = limit;
      },
      h,
    )

  -- the end of `parse`: spaces, a semicolon, spaces, and nothing else
  unfoldable pub check_end : Str → Result (Unit {0})
  unfolding skip_ws starts_with
  check_end s =
      let r = skip_ws s in
      elim (skip_ws (if starts_with b';' r then tail r else r)) [
        | [] ↦ ok tt
        | c ∷ cs ↦ err (
            parse_error (
              codes "Unexpected token at position "
              ++ (to_string (size - length (c ∷ cs)) ++ (codes ": '" ++ (c ∷ codes "'")))))
      ]

-- `SQLParser::parse`, with fuel for a depth of eight calls for each character
unfoldable pub parse : Str → Result SelectStatement
unfolding parse_select check_end
parse sql = do
  (stmt, rest) ← parse_select (length sql) (8 * length sql + 8) sql
  check_end (length sql) rest
  ok stmt
