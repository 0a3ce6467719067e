-- ===== src/Parser/Statement.antt =====
-- A statement that `SelectStatement::toSQL` writes is parsed as that statement.
use hega_proto.Base.{
  ℕ, ◌+◌, ◌*◌, ◌≤◌, ◌≡◌, refl, ap, ◌∙◌, not, [], ◌∷◌, ◌++◌, All, arith, length, length-append, Str,
  codes, str_eq, if◌then◌else◌,
}
use hega_proto.Base.Outcome.{Result, ok, ◌>>=◌, ◌>>◌}
use hega_proto.Ast.{TableRef, SelectStatement}
use hega_proto.Ast.Print.{
  projection_sql, alias_sql, joins_sql, where_sql, order_sql, limit_sql, statement_sql,
}
use hega_proto.Parser.{
  parse_where, parse_order, parse_limit, parse_select, check_end, parse, join_loop, parse_table_ref,
  parse_projection_list,
}
use hega_proto.Parser.Lexer.{skip_ws, starts_with, tail}
use hega_proto.Parser.Words.{Reads, Reads-bind, IsName, IsColumn}
use hega_proto.Parser.Ends.{ended}
use hega_proto.Parser.Clauses.{
  limit_sql-LimitRest, order_sql-OrderRest, where_sql-WhereRest, joins_sql-JoinRest,
  JoinRest-TableEnds,
}
use hega_proto.Parser.Names.{
  parse_projection_list-projection_sql, parse_table_ref-alias_sql, space-skip,
}
use hega_proto.Parser.Orders.{IsOrder}
use hega_proto.Parser.Joins.{IsPrintableJoin, expect_keyword-found, join_loop-joins_sql}
use hega_proto.Parser.Later.{
  IsPrintableWhere, IsLimit, parse_where-where_sql, parse_order-order_sql, parse_limit-limit_sql,
}
use hega_proto.Parser.Parts.{
  try_keyword-select, try_keyword-from, from-ListEnds, length-projection_sql, length-order_sql,
  order_part, where_part, join_part, from_part, projection_part, statement_sql-parts,
}

abbrev pub IsPrintableStatement : SelectStatement → Type 0
IsPrintableStatement s =
    All IsColumn s.projections
    × (IsName s.table_name
        × (IsName s.table_alias
            × (All IsPrintableJoin s.joins
                × (IsPrintableWhere s.where_clause
                    × (All IsOrder s.order_by_columns × IsLimit s.limit_count)))))

module _ (size : ℕ) where
  clauses-read :
      (f : ℕ) (st : SelectStatement) (s : Str)
      → skip_ws s ≡ skip_ws (where_part st)
      → IsPrintableStatement st
      → 8 * length (where_part st) + 5 ≤ f
      → Reads
          (do
            (clause, r) ← parse_where size f s
            (order, t) ← parse_order size f r
            (limit, u) ← parse_limit size t
            ok (
              record {
                projections = st.projections;
                table_name = st.table_name;
                table_alias = st.table_alias;
                joins = st.joins;
                where_clause = clause;
                order_by_columns = order;
                limit_count = limit;
              },
              u,
            ))
          st
          []
  clauses-read f st s e (ps, (name, (alias, (js, (w, (cs, limit)))))) enough =
      let l = limit_sql st.limit_count in
      let order = limit_sql-LimitRest st.limit_count in
      let total = length-append (where_sql st.where_clause) (order_part st) in
      let total' = length-append (order_sql st.order_by_columns) l in
      Reads-bind (parse_where size f s) _ st.where_clause st (order_part st) []
        (parse_where-where_sql size f s st.where_clause (order_part st) e w
          (order_sql-OrderRest st.order_by_columns l order) (omega arith))
        λ r same.
          Reads-bind (parse_order size f r) _ st.order_by_columns st l []
            (parse_order-order_sql size f r st.order_by_columns l same cs order
              (omega (arith, length-order_sql st.order_by_columns)))
            λ t same'.
              Reads-bind (parse_limit size t) _ st.limit_count st [] []
                (parse_limit-limit_sql size t st.limit_count same' limit)
                λ u same''. (u, (refl, same''))

  parse_select-parts :
      (f : ℕ) (st : SelectStatement)
      → IsPrintableStatement st
      → 8 * length (projection_part st) + 8 ≤ f
      → Reads (parse_select size f (codes "SELECT " ++ projection_part st)) st []
  unfolding parse_select
  parse_select-parts f st h enough =
      let (ps, (name, (alias, (js, others)))) = h in
      let l = limit_sql st.limit_count in
      let behind =
        where_sql-WhereRest st.where_clause (order_part st)
          (order_sql-OrderRest st.order_by_columns l (limit_sql-LimitRest st.limit_count)) in
      let table : TableRef = record { table_name = st.table_name; alias = st.table_alias } in
      let p = projection_part st in
      let t = from_part st in
      let total = length-append (projection_sql st.projections) (codes " FROM " ++ t) in
      let total' = length-append (codes " FROM ") t in
      let total'' =
        length-append st.table_name
          (alias_sql (not (str_eq st.table_alias st.table_name)) st.table_alias ++ join_part st) in
      let total3 =
        length-append (alias_sql (not (str_eq st.table_alias st.table_name)) st.table_alias)
          (join_part st) in
      let total4 = length-append (joins_sql st.joins) (where_part st) in
      rw
        (expect_keyword-found size (codes "SELECT") (codes "SELECT " ++ p) (codes "SELECT " ++ p)
          (b' ' ∷ p) refl (try_keyword-select p))
        (Reads-bind (parse_projection_list size f (b' ' ∷ p)) _ st.projections st
          (codes " FROM " ++ t) []
          (parse_projection_list-projection_sql size f (b' ' ∷ p) st.projections
            (codes " FROM " ++ t) (space-skip p) ps (from-ListEnds t)
            (omega (arith, length-projection_sql st.projections)))
          λ b same.
            rw
              (expect_keyword-found size (codes "FROM") b (codes " FROM " ++ t) (b' ' ∷ t) same
                (try_keyword-from t))
              (Reads-bind (parse_table_ref size (b' ' ∷ t)) _ table st (join_part st) []
                (parse_table_ref-alias_sql size (b' ' ∷ t) st.table_name st.table_alias
                  (join_part st) (space-skip t) name alias
                  (JoinRest-TableEnds size (join_part st)
                    (joins_sql-JoinRest st.joins (where_part st) behind)))
                λ d same'.
                  Reads-bind (join_loop size f [] d) _ st.joins st (where_part st) []
                    (join_loop-joins_sql size f [] st.joins d (where_part st) same' js behind
                      (omega arith))
                    λ e same''. clauses-read f st e same'' h (omega arith)))

check_end-nothing : (size : ℕ) (r : Str) → skip_ws r ≡ [] → check_end size r ≡ ok tt
unfolding check_end skip_ws starts_with
check_end-nothing size r same =
    ap (λ q. ended size (skip_ws (if starts_with b';' q then tail q else q))) same

-- the statement is read, and nothing is left
checked :
    (size : ℕ) (m : Result (SelectStatement × Str)) (st : SelectStatement)
    → Reads m st []
    → (do (stmt, rest) ← m; check_end size rest; ok stmt) ≡ ok st
unfolding skip_ws
checked size m st (r, (e, same)) = rw (e, check_end-nothing size r same) refl

-- The text that `toSQL` writes is parsed as that statement, if its columns are names with at most one
-- dot, its tables and aliases are names, its expressions are single operands, comparisons of columns,
-- 64-bit integers and ASCII texts without quotes, with no column NOT first in them, and formulas over
-- these, and its LIMIT is a 63-bit count or -1.
pub parse-statement_sql :
    (st : SelectStatement) → IsPrintableStatement st → parse (statement_sql st) ≡ ok st
unfolding parse
parse-statement_sql st h =
    let text = statement_sql-parts st (h.1.1.0) in
    let total = length-append (codes "SELECT ") (projection_part st) in
    let size = length (codes "SELECT " ++ projection_part st) in
    ap parse text ∙ checked size _ st (parse_select-parts size (8 * size + 8) st h (omega arith))
