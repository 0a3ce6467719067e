-- ===== src/Ast/Print.antt =====
-- ast/ast.cpp: expressions, for messages, and statements as SQL text.
use hega_proto.Base.{
  Bool, not, ◌&&◌, Option, none, some, List, [], ◌∷◌, ◌++◌, Str, codes, str_eq, if◌then◌else◌,
}
use hega_proto.Base.Int.{ℤ, pos, ltb_ℤ, int_to_string}
use hega_proto.Ast.{
  Comparison, equal, not_equal, greater_than, less_than, greater_equal, less_equal, Connective,
  and_, or_, AstExpr, column_ref, int_literal, string_literal, comparison, connective, not_expr,
  SortDirection, ascending, descending, OrderByColumn, JoinClause, SelectStatement,
}

-- `opStr`
abbrev pub comparison_str : Comparison → Str
comparison_str equal = codes " = "
comparison_str not_equal = codes " != "
comparison_str greater_than = codes " > "
comparison_str less_than = codes " < "
comparison_str greater_equal = codes " >= "
comparison_str less_equal = codes " <= "

abbrev pub connective_str : Connective → Str
connective_str and_ = codes " AND "
connective_str or_ = codes " OR "

-- `ASTExpr::toSQL`
unfoldable pub to_sql : AstExpr → Str
to_sql (column_ref n) = n
to_sql (int_literal v) = int_to_string v
to_sql (string_literal s) = codes "'" ++ s ++ codes "'"
to_sql (not_expr l) = codes "NOT(" ++ to_sql l ++ codes ")"
to_sql (comparison op l r) = to_sql l ++ comparison_str op ++ to_sql r
to_sql (connective op l r) = codes "(" ++ to_sql l ++ connective_str op ++ to_sql r ++ codes ")"

-- the names behind the first one, each behind a comma
abbrev pub more_names : List Str → Str
more_names [] = []
more_names (n ∷ ns) = codes ", " ++ (n ++ more_names ns)

abbrev pub projection_sql : List Str → Str
projection_sql [] = codes "*"
projection_sql (n ∷ ns) = n ++ more_names ns

-- `" AS " + alias`, where the test says so
abbrev pub alias_sql : Bool → Str → Str
alias_sql named alias = if named then codes " AS " ++ alias else []

unfoldable pub join_sql : JoinClause → Str
unfolding to_sql str_eq
join_sql j =
    codes " JOIN "
    ++ (j.right_table.table_name
        ++ (alias_sql (not (str_eq j.right_table.alias j.right_table.table_name))
              j.right_table.alias
            ++ (codes " ON " ++ to_sql j.condition)))

abbrev pub joins_sql : List JoinClause → Str
joins_sql [] = []
joins_sql (j ∷ js) = join_sql j ++ joins_sql js

unfoldable pub where_sql : Option AstExpr → Str
unfolding to_sql
where_sql none = []
where_sql (some e) = codes " WHERE " ++ to_sql e

abbrev pub direction_sql : SortDirection → Str
direction_sql ascending = []
direction_sql descending = codes " DESC"

abbrev pub more_orders : List OrderByColumn → Str
more_orders [] = []
more_orders (c ∷ cs) =
    codes ", " ++ (c.column_name ++ (direction_sql c.direction ++ more_orders cs))

abbrev pub order_sql : List OrderByColumn → Str
order_sql [] = []
order_sql (c ∷ cs) =
    codes " ORDER BY " ++ (c.column_name ++ (direction_sql c.direction ++ more_orders cs))

unfoldable pub limit_sql : ℤ → Str
unfolding int_to_string
limit_sql n = if not (ltb_ℤ n (pos 0)) then codes " LIMIT " ++ int_to_string n else []

-- `SelectStatement::toSQL`
unfoldable pub statement_sql : SelectStatement → Str
unfolding join_sql where_sql limit_sql str_eq
statement_sql s =
    codes "SELECT "
    ++ (projection_sql s.projections
        ++ (codes " FROM "
            ++ (s.table_name
                ++ (alias_sql
                      (not (str_eq s.table_alias []) && not (str_eq s.table_alias s.table_name))
                      s.table_alias
                    ++ (joins_sql s.joins
                        ++ (where_sql s.where_clause
                            ++ (order_sql s.order_by_columns ++ limit_sql s.limit_count)))))))
