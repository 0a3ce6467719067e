-- ===== src/Planner.antt =====
-- include/proto2/planner.h and planner/planner.cpp: the logical and the physical plan.
-- `LogicalNode` is one struct with a kind tag; each kind is a constructor with the fields it uses,
-- and a null child cannot be built, since `LogicalPlanner::plan` never leaves one.
pub mod Columns
pub mod Plans
use hega_proto.Base.{
  Bool, true, false, not, ◌&&◌, Option, none, some, List, [], ◌∷◌, ◌++◌, map, Str, codes, str_eq,
  split_dot, bare_name, if◌then◌else◌,
}
use hega_proto.Base.Outcome.{Result, ok, err, runtime_error, ◌>>=◌}
use hega_proto.Ast.{
  AstExpr, column_ref, int_literal, string_literal, comparison, connective, not_expr, equal,
  OrderByColumn, JoinClause, SelectStatement,
}
use hega_proto.Catalog.{TableSchema}

-- The join fields of a scan node; `has_join` is false where the others are empty.
pub record JoinFields : Type 0 where
  pub has_join : Bool
  pub joined_table_name : Str
  pub joined_table_alias : Str
  pub join_left_column : Str
  pub join_right_column : Str

pub data LogicalNode : Type 0 where
  scan : Str → Str → JoinFields → LogicalNode
  filter : AstExpr → LogicalNode → LogicalNode
  project : List Str → LogicalNode → LogicalNode

pub record PhysicalPlan : Type 0 where
  pub table_name : Str
  pub table_alias : Str
  pub joined_table_name : Str
  pub joined_table_alias : Str
  pub join_left_column : Str
  pub join_right_column : Str
  pub has_join : Bool
  pub scan_columns : List Str
  pub project_columns : List Str
  pub has_filter : Bool

abbrev pub no_join : JoinFields
no_join = record {
  has_join = false;
  joined_table_name = [];
  joined_table_alias = [];
  join_left_column = [];
  join_right_column = [];
}

-- `e->columnName`, which is empty in a node that is no column reference
abbrev pub column_name_of : AstExpr → Str
column_name_of (column_ref n) = n
column_name_of _ = []

-- the first JOIN of the statement; later ones are not looked at
unfoldable pub join_fields : List JoinClause → Result JoinFields
join_fields [] = ok no_join
join_fields (j ∷ _) = elim j.condition [
  | comparison equal l r ↦ ok (record {
    has_join = true;
    joined_table_name = j.right_table.table_name;
    joined_table_alias = j.right_table.alias;
    join_left_column = column_name_of l;
    join_right_column = column_name_of r;
  })
  | _ ↦ err (runtime_error (codes "Only equality JOINs are supported"))
]

-- `std::find(cols.begin(), cols.end(), c) != cols.end()`
unfoldable pub contains : Str → List Str → Bool
contains c [] = false
contains c (x ∷ xs) = if str_eq x c then true else contains c xs

-- `if (find(...) == end()) cols.push_back(c)`
unfoldable pub add_missing : List Str → Str → List Str
unfolding contains
add_missing cols c = if contains c cols then cols else cols ++ c ∷ []

unfoldable pub add_order_columns : List Str → List OrderByColumn → List Str
unfolding add_missing
add_order_columns cols [] = cols
add_order_columns cols (o ∷ os) = add_order_columns (add_missing cols o.column_name) os

abbrev pub projection_or_all : List Str → TableSchema → List Str
projection_or_all [] schema = map (λ c. c.name) schema.columns
projection_or_all (p ∷ ps) schema = p ∷ ps

abbrev pub filtered : Option AstExpr → LogicalNode → LogicalNode
filtered none node = node
filtered (some e) node = filter e node

-- `LogicalPlanner::plan`
unfoldable pub logical_plan : SelectStatement → TableSchema → Result LogicalNode
unfolding join_fields add_order_columns
logical_plan stmt schema = do
  join ← join_fields stmt.joins
  ok (
      project (add_order_columns (projection_or_all stmt.projections schema) stmt.order_by_columns)
        (filtered stmt.where_clause (scan stmt.table_name stmt.table_alias join)))

-- `collectColumns`: the bare names of the columns that an expression reads, each once
unfoldable pub collect_columns : AstExpr → List Str → List Str
unfolding add_missing bare_name
collect_columns (column_ref n) cols = add_missing cols (bare_name n)
collect_columns (comparison _ l r) cols = collect_columns r (collect_columns l cols)
collect_columns (connective _ l r) cols = collect_columns r (collect_columns l cols)
collect_columns (not_expr l) cols = collect_columns l cols
collect_columns _ cols = cols

-- `pp.hasJoin && dot != npos && c.substr(0, dot) == pp.joinedTableAlias`
unfoldable pub is_joined_column : JoinFields → Str → Bool
unfolding split_dot
is_joined_column join c =
    join.has_join
    && elim (split_dot c) [ none ↦ false | some (alias, _) ↦ str_eq alias join.joined_table_alias ]

unfoldable pub add_projected : JoinFields → List Str → List Str → List Str
unfolding is_joined_column add_missing bare_name
add_projected join scan_columns [] = scan_columns
add_projected join scan_columns (c ∷ cs) =
    add_projected join
      (if is_joined_column join c then scan_columns else add_missing scan_columns (bare_name c)) cs

abbrev pub physical : List Str → Bool → List Str → Str → Str → JoinFields → PhysicalPlan
physical columns has_filter needed table alias join = record {
  table_name = table;
  table_alias = alias;
  joined_table_name = join.joined_table_name;
  joined_table_alias = join.joined_table_alias;
  join_left_column = join.join_left_column;
  join_right_column = join.join_right_column;
  has_join = join.has_join;
  scan_columns = add_projected join needed columns;
  project_columns = columns;
  has_filter = has_filter;
}

-- `PhysicalPlanner::plan`
unfoldable pub physical_plan : LogicalNode → Result PhysicalPlan
unfolding collect_columns add_projected
physical_plan (project columns (scan table alias join)) =
    ok (physical columns false [] table alias join)
physical_plan (project columns (filter e (scan table alias join))) =
    ok (physical columns true (collect_columns e []) table alias join)
physical_plan (project columns _) = err (runtime_error (codes "PhysicalPlanner: expected Scan"))
physical_plan _ = err (runtime_error (codes "PhysicalPlanner: expected Project at root"))
