-- ===== src/Planner/Plans.antt =====
-- The two planners in sequence: a plan for every statement whose JOIN, if there is one, is on an
-- equality.
use hega_proto.Base.{
  ◌≡◌, refl, ◌⊎◌, inl, inr, Bool, true, false, Option, none, some, List, [], ◌∷◌, ◌++◌, Str, str_eq,
  str_eq_refl, bare_name, All, if◌then◌else◌, Bool-cases,
}
use hega_proto.Base.Outcome.{ok, ◌>>=◌}
use hega_proto.Ast.{
  AstExpr, column_ref, int_literal, string_literal, comparison, connective, not_expr,
  SelectStatement,
}
use hega_proto.Catalog.{TableSchema}
use hega_proto.Planner.{
  JoinFields, PhysicalPlan, join_fields, contains, add_missing, add_order_columns, collect_columns,
  is_joined_column, add_projected, projection_or_all, filtered, logical_plan, physical_plan,
  physical,
}
use hega_proto.Planner.Columns.{
  contains-add_missing, contains-add_missing_self, contains-collect_columns,
  contains-add_order_columns, add_order_columns-All, columns_of, IsDistinct,
  collect_columns-IsDistinct, add_projected-IsDistinct,
}

abbrev pub Holds : List Str → Str → Type 0
Holds xs c = contains c xs ≡ true

contains-add_projected :
    (join : JoinFields) (c : Str) (xs cs : List Str)
    → Holds xs c
    → Holds (add_projected join xs cs) c
unfolding add_projected
contains-add_projected join c xs [] h = h
contains-add_projected join c xs (d ∷ cs) h = elim (Bool-cases (is_joined_column join d)) [
  | inl joined ↦ rw joined (contains-add_projected join c xs cs h)
  | inr own ↦ rw own (
      contains-add_projected join c (add_missing xs (bare_name d)) cs
        (contains-add_missing c (bare_name d) xs h))
]

-- A projected column is the joined table's, or it is scanned.
abbrev pub IsScanned : JoinFields → List Str → Str → Type 0
IsScanned join scanned c = (is_joined_column join c ≡ true) ⊎ Holds scanned (bare_name c)

add_projected-All :
    (join : JoinFields) (xs cs scanned : List Str)
    → ((d : Str) → Holds (add_projected join xs cs) d → Holds scanned d)
    → All (IsScanned join scanned) cs
unfolding add_projected
add_projected-All join xs [] scanned f = tt
add_projected-All join xs (c ∷ cs) scanned f = (
  by_test (is_joined_column join c) refl,
  add_projected-All join (if is_joined_column join c then xs else add_missing xs (bare_name c)) cs
      scanned f,
)
  where
    by_test : (b : Bool) → is_joined_column join c ≡ b → IsScanned join scanned c
    by_test true e = inl e
    by_test false e = inr (
        f (bare_name c) (
          rw e (
            contains-add_projected join (bare_name c) (add_missing xs (bare_name c)) cs
              (contains-add_missing_self (bare_name c) xs))))

module _ (P Q : Str → Type 0) (f : (c : Str) → P c → Q c) where
  All-map : (cs : List Str) → All P cs → All Q cs
  All-map [] h = tt
  All-map (c ∷ cs) h = (f c h.0, All-map cs h.1)

All-append : (P : Str → Type 0) (xs ys : List Str) → All P xs → All P ys → All P (xs ++ ys)
All-append P [] ys h k = k
All-append P (x ∷ xs) ys h k = (h.0, All-append P xs ys h.1 k)

-- The bare names of the columns that an expression reads are collected.
collect_columns-All :
    (x : AstExpr) (xs : List Str)
    → All (λ c. Holds (collect_columns x xs) (bare_name c)) (columns_of x)
unfolding collect_columns
collect_columns-All (column_ref n) xs = (contains-add_missing_self (bare_name n) xs, tt)
collect_columns-All (comparison _ l r) xs =
    All-append _ (columns_of l) (columns_of r)
      (All-map _ _ (λ c. contains-collect_columns r (bare_name c) (collect_columns l xs))
        (columns_of l) (collect_columns-All l xs))
      (collect_columns-All r (collect_columns l xs))
collect_columns-All (connective _ l r) xs =
    All-append _ (columns_of l) (columns_of r)
      (All-map _ _ (λ c. contains-collect_columns r (bare_name c) (collect_columns l xs))
        (columns_of l) (collect_columns-All l xs))
      (collect_columns-All r (collect_columns l xs))
collect_columns-All (not_expr l) xs = collect_columns-All l xs
collect_columns-All (int_literal v) xs = tt
collect_columns-All (string_literal s) xs = tt

pub All-self : (cs xs : List Str) → ((c : Str) → Holds cs c → Holds xs c) → All (Holds xs) cs
unfolding contains
All-self [] xs f = tt
All-self (c ∷ cs) xs f =
    (f c (rw (str_eq_refl c) refl), All-self cs xs (λ d h. f d (later d (str_eq c d) h)))
  where
    later : (d : Str) (b : Bool) → Holds cs d → (if b then true else contains d cs) ≡ true
    later d true h = refl
    later d false h = h

abbrev pub where_columns : Option AstExpr → List Str
where_columns none = []
where_columns (some x) = columns_of x

-- The columns that the physical planner collects of the WHERE clause, if there is one.
abbrev collected : Option AstExpr → List Str
collected none = []
collected (some x) = collect_columns x []

abbrev has_clause : Option AstExpr → Bool
has_clause none = false
has_clause (some _) = true

collected-All :
    (clause : Option AstExpr)
    → All (λ c. Holds (collected clause) (bare_name c)) (where_columns clause)
collected-All none = tt
collected-All (some x) = collect_columns-All x []

collected-IsDistinct : (clause : Option AstExpr) → IsDistinct (collected clause)
collected-IsDistinct none = tt
collected-IsDistinct (some x) = collect_columns-IsDistinct x [] tt

plan_by_clause :
    (stmt : SelectStatement) (schema : TableSchema) (join : JoinFields)
    → join_fields stmt.joins ≡ ok join
    → (clause : Option AstExpr) → stmt.where_clause ≡ clause
    → (logical_plan stmt schema >>= physical_plan)
      ≡ ok (
          physical
            (add_order_columns (projection_or_all stmt.projections schema) stmt.order_by_columns)
            (has_clause stmt.where_clause)
            (collected stmt.where_clause)
            stmt.table_name
            stmt.table_alias
            join)
unfolding logical_plan physical_plan
plan_by_clause stmt schema join joined none e = rw joined (rw (e, filtered) refl)
plan_by_clause stmt schema join joined (some x) e = rw joined (rw (e, filtered) refl)

-- What a plan of the statement has to give the later stages.
pub record IsPlanOf (stmt : SelectStatement) (schema : TableSchema) (join : JoinFields)
    (plan : PhysicalPlan) : Type 0 where
  pub table : plan.table_name ≡ stmt.table_name
  pub alias : plan.table_alias ≡ stmt.table_alias
  pub has_join : plan.has_join ≡ join.has_join
  pub columns :
      plan.project_columns
      ≡ add_order_columns (projection_or_all stmt.projections schema) stmt.order_by_columns
  pub projections : All (Holds plan.project_columns) (projection_or_all stmt.projections schema)
  pub sort_columns : All (λ o. Holds plan.project_columns o.column_name) stmt.order_by_columns
  pub predicate_columns :
      All (λ c. Holds plan.scan_columns (bare_name c)) (where_columns stmt.where_clause)
  pub projected : All (IsScanned join plan.scan_columns) plan.project_columns
  pub distinct : IsDistinct plan.scan_columns

pub plan-IsPlanOf :
    (stmt : SelectStatement) (schema : TableSchema) (join : JoinFields)
    → join_fields stmt.joins ≡ ok join
    → (plan : PhysicalPlan) × ((logical_plan stmt schema >>= physical_plan) ≡ ok plan)
      × IsPlanOf stmt schema join plan
plan-IsPlanOf stmt schema join joined = (plan_of, planned, is_plan)
  where
    columns : List Str
    columns = add_order_columns (projection_or_all stmt.projections schema) stmt.order_by_columns

    needed : List Str
    needed = collected stmt.where_clause

    plan_of : PhysicalPlan
    plan_of =
        physical columns (has_clause stmt.where_clause) needed stmt.table_name stmt.table_alias join

    planned : (logical_plan stmt schema >>= physical_plan) ≡ ok plan_of
    planned = plan_by_clause stmt schema join joined stmt.where_clause refl

    is_plan : IsPlanOf stmt schema join plan_of
    is_plan = record {
      table = refl;
      alias = refl;
      has_join = refl;
      columns = refl;
      projections = All-self (projection_or_all stmt.projections schema) columns λ c.
          contains-add_order_columns c (projection_or_all stmt.projections schema)
            stmt.order_by_columns;
      sort_columns =
          add_order_columns-All (projection_or_all stmt.projections schema) stmt.order_by_columns;
      predicate_columns =
          All-map (λ c. Holds needed (bare_name c)) (λ c. Holds plan_of.scan_columns (bare_name c))
            (λ c. contains-add_projected join (bare_name c) needed columns)
            (where_columns stmt.where_clause) (collected-All stmt.where_clause);
      projected = add_projected-All join needed columns plan_of.scan_columns (λ d h. h);
      distinct =
          add_projected-IsDistinct join needed columns (collected-IsDistinct stmt.where_clause);
    }
