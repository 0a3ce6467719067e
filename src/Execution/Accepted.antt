-- ===== src/Execution/Accepted.antt =====
-- From the analyzer to the server's mask: a statement without JOIN that the analyzer accepts.
use mathlib.Core.Path.{subst}
use hega_proto.Base.{
  ℕ, ◌^◌, ◌<◌, ◌≡◌, refl, sym, ap, ◌∙◌, false, some, [], ◌∷◌, Str, length, All, true, Option, ◌⊎◌,
  bare_name,
}
use hega_proto.Base.Dict.{insert}
use hega_proto.Base.Outcome.{ok, ◌>>=◌, ok_inj}
use hega_proto.Ast.{AstExpr, SelectStatement}
use hega_proto.Catalog.{Catalog, TableSchema, get_table}
use hega_proto.Planner.{
  PhysicalPlan, add_order_columns, projection_or_all, join_fields, no_join, logical_plan, contains,
  physical_plan,
}
use hega_proto.Planner.Plans.{plan-IsPlanOf, where_columns, All-self}
use hega_proto.Planner.Columns.{columns_of}
use hega_proto.Query.{QueryPackage, FheParamsMeta}
use hega_proto.Query.Encryptor.Represents.{node_count, literal_count}
use hega_proto.Sql.{Row, holds}
use hega_proto.Query.Encryptor.{encrypt_query}
use hega_proto.Query.Validator.Refuses.{IsDotless}
use hega_proto.Engine.{Engine, EngineLaws, bit}
use hega_proto.Execution.Predicate.{build_expression}
use hega_proto.Execution.Stored.{IsStored, IsPlainClause}
use hega_proto.Execution.Refinement.{root_of, IsSupported, encrypted_where_correct}
use hega_proto.Semantic.Accepts.{
  IsAccepted, analyze-IsAccepted, analyze-IsPredicate, IsCondition, HasBoundedLiterals,
  HasNarrowColumns,
}
use hega_proto.Semantic.{analyze, add_scopes, resolve_all, resolve_order}
use hega_proto.Semantic.Throws.{is_empty_name}
use hega_proto.Execution.OwnColumns.{
  IsOwnColumn, result_schema-IsOwnColumn, resolve_all-IsOwnColumn, resolve_order-IsOwnColumn,
  projection_or_all-IsOwnColumn, All-add_order_columns,
}

one_scope :
    (catalog : Catalog) (stmt : SelectStatement) (schema : TableSchema)
    → (accepted : IsAccepted catalog stmt schema) → stmt.joins ≡ []
    → is_empty_name stmt.table_alias ≡ false
    → accepted.scopes ≡ (stmt.table_alias, schema) ∷ []
unfolding add_scopes insert
one_scope catalog stmt schema accepted single named =
    let scoped = rw (single, add_scopes, named) at accepted.scoped in sym (ok_inj scoped)

-- The bounds that the analyzer does not check: the clause has comparisons for leaves, integers in
-- [0, 128], ASCII texts, and fewer than 2^32 nodes and literals, and its columns are written without
-- an alias and are numeric where they are compared as numbers; the widths of the columns fit 32 bits
-- and their names have no dot.
pub record IsBounded (e : Engine) (schema : TableSchema) (x : AstExpr) : Type 0 where
  pub condition : IsCondition x
  pub plain : IsPlainClause schema x
  pub literals : HasBoundedLiterals x
  pub narrow : HasNarrowColumns schema
  pub dotless : IsDotless schema
  pub nodes_fit : node_count e schema x < 2 ^ 32
  pub literals_fit : literal_count e schema x < 2 ^ 32

-- A statement without JOIN that the analyzer accepts is planned and encrypted without an exception,
-- if its table has an alias, as the parser always gives it one, and its clause keeps the bounds; the
-- plan scans the clause's columns; and the server rebuilds an expression from the package. Either its
-- depth is beyond that of the parameter set, or on every batch that holds a row in the clause's
-- columns it evaluates to 1 if the row satisfies the clause in plaintext, and to 0 if it does not.
pub accepted_statement_correct :
    (e : Engine) (catalog : Catalog) (stmt : SelectStatement) (schema : TableSchema) (x : AstExpr)
    (meta : FheParamsMeta)
    → EngineLaws e
    → analyze catalog stmt ≡ ok schema
    → stmt.joins ≡ []
    → is_empty_name stmt.table_alias ≡ false
    → stmt.where_clause ≡ some x
    → IsBounded e schema x
    → (row : Row) (batch : Str → Option ℕ) → IsStored e schema (columns_of x) row batch
    → (plan : PhysicalPlan) × ((logical_plan stmt schema >>= physical_plan) ≡ ok plan)
      × All (λ c. contains (bare_name c) plan.scan_columns ≡ true) (columns_of x)
      × (pkg : QueryPackage) × (encrypt_query e stmt plan catalog meta ≡ ok pkg)
      × (mask : e.Expression) × (build_expression e (length pkg.predicate_nodes) pkg (root_of pkg)
          ≡ ok mask)
      × ((e.max_depth < e.depth mask) ⊎ (e.evaluate batch mask ≡ some (bit (holds row x))))
unfolding join_fields
accepted_statement_correct e catalog stmt schema x meta laws analyzed single named clause bounded
      row batch stored =
    let accepted = analyze-IsAccepted catalog stmt schema analyzed in
    let (table, predicate) =
      analyze-IsPredicate catalog stmt schema x analyzed single clause bounded.narrow
        bounded.condition bounded.literals in
    let (plan, planned, is_plan) = plan-IsPlanOf stmt schema no_join (rw single refl) in
    let scope = one_scope catalog stmt schema accepted single named in
    let own =
      projection_or_all-IsOwnColumn schema stmt.table_alias stmt.projections bounded.dotless (
        resolve_all-IsOwnColumn schema stmt.table_alias stmt.projections
          (ap (λ s. resolve_all s stmt.projections) (sym scope) ∙ accepted.projections)) in
    let sorted =
      resolve_order-IsOwnColumn schema stmt.table_alias stmt.order_by_columns
        (ap (λ s. resolve_order s stmt.order_by_columns) (sym scope) ∙ accepted.order) in
    let all =
      All-add_order_columns (IsOwnColumn schema stmt.table_alias)
        (projection_or_all stmt.projections schema) stmt.order_by_columns own sorted in
    let table' = ap (get_table catalog) is_plan.table ∙ table in
    let (columns, resolved) =
      result_schema-IsOwnColumn e catalog plan schema plan.project_columns table' (
        subst (λ cs. All (IsOwnColumn schema plan.table_alias) cs) (sym is_plan.columns)
          (subst
            (λ a.
              All (IsOwnColumn schema a) (
                add_order_columns (projection_or_all stmt.projections schema)
                  stmt.order_by_columns))
            (sym is_plan.alias) all)) in
    let supported : IsSupported e schema x = record {
      predicate = predicate;
      nodes_fit = bounded.nodes_fit;
      literals_fit = bounded.literals_fit;
    } in
    let scanned =
      subst (λ w. All (λ c. contains (bare_name c) plan.scan_columns ≡ true) (where_columns w))
        clause is_plan.predicate_columns in
    let (pkg, encrypted, mask, rebuilt, value) =
      encrypted_where_correct e stmt plan catalog meta schema x columns clause table' resolved
        supported laws (columns_of x) bounded.plain
        (All-self (columns_of x) (columns_of x) (λ c h. h)) row batch stored in
    (plan, planned, scanned, pkg, encrypted, mask, rebuilt, value)
