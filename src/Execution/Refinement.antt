-- ===== src/Execution/Refinement.antt =====
-- From the client's statement to the server's mask: the WHERE clause that the client encrypts, the
-- server accepts and evaluates.
use native.Mathlib.Nat.{mod-eq_of_lt}
use hega_proto.Base.{
  ℕ, suc, ◌-◌, ◌^◌, ◌<◌, ◌≡◌, refl, sym, ap, ◌∙◌, Option, ◌⊎◌, inl, inr, Bool-cases, ltb, ltb→lt,
  All, true, false, some, List, [], ◌∷◌, arith, Str, length,
}
use mathlib.Core.Path.{subst}
use hega_proto.Base.Outcome.{ok}
use hega_proto.Ast.{AstExpr, SelectStatement}
use hega_proto.Catalog.{Catalog, TableSchema, ColumnSchema, get_table}
use hega_proto.Engine.{Engine, EngineLaws, bit}
use hega_proto.Planner.{PhysicalPlan, contains}
use hega_proto.Planner.Columns.{columns_of}
use hega_proto.Query.{FheParamsMeta, PredNode, QueryPackage, to_u32}
use hega_proto.Query.Encryptor.{no_output, build_where, result_schema, encrypt_query, copy_plan}
use hega_proto.Query.Encryptor.Represents.{Represents, IsBuilt, node_count, literal_count}
use hega_proto.Query.Encryptor.Builds.{build_predicate}
use hega_proto.Query.Validator.{is_empty, check_predicate, validate_pred_tree}
use hega_proto.Query.Validator.Accepts.{HasPlainColumns, validate_pred_tree-Represents}
use hega_proto.Sql.{Row, holds, IsPredicate}
use hega_proto.Execution.Predicate.{build_expression}
use hega_proto.Execution.Stored.{IsStored, IsPlainClause, values_of}
use hega_proto.Execution.Meaning.{predicate-Yields}

-- What the server makes of the predicate of a package: the root is the last node.
abbrev pub root_of : QueryPackage → ℕ
root_of pkg = to_u32 (length pkg.predicate_nodes - 1)

is_empty-suc : (ns : List PredNode) (k : ℕ) → length ns ≡ suc k → is_empty ns ≡ false
is_empty-suc [] k h = absurd (omega (arith, h))
is_empty-suc (n ∷ ns) k h = refl

check_predicate-root :
    (fuel : ℕ) (catalog : Catalog) (pkg : QueryPackage) (schema : TableSchema) (k : ℕ)
    → length pkg.predicate_nodes ≡ suc k
    → check_predicate fuel catalog pkg schema
      ≡ validate_pred_tree fuel catalog pkg schema (root_of pkg)
unfolding check_predicate
check_predicate-root fuel catalog pkg schema k h = rw (is_empty-suc pkg.predicate_nodes k h) refl

-- The clause is a supported predicate, and its nodes and literals have 32-bit indices.
pub record IsSupported (e : Engine) (schema : TableSchema) (x : AstExpr) : Type 0 where
  pub predicate : IsPredicate schema x
  pub nodes_fit : node_count e schema x < 2 ^ 32
  pub literals_fit : literal_count e schema x < 2 ^ 32

module _ (e : Engine) (stmt : SelectStatement) (plan : PhysicalPlan) (catalog : Catalog)
    (meta : FheParamsMeta) (schema : TableSchema) (x : AstExpr) (columns : List ColumnSchema)
    (clause : stmt.where_clause ≡ some x) (table : get_table catalog plan.table_name ≡ ok schema)
    (resolved : result_schema e catalog plan plan.project_columns ≡ ok columns)
    (supported : IsSupported e schema x) where
  built : IsBuilt e schema x no_output
  built =
      build_predicate e schema x no_output supported.predicate (record { next = refl; ids = tt })
        (omega (arith, supported.nodes_fit), omega (arith, supported.literals_fit))

  abbrev sent : QueryPackage
  sent = record (copy_plan e plan meta) {
    result_schema = columns;
    predicate_nodes = built.output.nodes;
    encrypted_literals = built.output.literals;
  }

  encrypt_query-sent : encrypt_query e stmt plan catalog meta ≡ ok sent
  unfolding encrypt_query
  encrypt_query-sent = rw resolved (rw (clause, build_where) (rw table (rw built.built refl)))

  root-sent : root_of sent ≡ built.index
  root-sent =
      let b = built in
      ap (λ n. to_u32 (n - 1)) b.last
      ∙ subst (λ (n : ℕ). to_u32 n ≡ b.index) (omega arith)
          (mod-eq_of_lt (omega (arith, b.last, b.node_total, supported.nodes_fit)))

  root_lt : root_of sent < length sent.predicate_nodes
  root_lt = let b = built in omega (arith, root-sent, b.last)

  -- If the plan's table is in the catalog and its projected columns are resolved, encryption of a
  -- statement with a supported WHERE clause, whose columns are written without an alias, are numeric
  -- where they are compared as numbers, and are scanned, succeeds; and the server rebuilds from the
  -- package's nodes and encrypted literals, with the number of nodes for fuel, an expression. Either
  -- its depth is beyond that of the parameter set, or on every batch that holds a row in the scanned
  -- columns it evaluates to 1 if the row satisfies the clause in plaintext, and to 0 if it does not.
  pub encrypted_where_correct :
      (laws : EngineLaws e) (scan : List Str)
      → IsPlainClause schema x
      → All (λ c. contains c scan ≡ true) (columns_of x)
      → (row : Row) (batch : Str → Option ℕ) → IsStored e schema scan row batch
      → (pkg : QueryPackage) × (encrypt_query e stmt plan catalog meta ≡ ok pkg)
        × (mask : e.Expression) × (build_expression e (length pkg.predicate_nodes) pkg (root_of pkg)
            ≡ ok mask)
        × ((e.max_depth < e.depth mask) ⊎ (e.evaluate batch mask ≡ some (bit (holds row x))))
  encrypted_where_correct laws scan plain scanned row batch stored =
      let b = built in
      let yields =
        predicate-Yields e laws schema scan row batch stored sent b.numbered.ids
          (length sent.predicate_nodes) supported.predicate plain scanned
          (subst (λ i. Represents e schema sent.predicate_nodes sent.encrypted_literals i x)
            (sym root-sent) b.represents)
          root_lt in
      let mask = yields.expression in
      let within : (e.max_depth < e.depth mask)
          ⊎ (e.evaluate batch mask ≡ some (bit (holds row x))) =
        elim (Bool-cases (ltb e.max_depth (e.depth mask))) [
          | inl deep ↦ inl (ltb→lt e.max_depth (e.depth mask) deep)
          | inr shallow ↦ inr (
              laws.evaluate-value batch (values_of batch) mask yields.reads
                (ground (arith, shallow))
              ∙ ap some yields.value)
        ] in
      (sent, encrypt_query-sent, mask, yields.rebuilt, within)

  -- If the plan has no JOIN, its table is in the catalog, its projected columns are resolved, its
  -- WHERE clause is supported, with fewer than 2^32 nodes and literals, and every column of the clause
  -- is written without an alias and is a column of the table, encryption succeeds; and the validator's
  -- walk over the predicate of the package ends, with the number of nodes for fuel, and finds nothing
  -- wrong.
  pub encrypted_where_validates :
      (laws : EngineLaws e)
      → plan.has_join ≡ false
      → HasPlainColumns schema x
      → (pkg : QueryPackage) × (encrypt_query e stmt plan catalog meta ≡ ok pkg)
        × (check_predicate (length pkg.predicate_nodes) catalog pkg schema ≡ ok tt)
  encrypted_where_validates laws no_join plain =
      let b = built in
      (
        sent,
        encrypt_query-sent,
        check_predicate-root (length sent.predicate_nodes) catalog sent schema b.index b.last
            ∙ validate_pred_tree-Represents e laws catalog schema sent b.numbered.ids no_join
                (omega (arith, b.node_total, supported.nodes_fit)) (length sent.predicate_nodes)
                plain
                (subst (λ i. Represents e schema sent.predicate_nodes sent.encrypted_literals i x)
                  (sym root-sent) b.represents)
                root_lt,
      )
