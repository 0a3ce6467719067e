-- ===== src/Examples/Accepted.antt =====
-- The statement of Where from the analyzer to the mask.
use hega_proto.Base.{
  All, bare_name, true, some, ◌<◌, ◌⊎◌, ◌≡◌, refl, arith, str_eq, split_dot, length,
}
use hega_proto.Base.Dict.{lookup, insert}
use hega_proto.Base.Outcome.{ok, ◌>>=◌}
use hega_proto.Catalog.{get_table, has_table, has_column, column}
use hega_proto.Sql.{IsPredicate, holds}
use hega_proto.Semantic.{analyze}
use hega_proto.Semantic.Accepts.{analyze-IsPredicate, HasBoundedLiterals, HasNarrowColumns}
use hega_proto.Engine.{bit}
use hega_proto.Planner.{PhysicalPlan, logical_plan, physical_plan, contains}
use hega_proto.Planner.Columns.{columns_of}
use hega_proto.Query.{QueryPackage, default_params}
use hega_proto.Query.Encryptor.{encrypt_query}
use hega_proto.Query.Validator.Refuses.{IsDotless}
use hega_proto.Execution.Predicate.{build_expression}
use hega_proto.Execution.Refinement.{root_of}
use hega_proto.Execution.Accepted.{accepted_statement_correct}
use hega_proto.Examples.Toy.{toy, toy_laws}
use hega_proto.Examples.Where.{
  schema, catalog, statement, clause_tree, people, row, batch, row-IsStored, clause-IsPlainClause,
  clause-IsSupported,
}

pub statement-ok : analyze catalog statement ≡ ok schema
unfolding analyze split_dot str_eq lookup insert get_table has_table has_column column
statement-ok = refl

pub clause-HasBoundedLiterals : HasBoundedLiterals clause_tree
clause-HasBoundedLiterals = (
  ((tt, ((omega arith, omega arith), ((omega arith, omega arith), tt))), (tt, omega arith)),
  (tt, tt),
)

pub schema-HasNarrowColumns : HasNarrowColumns schema
schema-HasNarrowColumns = (omega arith, (omega arith, (omega arith, tt)))

analyze-IsPredicate_example :
    (get_table catalog people ≡ ok schema) × IsPredicate schema clause_tree
analyze-IsPredicate_example =
    analyze-IsPredicate catalog statement schema clause_tree statement-ok refl refl
      schema-HasNarrowColumns ((tt, tt), tt) clause-HasBoundedLiterals

pub schema-IsDotless : IsDotless schema
unfolding split_dot
schema-IsDotless = (refl, (refl, (refl, tt)))

accepted_statement_correct_example :
    (plan : PhysicalPlan) × ((logical_plan statement schema >>= physical_plan) ≡ ok plan)
    × All (λ c. contains (bare_name c) plan.scan_columns ≡ true) (columns_of clause_tree)
    × (pkg : QueryPackage) × (encrypt_query toy statement plan catalog default_params ≡ ok pkg)
    × (mask : toy.Expression) × (build_expression toy (length pkg.predicate_nodes) pkg (root_of pkg)
        ≡ ok mask)
    × ((12 < toy.depth mask) ⊎ (toy.evaluate batch mask ≡ some (bit (holds row clause_tree))))
accepted_statement_correct_example =
    accepted_statement_correct toy catalog statement schema clause_tree default_params toy_laws
      statement-ok refl refl refl
      (record {
        condition = ((tt, tt), tt);
        plain = clause-IsPlainClause;
        literals = clause-HasBoundedLiterals;
        narrow = schema-HasNarrowColumns;
        dotless = schema-IsDotless;
        nodes_fit = clause-IsSupported.nodes_fit;
        literals_fit = clause-IsSupported.literals_fit;
      })
      row batch row-IsStored
