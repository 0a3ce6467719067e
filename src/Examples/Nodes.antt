-- ===== src/Examples/Nodes.antt =====
-- Runs of the theorems on node arrays: those of the encryptor, and those that anyone may send.
use hega_proto.Base.{
  ℕ, zero, suc, ◌≡◌, refl, sym, ap, some_inj, some, inl, inr, List, [], ◌∷◌, ◌++◌, arith, Str,
  codes, split_dot, bare_name, str_eq,
}
use hega_proto.Base.Outcome.{err, exhausted, runtime_error}
use hega_proto.Ast.{AstExpr, comparison, equal, column_ref, string_literal}
use hega_proto.Catalog.{column}
use hega_proto.Query.{PredNode, PredNodeKind, QueryPackage, default_node, default_package}
use hega_proto.Query.Encryptor.{no_output}
use hega_proto.Query.Encryptor.Represents.{IsBuilt, node_count, literal_count}
use hega_proto.Query.Encryptor.Builds.{build_predicate}
use hega_proto.Query.Validator.{validate_pred_tree}
use hega_proto.Query.Validator.Refuses.{
  validate_pred_tree_cyclic, qualified_string_test_refused, IsDotless,
}
use hega_proto.Query.Validator.Ends.{validate_pred_tree-Ends, IsDescending, Ends}
use hega_proto.Sql.{IsStringTest}
use hega_proto.Execution.Predicate.{combine}
use hega_proto.Execution.Combine.{product, value-combine}
use hega_proto.Examples.Toy.{number, toy, toy_laws}
use hega_proto.Examples.Where.{
  name, al, schema, catalog, clause_tree, clause-IsSupported, name_column,
}

build_predicate_example : IsBuilt toy schema clause_tree no_output
build_predicate_example =
    build_predicate toy schema clause_tree no_output clause-IsSupported.predicate
      (record { next = refl; ids = tt })
      (omega (arith, clause-IsSupported.nodes_fit), omega (arith, clause-IsSupported.literals_fit))

-- NOT age, whose two nodes stand in order
abbrev two_nodes : List PredNode
two_nodes =
    record default_node { kind = PredNodeKind.column_ref; column_name = name }
    ∷ record default_node { kind = PredNodeKind.not_; left = 0 }
    ∷ []

abbrev two_node_package : QueryPackage
two_node_package = record default_package { predicate_nodes = two_nodes }

two_nodes-IsDescending : IsDescending two_nodes
two_nodes-IsDescending zero node h =
    let it = some_inj h in
    (inr (ap (λ (n : PredNode). n.left) (sym it)), inr (ap (λ (n : PredNode). n.right) (sym it)))
two_nodes-IsDescending (suc zero) node h =
    let it = some_inj h in
    (
      inl (omega (arith, ap (λ (n : PredNode). n.left) it)),
      inr (ap (λ (n : PredNode). n.right) (sym it)),
    )
two_nodes-IsDescending (suc (suc i)) node h = cc

validate_pred_tree-Ends_example : Ends (validate_pred_tree 2 catalog two_node_package schema 1)
validate_pred_tree-Ends_example =
    validate_pred_tree-Ends catalog two_node_package schema two_nodes-IsDescending 2 1 (omega arith)

-- a NOT node that is its own child
abbrev loop_node : PredNode
loop_node = record default_node { kind = PredNodeKind.not_; left = 0 }

abbrev loop_package : QueryPackage
loop_package = record default_package { predicate_nodes = loop_node ∷ [] }

validate_pred_tree_cyclic_example :
    validate_pred_tree 100 catalog loop_package schema 0 ≡ err exhausted
validate_pred_tree_cyclic_example =
    validate_pred_tree_cyclic catalog loop_package schema 0 loop_node refl refl refl (omega arith)
      100

-- p.name = 'Al'
abbrev qualified : Str
qualified = b'p' ∷ b'.' ∷ name

abbrev qualified_test : AstExpr
qualified_test = comparison equal (column_ref qualified) (string_literal al)

qualified-IsStringTest : IsStringTest schema equal qualified al
unfolding column bare_name split_dot str_eq
qualified-IsStringTest = record {
  column_schema = name_column;
  found = refl;
  typed = refl;
  op_ok = inl refl;
  fits = omega arith;
  width_pos = omega arith;
  width_u32 = omega arith;
  ascii = ((omega arith, omega arith), ((omega arith, omega arith), tt));
}

qualified_built : IsBuilt toy schema qualified_test no_output
unfolding node_count literal_count column bare_name split_dot str_eq
qualified_built =
    build_predicate toy schema qualified_test no_output qualified-IsStringTest
      (record { next = refl; ids = tt }) (omega arith, omega arith)

abbrev qualified_package : QueryPackage
qualified_package = record default_package {
  predicate_nodes = qualified_built.output.nodes;
  encrypted_literals = qualified_built.output.literals;
}

schema-IsDotless : IsDotless schema
unfolding split_dot
schema-IsDotless = (refl, (refl, (refl, tt)))

qualified_split : split_dot qualified ≡ some (b'p' ∷ [], name)
unfolding split_dot
qualified_split = refl

qualified_string_test_refused_example :
    validate_pred_tree 5 catalog qualified_package schema qualified_built.index
    ≡ err (runtime_error (codes "Column not found: " ++ qualified))
qualified_string_test_refused_example =
    qualified_string_test_refused toy catalog schema qualified_package qualified_built.index equal
      (column_ref qualified) (string_literal al) qualified al (b'p' ∷ []) name schema-IsDotless refl
      qualified_split qualified_built.represents 4

-- masks 1, 0 and 1
abbrev mask_of : ℕ → toy.Expression
mask_of n = number n

value-combine_example :
    toy.value (λ _. 0) (combine toy 2 (mask_of 1) (mask_of 0 ∷ mask_of 1 ∷ []))
    ≡ product toy toy_laws (λ _. 0) (mask_of 1 ∷ mask_of 0 ∷ mask_of 1 ∷ [])
value-combine_example =
    value-combine toy toy_laws (λ _. 0) 2 (mask_of 1) (mask_of 0 ∷ mask_of 1 ∷ []) (omega arith)
      (omega arith, (omega arith, (omega arith, tt)))
