-- ===== src/Query/Validator/Refuses.antt =====
-- What the validator refuses, and where its recursion ends.
use hega_proto.Base.{
  some_inj, ℕ, zero, suc, ◌<◌, ◌≡◌, refl, sym, ap, ◌∙◌, inl, inr, false, none, some, List, [], ◌∷◌,
  ◌++◌, arith, Str, codes, str_eq, str_eq_iff, split_dot, get_elem?, All, ◌==◌, Bool-cases,
}
use hega_proto.Base.Outcome.{Result, err, runtime_error, exhausted}
use hega_proto.Ast.{AstExpr, comparison, Comparison}
use hega_proto.Catalog.{Catalog, TableSchema, ColumnSchema, column, find_column}
use hega_proto.Engine.{Engine}
use hega_proto.Query.{PredNode, QueryPackage, uint32_max, not_}
use hega_proto.Query.Encryptor.{string_operands, string_kind}
use hega_proto.Query.Encryptor.Represents.{string_node, Represents, a_string_test, a_comparison}
use hega_proto.Query.Validator.{check_string_node, check_node, validate_pred_tree, is_empty}

-- A NOT node that is its own child passes no bound: whatever depth the recursion may reach, it
-- does not end there. The source's recursion has no other bound than the stack.
pub validate_pred_tree_cyclic :
    (catalog : Catalog) (pkg : QueryPackage) (schema : TableSchema) (i : ℕ) (node : PredNode)
    → get_elem? pkg.predicate_nodes i ≡ some node
    → node.kind ≡ not_
    → node.left ≡ i
    → i < uint32_max
    → (fuel : ℕ) → validate_pred_tree fuel catalog pkg schema i ≡ err exhausted
unfolding validate_pred_tree check_node
validate_pred_tree_cyclic catalog pkg schema i node at kind left lt zero = refl
validate_pred_tree_cyclic catalog pkg schema i node at kind left lt (suc fuel) =
    let present : (node.left == uint32_max) ≡ false = ground arith in
    rw (at, validate_pred_tree)
      (rw (kind, check_node)
        (rw present
          (rw left (validate_pred_tree_cyclic catalog pkg schema i node at kind left lt fuel))))

-- A column name of the catalog has no dot.
abbrev pub IsDotless : TableSchema → Type 0
IsDotless schema = All (λ c. split_dot c.name ≡ none) schema.columns

find_column-dotted :
    (n : Str) (cs : List ColumnSchema) {p : Str × Str}
    → split_dot n ≡ some p
    → All (λ c. split_dot c.name ≡ none) cs
    → find_column n cs ≡ none
unfolding find_column
find_column-dotted n [] h a = refl
find_column-dotted n (c ∷ cs) h a = elim (Bool-cases (str_eq c.name n)) [
  | inl same ↦ absurd (none-ne-some (sym a.0 ∙ ap split_dot ((str_eq_iff c.name n).0 same) ∙ h))
  | inr differs ↦ rw differs (find_column-dotted n cs h a.1)
]
  where
    none-ne-some : {p : Str × Str} → none ≡ some p → ⊥
    none-ne-some q = cc

dotted-not_empty : (n : Str) {p : Str × Str} → split_dot n ≡ some p → is_empty n ≡ false
unfolding split_dot
dotted-not_empty [] h = cc
dotted-not_empty (c ∷ n) h = refl

check_string_node-dotted :
    (pkg : QueryPackage) (schema : TableSchema) (op : Comparison) (n : Str) (first w : ℕ)
    {p : Str × Str}
    → IsDotless schema
    → split_dot n ≡ some p
    → 0 < w
    → check_string_node pkg schema (string_node op n first w)
      ≡ err (runtime_error (codes "Column not found: " ++ n))
unfolding check_string_node column
check_string_node-dotted pkg schema op n first w dotless dot pos_w =
    let wide : (w == 0) ≡ false = ground arith in
    rw (dotted-not_empty n dot, wide) (rw (find_column-dotted n schema.columns dot dotless) refl)

check_node-string :
    (catalog : Catalog) (pkg : QueryPackage) (schema : TableSchema) (op : Comparison)
    (node : PredNode) (visit : ℕ → Result (Unit {0}))
    → check_node catalog pkg schema (string_kind op) node visit ≡ check_string_node pkg schema node
unfolding check_node
check_node-string catalog pkg schema Comparison.equal node visit = refl
check_node-string catalog pkg schema _ node visit = refl

-- The nodes that the encryptor builds for a string test on a column that is written with its
-- alias, `e.name = 'Alice'`, are refused by the server that it sends them to, if column names have
-- no dot: it looks the qualified name up in the table and throws.
pub qualified_string_test_refused :
    (e : Engine) (catalog : Catalog) (schema : TableSchema) (pkg : QueryPackage) (i : ℕ)
    (op : Comparison) (l r : AstExpr) (n s alias bare : Str)
    → IsDotless schema
    → string_operands l r ≡ some (n, s)
    → split_dot n ≡ some (alias, bare)
    → Represents e schema pkg.predicate_nodes pkg.encrypted_literals i (comparison op l r)
    → (fuel : ℕ)
    → validate_pred_tree (suc fuel) catalog pkg schema i
      ≡ err (runtime_error (codes "Column not found: " ++ n))
unfolding validate_pred_tree
qualified_string_test_refused e catalog schema pkg i op l r n s alias bare dotless ops dot
      (a_string_test n' s' first test ops' at room stored) fuel =
    let same : n' ≡ n = ap (λ (q : Str × Str). q.0) (some_inj (sym ops' ∙ ops)) in
    let w = test.column_schema.max_length in
    let refused =
      check_string_node-dotted pkg schema op n' first w dotless (ap split_dot same ∙ dot)
        test.width_pos in
    rw (at, validate_pred_tree)
      (check_node-string catalog pkg schema op (string_node op n' first w)
          (validate_pred_tree fuel catalog pkg schema)
        ∙ refused
        ∙ ap (λ m. err (runtime_error (codes "Column not found: " ++ m))) same)
qualified_string_test_refused e catalog schema pkg i op l r n s alias bare dotless ops dot
      (a_comparison a b ops' operands at la lb x y) fuel =
    cc
