-- ===== src/Query/Validator/Ends.antt =====
-- The recursion of `validatePredTree` ends on nodes whose children stand before them.
use hega_proto.Base.{
  qualifier_or, ℕ, zero, suc, ◌+◌, ◌<◌, ◌≡◌, ◌≢◌, ap, ◌⊎◌, inl, inr, Bool, true, false, ◌&&◌,
  Option, none, some, List, arith, Str, str_eq, get_elem?, ◌==◌, if◌then◌else◌, Bool-cases,
  Option-cases,
}
use hega_proto.Base.Outcome.{Error, validation_error, Result, ok, err, exhausted, ◌>>=◌, guard}
use hega_proto.Catalog.{Catalog, TableSchema, column, get_table, or_throw}
use hega_proto.Query.{
  EncryptedLiteralEntry, PredNode, PredNodeKind, QueryPackage, uint32_max, not_, and_, or_,
  column_ref, literal_ref, string_equal, string_not_equal,
}
use hega_proto.Query.Validator.{
  target_table, check_binary, check_unary, check_column, check_chars, check_string_node,
  check_literal_ref, check_node, validate_pred_tree,
}

-- Every child index of every node is below the node's own index, or is the mark for no child.
abbrev pub IsDescending : List PredNode → Type 0
IsDescending nodes =
    (i : ℕ) (node : PredNode)
    → get_elem? nodes i ≡ some node
    → (node.left < i ⊎ node.left ≡ uint32_max) × (node.right < i ⊎ node.right ≡ uint32_max)

abbrev pub Ends {ℓ} : {A : Type ℓ} → Result A → Type ℓ
Ends r = r ≢ err exhausted

err_inj {ℓ} : {A : Type ℓ} {x y : Error} → ◌≡◌ {A = Result A} (err x) (err y) → x ≡ y
err_inj h = cc

Ends-bind {ℓ κ} :
    {A : Type ℓ} {B : Type κ} (m : Result A) (f : A → Result B)
    → Ends m
    → ((a : A) → Ends (f a))
    → Ends (m >>= f)
Ends-bind (ok a) f h k = k a
Ends-bind (err x) f h k = λ p. h (ap err (err_inj p))

Ends-guard : (b : Bool) (m : Str) → Ends (guard b (validation_error m))
Ends-guard true m = λ p. cc
Ends-guard false m = λ p. cc

Ends-or_throw {ℓ} : {A : Type ℓ} (o : Option A) (m : Str) → Ends (or_throw o m)
Ends-or_throw none m = λ p. cc
Ends-or_throw (some a) m = λ p. cc

check_column-Ends :
    (catalog : Catalog) (pkg : QueryPackage) (schema : TableSchema) (n m : Str)
    → Ends (check_column catalog pkg schema n m)
unfolding check_column get_table
check_column-Ends catalog pkg schema n m =
    Ends-bind (target_table catalog pkg schema n) _ target (λ t. Ends-guard _ m)
  where
    target : Ends (target_table catalog pkg schema n)
    target =
        if_Ends (pkg.has_join && str_eq (qualifier_or n pkg.table_alias) pkg.joined_table_alias)
      where
        if_Ends :
            (b : Bool) → Ends (if b then get_table catalog pkg.joined_table_name else ok schema)
        if_Ends true = Ends-or_throw _ _
        if_Ends false = λ p. cc

check_chars-Ends :
    (rounds k : ℕ) (node : PredNode) (ls : List EncryptedLiteralEntry)
    → Ends (check_chars rounds k node ls)
unfolding check_chars
check_chars-Ends zero k node ls = λ p. cc
check_chars-Ends (suc rounds) k node ls =
    Ends-bind (guard _ _) _ (Ends-guard _ _) (λ _. check_chars-Ends rounds (k + 1) node ls)

check_string_node-Ends :
    (pkg : QueryPackage) (schema : TableSchema) (node : PredNode)
    → Ends (check_string_node pkg schema node)
unfolding check_string_node column
check_string_node-Ends pkg schema node = Ends-bind (guard _ _) _ (Ends-guard _ _) λ _.
    Ends-bind (column schema node.column_name) _ (Ends-or_throw _ _) λ c.
      Ends-bind (guard _ _) _ (Ends-guard _ _)
        λ _. check_chars-Ends node.string_width 0 node pkg.encrypted_literals

module _ (visit : ℕ → Result (Unit {0})) (i : ℕ) (below : (j : ℕ) → j < i → Ends (visit j)) where
  check_unary-Ends :
      (node : PredNode) → (node.left < i) ⊎ (node.left ≡ uint32_max) → Ends (check_unary node visit)
  check_unary-Ends node (inl lt) =
      Ends-bind (guard _ _) _ (Ends-guard _ _) (λ _. below node.left lt)
  check_unary-Ends node (inr absent) =
      let found : (node.left == uint32_max) ≡ true = ground arith in rw found (λ p. cc)

  check_binary-Ends :
      (m : Str) (node : PredNode)
      → (node.left < i) ⊎ (node.left ≡ uint32_max)
      → (node.right < i) ⊎ (node.right ≡ uint32_max)
      → Ends (check_binary m node visit)
  check_binary-Ends m node (inl l) (inl r) =
      Ends-bind (guard _ _) _ (Ends-guard _ _)
        λ _. Ends-bind (visit node.left) _ (below node.left l) (λ _. below node.right r)
  check_binary-Ends m node (inr absent) r =
      let found : (node.left == uint32_max) ≡ true = ground arith in rw found (λ p. cc)
  check_binary-Ends m node (inl l) (inr absent) = elim (Bool-cases (node.left == uint32_max)) [
    | inl x ↦ rw x (λ p. cc)
    | inr x ↦
        let found : (node.right == uint32_max) ≡ true = ground arith in rw (x, found) (λ p. cc)
  ]

  check_node-Ends :
      (catalog : Catalog) (pkg : QueryPackage) (schema : TableSchema) (kind : PredNodeKind)
      (node : PredNode)
      → (node.left < i) ⊎ (node.left ≡ uint32_max)
      → (node.right < i) ⊎ (node.right ≡ uint32_max)
      → Ends (check_node catalog pkg schema kind node visit)
  unfolding check_node check_literal_ref
  check_node-Ends catalog pkg schema column_ref node l r = check_column-Ends catalog pkg schema _ _
  check_node-Ends catalog pkg schema literal_ref node l r = Ends-guard _ _
  check_node-Ends catalog pkg schema string_equal node l r = check_string_node-Ends pkg schema node
  check_node-Ends catalog pkg schema string_not_equal node l r =
      check_string_node-Ends pkg schema node
  check_node-Ends catalog pkg schema not_ node l r = check_unary-Ends node l
  check_node-Ends catalog pkg schema and_ node l r = check_binary-Ends _ node l r
  check_node-Ends catalog pkg schema or_ node l r = check_binary-Ends _ node l r
  check_node-Ends catalog pkg schema _ node l r = check_binary-Ends _ node l r

-- On nodes whose children stand before them, whoever sent them, the recursion ends within a depth
-- of one more than the index that it starts at.
pub validate_pred_tree-Ends :
    (catalog : Catalog) (pkg : QueryPackage) (schema : TableSchema)
    → IsDescending pkg.predicate_nodes
    → (fuel i : ℕ) → i < fuel
    → Ends (validate_pred_tree fuel catalog pkg schema i)
unfolding validate_pred_tree
validate_pred_tree-Ends catalog pkg schema down zero i lt = absurd (omega arith)
validate_pred_tree-Ends catalog pkg schema down (suc fuel) i lt =
    elim (Option-cases (get_elem? pkg.predicate_nodes i)) [
      | inl out ↦ rw (out, validate_pred_tree) (λ p. cc)
      | inr (node, at) ↦
          rw (at, validate_pred_tree)
            (check_node-Ends (validate_pred_tree fuel catalog pkg schema) i
              (λ j below. validate_pred_tree-Ends catalog pkg schema down fuel j (omega arith))
              catalog pkg schema node.kind node (down i node at).0 (down i node at).1)
    ]
