-- ===== src/Execution/Predicate.antt =====
-- `QueryExecutor::buildExpression`: the expression tree of Prototype 1 from the flat node array.
use hega_proto.Base.{
  ℕ, zero, suc, ◌+◌, ◌-◌, ◌/◌, none, some, List, [], ◌∷◌, ◌++◌, Str, codes, to_string, get_elem?,
  length, take, drop,
}
use hega_proto.Base.Outcome.{Result, ok, err, runtime_error, exhausted, ◌>>=◌}
use hega_proto.Engine.{Engine}
use hega_proto.Query.{
  EncryptedLiteralEntry, PredNodeKind, PredNode, column_ref, literal_ref, equal, not_equal,
  greater_than, less_than, greater_equal, less_equal, and_, or_, not_, string_equal,
  string_not_equal, QueryPackage, to_u32, find_literal,
}

abbrev pub fail {ℓ} : {A : Type ℓ} → Str → Result A
fail message = err (runtime_error message)

module _ (e : Engine) where
  -- a ciphertext of the package, read back
  abbrev pub literal_cipher : EncryptedLiteralEntry → e.Cipher
  literal_cipher l = e.deserialize_with_size l.ciphertext_bytes l.logical_size

  abbrev pub char_comparison : Str → ℕ → EncryptedLiteralEntry → e.Expression
  char_comparison name position l =
      e.equal (e.column_ref (e.string_physical_column name position))
        (e.enc_literal (literal_cipher l))

  -- the loop over the positions of a string predicate, from `position` on, with `rounds` left
  unfoldable pub char_comparisons :
      ℕ → ℕ → PredNode → List EncryptedLiteralEntry → Result (List e.Expression)
  char_comparisons zero position node literals = ok []
  char_comparisons (suc rounds) position node literals =
      let rest = char_comparisons rounds (position + 1) node literals in
      elim (find_literal (to_u32 (node.literal_id + position)) literals) [
        | none ↦ fail (codes "buildExpression: string literal not found")
        | some l ↦ (do cs ← rest; ok (char_comparison node.column_name position l ∷ cs))
      ]

  -- How many of the comparisons behind the first one go to the left half: with `n` comparisons in
  -- the range, the left half has `n / 2`.
  abbrev pub left_rest : List e.Expression → ℕ
  left_rest ds = (length ds + 1) / 2 - 1

  -- `combine(begin, end)` on the range of `c` and the comparisons behind it, which it halves. The
  -- fuel, the number of comparisons behind `c`, is enough: each half is shorter.
  unfoldable pub combine : ℕ → e.Expression → List e.Expression → e.Expression
  combine fuel c [] = c
  combine zero c (d ∷ ds) = c
  combine (suc fuel) c (d ∷ ds) = elim (drop (left_rest (d ∷ ds)) (d ∷ ds)) [
    | [] ↦ c
    | m ∷ ms ↦ e.and_expr (combine fuel c (take (left_rest (d ∷ ds)) (d ∷ ds))) (combine fuel m ms)
  ]

  -- the end of the string cases: an error on width 0, else the conjunction
  abbrev pub combine_all : List e.Expression → Result e.Expression
  combine_all [] = fail (codes "buildExpression: empty string width")
  combine_all (c ∷ cs) = ok (combine (length cs) c cs)

  unfoldable pub build_literal : PredNode → List EncryptedLiteralEntry → Result e.Expression
  build_literal node literals = elim (find_literal node.literal_id literals) [
    | none ↦ fail (codes "buildExpression: literal not found: " ++ to_string node.literal_id)
    | some l ↦ ok (e.enc_literal (literal_cipher l))
  ]

  unfoldable pub build_string : PredNode → List EncryptedLiteralEntry → Result e.Expression
  unfolding char_comparisons combine
  build_string node literals = do
    cs ← char_comparisons node.string_width 0 node literals
    combine_all cs

  abbrev pub build_binary :
      (e.Expression → e.Expression → e.Expression)
      → PredNode
      → (ℕ → Result e.Expression)
      → Result e.Expression
  build_binary f node build = do l ← build node.left; r ← build node.right; ok (f l r)

  -- the switch on the node's kind, given the recursive call
  unfoldable pub build_node :
      PredNodeKind
      → PredNode
      → List EncryptedLiteralEntry
      → (ℕ → Result e.Expression)
      → Result e.Expression
  unfolding build_literal build_string
  build_node column_ref node literals build = ok (e.column_ref node.column_name)
  build_node literal_ref node literals build = build_literal node literals
  build_node string_equal node literals build = build_string node literals
  build_node string_not_equal node literals build = do
    x ← build_string node literals
    ok (e.not_expr x)
  build_node equal node literals build = build_binary e.equal node build
  build_node not_equal node literals build =
      build_binary (λ l r. e.not_expr (e.equal l r)) node build
  build_node greater_than node literals build = build_binary e.gt node build
  build_node less_than node literals build = build_binary e.lt node build
  build_node greater_equal node literals build =
      build_binary (λ l r. e.or_expr (e.gt l r) (e.equal l r)) node build
  build_node less_equal node literals build =
      build_binary (λ l r. e.or_expr (e.lt l r) (e.equal l r)) node build
  build_node and_ node literals build = build_binary e.and_expr node build
  build_node or_ node literals build = build_binary e.or_expr node build
  build_node not_ node literals build = do x ← build node.left; ok (e.not_expr x)

  -- `QueryExecutor::buildExpression`; the fuel is the depth of the recursion that is followed
  unfoldable pub build_expression : ℕ → QueryPackage → ℕ → Result e.Expression
  unfolding build_node
  build_expression zero pkg idx = err exhausted
  build_expression (suc fuel) pkg idx =
      let build = build_expression fuel pkg in
      elim (get_elem? pkg.predicate_nodes idx) [
        | none ↦ fail (codes "buildExpression: node index out of range")
        | some node ↦ build_node node.kind node pkg.encrypted_literals build
      ]
