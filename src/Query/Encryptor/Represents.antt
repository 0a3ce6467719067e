-- ===== src/Query/Encryptor/Represents.antt =====
-- The node array that the encryptor builds stands for the WHERE clause it is given.
use native.Mathlib.Nat.{mod-eq_of_lt}
use hega_proto.Base.{
  ℕ, suc, ◌+◌, ◌^◌, ◌<◌, ◌≡◌, none, some, List, arith, Str, codes, length, get_elem?, bare_name,
}
use hega_proto.Base.Int.{pos}
use hega_proto.Base.Outcome.{ok, err}
use hega_proto.Ast.{
  AstExpr, column_ref, int_literal, comparison, connective, not_expr, Comparison, Connective,
}
use hega_proto.Catalog.{TableSchema, column}
use hega_proto.Engine.{Engine}
use hega_proto.Query.{PredNodeKind, PredNode, EncryptedLiteralEntry, default_node}
use hega_proto.Query.Encryptor.{
  Output, push_node, literal_entry, char_or_zero, build_pred_node, string_operands, comparison_kind,
  connective_kind, string_kind,
}
use hega_proto.Query.Encryptor.Growth.{Extends, IsNumbered}
use hega_proto.Sql.{IsOperand, IsStringTest}

abbrev pub column_node : Str → PredNode
column_node n = record default_node { kind = PredNodeKind.column_ref; column_name = n }

abbrev pub literal_node : ℕ → PredNode
literal_node id = record default_node { kind = PredNodeKind.literal_ref; literal_id = id }

abbrev pub string_node : Comparison → Str → ℕ → ℕ → PredNode
string_node op n id width = record default_node {
  kind = string_kind op;
  column_name = n;
  literal_id = id;
  string_width = width;
}

abbrev pub binary_node : PredNodeKind → ℕ → ℕ → PredNode
binary_node kind a b = record default_node { kind = kind; left = a; right = b }

abbrev pub unary_node : ℕ → PredNode
unary_node a = record default_node { kind = PredNodeKind.not_; left = a }

module _ (e : Engine) (schema : TableSchema) where
  -- Node `i` of `nodes` stands for the expression. A child stands before its parent.
  pub data Represents (nodes : List PredNode) (literals : List EncryptedLiteralEntry)
      : ℕ → AstExpr → Type 0 where
    a_column :
        {i : ℕ} {n : Str}
        → get_elem? nodes i ≡ some (column_node n)
        → Represents nodes literals i (column_ref n)
    an_int :
        {i id n : ℕ}
        → get_elem? nodes i ≡ some (literal_node id)
        → get_elem? literals id ≡ some (literal_entry e id (codes "INT64") (pos n))
        → Represents nodes literals i (int_literal (pos n))
    a_string_test :
        {i : ℕ} {op : Comparison} {l r : AstExpr} (n s : Str) (first : ℕ)
        → (test : IsStringTest schema op n s) → string_operands l r ≡ some (n, s)
        → get_elem? nodes i ≡ some (string_node op n first test.column_schema.max_length)
        → first + test.column_schema.max_length < 2 ^ 32
        → ((k : ℕ)
            → k < test.column_schema.max_length
            → get_elem? literals (first + k)
              ≡ some (literal_entry e (first + k) (codes "STRING_CHAR") (pos (char_or_zero s k))))
        → Represents nodes literals i (comparison op l r)
    a_comparison :
        {i : ℕ} {op : Comparison} {l r : AstExpr} (a b : ℕ)
        → string_operands l r ≡ none
        → IsOperand l × IsOperand r
        → get_elem? nodes i ≡ some (binary_node (comparison_kind op) a b)
        → a < i
        → b < i
        → Represents nodes literals a l
        → Represents nodes literals b r
        → Represents nodes literals i (comparison op l r)
    a_connective :
        {i : ℕ} {op : Connective} {l r : AstExpr} (a b : ℕ)
        → get_elem? nodes i ≡ some (binary_node (connective_kind op) a b)
        → a < i
        → b < i
        → Represents nodes literals a l
        → Represents nodes literals b r
        → Represents nodes literals i (connective op l r)
    a_not :
        {i : ℕ} {l : AstExpr} (a : ℕ)
        → get_elem? nodes i ≡ some (unary_node a)
        → a < i
        → Represents nodes literals a l
        → Represents nodes literals i (not_expr l)

  abbrev RepresentsIn : Output → ℕ → AstExpr → Type 0
  RepresentsIn o = Represents o.nodes o.literals

  pub Represents-extend :
      {o o' : Output} {i : ℕ} {x : AstExpr}
      → Extends o o'
      → RepresentsIn o i x
      → RepresentsIn o' i x
  Represents-extend g (a_column h) = a_column (g.nodes _ _ h)
  Represents-extend g (an_int h k) = an_int (g.nodes _ _ h) (g.literals _ _ k)
  Represents-extend g (a_string_test n s first test ops h b k) =
      a_string_test n s first test ops (g.nodes _ _ h) b λ j lt. g.literals _ _ (k j lt)
  Represents-extend g (a_comparison a b none_ ops h la lb l r) =
      a_comparison a b none_ ops (g.nodes _ _ h) la lb (Represents-extend g l)
        (Represents-extend g r)
  Represents-extend g (a_connective a b h la lb l r) =
      a_connective a b (g.nodes _ _ h) la lb (Represents-extend g l) (Represents-extend g r)
  Represents-extend g (a_not a h la l) = a_not a (g.nodes _ _ h) la (Represents-extend g l)

  -- The number of characters that a string test on the column encrypts.
  abbrev pub width_of : Str → ℕ
  width_of n = elim (column schema (bare_name n)) [ ok c ↦ c.max_length | err _ ↦ 0 ]

  -- The nodes and the literals that an expression takes.
  unfoldable pub node_count : AstExpr → ℕ
  node_count (comparison op l r) =
      let both = node_count l + node_count r + 1 in
      elim (string_operands l r) [ none ↦ both | some _ ↦ 1 ]
  node_count (connective op l r) = node_count l + node_count r + 1
  node_count (not_expr l) = node_count l + 1
  node_count _ = 1

  unfoldable pub literal_count : AstExpr → ℕ
  literal_count (int_literal _) = 1
  literal_count (comparison op l r) =
      let both = literal_count l + literal_count r in
      elim (string_operands l r) [ none ↦ both | some (n, _) ↦ width_of n ]
  literal_count (connective op l r) = literal_count l + literal_count r
  literal_count (not_expr l) = literal_count l
  literal_count _ = 0

  -- `buildPredNode` succeeds, from output `o`, with a node that stands for `x`.
  pub record IsBuilt (x : AstExpr) (o : Output) : Type 0 where
    pub index : ℕ
    pub output : Output
    pub built : build_pred_node e x schema o ≡ ok (index, output)
    pub represents : Represents output.nodes output.literals index x
    pub extends : Extends o output
    pub numbered : IsNumbered output
    pub last : length output.nodes ≡ suc index
    pub node_total : length output.nodes ≡ length o.nodes + node_count x
    pub literal_total : length output.literals ≡ length o.literals + literal_count x

  -- Room for the nodes and the literals of `x` in 32-bit indices.
  abbrev pub HasRoom : AstExpr → Output → Type 0
  HasRoom x o =
      (length o.nodes + node_count x < 2 ^ 32) × (length o.literals + literal_count x < 2 ^ 32)

  push_index :
      (n : PredNode) (o : Output) → length o.nodes + 1 < 2 ^ 32 → (push_node n o).0 ≡ length o.nodes
  push_index n o h = mod-eq_of_lt (omega arith)
