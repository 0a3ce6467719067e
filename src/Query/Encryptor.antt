-- ===== src/Query/Encryptor.antt =====
-- query/query_encryptor.cpp: the WHERE clause as a flat array of nodes over encrypted literals.
pub mod Growth
pub mod Represents
pub mod Builds
use hega_proto.Base.{
  ℕ, zero, suc, ◌+◌, ◌-◌, Bool, true, false, Option, none, some, List, [], ◌∷◌, ◌++◌, Str, codes,
  bare_name, qualifier_or, str_eq, get_elem?, length, if◌then◌else◌,
}
use hega_proto.Base.Int.{ℤ, pos}
use hega_proto.Base.Outcome.{Result, ok, err, runtime_error, ◌>>=◌}
use hega_proto.Ast.{AstExpr, int_literal, string_literal, Comparison, Connective, SelectStatement}
use hega_proto.Ast
use hega_proto.Catalog.{Catalog, TableSchema, ColumnSchema, column, get_table}
use hega_proto.Planner.{PhysicalPlan}
use hega_proto.Engine.{Engine, encrypt_scalar}
use hega_proto.Query.{
  FheParamsMeta, EncryptedLiteralEntry, PredNodeKind, PredNode, column_ref, literal_ref, equal,
  not_equal, greater_than, less_than, greater_equal, less_equal, and_, or_, not_, string_equal,
  string_not_equal, default_node, default_package, QueryPackage, to_u32,
}

-- The out-parameters `nodes`, `literals` and `nextLiteralId`.
pub record Output : Type 0 where
  pub nodes : List PredNode
  pub literals : List EncryptedLiteralEntry
  pub next_id : ℕ

abbrev pub no_output : Output
no_output = record { nodes = []; literals = []; next_id = 0 }

abbrev pub comparison_kind : Comparison → PredNodeKind
comparison_kind Comparison.equal = equal
comparison_kind Comparison.not_equal = not_equal
comparison_kind Comparison.greater_than = greater_than
comparison_kind Comparison.less_than = less_than
comparison_kind Comparison.greater_equal = greater_equal
comparison_kind Comparison.less_equal = less_equal

abbrev pub connective_kind : Connective → PredNodeKind
connective_kind Connective.and_ = and_
connective_kind Connective.or_ = or_

-- `expr.kind == Equal ? StringEqual : StringNotEqual`
abbrev pub string_kind : Comparison → PredNodeKind
string_kind Comparison.equal = string_equal
string_kind _ = string_not_equal

-- The column's name and the literal, if the operands are a column and a string literal.
abbrev pub string_operands : AstExpr → AstExpr → Option (Str × Str)
string_operands (AstExpr.column_ref n) (string_literal s) = some (n, s)
string_operands (string_literal s) (AstExpr.column_ref n) = some (n, s)
string_operands _ _ = none

-- `nodes.push_back(node); return nodes.size() - 1;`
abbrev pub push_node : PredNode → Output → ℕ × Output
push_node n o = (to_u32 (length o.nodes), record o { nodes = o.nodes ++ n ∷ [] })

-- `position < value.size() ? value[position] : 0`
abbrev pub char_or_zero : Str → ℕ → ℕ
char_or_zero s p = elim (get_elem? s p) [ none ↦ 0 | some c ↦ c ]

module _ (e : Engine) where
  -- one encrypted literal, with the id that is next
  abbrev pub literal_entry : ℕ → Str → ℤ → EncryptedLiteralEntry
  literal_entry id type v =
      let ct = encrypt_scalar e id v in
      record {
        id = id;
        logical_type = type;
        ciphertext_bytes = e.serialize ct;
        logical_size = e.logical_size ct;
      }

  abbrev pub push_literal : Str → ℤ → Output → Output
  push_literal type v o = record o {
    literals = o.literals ++ literal_entry o.next_id type v ∷ [];
    next_id = to_u32 (o.next_id + 1);
  }

  -- the loop of `addEncryptedString`, from `position` on, with `rounds` left
  unfoldable pub add_chars : ℕ → ℕ → Str → Output → Output
  add_chars zero position s o = o
  add_chars (suc rounds) position s o =
      add_chars rounds (position + 1) s
        (push_literal (codes "STRING_CHAR") (pos (char_or_zero s position)) o)

  -- `addEncryptedString`: the first literal's id, and one literal for each position
  unfoldable pub add_encrypted_string : Str → ℕ → Output → ℕ × Output
  unfolding add_chars
  add_encrypted_string s max_length o = (o.next_id, add_chars max_length 0 s o)

  -- the branch for a column and a string literal
  unfoldable pub build_string_node :
      Comparison → Str → Str → TableSchema → Output → Result (ℕ × Output)
  unfolding add_encrypted_string bare_name
  build_string_node op name s schema o = do
    c ← column schema (bare_name name)
    let added = add_encrypted_string s c.max_length o
    ok (
        push_node
          (record default_node {
            kind = string_kind op;
            column_name = name;
            literal_id = added.0;
            string_width = to_u32 c.max_length;
          })
          added.1)

  -- `QueryEncryptor::buildPredNode`
  unfoldable pub build_pred_node : AstExpr → TableSchema → Output → Result (ℕ × Output)
  unfolding build_string_node
  build_pred_node (AstExpr.column_ref n) schema o =
      ok (push_node (record default_node { kind = column_ref; column_name = n }) o)
  build_pred_node (int_literal v) schema o =
      let o' = push_literal (codes "INT64") v o in
      ok (push_node (record default_node { kind = literal_ref; literal_id = o.next_id }) o')
  build_pred_node (string_literal s) schema o =
      err (runtime_error (codes "QueryEncryptor: string literal must be used in a comparison"))
  build_pred_node (AstExpr.comparison op l r) schema o =
      let general = (do
        (i, o₁) ← build_pred_node l schema o
        (j, o₂) ← build_pred_node r schema o₁
        ok (
            push_node (record default_node { kind = comparison_kind op; left = i; right = j })
              o₂)) in
      elim (string_operands l r) [
        | none ↦ general
        | some (name, s) ↦ build_string_node op name s schema o
      ]
  build_pred_node (AstExpr.connective op l r) schema o = do
    (i, o₁) ← build_pred_node l schema o
    (j, o₂) ← build_pred_node r schema o₁
    ok (push_node (record default_node { kind = connective_kind op; left = i; right = j }) o₂)
  build_pred_node (AstExpr.not_expr l) schema o = do
    (i, o₁) ← build_pred_node l schema o
    ok (push_node (record default_node { kind = not_; left = i }) o₁)

  -- the output for a WHERE clause, if there is one
  unfoldable pub build_where : Option AstExpr → Catalog → Str → Result Output
  unfolding build_pred_node
  build_where none catalog table = ok no_output
  build_where (some w) catalog table = do
    schema ← get_table catalog table
    (_, o) ← build_pred_node w schema no_output
    ok o

  -- the result schema of the overload with a catalog
  unfoldable pub result_schema : Catalog → PhysicalPlan → List Str → Result (List ColumnSchema)
  unfolding qualifier_or bare_name
  result_schema catalog plan [] = ok []
  result_schema catalog plan (name ∷ names) = do
    t ← get_table catalog (
        if str_eq (qualifier_or name plan.table_alias) plan.table_alias
        then plan.table_name
        else plan.joined_table_name)
    c ← column t (bare_name name)
    rest ← result_schema catalog plan names
    ok (record { name = name; type = c.type; max_length = c.max_length } ∷ rest)

  -- the fields that both overloads copy from the plan
  abbrev pub copy_plan : PhysicalPlan → FheParamsMeta → QueryPackage
  copy_plan plan meta = record default_package {
    table_name = plan.table_name;
    table_alias = plan.table_alias;
    has_join = plan.has_join;
    joined_table_name = plan.joined_table_name;
    joined_table_alias = plan.joined_table_alias;
    join_left_column = plan.join_left_column;
    join_right_column = plan.join_right_column;
    scan_columns = plan.scan_columns;
    project_columns = plan.project_columns;
    fhe_params = meta;
  }

  -- `QueryEncryptor::encrypt`, the overload with a catalog
  unfoldable pub encrypt_query :
      SelectStatement → PhysicalPlan → Catalog → FheParamsMeta → Result QueryPackage
  unfolding result_schema build_where
  encrypt_query stmt plan catalog meta = do
    columns ← result_schema catalog plan plan.project_columns
    o ← build_where stmt.where_clause catalog plan.table_name
    ok (record (copy_plan plan meta) {
      result_schema = columns;
      predicate_nodes = o.nodes;
      encrypted_literals = o.literals;
    })
