-- ===== src/Semantic/Accepts.antt =====
-- What the analyzer's acceptance says of the WHERE clause: it is one of the predicates that the
-- encryptor and the server support, up to the bounds of its literals, which the analyzer cannot see.
use hega_proto.Base.{
  ◌≤◌, ◌<◌, ◌^◌, ◌≡◌, refl, sym, ap, ◌∙◌, true, not, ◌&&◌, ◌||◌, some, inl, inr, List, [], ◌∷◌,
  arith, Str, codes, str_eq, split_dot, bare_name, length, All, some_inj, ltb, ◌==◌, Bool-cases,
  Option-cases,
}
use hega_proto.Base.Int.{pos, negsuc}
use hega_proto.Base.Dict.{Dict, insert}
use hega_proto.Base.Outcome.{
  ok, ◌>>=◌, ◌>>◌, guard, >>=-eq-ok, Error, semantic_error, guard->>-ok, rest-ok, guard-eq-ok,
  ok_inj,
}
use hega_proto.Ast.{
  Comparison, equal, not_equal, AstExpr, column_ref, int_literal, string_literal, comparison,
  connective, not_expr, SelectStatement, is_string,
}
use hega_proto.Catalog.{
  Catalog, ColumnSchema, TableSchema, is_string_type, get_table, column, find_column, has_column,
  has_table,
}
use hega_proto.Engine.{max_value}
use hega_proto.Query.Encryptor.{string_operands}
use hega_proto.Sql.{IsCharacter, IsEqualityTest, IsStringTest, IsComparison, IsPredicate}
use hega_proto.Semantic.{
  validate_expr, validate_where, analyze, check_limit, scope_name, add_scopes, resolve_all,
  validate_joins, resolve_order,
}
use hega_proto.Semantic.Compare.{
  is_equality, resolve_operand, resolve_joined, check_string_test, check_literal_type,
  validate_comparison, check_shape, check_known, check_ordering,
}
use hega_proto.Semantic.Throws.{when, is_empty_name, quoted}

-- What the parser gives for a WHERE clause: comparisons under AND, OR and NOT.
abbrev pub IsCondition : AstExpr → Type 0
IsCondition (comparison op l r) = Unit
IsCondition (connective op l r) = IsCondition l × IsCondition r
IsCondition (not_expr l) = IsCondition l
IsCondition _ = ⊥

-- Integer literals in [0, 128], and text literals of ASCII characters.
abbrev pub HasBoundedLiterals : AstExpr → Type 0
HasBoundedLiterals (int_literal (pos n)) = n ≤ max_value
HasBoundedLiterals (int_literal (negsuc n)) = ⊥
HasBoundedLiterals (string_literal s) = All IsCharacter s
HasBoundedLiterals (column_ref n) = Unit
HasBoundedLiterals (comparison op l r) = HasBoundedLiterals l × HasBoundedLiterals r
HasBoundedLiterals (connective op l r) = HasBoundedLiterals l × HasBoundedLiterals r
HasBoundedLiterals (not_expr l) = HasBoundedLiterals l

-- The widths of the columns fit the package's 32-bit field.
abbrev pub HasNarrowColumns : TableSchema → Type 0
HasNarrowColumns schema = All (λ c. c.max_length < 2 ^ 32) schema.columns

find_column-All :
    (n : Str) (cs : List ColumnSchema) {c : ColumnSchema}
    → All (λ d. d.max_length < 2 ^ 32) cs
    → find_column n cs ≡ some c
    → c.max_length < 2 ^ 32
unfolding find_column
find_column-All n [] h e = cc
find_column-All n (d ∷ cs) h e = elim (Bool-cases (str_eq d.name n)) [
  | inl same ↦
      let it = some_inj (rw same at e) in
      omega (arith, h.0, ap (λ (x : ColumnSchema). x.max_length) it)
  | inr other ↦ find_column-All n cs h.1 (rw other at e)
]

column-narrow :
    (schema : TableSchema) (n : Str) {c : ColumnSchema}
    → HasNarrowColumns schema
    → column schema n ≡ ok c
    → c.max_length < 2 ^ 32
unfolding column
column-narrow schema n h e = elim (Option-cases (find_column n schema.columns)) [
  | inl missing ↦ cc (rw missing at e)
  | inr (d, found) ↦
      let it = ok_inj (rw found at e) in
      let small = find_column-All n schema.columns h found in
      omega (arith, small, ap (λ (x : ColumnSchema). x.max_length) it)
]

module _ (catalog : Catalog) (stmt : SelectStatement) (schema : TableSchema)
    (single : stmt.joins ≡ []) (table : get_table catalog stmt.table_name ≡ ok schema)
    (narrow : HasNarrowColumns schema) where
  -- Without JOIN, an operand that resolves is a column of the table, by its bare name.
  resolve_operand-column :
      (n : Str) {c : ColumnSchema}
      → resolve_operand catalog stmt n ≡ ok c
      → column schema (bare_name n) ≡ ok c
  unfolding resolve_operand bare_name resolve_joined
  resolve_operand-column n {c} e = elim (Option-cases (split_dot n)) [
    | inl bare ↦
        let e' : (guard (has_column schema n) _ >>= λ _. column schema n) ≡ ok c =
          rw (bare, resolve_operand, table) at e in
        let (_, _, found) = >>=-eq-ok (guard (has_column schema n) _) (λ _. column schema n) e' in
        rw (bare, bare_name) found
    | inr ((alias, name), dotted) ↦
        elim (Bool-cases (
          str_eq alias stmt.table_alias
          || (is_empty_name stmt.table_alias && str_eq alias stmt.table_name))) [
            | inl own ↦ rw (dotted, bare_name) (rw (dotted, resolve_operand, own, table) at e)
            | inr other ↦ cc (rw (dotted, resolve_operand, other, single) at e)
          ]
  ]

  is_equality-IsEqualityTest : (op : Comparison) → is_equality op ≡ true → IsEqualityTest op
  is_equality-IsEqualityTest equal e = inl refl
  is_equality-IsEqualityTest not_equal e = inr refl
  is_equality-IsEqualityTest _ e = cc

  -- What the checks of a string comparison ask for is what the encryptor needs.
  string_test :
      (op : Comparison) (n s : Str) (x y z : Error) {u : Unit {0}}
      → All IsCharacter s
      → (guard (is_equality op) x
          >> (resolve_operand catalog stmt n >>= λ c.
              guard (is_string_type c.type) y
              >> guard (not (c.max_length == 0 || ltb c.max_length (length s))) z))
        ≡ ok u
      → IsStringTest schema op n s
  string_test op n s x y z ascii e =
      let (eq, e₁) = guard->>-ok (is_equality op) x _ e in
      let (c, resolved, e₂) =
        >>=-eq-ok (resolve_operand catalog stmt n)
          (λ c.
            guard (is_string_type c.type) y
            >> guard (not (c.max_length == 0 || ltb c.max_length (length s))) z)
          e₁ in
      let (typed, e₃) =
        guard->>-ok (is_string_type c.type) y
          (guard (not (c.max_length == 0 || ltb c.max_length (length s))) z) e₂ in
      let room = guard-eq-ok (not (c.max_length == 0 || ltb c.max_length (length s))) z e₃ in
      let found = resolve_operand-column n resolved in
      record {
        column_schema = c;
        found = found;
        typed = typed;
        op_ok = is_equality-IsEqualityTest op eq;
        fits = ground arith;
        width_pos = ground arith;
        width_u32 = column-narrow schema (bare_name n) narrow found;
        ascii = ascii;
      }

  string_branch :
      (op : Comparison) (l r : AstExpr) {u : Unit {0}}
      → (is_string l || is_string r) ≡ true
      → validate_comparison catalog stmt op l r ≡ ok u
      → check_string_test catalog stmt op l r ≡ ok u
  unfolding validate_comparison
  string_branch op l r {u} texts e =
      let e₁ = rest-ok (check_shape op l r) _ e in
      let e₂ = rest-ok (check_known catalog stmt l) _ e₁ in
      let e₃ = rest-ok (check_known catalog stmt r) _ e₂ in
      let e₄ = rest-ok (check_literal_type catalog stmt l r) _ e₃ in
      let e₅ = rest-ok (check_literal_type catalog stmt r l) _ e₄ in
      let e₆ : when (is_string l || is_string r) (check_string_test catalog stmt op l r) ≡ ok u =
        rest-ok (check_ordering catalog stmt op l r) _ e₅ in
      rw texts at e₆

  comparison-IsComparison :
      (op : Comparison) (l r : AstExpr) {u : Unit {0}}
      → HasBoundedLiterals l
      → HasBoundedLiterals r
      → validate_comparison catalog stmt op l r ≡ ok u
      → IsComparison schema op l r (string_operands l r)
  unfolding validate_comparison check_string_test
  comparison-IsComparison op (column_ref n) (column_ref m) hl hr e = (tt, tt)
  comparison-IsComparison op (column_ref n) (int_literal (pos v)) hl hr e = (tt, hr)
  comparison-IsComparison op (column_ref n) (int_literal (negsuc v)) hl hr e = absurd hr
  comparison-IsComparison op (int_literal (pos v)) (column_ref n) hl hr e = (hl, tt)
  comparison-IsComparison op (int_literal (negsuc v)) r hl hr e = absurd hl
  comparison-IsComparison op (column_ref n) (string_literal s) hl hr e =
      string_test op n s _ _ _ hr (string_branch op (column_ref n) (string_literal s) refl e)
  comparison-IsComparison op (string_literal s) (column_ref n) hl hr e =
      string_test op n s _ _ _ hl (string_branch op (string_literal s) (column_ref n) refl e)
  comparison-IsComparison op _ _ hl hr e = cc

  -- An accepted condition with bounded literals is a supported predicate.
  validate_expr-IsPredicate :
      (x : AstExpr) {u : Unit {0}}
      → IsCondition x
      → HasBoundedLiterals x
      → validate_expr catalog stmt x ≡ ok u
      → IsPredicate schema x
  unfolding validate_expr
  validate_expr-IsPredicate (comparison op l r) c h e = comparison-IsComparison op l r h.0 h.1 e
  validate_expr-IsPredicate (connective op l r) c h e =
      let (_, first, second) =
        >>=-eq-ok (validate_expr catalog stmt l) (λ _. validate_expr catalog stmt r) e in
      (validate_expr-IsPredicate l c.0 h.0 first, validate_expr-IsPredicate r c.1 h.1 second)
  validate_expr-IsPredicate (not_expr l) c h e = validate_expr-IsPredicate l c h e
  validate_expr-IsPredicate (column_ref n) c h e = absurd c
  validate_expr-IsPredicate (int_literal v) c h e = absurd c
  validate_expr-IsPredicate (string_literal s) c h e = absurd c

-- The checks that an accepted statement has passed.
pub record IsAccepted (catalog : Catalog) (stmt : SelectStatement) (schema : TableSchema)
    : Type 0 where
  pub table : get_table catalog stmt.table_name ≡ ok schema
  pub scopes : Dict TableSchema
  pub scoped : add_scopes catalog stmt.joins (insert (scope_name stmt) schema []) ≡ ok scopes
  pub projections : resolve_all scopes stmt.projections ≡ ok tt
  pub clause : validate_where catalog stmt stmt.where_clause ≡ ok tt
  pub order : resolve_order scopes stmt.order_by_columns ≡ ok tt

pub analyze-IsAccepted :
    (catalog : Catalog) (stmt : SelectStatement) (schema : TableSchema)
    → analyze catalog stmt ≡ ok schema
    → IsAccepted catalog stmt schema
unfolding analyze
analyze-IsAccepted catalog stmt schema e =
    let e₁ =
      rest-ok
        (guard (not (is_empty_name stmt.table_name)) (semantic_error (codes "No table specified")))
        _ e in
    let e₂ =
      rest-ok
        (guard (has_table catalog stmt.table_name) (quoted (codes "Unknown table") stmt.table_name))
        _ e₁ in
    let (t, table, e₃) = >>=-eq-ok (get_table catalog stmt.table_name) _ e₂ in
    let (scopes, scoped, e₄) =
      >>=-eq-ok (add_scopes catalog stmt.joins (insert (scope_name stmt) t [])) _ e₃ in
    let (_, projections, e₅) = >>=-eq-ok (resolve_all scopes stmt.projections) _ e₄ in
    let (_, clause, e₆) = >>=-eq-ok (validate_where catalog stmt stmt.where_clause) _ e₅ in
    let e₇ = rest-ok (validate_joins scopes stmt.joins) _ e₆ in
    let (_, order, e₈) = >>=-eq-ok (resolve_order scopes stmt.order_by_columns) _ e₇ in
    let same : t ≡ schema = ok_inj (rest-ok (check_limit stmt) (ok t) e₈) in
    record {
      table = table ∙ ap ok same;
      scopes = scopes;
      scoped =
          ap (λ (s : TableSchema). add_scopes catalog stmt.joins (insert (scope_name stmt) s []))
            (sym same)
          ∙ scoped;
      projections = projections;
      clause = clause;
      order = order;
    }

-- If the analyzer accepts a statement without JOIN, it returns the schema that the catalog holds for
-- the table; and the WHERE clause is then a predicate that the encryptor and the server support, if
-- its leaves are comparisons, its integers lie in [0, 128], its texts are ASCII and the widths of
-- the columns fit 32 bits.
pub analyze-IsPredicate :
    (catalog : Catalog) (stmt : SelectStatement) (schema : TableSchema) (x : AstExpr)
    → analyze catalog stmt ≡ ok schema
    → stmt.joins ≡ []
    → stmt.where_clause ≡ some x
    → HasNarrowColumns schema
    → IsCondition x
    → HasBoundedLiterals x
    → (get_table catalog stmt.table_name ≡ ok schema) × IsPredicate schema x
analyze-IsPredicate catalog stmt schema x e single clause narrow c h =
    let accepted = analyze-IsAccepted catalog stmt schema e in
    (
      accepted.table,
      validate_expr-IsPredicate catalog stmt schema single accepted.table narrow x c h
          (sym (ap (validate_where catalog stmt) clause) ∙ accepted.clause),
    )
