-- ===== src/Query/Validator/Accepts.antt =====
-- The validator accepts the predicates that the encryptor builds for one table.
use native.Mathlib.Nat.{mod-eq_of_lt}
use mathlib.Core.Path.{subst}
use hega_proto.Base.{
  some_inj, ==_refl, ℕ, zero, suc, ◌+◌, ◌^◌, ◌≤◌, ◌<◌, ◌≡◌, refl, sym, ap, ◌∙◌, true, false, not,
  ◌&&◌, none, some, List, [], ◌∷◌, arith, Str, codes, str_eq, str_eq_refl, bare_name, split_dot,
  length, get_elem?, get_elem?-lt, ◌==◌,
}
use hega_proto.Base.Int.{pos}
use hega_proto.Base.Outcome.{Result, ok}
use hega_proto.Ast.{
  AstExpr, column_ref, string_literal, comparison, connective, not_expr, Comparison, Connective,
}
use hega_proto.Catalog.{Catalog, TableSchema, column, has_column}
use hega_proto.Engine.{Engine, EngineLaws}
use hega_proto.Query.{PredNode, PredNodeKind, EncryptedLiteralEntry, QueryPackage, uint32_max}
use hega_proto.Query.Encryptor.{
  char_or_zero, literal_entry, string_operands, comparison_kind, connective_kind, string_kind,
}
use hega_proto.Query.Encryptor.Growth.{NumberedFrom, find_literal-eq-get}
use hega_proto.Query.Encryptor.Represents.{
  string_node, binary_node, Represents, a_column, an_int, a_string_test, a_comparison, a_connective,
  a_not,
}
use hega_proto.Query.Validator.{
  target_table, check_binary, check_column, check_chars, has_char_literal, check_string_node,
  check_literal_ref, check_node, validate_pred_tree, is_empty,
}
use hega_proto.Sql.{IsStringTest}

-- The column is known by its name as it is written: unqualified, and not empty.
abbrev pub IsPlainColumn : TableSchema → Str → Type 0
IsPlainColumn schema n = (split_dot n ≡ none) × (has_column schema n ≡ true) × (is_empty n ≡ false)

-- Every column of the expression is a plain one, and those of string tests have type STRING.
abbrev pub HasPlainColumns : TableSchema → AstExpr → Type 0
HasPlainColumns schema (column_ref n) = IsPlainColumn schema n
HasPlainColumns schema (comparison op l r) = HasPlainColumns schema l × HasPlainColumns schema r
HasPlainColumns schema (connective op l r) = HasPlainColumns schema l × HasPlainColumns schema r
HasPlainColumns schema (not_expr l) = HasPlainColumns schema l
HasPlainColumns schema _ = Unit

string_operands-plain :
    (schema : TableSchema) (l r : AstExpr) (n s : Str)
    → string_operands l r ≡ some (n, s)
    → HasPlainColumns schema l × HasPlainColumns schema r
    → IsPlainColumn schema n
string_operands-plain schema (column_ref m) (string_literal t) n s h p =
    subst (IsPlainColumn schema) (ap (λ (q : Str × Str). q.0) (some_inj h)) p.0
string_operands-plain schema (string_literal t) (column_ref m) n s h p =
    subst (IsPlainColumn schema) (ap (λ (q : Str × Str). q.0) (some_inj h)) p.1
string_operands-plain schema _ _ n s h p = cc

bare_name-plain : (n : Str) → split_dot n ≡ none → bare_name n ≡ n
unfolding bare_name
bare_name-plain n h = rw (h, bare_name)

matches_char :
    (id : ℕ) (l : EncryptedLiteralEntry)
    → l.id ≡ id
    → l.logical_type ≡ codes "STRING_CHAR"
    → is_empty l.ciphertext_bytes ≡ false
    → (l.id == id
        && str_eq l.logical_type (codes "STRING_CHAR")
        && not (is_empty l.ciphertext_bytes))
      ≡ true
matches_char id l p q r = simp (p, q, r, ==_refl, str_eq_refl)

has_char_literal-get :
    (id i : ℕ) (ls : List EncryptedLiteralEntry) (l : EncryptedLiteralEntry)
    → get_elem? ls i ≡ some l
    → l.id ≡ id
    → l.logical_type ≡ codes "STRING_CHAR"
    → is_empty l.ciphertext_bytes ≡ false
    → has_char_literal id ls ≡ true
unfolding has_char_literal
has_char_literal-get id i [] l h p q r = cc
has_char_literal-get id zero (m ∷ ls) l h p q r =
    rw (some_inj h) (rw (matches_char id l p q r) refl)
has_char_literal-get id (suc i) (m ∷ ls) l h p q r =
    ground (arith, has_char_literal-get id i ls l h p q r)

module _ (e : Engine) (laws : EngineLaws e) (catalog : Catalog) (schema : TableSchema)
    (pkg : QueryPackage) (numbered : NumberedFrom 0 pkg.encrypted_literals)
    (no_join : pkg.has_join ≡ false) (room : length pkg.predicate_nodes < 2 ^ 32) where
  abbrev Stands : ℕ → AstExpr → Type 0
  Stands = Represents e schema pkg.predicate_nodes pkg.encrypted_literals

  serialized_nonempty : (c : e.Cipher) → is_empty (e.serialize c) ≡ false
  serialized_nonempty c = not_empty (e.serialize c) (laws.serialize_nonempty c)
    where
      not_empty : (bs : List ℕ) → (bs ≡ [] → ⊥) → is_empty bs ≡ false
      not_empty [] h = absurd (h refl)
      not_empty (b ∷ bs) h = refl

  check_chars-ok :
      (node : PredNode) (width : ℕ) (s : Str)
      → node.literal_id + width < 2 ^ 32
      → ((k : ℕ)
          → k < width
          → get_elem? pkg.encrypted_literals (node.literal_id + k)
            ≡ some (
                literal_entry e
                  (node.literal_id + k)
                  (codes "STRING_CHAR")
                  (pos (char_or_zero s k))))
      → (rounds k : ℕ) → k + rounds ≤ width
      → check_chars rounds k node pkg.encrypted_literals ≡ ok tt
  unfolding check_chars
  check_chars-ok node width s b stored zero k h = refl
  check_chars-ok node width s b stored (suc rounds) k h =
      let id = node.literal_id + k in
      let below : id < 2 ^ 32 = omega arith in
      let entry = literal_entry e id (codes "STRING_CHAR") (pos (char_or_zero s k)) in
      let found =
        ap (λ i. has_char_literal i pkg.encrypted_literals) (mod-eq_of_lt below)
        ∙ has_char_literal-get id id pkg.encrypted_literals entry (stored k (omega arith)) refl refl
            (serialized_nonempty _) in
      rw found (check_chars-ok node width s b stored rounds (k + 1) (omega arith))

  check_string_node-ok :
      (op : Comparison) (n s : Str) (first : ℕ) (test : IsStringTest schema op n s)
      → IsPlainColumn schema n
      → first + test.column_schema.max_length < 2 ^ 32
      → ((k : ℕ)
          → k < test.column_schema.max_length
          → get_elem? pkg.encrypted_literals (first + k)
            ≡ some (literal_entry e (first + k) (codes "STRING_CHAR") (pos (char_or_zero s k))))
      → check_string_node pkg schema (string_node op n first test.column_schema.max_length) ≡ ok tt
  unfolding check_string_node
  check_string_node-ok op n s first test plain b stored =
      let w = test.column_schema.max_length in
      let found = ap (column schema) (sym (bare_name-plain n plain.0)) ∙ test.found in
      let positive : (w == 0) ≡ false = let p = test.width_pos in ground arith in
      rw (plain.2, positive)
        (rw found (
          rw (test.typed, ==_refl)
            (check_chars-ok (string_node op n first w) w s b stored w 0 (omega arith))))

  check_column-ok :
      (n message : Str) → IsPlainColumn schema n → check_column catalog pkg schema n message ≡ ok tt
  unfolding check_column
  check_column-ok n message plain =
      rw (no_join, target_table) (rw (bare_name-plain n plain.0) (rw plain.1 refl))

  check_binary-ok :
      (i a b : ℕ) (kind : PredNodeKind) (message : Str) (visit : ℕ → Result (Unit {0}))
      → get_elem? pkg.predicate_nodes i ≡ some (binary_node kind a b)
      → a < i
      → b < i
      → visit a ≡ ok tt
      → visit b ≡ ok tt
      → check_binary message (binary_node kind a b) visit ≡ ok tt
  check_binary-ok i a b kind message visit at la lb p q =
      let inside = get_elem?-lt pkg.predicate_nodes i at in
      let fa : (a == uint32_max) ≡ false = ground (arith, inside, la, room) in
      let fb : (b == uint32_max) ≡ false = ground (arith, inside, lb, room) in
      rw (fa, fb) (rw (p, q) refl)

  check_node-comparison :
      (op : Comparison) (i a b : ℕ) (visit : ℕ → Result (Unit {0}))
      → get_elem? pkg.predicate_nodes i ≡ some (binary_node (comparison_kind op) a b)
      → a < i
      → b < i
      → visit a ≡ ok tt
      → visit b ≡ ok tt
      → check_node catalog pkg schema
          (comparison_kind op)
          (binary_node (comparison_kind op) a b)
          visit
        ≡ ok tt
  unfolding check_node
  check_node-comparison Comparison.equal i a b visit at la lb p q =
      check_binary-ok i a b _ _ visit at la lb p q
  check_node-comparison _ i a b visit at la lb p q = check_binary-ok i a b _ _ visit at la lb p q

  check_node-connective :
      (op : Connective) (i a b : ℕ) (visit : ℕ → Result (Unit {0}))
      → get_elem? pkg.predicate_nodes i ≡ some (binary_node (connective_kind op) a b)
      → a < i
      → b < i
      → visit a ≡ ok tt
      → visit b ≡ ok tt
      → check_node catalog pkg schema
          (connective_kind op)
          (binary_node (connective_kind op) a b)
          visit
        ≡ ok tt
  unfolding check_node
  check_node-connective Connective.and_ i a b visit at la lb p q =
      check_binary-ok i a b _ _ visit at la lb p q
  check_node-connective Connective.or_ i a b visit at la lb p q =
      check_binary-ok i a b _ _ visit at la lb p q

  check_node-string :
      (op : Comparison) (node : PredNode) (visit : ℕ → Result (Unit {0}))
      → check_string_node pkg schema node ≡ ok tt
      → check_node catalog pkg schema (string_kind op) node visit ≡ ok tt
  unfolding check_node
  check_node-string Comparison.equal node visit h = h
  check_node-string _ node visit h = h

  -- From a node that stands for an expression over plain columns, with more fuel than the node's
  -- index, the validator finds nothing wrong.
  pub validate_pred_tree-Represents :
      {i : ℕ} {x : AstExpr} (fuel : ℕ)
      → HasPlainColumns schema x
      → Stands i x
      → i < fuel
      → validate_pred_tree fuel catalog pkg schema i ≡ ok tt
  unfolding validate_pred_tree
  validate_pred_tree-Represents zero h r lt = absurd (omega arith)
  validate_pred_tree-Represents (suc fuel) h (a_column {n = n} at) lt =
      rw (at, validate_pred_tree) (unfold check_node in check_column-ok n _ h)
  validate_pred_tree-Represents (suc fuel) h (an_int {id = id} at found) lt =
      rw (at, validate_pred_tree)
        (unfold check_node check_literal_ref in
          rw (find_literal-eq-get id pkg.encrypted_literals numbered ∙ found) refl)
  validate_pred_tree-Represents (suc fuel) h
        (a_string_test {op = op} {l = l} {r = r} n s first test ops at b stored) lt =
      rw (at, validate_pred_tree)
        (check_node-string op (string_node op n first test.column_schema.max_length)
          (validate_pred_tree fuel catalog pkg schema)
          (check_string_node-ok op n s first test (string_operands-plain schema l r n s ops h) b
            stored))
  validate_pred_tree-Represents (suc fuel) h (a_comparison {op = op} a b ops operands at la lb x y)
        lt =
      rw (at, validate_pred_tree)
        (check_node-comparison op _ a b (validate_pred_tree fuel catalog pkg schema) at la lb
          (validate_pred_tree-Represents fuel h.0 x (omega arith))
          (validate_pred_tree-Represents fuel h.1 y (omega arith)))
  validate_pred_tree-Represents (suc fuel) h (a_connective {op = op} a b at la lb x y) lt =
      rw (at, validate_pred_tree)
        (check_node-connective op _ a b (validate_pred_tree fuel catalog pkg schema) at la lb
          (validate_pred_tree-Represents fuel h.0 x (omega arith))
          (validate_pred_tree-Represents fuel h.1 y (omega arith)))
  validate_pred_tree-Represents (suc fuel) h (a_not {i = i} a at la x) lt =
      let inside = get_elem?-lt pkg.predicate_nodes i at in
      let present : (a == uint32_max) ≡ false = ground (arith, inside, la, room) in
      rw (at, validate_pred_tree)
        (unfold check_node in rw present (validate_pred_tree-Represents fuel h x (omega arith)))
