-- ===== src/Execution/Meaning.antt =====
-- The expression that the server rebuilds from the encryptor's nodes, at one row of the table.
use hega_proto.Base.{
  All-split, Option, none, true, split_dot, ℕ, zero, suc, ◌+◌, ◌^◌, ◌≤◌, ◌<◌, ◌≡◌, refl, ap, ◌∙◌,
  Bool, some, List, [], ◌∷◌, arith, Str, codes, str_eq, bare_name, length, get_elem?, All,
}
use hega_proto.Base.Int.{pos, negsuc}
use mathlib.Core.Path.{subst}
use hega_proto.Base.Outcome.{Result, ok, Gives}
use hega_proto.Ast.{
  Comparison, equal, not_equal, greater_than, less_than, greater_equal, less_equal, Connective,
  and_, or_, AstExpr, column_ref, int_literal, string_literal, comparison, connective, not_expr,
}
use hega_proto.Catalog.{TableSchema, column}
use hega_proto.Engine.{Engine, EngineLaws, encrypt_scalar, bit, max_value}
use hega_proto.Query.{QueryPackage}
use hega_proto.Query.Encryptor.{char_or_zero, comparison_kind, connective_kind, literal_entry}
use hega_proto.Query.Encryptor.Growth.{NumberedFrom, find_literal-eq-get}
use hega_proto.Query.Encryptor.Represents.{
  string_node, binary_node, Represents, a_column, an_int, a_string_test, a_comparison, a_connective,
  a_not,
}
use hega_proto.Sql.{Row, operand, negate_if_ne, holds, IsOperand, IsPredicate, IsStringTest}
use hega_proto.Execution.Predicate.{
  build_expression, build_node, build_string, combine_all, build_literal,
}
use hega_proto.Execution.Combine.{IsBit, product, value-combine}
use hega_proto.Execution.Characters.{agree-str_eq, char_comparisons-agree}
use hega_proto.Planner.{contains}
use hega_proto.Planner.Columns.{columns_of}
use hega_proto.Execution.Reads.{
  Reads, Reads-not, Reads-column_ref, Reads-enc_literal, Reads-composed, Reads-connected,
  build_string-Reads,
}
use hega_proto.Execution.Composed.{composed, connected, value-not, value-composed, value-connected}
use hega_proto.Execution.Stored.{
  IsStored, IsStoredText, IsNumberColumn, IsPlainComparison, IsPlainClause, string_operands-All,
  values_of, value-present, present,
}

module _ (e : Engine) (laws : EngineLaws e) (schema : TableSchema) (scan : List Str) (row : Row)
    (batch : Str → Option ℕ) (stored : IsStored e schema scan row batch) (pkg : QueryPackage)
    (numbered : NumberedFrom 0 pkg.encrypted_literals) where
  abbrev physical : Str → ℕ
  physical = values_of batch

  abbrev at_row : e.Expression → ℕ
  at_row = e.value physical

  abbrev IsPresent : Str → Type 0
  IsPresent c = batch c ≡ some (physical c)

  -- Each column of the expression is scanned.
  abbrev IsScanned : AstExpr → Type 0
  IsScanned x = All (λ c. contains c scan ≡ true) (columns_of x)

  abbrev Stands : ℕ → AstExpr → Type 0
  Stands = Represents e schema pkg.predicate_nodes pkg.encrypted_literals

  -- The server rebuilds, from node `i`, an expression with value `v` at the row, of columns that are
  -- in the batch.
  pub record Yields (fuel i v : ℕ) : Type 0 where
    pub expression : e.Expression
    pub rebuilt : build_expression e fuel pkg i ≡ ok expression
    pub value : at_row expression ≡ v
    pub reads : Reads e laws physical IsPresent expression

  operand_bound :
      (x : AstExpr)
      → IsOperand x
      → IsNumberColumn schema x
      → IsScanned x
      → operand row x ≤ max_value
  operand_bound (column_ref n) h (plain, c, found, typed) scanned =
      (stored.number n c scanned.0 found typed).1
  operand_bound (int_literal (pos n)) h k scanned = h
  operand_bound (int_literal (negsuc n)) h k scanned = absurd h
  operand_bound (string_literal s) h k scanned = absurd h
  operand_bound (comparison op l r) h k scanned = absurd h
  operand_bound (connective op l r) h k scanned = absurd h
  operand_bound (not_expr l) h k scanned = absurd h

  operand-Yields :
      {i : ℕ} {x : AstExpr} (fuel : ℕ)
      → IsOperand x
      → IsNumberColumn schema x
      → IsScanned x
      → Stands i x
      → i < fuel
      → Yields fuel i (operand row x)
  unfolding build_expression
  operand-Yields zero h k scanned r lt = absurd (omega arith)
  operand-Yields (suc fuel) h k scanned (a_column {n = n} at) lt =
      let (plain, c, is_column, typed) = k in
      let held = (stored.number n c scanned.0 is_column typed).0 in
      record {
        expression = e.column_ref n;
        rebuilt = rw (at, build_expression);
        value = laws.value-column_ref physical n ∙ value-present batch n held;
        reads = Reads-column_ref e laws physical IsPresent n (present batch n held);
      }
  operand-Yields (suc fuel) h k scanned (an_int {id = id} {n = n} at found) lt =
      let ct = encrypt_scalar e id (pos n) in
      record {
        expression = e.enc_literal (e.deserialize_with_size (e.serialize ct) (e.logical_size ct));
        rebuilt =
            rw (at, build_expression)
              (rw (find_literal-eq-get id pkg.encrypted_literals numbered ∙ found, build_literal));
        value =
            ap (λ c. at_row (e.enc_literal c)) (laws.deserialize-serialize ct)
            ∙ laws.value-enc_literal physical id n h;
        reads = Reads-enc_literal e laws physical IsPresent _;
      }
  operand-Yields (suc fuel) h k scanned (a_string_test n s first test ops at b ls) lt = absurd h
  operand-Yields (suc fuel) h k scanned (a_comparison a b ops operands at la lb l r) lt = absurd h
  operand-Yields (suc fuel) h k scanned (a_connective a b at la lb l r) lt = absurd h
  operand-Yields (suc fuel) h k scanned (a_not a at la l) lt = absurd h

  build_node-comparison :
      (op : Comparison) (a b : ℕ) (build : ℕ → Result e.Expression)
      → {l r : e.Expression} → build a ≡ ok l
      → build b ≡ ok r
      → build_node e
          (comparison_kind op)
          (binary_node (comparison_kind op) a b)
          pkg.encrypted_literals
          build
        ≡ ok (composed e laws physical op l r)
  unfolding build_node
  build_node-comparison equal a b build p q = rw (p, q) refl
  build_node-comparison not_equal a b build p q = rw (p, q) refl
  build_node-comparison greater_than a b build p q = rw (p, q) refl
  build_node-comparison less_than a b build p q = rw (p, q) refl
  build_node-comparison greater_equal a b build p q = rw (p, q) refl
  build_node-comparison less_equal a b build p q = rw (p, q) refl

  build_node-connective :
      (op : Connective) (a b : ℕ) (build : ℕ → Result e.Expression)
      → {l r : e.Expression} → build a ≡ ok l
      → build b ≡ ok r
      → build_node e
          (connective_kind op)
          (binary_node (connective_kind op) a b)
          pkg.encrypted_literals
          build
        ≡ ok (connected e laws physical op l r)
  unfolding build_node
  build_node-connective and_ a b build p q = rw (p, q) refl
  build_node-connective or_ a b build p q = rw (p, q) refl

  combine_all-value :
      (cs : List e.Expression)
      → 0 < length cs
      → All (IsBit e laws physical) cs
      → (x : e.Expression) × (combine_all e cs ≡ ok x) × (at_row x ≡ product e laws physical cs)
  combine_all-value [] h bits = absurd (omega arith)
  combine_all-value (c ∷ cs) h bits =
      (_, refl, value-combine e laws physical (length cs) c cs (omega arith) bits)

  -- The conjunction over the characters of a string test is the equality of the texts.
  build_string-value :
      (op : Comparison) (n s : Str) (first : ℕ) (test : IsStringTest schema op n s)
      → IsStoredText e test.column_schema n (row.text n) batch
      → first + test.column_schema.max_length < 2 ^ 32
      → ((k : ℕ)
          → k < test.column_schema.max_length
          → get_elem? pkg.encrypted_literals (first + k)
            ≡ some (literal_entry e (first + k) (codes "STRING_CHAR") (pos (char_or_zero s k))))
      → (x : e.Expression) × (build_string e
            (string_node op n first test.column_schema.max_length)
            pkg.encrypted_literals
          ≡ ok x)
        × (at_row x ≡ bit (str_eq (row.text n) s))
        × Reads e laws physical IsPresent x
  unfolding build_string
  build_string-value op n s first test (text_fits, text_ascii, held) room ls =
      let w = test.column_schema.max_length in
      let t = row.text n in
      let (cs, made, count, bits, total) =
        char_comparisons-agree e laws physical (string_node op n first w) pkg.encrypted_literals
          numbered w s t ls room (λ k lt. value-present batch _ (held k lt)) test.ascii text_ascii w
          0 (omega arith) in
      let (x, combined, value) = combine_all-value cs (omega (arith, count, test.width_pos)) bits in
      let same = agree-str_eq w t s text_fits test.fits text_ascii test.ascii in
      let rebuilt : build_string e (string_node op n first w) pkg.encrypted_literals ≡ ok x =
        rw made combined in
      let reads = subst (Gives (Reads e laws physical IsPresent)) rebuilt (
        build_string-Reads e laws physical IsPresent (string_node op n first w)
          pkg.encrypted_literals (λ k lt. present batch _ (held k lt))) in
      (x, rebuilt, value ∙ total ∙ ap bit same, reads)

  abbrev string_composed : Comparison → e.Expression → e.Expression
  string_composed equal x = x
  string_composed _ x = e.not_expr x

  value-string_composed :
      (op : Comparison) (x : e.Expression) (b : Bool)
      → at_row x ≡ bit b
      → at_row (string_composed op x) ≡ bit (negate_if_ne op b)
  value-string_composed equal x b p = p
  value-string_composed _ x b p = value-not e laws physical x b p

  Reads-string_composed :
      (op : Comparison) (x : e.Expression)
      → Reads e laws physical IsPresent x
      → Reads e laws physical IsPresent (string_composed op x)
  Reads-string_composed equal x p = p
  Reads-string_composed _ x p = Reads-not e laws physical IsPresent x p

  build_node-string :
      (op : Comparison) (n : Str) (first w : ℕ) (build : ℕ → Result e.Expression)
      → {x : e.Expression} → build_string e (string_node op n first w) pkg.encrypted_literals ≡ ok x
      → build_node e
          (string_node op n first w).kind
          (string_node op n first w)
          pkg.encrypted_literals
          build
        ≡ ok (string_composed op x)
  unfolding build_node
  build_node-string equal n first w build p = p
  build_node-string _ n first w build p = rw p refl

  -- From the root of the nodes of a supported predicate, with more fuel than the root's index, the
  -- server rebuilds an expression whose value at the row is 1 if the predicate holds, and else 0.
  pub predicate-Yields :
      {i : ℕ} {x : AstExpr} (fuel : ℕ)
      → IsPredicate schema x
      → IsPlainClause schema x
      → IsScanned x
      → Stands i x
      → i < fuel
      → Yields fuel i (bit (holds row x))
  unfolding build_expression holds bare_name
  predicate-Yields zero h k scanned r lt = absurd (omega arith)
  predicate-Yields (suc fuel) h k scanned (a_column at) lt = absurd h
  predicate-Yields (suc fuel) h k scanned (an_int at found) lt = absurd h
  predicate-Yields (suc fuel) h k scanned
        (a_string_test {op = op} {l = l} {r = r} n s first test ops at room ls) lt =
      let plain : split_dot n ≡ none = subst (IsPlainComparison schema l r) ops k in
      let named : column schema n ≡ ok test.column_schema =
        subst (λ m. column schema m ≡ ok test.column_schema) (rw (plain, bare_name) refl)
          test.found in
      let held =
        stored.text n test.column_schema (string_operands-All _ l r n s ops scanned) named
          test.typed in
      let (x, rebuilt, value, reads) = build_string-value op n s first test held room ls in
      record {
        expression = string_composed op x;
        rebuilt =
            rw (at, build_expression)
              (build_node-string op n first test.column_schema.max_length
                (build_expression e fuel pkg) rebuilt);
        value = rw (ops, holds) (value-string_composed op x (str_eq (row.text n) s) value);
        reads = Reads-string_composed op x reads;
      }
  predicate-Yields (suc fuel) h k scanned
        (a_comparison {op = op} {l = l} {r = r} a b ops operands at la lb x y) lt =
      let numbers : IsNumberColumn schema l × IsNumberColumn schema r =
        subst (IsPlainComparison schema l r) ops k in
      let (scanned_l, scanned_r) = All-split _ (columns_of l) (columns_of r) scanned in
      let left = operand-Yields fuel operands.0 numbers.0 scanned_l x (omega arith) in
      let right = operand-Yields fuel operands.1 numbers.1 scanned_r y (omega arith) in
      record {
        expression = composed e laws physical op left.expression right.expression;
        rebuilt =
            rw (at, build_expression)
              (build_node-comparison op a b (build_expression e fuel pkg) left.rebuilt
                right.rebuilt);
        value =
            rw (ops, holds)
              (value-composed e laws physical op left.expression right.expression (operand row l)
                (operand row r) left.value right.value
                (operand_bound l operands.0 numbers.0 scanned_l)
                (operand_bound r operands.1 numbers.1 scanned_r));
        reads =
            Reads-composed e laws physical IsPresent op left.expression right.expression left.reads
              right.reads;
      }
  predicate-Yields (suc fuel) h k scanned (a_connective {op = op} {l = l} {r = r} a b at la lb x y)
        lt =
      let (scanned_l, scanned_r) = All-split _ (columns_of l) (columns_of r) scanned in
      let left = predicate-Yields fuel h.0 k.0 scanned_l x (omega arith) in
      let right = predicate-Yields fuel h.1 k.1 scanned_r y (omega arith) in
      record {
        expression = connected e laws physical op left.expression right.expression;
        rebuilt =
            rw (at, build_expression)
              (build_node-connective op a b (build_expression e fuel pkg) left.rebuilt
                right.rebuilt);
        value =
            value-connected e laws physical op left.expression right.expression (holds row l)
              (holds row r) left.value right.value;
        reads =
            Reads-connected e laws physical IsPresent op left.expression right.expression left.reads
              right.reads;
      }
  predicate-Yields (suc fuel) h k scanned (a_not {l = l} a at la x) lt =
      let inner = predicate-Yields fuel h k scanned x (omega arith) in
      record {
        expression = e.not_expr inner.expression;
        rebuilt = rw (at, build_expression) (rw inner.rebuilt refl);
        value = value-not e laws physical inner.expression (holds row l) inner.value;
        reads = Reads-not e laws physical IsPresent inner.expression inner.reads;
      }
