-- ===== src/Query/Encryptor/Builds.antt =====
-- `buildPredNode` succeeds on every supported clause, with nodes that stand for it.
use Prim.Native.Nat.add
use native.Mathlib.Nat.{mod-eq_of_lt}
use mathlib.Core.Path.{subst}
use hega_proto.Base.{
  ℕ, ◌+◌, ◌^◌, ◌<◌, ◌≡◌, refl, sym, ap, ◌∙◌, Option, none, some, [], ◌∷◌, ◌++◌, arith, Str, codes,
  length, get_elem?, length-append, get_elem?-last, bare_name,
}
use hega_proto.Base.Int.{pos, negsuc}
use hega_proto.Base.Outcome.{ok}
use hega_proto.Ast.{
  AstExpr, column_ref, int_literal, string_literal, comparison, connective, not_expr, Comparison,
  Connective,
}
use hega_proto.Catalog.{TableSchema, ColumnSchema, column}
use hega_proto.Engine.{Engine}
use hega_proto.Query.{PredNodeKind, PredNode, to_u32}
use hega_proto.Query.Encryptor.{
  Output, push_node, push_literal, literal_entry, add_chars, char_or_zero, build_pred_node,
  string_operands, comparison_kind, connective_kind,
}
use hega_proto.Query.Encryptor.Growth.{
  Extends-trans, Extends-push_node, Extends-push_literal, Extends-add_chars, IsNumbered,
  push_literal-IsNumbered, add_chars-IsNumbered, get-add_chars,
}
use hega_proto.Query.Encryptor.Represents.{
  column_node, literal_node, string_node, binary_node, unary_node, Represents, Represents-extend,
  a_column, an_int, a_string_test, a_comparison, a_connective, a_not, width_of, node_count,
  literal_count, IsBuilt, HasRoom,
}
use hega_proto.Sql.{IsOperand, IsComparison, IsPredicate, IsStringTest}

-- A pushed node, with its 32-bit fields and its 32-bit index put right.
ok-push_node :
    (n n' : PredNode) (o : Output) (i : ℕ)
    → n ≡ n'
    → to_u32 (length o.nodes) ≡ i
    → ok (push_node n o) ≡ ok (i, (push_node n' o).1)
ok-push_node n n' o i p q = λ k. ok (q k, (push_node (p k) o).1)

IsNumbered-push_node : (n : PredNode) (o : Output) → IsNumbered o → IsNumbered (push_node n o).1
IsNumbered-push_node n o h = record { next = h.next; ids = h.ids }

module _ (e : Engine) (schema : TableSchema) where
  build_column :
      (n : Str) (o : Output)
      → IsNumbered o
      → HasRoom e schema (column_ref n) o
      → IsBuilt e schema (column_ref n) o
  unfolding build_pred_node node_count literal_count
  build_column n o num room =
      let grown = length-append o.nodes (column_node n ∷ []) in
      record {
        index = length o.nodes;
        output = (push_node (column_node n) o).1;
        built = ap (λ i. ok (i, (push_node (column_node n) o).1)) (mod-eq_of_lt (omega arith));
        represents = a_column (get_elem?-last o.nodes (column_node n));
        extends = Extends-push_node (column_node n) o;
        numbered = IsNumbered-push_node (column_node n) o num;
        last = omega (arith, grown);
        node_total = omega (arith, grown);
        literal_total = omega arith;
      }

  build_int :
      (n : ℕ) (o : Output)
      → IsNumbered o
      → HasRoom e schema (int_literal (pos n)) o
      → IsBuilt e schema (int_literal (pos n)) o
  unfolding build_pred_node node_count literal_count
  build_int n o num room =
      let node = literal_node o.next_id in
      let o₁ = push_literal e (codes "INT64") (pos n) o in
      let entry = literal_entry e o.next_id (codes "INT64") (pos n) in
      let grown = length-append o.nodes (node ∷ []) in
      let more = length-append o.literals (entry ∷ []) in
      let num₁ = push_literal-IsNumbered e (codes "INT64") (pos n) o num room.1 in
      record {
        index = length o.nodes;
        output = (push_node node o₁).1;
        built = ap (λ i. ok (i, (push_node node o₁).1)) (mod-eq_of_lt (omega arith));
        represents = an_int (get_elem?-last o.nodes node) (
            subst (λ id. get_elem? o₁.literals id ≡ some entry) (sym num.next)
              (get_elem?-last o.literals entry));
        extends =
            Extends-trans (Extends-push_literal e (codes "INT64") (pos n) o)
              (Extends-push_node node o₁);
        numbered = IsNumbered-push_node node o₁ num₁;
        last = omega (arith, grown);
        node_total = omega (arith, grown);
        literal_total = omega (arith, more);
      }

  width_of-found :
      (n : Str) (c : ColumnSchema)
      → column schema (bare_name n) ≡ ok c
      → width_of e schema n ≡ c.max_length
  width_of-found n c h = ground (arith, h)

  build_string :
      (op : Comparison) (l r : AstExpr) (n s : Str) (o : Output)
      → string_operands l r ≡ some (n, s)
      → IsStringTest schema op n s
      → IsNumbered o
      → (length o.nodes + 1 < 2 ^ 32) × (length o.literals + width_of e schema n < 2 ^ 32)
      → IsBuilt e schema (comparison op l r) o
  unfolding build_pred_node node_count literal_count
  build_string op l r n s o ops test num room =
      let w = test.column_schema.max_length in
      let node = string_node op n o.next_id w in
      let o₁ = add_chars e w 0 s o in
      let width = width_of-found n test.column_schema test.found in
      let bound : length o.literals + w < 2 ^ 32 = omega (arith, width, room.1) in
      let (num₁, more, same) = add_chars-IsNumbered e w 0 s o num bound in
      let grown = length-append o₁.nodes (node ∷ []) in
      let kept = ap {B = ℕ} length same in
      let here : length o₁.nodes ≡ length o.nodes = kept in
      record {
        index = length o.nodes;
        output = (push_node node o₁).1;
        built =
            rw (ops, build_pred_node)
              (rw test.found (
                ok-push_node _ node o₁ (length o.nodes)
                  (ap (string_node op n o.next_id) (mod-eq_of_lt test.width_u32))
                  (mod-eq_of_lt (omega arith) ∙ kept)));
        represents =
            a_string_test n s o.next_id test ops
              (subst (λ i. get_elem? (o₁.nodes ++ node ∷ []) i ≡ some node) kept
                (get_elem?-last o₁.nodes node))
              (omega (arith, num.next))
              λ k lt.
                subst
                  (λ id.
                    get_elem? o₁.literals (id + k)
                    ≡ some
                        (literal_entry e (id + k) (codes "STRING_CHAR") (pos (char_or_zero s k))))
                  (sym num.next) (rw add.zero at (get-add_chars e w 0 s o num bound k lt));
        extends = Extends-trans (Extends-add_chars e w 0 s o) (Extends-push_node node o₁);
        numbered = IsNumbered-push_node node o₁ num₁;
        last = omega (arith, grown, kept);
        node_total = rw (ops, node_count) (omega (arith, grown, kept));
        literal_total = rw (ops, literal_count) (omega (arith, more, width));
      }

  module _ {l r : AstExpr} {o : Output} (left : IsBuilt e schema l o)
      (right : IsBuilt e schema r left.output) where
    -- the node of two children, behind both of them
    abbrev with_children : PredNodeKind → Output
    with_children kind = (push_node (binary_node kind left.index right.index) right.output).1

    children_left : Represents e schema right.output.nodes right.output.literals left.index l
    children_left = Represents-extend e schema right.extends left.represents

    build_comparison :
        (op : Comparison)
        → string_operands l r ≡ none
        → IsOperand l × IsOperand r
        → length right.output.nodes + 1 < 2 ^ 32
        → IsBuilt e schema (comparison op l r) o
    unfolding build_pred_node node_count literal_count
    build_comparison op ops operands room =
        let o₂ = right.output in
        let node = binary_node (comparison_kind op) left.index right.index in
        let grown = length-append o₂.nodes (node ∷ []) in
        let push = Extends-push_node node o₂ in
        record {
          index = length o₂.nodes;
          output = with_children (comparison_kind op);
          built =
              rw (ops, build_pred_node)
                (rw (left.built, right.built)
                  (ok-push_node node node o₂ (length o₂.nodes) refl (mod-eq_of_lt (omega arith))));
          represents =
              a_comparison left.index right.index ops operands (get_elem?-last o₂.nodes node)
                (omega (arith, left.last, right.extends.node_length)) (omega (arith, right.last))
                (Represents-extend e schema push children_left)
                (Represents-extend e schema push right.represents);
          extends = Extends-trans left.extends (Extends-trans right.extends push);
          numbered = IsNumbered-push_node node o₂ right.numbered;
          last = omega (arith, grown);
          node_total =
              rw (ops, node_count) (omega (arith, grown, left.node_total, right.node_total));
          literal_total =
              rw (ops, literal_count) (omega (arith, left.literal_total, right.literal_total));
        }

    build_connective :
        (op : Connective)
        → length right.output.nodes + 1 < 2 ^ 32
        → IsBuilt e schema (connective op l r) o
    unfolding build_pred_node node_count literal_count
    build_connective op room =
        let o₂ = right.output in
        let node = binary_node (connective_kind op) left.index right.index in
        let grown = length-append o₂.nodes (node ∷ []) in
        let push = Extends-push_node node o₂ in
        record {
          index = length o₂.nodes;
          output = with_children (connective_kind op);
          built =
              rw (left.built, right.built)
                (ok-push_node node node o₂ (length o₂.nodes) refl (mod-eq_of_lt (omega arith)));
          represents =
              a_connective left.index right.index (get_elem?-last o₂.nodes node)
                (omega (arith, left.last, right.extends.node_length)) (omega (arith, right.last))
                (Represents-extend e schema push children_left)
                (Represents-extend e schema push right.represents);
          extends = Extends-trans left.extends (Extends-trans right.extends push);
          numbered = IsNumbered-push_node node o₂ right.numbered;
          last = omega (arith, grown);
          node_total = omega (arith, grown, left.node_total, right.node_total);
          literal_total = omega (arith, left.literal_total, right.literal_total);
        }

  build_not :
      {l : AstExpr} {o : Output} (left : IsBuilt e schema l o)
      → length left.output.nodes + 1 < 2 ^ 32
      → IsBuilt e schema (not_expr l) o
  unfolding build_pred_node node_count literal_count
  build_not left room =
      let o₁ = left.output in
      let node = unary_node left.index in
      let grown = length-append o₁.nodes (node ∷ []) in
      let push = Extends-push_node node o₁ in
      record {
        index = length o₁.nodes;
        output = (push_node node o₁).1;
        built =
            rw left.built
              (ok-push_node node node o₁ (length o₁.nodes) refl (mod-eq_of_lt (omega arith)));
        represents =
            a_not left.index (get_elem?-last o₁.nodes node) (omega (arith, left.last))
              (Represents-extend e schema push left.represents);
        extends = Extends-trans left.extends push;
        numbered = IsNumbered-push_node node o₁ left.numbered;
        last = omega (arith, grown);
        node_total = omega (arith, grown, left.node_total);
        literal_total = left.literal_total;
      }

  -- an operand of a comparison
  build_operand :
      (x : AstExpr) (o : Output)
      → IsOperand x
      → IsNumbered o
      → HasRoom e schema x o
      → IsBuilt e schema x o
  build_operand (column_ref n) o h num room = build_column n o num room
  build_operand (int_literal (pos n)) o h num room = build_int n o num room
  build_operand (int_literal (negsuc n)) o h num room = absurd h
  build_operand (string_literal s) o h num room = absurd h
  build_operand (comparison op l r) o h num room = absurd h
  build_operand (connective op l r) o h num room = absurd h
  build_operand (not_expr l) o h num room = absurd h

  build_any_comparison :
      (op : Comparison) (l r : AstExpr) (o : Output) (ops : Option (Str × Str))
      → string_operands l r ≡ ops
      → IsComparison schema op l r ops
      → IsNumbered o
      → HasRoom e schema (comparison op l r) o
      → IsBuilt e schema (comparison op l r) o
  unfolding node_count literal_count
  build_any_comparison op l r o (some (n, s)) ops test num room =
      build_string op l r n s o ops test num (rw (ops, node_count, literal_count) at room)
  build_any_comparison op l r o none ops operands num room =
      let room' = rw (ops, node_count, literal_count) at room in
      let left = build_operand l o operands.0 num (omega arith, omega arith) in
      let right =
        build_operand r left.output operands.1 left.numbered
          (omega (arith, left.node_total), omega (arith, left.literal_total)) in
      build_comparison left right op ops operands (omega (arith, left.node_total, right.node_total))

  -- From an output whose literals have their positions for ids, and whose next id is their number,
  -- with room for 32-bit indices, `buildPredNode` succeeds on a supported predicate, and the nodes and
  -- literals that it appends stand for that predicate.
  pub build_predicate :
      (x : AstExpr) (o : Output)
      → IsPredicate schema x
      → IsNumbered o
      → HasRoom e schema x o
      → IsBuilt e schema x o
  unfolding node_count literal_count
  build_predicate (comparison op l r) o h num room =
      build_any_comparison op l r o (string_operands l r) refl h num room
  build_predicate (connective op l r) o h num room =
      let left = build_predicate l o h.0 num (omega arith, omega arith) in
      let right =
        build_predicate r left.output h.1 left.numbered
          (omega (arith, left.node_total), omega (arith, left.literal_total)) in
      build_connective left right op (omega (arith, left.node_total, right.node_total))
  build_predicate (not_expr l) o h num room =
      let left = build_predicate l o h num (omega arith, room.1) in
      build_not left (omega (arith, left.node_total))
  build_predicate (column_ref n) o h num room = absurd h
  build_predicate (int_literal v) o h num room = absurd h
  build_predicate (string_literal s) o h num room = absurd h
