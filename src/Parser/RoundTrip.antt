-- ===== src/Parser/RoundTrip.antt =====
-- Expressions that `ASTExpr::toSQL` writes are read back by `parseExpr`.
use hega_proto.Base.{
  ℕ, suc, ◌+◌, ◌-◌, ◌*◌, ◌≤◌, ◌≡◌, refl, ◌∷◌, ◌++◌, append_assoc, arith, Str, codes, str_eq,
  is_space, is_alnum, is_alpha, is_digit, to_upper_char,
}
use hega_proto.Ast.{
  Comparison, equal, not_equal, greater_than, less_than, greater_equal, less_equal, and_, or_,
  AstExpr, column_ref, int_literal, string_literal, comparison, connective, not_expr,
}
use hega_proto.Ast.Print.{to_sql, comparison_str}
use hega_proto.Parser.Lexer.{skip_ws, is_word, word_of, starts_with, try_keyword}
use hega_proto.Parser.Expr.{operator, parse_or, parse_not}
use hega_proto.Parser.Words.{Reads}
use hega_proto.Parser.Operands.{Stops, IsOperand, parse_primary-operand}
use hega_proto.Parser.Steps.{
  Closes, Lacks, parse_and-one, parse_and-two, parse_or-one, parse_or-two, parse_comparison-one,
  parse_comparison-two, parse_not-paren, parse_not-negated, parse_not-plain,
}
use hega_proto.Parser.Printable.{IsNoNot, IsPrintable, depth, operand-no_not}

append_three : (a b c d : Str) → a ++ b ++ c ++ d ≡ a ++ (b ++ (c ++ d))
append_three a b c d = rw (append_assoc (a ++ b) c d, append_assoc a b (c ++ d)) refl

append_four : (a b c d e : Str) → a ++ b ++ c ++ d ++ e ≡ a ++ (b ++ (c ++ (d ++ e)))
append_four a b c d e = rw (append_assoc (a ++ b ++ c) d e) (append_three a b c (d ++ e))

-- the calls between a formula in parentheses and its parts
abbrev seven : ℕ → ℕ
seven g = suc (suc (suc (suc (suc (suc (suc g))))))

module _ (size : ℕ) where
  -- a single operand
  parse_not-operand :
      (f : ℕ) (x : AstExpr) (rest : Str)
      → IsOperand x
      → IsNoNot x
      → Closes rest
      → Reads (parse_not size (suc (suc (suc f))) (to_sql x ++ rest)) x rest
  parse_not-operand f x rest h k (stops, bare) =
      parse_not-plain size (suc (suc f)) (to_sql x ++ rest) x rest
        (operand-no_not x rest h k (stops.0))
        (parse_comparison-one size (suc f) (to_sql x ++ rest) x rest
          (parse_primary-operand size f x rest h stops) bare)

  comparison_str-Stops : (op : Comparison) (t : Str) → Stops (comparison_str op ++ t)
  unfolding codes is_word is_alnum is_alpha is_digit starts_with skip_ws is_space
  comparison_str-Stops equal t = (refl, (refl, refl))
  comparison_str-Stops not_equal t = (refl, (refl, refl))
  comparison_str-Stops greater_than t = (refl, (refl, refl))
  comparison_str-Stops less_than t = (refl, (refl, refl))
  comparison_str-Stops greater_equal t = (refl, (refl, refl))
  comparison_str-Stops less_equal t = (refl, (refl, refl))

  parse_not-comparison :
      (f : ℕ) (op : Comparison) (l r : AstExpr) (rest : Str)
      → IsPrintable (comparison op l r)
      → Stops rest
      → Reads
          (parse_not size (suc (suc (suc f))) (to_sql (comparison op l r) ++ rest))
          (comparison op l r)
          rest
  unfolding to_sql
  parse_not-comparison f op l r rest (hl, (kl, hr)) stops =
      let t = to_sql r ++ rest in
      let s = to_sql l ++ (comparison_str op ++ t) in
      let behind = comparison_str-Stops op t in
      rw (append_three (to_sql l) (comparison_str op) (to_sql r) rest) (
        parse_not-plain size (suc (suc f)) s (comparison op l r) rest
          (operand-no_not l (comparison_str op ++ t) hl kl (behind.0))
          (parse_comparison-two size (suc f) s t op l r rest
            (parse_primary-operand size f l (comparison_str op ++ t) hl behind)
            (parse_primary-operand size f r rest hr stops)))

  -- what stands behind the parts of a formula
  and-Closes : (t : Str) → Closes (codes " AND " ++ t)
  unfolding codes is_word is_alnum is_alpha is_digit starts_with skip_ws is_space operator
  and-Closes t = ((refl, (refl, refl)), refl)

  or-Closes : (t : Str) → Closes (codes " OR " ++ t)
  unfolding codes is_word is_alnum is_alpha is_digit starts_with skip_ws is_space operator
  or-Closes t = ((refl, (refl, refl)), refl)

  or-Lacks : (t : Str) → Lacks (codes "AND") (codes " OR " ++ t)
  unfolding codes is_word is_alnum is_alpha is_digit skip_ws is_space try_keyword word_of str_eq
      to_upper_char
  or-Lacks t = refl

  bracket-Closes : (t : Str) → Closes (b')' ∷ t)
  unfolding is_word is_alnum is_alpha is_digit starts_with skip_ws is_space operator
  bracket-Closes t = ((refl, (refl, refl)), refl)

  bracket-Lacks_and : (t : Str) → Lacks (codes "AND") (b')' ∷ t)
  unfolding codes is_word is_alnum is_alpha is_digit skip_ws is_space try_keyword word_of str_eq
  bracket-Lacks_and t = refl

  bracket-Lacks_or : (t : Str) → Lacks (codes "OR") (b')' ∷ t)
  unfolding codes is_word is_alnum is_alpha is_digit skip_ws is_space try_keyword word_of str_eq
  bracket-Lacks_or t = refl

  -- A formula in parentheses, from its parts.
  group_and :
      (g : ℕ) (l r : AstExpr) (rest : Str)
      → ((t : Str) → Closes t → Reads (parse_not size (suc (suc g)) (to_sql l ++ t)) l t)
      → ((t : Str) → Closes t → Reads (parse_not size (suc g) (to_sql r ++ t)) r t)
      → Closes rest
      → Reads
          (parse_not size (seven g) (to_sql (connective and_ l r) ++ rest))
          (connective and_ l r)
          rest
  unfolding to_sql codes
  group_and g l r rest read_l read_r (stops, bare) =
      let t = to_sql r ++ (b')' ∷ rest) in
      rw (append_four (to_sql l) (codes " AND ") (to_sql r) (codes ")") rest) (
        parse_not-paren size (suc (suc (suc (suc g)))) (to_sql l ++ (codes " AND " ++ t)) _ rest
          (parse_or-one size (suc (suc g)) _ _ (b')' ∷ rest)
            (parse_and-two size g _ t l r (b')' ∷ rest) (read_l (codes " AND " ++ t) (and-Closes t))
              (read_r (b')' ∷ rest) (bracket-Closes rest)) (bracket-Lacks_and rest))
            (bracket-Lacks_or rest))
          bare)

  group_or :
      (g : ℕ) (l r : AstExpr) (rest : Str)
      → ((t : Str) → Closes t → Reads (parse_not size (suc (suc g)) (to_sql l ++ t)) l t)
      → ((t : Str) → Closes t → Reads (parse_not size (suc g) (to_sql r ++ t)) r t)
      → Closes rest
      → Reads
          (parse_not size (seven g) (to_sql (connective or_ l r) ++ rest))
          (connective or_ l r)
          rest
  unfolding to_sql codes
  group_or g l r rest read_l read_r (stops, bare) =
      let t = to_sql r ++ (b')' ∷ rest) in
      rw (append_four (to_sql l) (codes " OR ") (to_sql r) (codes ")") rest) (
        parse_not-paren size (suc (suc (suc (suc g)))) (to_sql l ++ (codes " OR " ++ t)) _ rest
          (parse_or-two size (suc g) _ t l r (b')' ∷ rest)
            (parse_and-one size (suc g) _ l _ (read_l (codes " OR " ++ t) (or-Closes t))
              (or-Lacks t))
            (parse_and-one size g _ r _ (read_r (b')' ∷ rest) (bracket-Closes rest))
              (bracket-Lacks_and rest))
            (bracket-Lacks_or rest))
          bare)

  group_not :
      (g : ℕ) (l : AstExpr) (rest : Str)
      → ((t : Str) → Closes t → Reads (parse_not size (suc g) (to_sql l ++ t)) l t)
      → Closes rest
      → Reads (parse_not size (seven g) (to_sql (not_expr l) ++ rest)) (not_expr l) rest
  unfolding to_sql codes
  group_not g l rest read_l (stops, bare) = rw (append_assoc (to_sql l) (codes ")") rest) (
      parse_not-negated size (suc (suc (suc (suc (suc (suc g)))))) (to_sql l ++ (b')' ∷ rest)) l
        rest
        (parse_not-paren size (suc (suc (suc g))) (to_sql l ++ (b')' ∷ rest)) l rest
          (parse_or-one size (suc g) _ l (b')' ∷ rest)
            (parse_and-one size g _ l _ (read_l (b')' ∷ rest) (bracket-Closes rest))
              (bracket-Lacks_and rest))
            (bracket-Lacks_or rest))
          bare))

  -- The fuel that an expression takes, from that of its parts.
  pub parse_not-to_sql :
      (f : ℕ) (x : AstExpr) (rest : Str)
      → IsPrintable x
      → Closes rest
      → 8 * depth x + 3 ≤ f
      → Reads (parse_not size f (to_sql x ++ rest)) x rest
  parse_not-to_sql f (connective and_ l r) rest (hl, hr) closes enough =
      let g = f - 7 in
      let e : f ≡ seven g = omega arith in
      rw e (
        group_and g l r rest (λ t c. parse_not-to_sql (suc (suc g)) l t hl c (omega arith))
          (λ t c. parse_not-to_sql (suc g) r t hr c (omega arith)) closes)
  parse_not-to_sql f (connective or_ l r) rest (hl, hr) closes enough =
      let g = f - 7 in
      let e : f ≡ seven g = omega arith in
      rw e (
        group_or g l r rest (λ t c. parse_not-to_sql (suc (suc g)) l t hl c (omega arith))
          (λ t c. parse_not-to_sql (suc g) r t hr c (omega arith)) closes)
  parse_not-to_sql f (not_expr l) rest h closes enough =
      let g = f - 7 in
      let e : f ≡ seven g = omega arith in
      rw e (group_not g l rest (λ t c. parse_not-to_sql (suc g) l t h c (omega arith)) closes)
  parse_not-to_sql f (comparison op l r) rest h closes enough =
      let e : f ≡ suc (suc (suc (f - 3))) = omega arith in
      rw e (parse_not-comparison (f - 3) op l r rest h (closes.0))
  parse_not-to_sql f (column_ref n) rest (h, k) closes enough =
      let e : f ≡ suc (suc (suc (f - 3))) = omega arith in
      rw e (parse_not-operand (f - 3) (column_ref n) rest h k closes)
  parse_not-to_sql f (int_literal v) rest h closes enough =
      let e : f ≡ suc (suc (suc (f - 3))) = omega arith in
      rw e (parse_not-operand (f - 3) (int_literal v) rest h tt closes)
  parse_not-to_sql f (string_literal v) rest h closes enough =
      let e : f ≡ suc (suc (suc (f - 3))) = omega arith in
      rw e (parse_not-operand (f - 3) (string_literal v) rest h tt closes)

  -- The text that `toSQL` writes for a printable expression is read as that expression, with a fuel
  -- of eight calls for each level of it, where no operator, AND or OR follows.
  pub parse_or-to_sql :
      (f : ℕ) (x : AstExpr) (rest : Str)
      → IsPrintable x
      → Closes rest
      → Lacks (codes "AND") rest
      → Lacks (codes "OR") rest
      → 8 * depth x + 5 ≤ f
      → Reads (parse_or size f (to_sql x ++ rest)) x rest
  parse_or-to_sql f x rest h closes no_and no_or enough =
      let g = f - 3 in
      let e : f ≡ suc (suc (suc g)) = omega arith in
      rw e (
        parse_or-one size (suc g) _ x rest
          (parse_and-one size g _ x rest (parse_not-to_sql (suc g) x rest h closes (omega arith))
            no_and)
          no_or)
