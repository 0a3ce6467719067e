-- ===== src/Parser/Total.antt =====
-- Eight calls for each character, and a few more, are fuel enough: the parser ends on every text.
use hega_proto.Base.{
  ℕ, zero, suc, ◌+◌, ◌*◌, ◌≤◌, ◌<◌, ◌≡◌, ◌||◌, some, [], ◌∷◌, arith, Str, codes, length, ◌==◌,
  if◌then◌else◌, Option-cases, inl, inr,
}
use hega_proto.Base.Outcome.{err, parse_error}
use hega_proto.Ast.{Comparison, AstExpr, and_, or_, connective}
use hega_proto.Parser.Lexer.{
  skip_ws, starts_with, starts_digit, tail, try_keyword, consume_int, consume_string,
  consume_qualified, expect_char,
}
use hega_proto.Parser.Expr.{
  operator, parse_atom, Parsed, parse_or, or_loop, parse_and, and_loop, parse_not, parse_comparison,
  parse_primary,
}
use hega_proto.Parser.Within.{
  Within, Within-bind, Within-if, Within-le, Moves-bind, skip_ws-le, tail-le, try_keyword-le,
  try_keyword-lt, consume_int-Within, consume_string-Within, consume_qualified-Within,
  expect_char-Moves,
}

operator-le :
    (s : Str) {op : Comparison} {t : Str} → operator s ≡ some (op, t) → length t ≤ length s
unfolding operator
operator-le [] h = cc
operator-le (c ∷ cs) h = ground (arith, tail-le cs)

tail-lt-length : (s : Str) → 0 < length s → length (tail s) < length s
tail-lt-length [] h = absurd (omega arith)
tail-lt-length (c ∷ cs) h = omega arith

module _ (size : ℕ) where
  parse_atom-Within : (r : Str) → Within (length r) (parse_atom size r)
  unfolding parse_atom
  parse_atom-Within r =
      Within-if _ (starts_digit r || starts_with b'-' r) _ _
        (λ _. Within-bind _ _ (consume_int size r) _ (consume_int-Within size r) (λ v t h. h))
        λ _.
          Within-if _ (starts_with b'\'' r) _ _
            (λ _.
              Within-bind _ _ (consume_string size r) _ (consume_string-Within size r) (λ v t h. h))
            (λ _.
              Within-bind _ _ (consume_qualified size r) _ (consume_qualified-Within size r)
                (λ v t h. h))

  -- the two cases of `parse_primary`, for the text behind the spaces
  primary-Within :
      (n : ℕ) (r : Str) (grouped : Parsed)
      → length r ≤ n
      → (0 < length r → Within n grouped)
      → Within n (elim r [
        | [] ↦ err (parse_error (codes "Expected expression"))
        | c ∷ cs ↦ if c == b'(' then grouped else parse_atom size (c ∷ cs)
      ])
  primary-Within n [] grouped le h = tt
  primary-Within n (c ∷ cs) grouped le h =
      Within-if n (c == b'(') grouped _ (λ _. h (omega arith))
        (λ _. Within-le _ n (parse_atom size (c ∷ cs)) (parse_atom-Within (c ∷ cs)) le)

  mutual
    unfolding parse_or codes

    pub parse_or-Within :
        (f : ℕ) (s : Str) → 8 * length s + 5 ≤ f → Within (length s) (parse_or size f s)
    parse_or-Within zero s h = absurd (omega arith)
    parse_or-Within (suc f) s h =
        Within-bind (length s) _ (parse_and size f s) _ (parse_and-Within f s (omega arith))
          λ left r k.
            Within-le _ _ (or_loop size f left r) (or_loop-Within f left r (omega arith)) k

    or_loop-Within :
        (f : ℕ) (left : AstExpr) (s : Str)
        → 8 * length s + 1 ≤ f
        → Within (length s) (or_loop size f left s)
    or_loop-Within zero left s h = absurd (omega arith)
    or_loop-Within (suc f) left s h =
        Within-if _ (try_keyword (codes "OR") s).0 _ _
          (λ found.
            let shorter = try_keyword-lt (codes "OR") s (omega arith) found in
            let r = (try_keyword (codes "OR") s).1 in
            Within-bind (length r) _ (parse_and size f r) _ (parse_and-Within f r (omega arith))
              λ right t k.
                Within-le _ _ (or_loop size f (connective or_ left right) t)
                  (or_loop-Within f (connective or_ left right) t (omega arith)) (omega arith))
          (λ _. try_keyword-le (codes "OR") s)

    parse_and-Within :
        (f : ℕ) (s : Str) → 8 * length s + 4 ≤ f → Within (length s) (parse_and size f s)
    parse_and-Within zero s h = absurd (omega arith)
    parse_and-Within (suc f) s h =
        Within-bind (length s) _ (parse_not size f s) _ (parse_not-Within f s (omega arith))
          λ left r k.
            Within-le _ _ (and_loop size f left r) (and_loop-Within f left r (omega arith)) k

    and_loop-Within :
        (f : ℕ) (left : AstExpr) (s : Str)
        → 8 * length s + 1 ≤ f
        → Within (length s) (and_loop size f left s)
    and_loop-Within zero left s h = absurd (omega arith)
    and_loop-Within (suc f) left s h =
        Within-if _ (try_keyword (codes "AND") s).0 _ _
          (λ found.
            let shorter = try_keyword-lt (codes "AND") s (omega arith) found in
            let r = (try_keyword (codes "AND") s).1 in
            Within-bind (length r) _ (parse_not size f r) _ (parse_not-Within f r (omega arith))
              λ right t k.
                Within-le _ _ (and_loop size f (connective and_ left right) t)
                  (and_loop-Within f (connective and_ left right) t (omega arith)) (omega arith))
          (λ _. try_keyword-le (codes "AND") s)

    parse_not-Within :
        (f : ℕ) (s : Str) → 8 * length s + 3 ≤ f → Within (length s) (parse_not size f s)
    parse_not-Within zero s h = absurd (omega arith)
    parse_not-Within (suc f) s h =
        let r = (try_keyword (codes "NOT") s).1 in
        Within-if _ (try_keyword (codes "NOT") s).0 _ _
          (λ found.
            let shorter = try_keyword-lt (codes "NOT") s (omega arith) found in
            Within-bind (length r) _ (parse_not size f r) _ (parse_not-Within f r (omega arith))
              λ inner t k. omega arith)
          (λ _.
            let le = try_keyword-le (codes "NOT") s in
            Within-le _ _ (parse_comparison size f r) (parse_comparison-Within f r (omega arith))
              le)

    parse_comparison-Within :
        (f : ℕ) (s : Str) → 8 * length s + 2 ≤ f → Within (length s) (parse_comparison size f s)
    parse_comparison-Within zero s h = absurd (omega arith)
    parse_comparison-Within (suc f) s h =
        Within-bind (length s) _ (parse_primary size f s) _ (parse_primary-Within f s (omega arith))
          λ left r k. elim (Option-cases (operator (skip_ws r))) [
            | inl bare ↦ rw bare (omega (arith, skip_ws-le r))
            | inr ((op, t), at) ↦
                let shorter = operator-le (skip_ws r) at in
                let le = skip_ws-le r in
                rw at (
                  Within-bind (length t) _ (parse_primary size f t) _
                    (parse_primary-Within f t (omega arith)) λ right u j. omega arith)
          ]

    parse_primary-Within :
        (f : ℕ) (s : Str) → 8 * length s + 1 ≤ f → Within (length s) (parse_primary size f s)
    parse_primary-Within zero s h = absurd (omega arith)
    parse_primary-Within (suc f) s h =
        let r = skip_ws s in
        let le = skip_ws-le s in
        primary-Within (length s) r _ le λ some_left.
          let shorter = tail-lt-length r some_left in
          Within-bind (length (tail r)) _ (parse_or size f (tail r)) _
            (parse_or-Within f (tail r) (omega arith))
            λ inner t k.
              Moves-bind size (length t) _ (expect_char size b')' t) _
                (expect_char-Moves size b')' t) λ u j. omega arith
