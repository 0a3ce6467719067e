-- ===== src/Parser/Expr.antt =====
-- The recursive descent over expressions of parser/parser.cpp. The fuel is the depth of the calls and
-- of the rounds of the loops.
use hega_proto.Base.{
  ℕ, zero, suc, ◌&&◌, ◌||◌, Option, none, some, [], ◌∷◌, Str, codes, ◌==◌, if◌then◌else◌,
}
use hega_proto.Base.Outcome.{Result, ok, err, parse_error, exhausted, ◌>>=◌}
use hega_proto.Ast.{
  Comparison, equal, not_equal, greater_than, less_than, greater_equal, less_equal, and_, or_,
  AstExpr, column_ref, int_literal, string_literal, comparison, connective, not_expr,
}
use hega_proto.Parser.Lexer.{
  skip_ws, starts_with, starts_digit, tail, try_keyword, consume_qualified, consume_int,
  consume_string, expect_char,
}

-- the operator at the start of the text, and the text behind it
unfoldable pub operator : Str → Option (Comparison × Str)
unfolding starts_with
operator [] = none
operator (c ∷ cs) =
    if c == b'!' && starts_with b'=' cs
    then some (not_equal, tail cs)
    else if c == b'>' && starts_with b'=' cs
    then some (greater_equal, tail cs)
    else if c == b'<' && starts_with b'=' cs
    then some (less_equal, tail cs)
    else if c == b'='
    then some (equal, cs)
    else if c == b'>'
    then some (greater_than, cs)
    else if c == b'<'
    then some (less_than, cs)
    else none

abbrev pub Parsed : Type 0
Parsed = Result (AstExpr × Str)

module _ (size : ℕ) where
  -- the cases of `parsePrimary` behind the parenthesis
  unfoldable pub parse_atom : Str → Parsed
  unfolding starts_with starts_digit consume_int consume_string consume_qualified
  parse_atom r =
      let number = (do (v, t) ← consume_int size r; ok (int_literal v, t)) in
      let text = (do (v, t) ← consume_string size r; ok (string_literal v, t)) in
      let name = (do (n, t) ← consume_qualified size r; ok (column_ref n, t)) in
      if starts_digit r || starts_with b'-' r
      then number
      else if starts_with b'\'' r
      then text
      else name

  unfoldable mutual
    unfolding try_keyword parse_atom operator expect_char skip_ws starts_with

    -- `parseOr`, which is `parseExpr`
    pub parse_or : ℕ → Str → Parsed
    parse_or zero s = err exhausted
    parse_or (suc fuel) s = do (left, r) ← parse_and fuel s; or_loop fuel left r

    pub or_loop : ℕ → AstExpr → Str → Parsed
    or_loop zero left s = err exhausted
    or_loop (suc fuel) left s =
        let (found, r) = try_keyword (codes "OR") s in
        let more = (do (right, t) ← parse_and fuel r; or_loop fuel (connective or_ left right) t) in
        if found then more else ok (left, r)

    -- `parseAnd`
    pub parse_and : ℕ → Str → Parsed
    parse_and zero s = err exhausted
    parse_and (suc fuel) s = do (left, r) ← parse_not fuel s; and_loop fuel left r

    pub and_loop : ℕ → AstExpr → Str → Parsed
    and_loop zero left s = err exhausted
    and_loop (suc fuel) left s =
        let (found, r) = try_keyword (codes "AND") s in
        let more = (do
          (right, t) ← parse_not fuel r
          and_loop fuel (connective and_ left right) t) in
        if found then more else ok (left, r)

    -- `parseNot`
    pub parse_not : ℕ → Str → Parsed
    parse_not zero s = err exhausted
    parse_not (suc fuel) s =
        let (found, r) = try_keyword (codes "NOT") s in
        let negated = (do (inner, t) ← parse_not fuel r; ok (not_expr inner, t)) in
        let plain = parse_comparison fuel r in if found then negated else plain

    -- `parseComparison`
    pub parse_comparison : ℕ → Str → Parsed
    parse_comparison zero s = err exhausted
    parse_comparison (suc fuel) s = do
      (left, r) ← parse_primary fuel s
      elim (operator (skip_ws r)) [
        | none ↦ ok (left, skip_ws r)
        | some (op, t) ↦ do (right, u) ← parse_primary fuel t; ok (comparison op left right, u)
      ]

    -- `parsePrimary`
    pub parse_primary : ℕ → Str → Parsed
    parse_primary zero s = err exhausted
    parse_primary (suc fuel) s =
        let r = skip_ws s in
        let grouped = (do
          (inner, t) ← parse_or fuel (tail r)
          u ← expect_char size b')' t
          ok (inner, u)) in
        elim r [
          | [] ↦ err (parse_error (codes "Expected expression"))
          | c ∷ cs ↦ if c == b'(' then grouped else parse_atom (c ∷ cs)
        ]
