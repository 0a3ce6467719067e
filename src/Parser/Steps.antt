-- ===== src/Parser/Steps.antt =====
-- One rule for each step of the recursive descent: what it reads, from what its parts read.
use hega_proto.Base.{
  ℕ, zero, suc, ◌≡◌, refl, ap, ◌∙◌, false, Option, none, some, ◌∷◌, ◌++◌, Str, codes, str_eq,
  is_space, is_alnum, is_alpha, is_digit, to_upper_char,
}
use hega_proto.Base.Outcome.{ok, ◌>>=◌}
use hega_proto.Ast.{
  Comparison, equal, not_equal, greater_than, less_than, greater_equal, less_equal, and_, or_,
  AstExpr, comparison, connective, not_expr,
}
use hega_proto.Ast.Print.{comparison_str}
use hega_proto.Parser.Lexer.{
  skip_ws, is_word, word_of, after_word, starts_with, try_keyword, expect_char,
}
use hega_proto.Parser.Expr.{
  operator, Parsed, parse_or, or_loop, parse_and, and_loop, parse_not, parse_comparison,
  parse_primary,
}
use hega_proto.Parser.Words.{Reads, Reads-bind, skip_ws-skip_ws, try_keyword-skip}
use hega_proto.Parser.Operands.{Stops}

-- what may stand behind a comparison
abbrev pub Closes : Str → Type 0
Closes rest = Stops rest × (operator (skip_ws rest) ≡ none)

-- the text does not go on with the keyword
abbrev pub Lacks : Str → Str → Type 0
Lacks kw s = try_keyword kw s ≡ (false, skip_ws s)

module _ (size : ℕ) where
  pub parse_not-skip :
      (f : ℕ) (r s : Str) → skip_ws r ≡ skip_ws s → parse_not size f r ≡ parse_not size f s
  unfolding parse_or
  parse_not-skip zero r s e = refl
  parse_not-skip (suc f) r s e = rw (try_keyword-skip (codes "NOT") r s e) refl

  pub parse_and-skip :
      (f : ℕ) (r s : Str) → skip_ws r ≡ skip_ws s → parse_and size f r ≡ parse_and size f s
  unfolding parse_or
  parse_and-skip zero r s e = refl
  parse_and-skip (suc f) r s e = rw (parse_not-skip f r s e) refl

  pub parse_or-skip :
      (f : ℕ) (r s : Str) → skip_ws r ≡ skip_ws s → parse_or size f r ≡ parse_or size f s
  unfolding parse_or
  parse_or-skip zero r s e = refl
  parse_or-skip (suc f) r s e = rw (parse_and-skip f r s e) refl

  -- Where no AND follows, a loop of AND ends.
  and_loop-ends :
      (f : ℕ) (x : AstExpr) (r rest : Str)
      → skip_ws r ≡ skip_ws rest
      → Lacks (codes "AND") rest
      → Reads (and_loop size (suc f) x r) x rest
  unfolding parse_or
  and_loop-ends f x r rest same lacks = (
    skip_ws rest,
    (rw (try_keyword-skip (codes "AND") r rest same, lacks) refl, skip_ws-skip_ws rest),
  )

  pub parse_and-one :
      (f : ℕ) (s : Str) (x : AstExpr) (rest : Str)
      → Reads (parse_not size (suc f) s) x rest
      → Lacks (codes "AND") rest
      → Reads (parse_and size (suc (suc f)) s) x rest
  unfolding parse_or
  parse_and-one f s x rest h lacks =
      Reads-bind _ _ x x rest rest h λ r same. and_loop-ends f x r rest same lacks

  pub parse_and-two :
      (f : ℕ) (s t : Str) (x y : AstExpr) (rest : Str)
      → Reads (parse_not size (suc (suc f)) s) x (codes " AND " ++ t)
      → Reads (parse_not size (suc f) t) y rest
      → Lacks (codes "AND") rest
      → Reads (parse_and size (suc (suc (suc f))) s) (connective and_ x y) rest
  unfolding parse_or try_keyword codes
  parse_and-two f s t x y rest h k lacks = Reads-bind _ _ x _ (codes " AND " ++ t) rest h λ r same.
      rw (try_keyword-skip (codes "AND") r (codes " AND " ++ t) same) (
        Reads-bind _ _ y _ rest rest k
          λ u same'. and_loop-ends f (connective and_ x y) u rest same' lacks)

  or_loop-ends :
      (f : ℕ) (x : AstExpr) (r rest : Str)
      → skip_ws r ≡ skip_ws rest
      → Lacks (codes "OR") rest
      → Reads (or_loop size (suc f) x r) x rest
  unfolding parse_or
  or_loop-ends f x r rest same lacks = (
    skip_ws rest,
    (rw (try_keyword-skip (codes "OR") r rest same, lacks) refl, skip_ws-skip_ws rest),
  )

  pub parse_or-one :
      (f : ℕ) (s : Str) (x : AstExpr) (rest : Str)
      → Reads (parse_and size (suc f) s) x rest
      → Lacks (codes "OR") rest
      → Reads (parse_or size (suc (suc f)) s) x rest
  unfolding parse_or
  parse_or-one f s x rest h lacks =
      Reads-bind _ _ x x rest rest h λ r same. or_loop-ends f x r rest same lacks

  pub parse_or-two :
      (f : ℕ) (s t : Str) (x y : AstExpr) (rest : Str)
      → Reads (parse_and size (suc (suc f)) s) x (codes " OR " ++ t)
      → Reads (parse_and size (suc f) t) y rest
      → Lacks (codes "OR") rest
      → Reads (parse_or size (suc (suc (suc f))) s) (connective or_ x y) rest
  unfolding parse_or try_keyword codes
  parse_or-two f s t x y rest h k lacks = Reads-bind _ _ x _ (codes " OR " ++ t) rest h λ r same.
      rw
        (
          try_keyword-skip (codes "OR") r (codes " OR " ++ t) same,
          parse_and-skip (suc f) (b' ' ∷ t) t refl,
        )
        (Reads-bind _ _ y _ rest rest k
          λ u same'. or_loop-ends f (connective or_ x y) u rest same' lacks)

  -- the choice that `parse_comparison` makes on the operator
  abbrev compared : ℕ → AstExpr → Str → Option (Comparison × Str) → Parsed
  compared fuel left s found = elim found [
    | none ↦ ok (left, s)
    | some (op, t) ↦ do (right, u) ← parse_primary size fuel t; ok (comparison op left right, u)
  ]

  pub parse_comparison-one :
      (f : ℕ) (s : Str) (x : AstExpr) (rest : Str)
      → Reads (parse_primary size f s) x rest
      → operator (skip_ws rest) ≡ none
      → Reads (parse_comparison size (suc f) s) x rest
  unfolding parse_or
  parse_comparison-one f s x rest h bare = Reads-bind _ _ x x rest rest h λ r same. (
    skip_ws r,
    (ap (compared f x (skip_ws r)) (ap operator same ∙ bare), skip_ws-skip_ws r ∙ same),
  )

  -- the operator that `toSQL` writes
  operator-comparison_str :
      (op : Comparison) (t : Str)
      → operator (skip_ws (comparison_str op ++ t)) ≡ some (op, b' ' ∷ t)
  unfolding operator skip_ws is_space starts_with codes
  operator-comparison_str equal t = refl
  operator-comparison_str not_equal t = refl
  operator-comparison_str greater_than t = refl
  operator-comparison_str less_than t = refl
  operator-comparison_str greater_equal t = refl
  operator-comparison_str less_equal t = refl

  parse_primary-space : (f : ℕ) (s : Str) → parse_primary size f (b' ' ∷ s) ≡ parse_primary size f s
  unfolding parse_or skip_ws is_space
  parse_primary-space zero s = refl
  parse_primary-space (suc f) s = refl

  pub parse_comparison-two :
      (f : ℕ) (s t : Str) (op : Comparison) (x y : AstExpr) (rest : Str)
      → Reads (parse_primary size f s) x (comparison_str op ++ t)
      → Reads (parse_primary size f t) y rest
      → Reads (parse_comparison size (suc f) s) (comparison op x y) rest
  unfolding parse_or
  parse_comparison-two f s t op x y rest h (u, (e, same')) =
      Reads-bind _ _ x _ (comparison_str op ++ t) rest h λ r same.
        let found =
          ap (compared f x (skip_ws r)) (ap operator same ∙ operator-comparison_str op t) in
        let right =
          ap (λ m. m >>= λ (right, u). ok (comparison op x right, u))
            (parse_primary-space f t ∙ e) in
        (u, (found ∙ right, same'))

  closed : (r rest : Str) → skip_ws r ≡ skip_ws (b')' ∷ rest) → expect_char size b')' r ≡ ok rest
  unfolding expect_char skip_ws is_space starts_with
  closed r rest same = rw same refl

  -- An expression between parentheses, where no operator follows.
  pub parse_not-paren :
      (f : ℕ) (s : Str) (x : AstExpr) (rest : Str)
      → Reads (parse_or size f s) x (b')' ∷ rest)
      → operator (skip_ws rest) ≡ none
      → Reads (parse_not size (suc (suc (suc f))) (b'(' ∷ s)) x rest
  unfolding parse_or try_keyword skip_ws is_space word_of is_word is_alnum is_alpha is_digit codes
      str_eq
  parse_not-paren f s x rest h bare =
      parse_comparison-one (suc f) (b'(' ∷ s) x rest
        (Reads-bind _ _ x x (b')' ∷ rest) rest h
          λ r same. (rest, (rw (closed r rest same) refl, refl)))
        bare

  pub parse_not-negated :
      (f : ℕ) (s : Str) (x : AstExpr) (rest : Str)
      → Reads (parse_not size f (b'(' ∷ s)) x rest
      → Reads (parse_not size (suc f) (codes "NOT(" ++ s)) (not_expr x) rest
  unfolding parse_or try_keyword skip_ws is_space word_of after_word is_word is_alnum is_alpha
      is_digit to_upper_char codes str_eq
  parse_not-negated f s x rest h = Reads-bind _ _ x _ rest rest h λ r same. (r, (refl, same))

  pub parse_not-plain :
      (f : ℕ) (s : Str) (x : AstExpr) (rest : Str)
      → try_keyword (codes "NOT") s ≡ (false, s)
      → Reads (parse_comparison size f s) x rest
      → Reads (parse_not size (suc f) s) x rest
  unfolding parse_or
  parse_not-plain f s x rest none_ h = rw none_ h
