-- ===== src/Execution/Composed.antt =====
-- The values of the expressions that the executor composes of proto1's primitives.
use hega_proto.Base.{
  ℕ, ◌+◌, ◌-◌, ◌*◌, ◌≤◌, ◌≡◌, refl, ap, ◌∙◌, Bool, true, false, not, ◌&&◌, ◌||◌, arith, Str, ltb,
  leb, ◌==◌,
}
use mathlib.Core.Path.{ap₂}
use hega_proto.Ast.{
  Comparison, equal, not_equal, greater_than, less_than, greater_equal, less_equal, Connective,
  and_, or_,
}
use hega_proto.Engine.{Engine, EngineLaws, bit, max_value}
use hega_proto.Sql.{compare_numbers, connect}
use hega_proto.Execution.Characters.{bit-le_one, bit-and}

bit-or : (a b : Bool) → bit a + bit b - bit a * bit b ≡ bit (a || b)
bit-or true true = refl
bit-or true false = refl
bit-or false true = refl
bit-or false false = refl

bit-not : (a : Bool) → 1 - bit a ≡ bit (not a)
bit-not true = refl
bit-not false = refl

module _ (e : Engine) (laws : EngineLaws e) (physical : Str → ℕ) where
  abbrev at_row : e.Expression → ℕ
  at_row = e.value physical

  value-and :
      (l r : e.Expression) (a b : Bool)
      → at_row l ≡ bit a
      → at_row r ≡ bit b
      → at_row (e.and_expr l r) ≡ bit (a && b)
  value-and l r a b p q =
      laws.value-and physical l r (omega (arith, p, bit-le_one a)) (omega (arith, q, bit-le_one b))
      ∙ ap₂ ◌*◌ p q
      ∙ bit-and a b

  value-or :
      (l r : e.Expression) (a b : Bool)
      → at_row l ≡ bit a
      → at_row r ≡ bit b
      → at_row (e.or_expr l r) ≡ bit (a || b)
  value-or l r a b p q =
      laws.value-or physical l r (omega (arith, p, bit-le_one a)) (omega (arith, q, bit-le_one b))
      ∙ ap₂ (λ (x y : ℕ). x + y - x * y) p q
      ∙ bit-or a b

  pub value-not :
      (l : e.Expression) (a : Bool) → at_row l ≡ bit a → at_row (e.not_expr l) ≡ bit (not a)
  value-not l a p =
      laws.value-not physical l (omega (arith, p, bit-le_one a))
      ∙ ap (λ (x : ℕ). 1 - x) p
      ∙ bit-not a

  module _ (l r : e.Expression) (x y : ℕ) (p : at_row l ≡ x) (q : at_row r ≡ y) (hx : x ≤ max_value)
      (hy : y ≤ max_value) where
    value-equal : at_row (e.equal l r) ≡ bit (x == y)
    value-equal =
        laws.value-equal physical l r (omega (arith, p)) (omega (arith, q))
        ∙ ap₂ (λ (a b : ℕ). bit (a == b)) p q

    value-gt : at_row (e.gt l r) ≡ bit (ltb y x)
    value-gt =
        laws.value-gt physical l r (omega (arith, p)) (omega (arith, q))
        ∙ ap₂ (λ (a b : ℕ). bit (ltb b a)) p q

    value-lt : at_row (e.lt l r) ≡ bit (ltb x y)
    value-lt =
        laws.value-lt physical l r (omega (arith, p)) (omega (arith, q))
        ∙ ap₂ (λ (a b : ℕ). bit (ltb a b)) p q

    -- `>=` and `<=` are the disjunction of two comparisons.
    value-ge : at_row (e.or_expr (e.gt l r) (e.equal l r)) ≡ bit (leb y x)
    value-ge =
        value-or (e.gt l r) (e.equal l r) (ltb y x) (x == y) value-gt value-equal ∙ ground arith

    value-le : at_row (e.or_expr (e.lt l r) (e.equal l r)) ≡ bit (leb x y)
    value-le =
        value-or (e.lt l r) (e.equal l r) (ltb x y) (x == y) value-lt value-equal ∙ ground arith

  -- The expression of a comparison, as the executor composes it of the primitives.
  abbrev pub composed : Comparison → e.Expression → e.Expression → e.Expression
  composed equal l r = e.equal l r
  composed not_equal l r = e.not_expr (e.equal l r)
  composed greater_than l r = e.gt l r
  composed less_than l r = e.lt l r
  composed greater_equal l r = e.or_expr (e.gt l r) (e.equal l r)
  composed less_equal l r = e.or_expr (e.lt l r) (e.equal l r)

  pub value-composed :
      (op : Comparison) (l r : e.Expression) (x y : ℕ)
      → at_row l ≡ x
      → at_row r ≡ y
      → x ≤ max_value
      → y ≤ max_value
      → at_row (composed op l r) ≡ bit (compare_numbers op x y)
  unfolding compare_numbers
  value-composed equal l r x y p q hx hy = value-equal l r x y p q hx hy
  value-composed not_equal l r x y p q hx hy =
      value-not (e.equal l r) (x == y) (value-equal l r x y p q hx hy)
  value-composed greater_than l r x y p q hx hy = value-gt l r x y p q hx hy
  value-composed less_than l r x y p q hx hy = value-lt l r x y p q hx hy
  value-composed greater_equal l r x y p q hx hy = value-ge l r x y p q hx hy
  value-composed less_equal l r x y p q hx hy = value-le l r x y p q hx hy

  abbrev pub connected : Connective → e.Expression → e.Expression → e.Expression
  connected and_ l r = e.and_expr l r
  connected or_ l r = e.or_expr l r

  pub value-connected :
      (op : Connective) (l r : e.Expression) (a b : Bool)
      → at_row l ≡ bit a
      → at_row r ≡ bit b
      → at_row (connected op l r) ≡ bit (connect op a b)
  value-connected and_ l r a b p q = value-and l r a b p q
  value-connected or_ l r a b p q = value-or l r a b p q
