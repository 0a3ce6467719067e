-- ===== src/Execution/Combine.antt =====
-- The balanced conjunction that `buildExpression` makes of the characters' comparisons.
use hega_proto.Base.{
  ℕ, zero, suc, ◌*◌, ◌≤◌, ◌<◌, ◌≡◌, refl, sym, ap, ◌∙◌, List, [], ◌∷◌, arith, Str, length, take,
  drop, All, length-take_le, length-drop,
}
use hega_proto.Engine.{Engine, EngineLaws}
use hega_proto.Execution.Predicate.{combine, left_rest}
use mathlib.Core.Path.{subst, ap₂}

module _ (e : Engine) (laws : EngineLaws e) (row : Str → ℕ) where
  abbrev pub IsBit : e.Expression → Type 0
  IsBit c = e.value row c ≤ 1

  -- The conjunction of masks of zeros and ones, as their product.
  abbrev pub product : List e.Expression → ℕ
  product [] = 1
  product (c ∷ cs) = e.value row c * product cs

  product-le_one : (cs : List e.Expression) → All IsBit cs → product cs ≤ 1
  product-le_one [] h = omega arith
  product-le_one (c ∷ cs) h = grind (arith, product-le_one cs h.1, h.0)

  All-take : (n : ℕ) (cs : List e.Expression) → All IsBit cs → All IsBit (take n cs)
  All-take zero cs h = tt
  All-take (suc n) [] h = tt
  All-take (suc n) (c ∷ cs) h = (h.0, All-take n cs h.1)

  All-drop : (n : ℕ) (cs : List e.Expression) → All IsBit cs → All IsBit (drop n cs)
  All-drop zero cs h = h
  All-drop (suc n) [] h = tt
  All-drop (suc n) (c ∷ cs) h = All-drop n cs h.1

  product-take-drop :
      (n : ℕ) (cs : List e.Expression) → product (take n cs) * product (drop n cs) ≡ product cs
  product-take-drop zero cs = omega arith
  product-take-drop (suc n) [] = refl
  product-take-drop (suc n) (c ∷ cs) =
      omega (arith, ap (λ (t : ℕ). e.value row c * t) (product-take-drop n cs))

  drop-cases :
      (k : ℕ) (cs : List e.Expression)
      → k < length cs
      → (m : e.Expression) × (ms : List e.Expression) × (drop k cs ≡ m ∷ ms)
  drop-cases k [] h = absurd (omega arith)
  drop-cases zero (c ∷ cs) h = (c, cs, refl)
  drop-cases (suc k) (c ∷ cs) h = drop-cases k cs (omega arith)

  combine_split :
      (fuel : ℕ) (c d m : e.Expression) (ds ms : List e.Expression)
      → drop (left_rest e (d ∷ ds)) (d ∷ ds) ≡ m ∷ ms
      → combine e (suc fuel) c (d ∷ ds)
        ≡ e.and_expr (combine e fuel c (take (left_rest e (d ∷ ds)) (d ∷ ds))) (combine e fuel m ms)
  unfolding combine
  combine_split fuel c d m ds ms rest = rw (rest, combine)

  -- The tree that `combine` makes of any number of masks, of whatever shape, has the value of their
  -- conjunction. No mask is lost or taken twice.
  pub value-combine :
      (fuel : ℕ) (c : e.Expression) (cs : List e.Expression)
      → length cs ≤ fuel
      → All IsBit (c ∷ cs)
      → e.value row (combine e fuel c cs) ≡ product (c ∷ cs)
  unfolding combine
  value-combine fuel c [] h bits = omega arith
  value-combine zero c (d ∷ ds) h bits = absurd (omega arith)
  value-combine (suc fuel) c (d ∷ ds) h bits =
      let k = left_rest e (d ∷ ds) in
      let (m, ms, rest) = drop-cases k (d ∷ ds) (omega arith) in
      let left = c ∷ take k (d ∷ ds) in
      let left_bits : All IsBit left = (bits.0, All-take k (d ∷ ds) bits.1) in
      let right_bits : All IsBit (m ∷ ms) = subst (All IsBit) rest (All-drop k (d ∷ ds) bits.1) in
      let short = ap {B = ℕ} length rest in
      let l =
        value-combine fuel c (take k (d ∷ ds)) (omega (arith, length-take_le k (d ∷ ds)))
          left_bits in
      let r = value-combine fuel m ms (omega (arith, short, length-drop k (d ∷ ds))) right_bits in
      let whole : product left * product (m ∷ ms) ≡ product (c ∷ d ∷ ds) =
        sym (ap (λ xs. product left * product xs) rest) ∙ product-take-drop (suc k) (c ∷ d ∷ ds) in
      rw (combine_split fuel c d m ds ms rest) (
        laws.value-and row _ _ (omega (arith, l, product-le_one left left_bits))
          (omega (arith, r, product-le_one (m ∷ ms) right_bits))
        ∙ ap₂ ◌*◌ l r
        ∙ whole)
