-- ===== src/Parser/Bounds.antt =====
-- The numbers of a parsed statement fit in 64 bits, and its LIMIT is no negative count.
use mathlib.Core.Path.{subst}
use hega_proto.Base.{
  ℕ, suc, ◌+◌, ◌-◌, ◌*◌, ◌%◌, ◌^◌, ◌<◌, ◌≡◌, refl, Bool, true, false, not, [], ◌∷◌, arith, Str,
  codes, if◌then◌else◌, is_digit, ltb, le→ltb, lt→ltb, ltb→lt, Bool-cases, inl, inr,
}
use hega_proto.Base.Int.{ℤ, pos, negsuc, of_bits, ltb_ℤ}
use hega_proto.Base.Outcome.{Gives, Gives-bind, Gives-if, ok, ◌>>◌, guard, Error}
use hega_proto.Parser.{parse_limit}
use hega_proto.Parser.Lexer.{
  skip_ws, starts_with, starts_digit, tail, try_keyword, digits_value, consume_digits, consume_int,
}
use hega_proto.Parser.Digits.{IsInt64}

-- What a limit is, where LIMIT stands and where it does not.
abbrev pub IsLimitOf : Bool → ℤ → Type 0
IsLimitOf true (pos n) = n < 2 ^ 63
IsLimitOf true (negsuc n) = ⊥
IsLimitOf false n = n ≡ negsuc 0

-- Every pattern of 64 bits is a value of the type.
of_bits-IsInt64 : (n : ℕ) → n < 2 ^ 64 → IsInt64 (of_bits n)
unfolding of_bits
of_bits-IsInt64 n h = elim (Bool-cases (ltb n (2 ^ 63))) [
  | inl low ↦ rw low (ltb→lt n (2 ^ 63) low)
  | inr high ↦ rw high (ground (arith, high, h))
]

digits_value-lt : (s : Str) (v : ℕ) → v < 2 ^ 64 → digits_value v s < 2 ^ 64
unfolding digits_value
digits_value-lt [] v h = h
digits_value-lt (c ∷ cs) v h = elim (Bool-cases (is_digit c)) [
  | inl digit ↦ rw digit (digits_value-lt cs ((v * 10 + (c - b'0')) % 2 ^ 64) (omega arith))
  | inr other ↦ rw other h
]

module _ (size : ℕ) where
  consume_digits-IsInt64 :
      (negative : Bool) (s : Str)
      → Gives (λ (p : ℤ × Str). IsInt64 p.0) (consume_digits size negative s)
  unfolding consume_digits
  consume_digits-IsInt64 negative s =
      Gives-if _ (starts_digit s) _ _ (λ _. of_bits-IsInt64 _ (bits negative)) (λ _. tt)
    where
      bits :
          (b : Bool)
          → (if b then (2 ^ 64 - digits_value 0 s) % 2 ^ 64 else digits_value 0 s) < 2 ^ 64
      bits true = omega arith
      bits false = digits_value-lt s 0 (omega arith)

  -- An integer literal has a value of 64 bits, whatever digits are written.
  pub consume_int-IsInt64 : (s : Str) → Gives (λ (p : ℤ × Str). IsInt64 p.0) (consume_int size s)
  unfolding consume_int
  consume_int-IsInt64 s =
      Gives-if _ (starts_with b'-' (skip_ws s)) _ _
        (λ _. consume_digits-IsInt64 true (tail (skip_ws s)))
        (λ _. consume_digits-IsInt64 false (skip_ws s))

  guarded-IsLimitOf :
      (n : ℤ) (t : Str) (e : Error)
      → IsInt64 n
      → Gives (λ (p : ℤ × Str). IsLimitOf true p.0) (guard (not (ltb_ℤ n (pos 0))) e >> ok (n, t))
  guarded-IsLimitOf (pos n) t e h = rw (le→ltb (n + 0) 0 (omega arith)) h
  guarded-IsLimitOf (negsuc n) t e h = rw (lt→ltb 0 (0 + suc n) (omega arith)) tt

  parse_limit-Gives :
      (s : Str)
      → Gives
          (λ (p : ℤ × Str). IsLimitOf (try_keyword (codes "LIMIT") s).0 p.0)
          (parse_limit size s)
  unfolding parse_limit
  parse_limit-Gives s = elim (Bool-cases (try_keyword (codes "LIMIT") s).0) [
    | inl written ↦
        let r = (try_keyword (codes "LIMIT") s).1 in
        rw written (
          Gives-bind (λ (p : ℤ × Str). IsInt64 p.0) (λ (p : ℤ × Str). IsLimitOf true p.0)
            (consume_int size r) _ (consume_int-IsInt64 r) λ (n, t) h. guarded-IsLimitOf n t _ h)
    | inr lacking ↦ rw lacking refl
  ]

-- The limit that is read is from 0 to 2^63 - 1 where LIMIT stands, whatever digits follow it, and -1
-- where LIMIT does not stand.
pub parse_limit-IsLimitOf :
    (size : ℕ) (s : Str) (n : ℤ) (rest : Str)
    → parse_limit size s ≡ ok (n, rest)
    → IsLimitOf (try_keyword (codes "LIMIT") s).0 n
parse_limit-IsLimitOf size s n rest e =
    subst (Gives (λ (p : ℤ × Str). IsLimitOf (try_keyword (codes "LIMIT") s).0 p.0)) e
      (parse_limit-Gives size s)
