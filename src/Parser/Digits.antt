-- ===== src/Parser/Digits.antt =====
-- The decimal digits that `std::to_string` writes are read back by `consumeInt`.
use hega_proto.Base.{
  ℕ, zero, suc, ◌+◌, ◌-◌, ◌/◌, ◌%◌, ◌^◌, ◌<◌, ◌≡◌, refl, ap, ◌∙◌, Bool, true, false, [], ◌∷◌, ◌++◌,
  arith, Str, ◌==◌, if◌then◌else◌, Bool-cases, inl, inr, digits_onto, to_string, is_digit, is_space,
  ==_iff, lt→ltb,
}
use hega_proto.Base.Int.{ℤ, pos, negsuc, of_bits, int_to_string}
use hega_proto.Base.Outcome.{ok}
use hega_proto.Parser.Lexer.{
  skip_ws, starts_with, digits_value, after_digits, starts_digit, consume_digits, consume_int,
}

digits_onto-append :
    (f n : ℕ) (acc rest : Str) → digits_onto f n acc ++ rest ≡ digits_onto f n (acc ++ rest)
unfolding digits_onto
digits_onto-append zero n acc rest = refl
digits_onto-append (suc f) n acc rest =
    let ih = digits_onto-append f (n / 10) ((b'0' + n % 10) ∷ acc) rest in
    elim (Bool-cases (n / 10 == 0)) [ inl last ↦ rw last refl | inr more ↦ rw more ih ]

-- A digit is written for each remainder by ten.
is_digit-digit : (n : ℕ) → is_digit (b'0' + n % 10) ≡ true
unfolding is_digit
is_digit-digit n = ground arith

quotient_lt : (f n : ℕ) → n < suc f → (n / 10 == 0) ≡ false → n / 10 < f
quotient_lt f n h more = ground arith

-- Reading the digits of `n` makes `n` of nothing.
digits_value-onto :
    (f n : ℕ) (acc : Str)
    → n < f
    → n < 2 ^ 64
    → digits_value 0 (digits_onto f n acc) ≡ digits_value n acc
unfolding digits_onto digits_value
digits_value-onto zero n acc h b = absurd (omega arith)
digits_value-onto (suc f) n acc h b = elim (Bool-cases (n / 10 == 0)) [
  | inl last ↦
      let small = (==_iff (n / 10) 0).0 last in
      rw (last, is_digit-digit n) (ap (λ v. digits_value v acc) (omega arith))
  | inr more ↦
      let fewer = quotient_lt f n h more in
      rw
        (
          more,
          digits_value-onto f (n / 10) ((b'0' + n % 10) ∷ acc) fewer (omega arith),
          is_digit-digit n,
        )
        (ap (λ v. digits_value v acc) (omega arith))
]

after_digits-onto : (f n : ℕ) (acc : Str) → after_digits (digits_onto f n acc) ≡ after_digits acc
unfolding digits_onto after_digits
after_digits-onto zero n acc = refl
after_digits-onto (suc f) n acc = elim (Bool-cases (n / 10 == 0)) [
  | inl last ↦ rw (last, is_digit-digit n) refl
  | inr more ↦
      rw (more, after_digits-onto f (n / 10) ((b'0' + n % 10) ∷ acc), is_digit-digit n) refl
]

starts_digit-onto :
    (f n : ℕ) (acc : Str) → starts_digit acc ≡ true → starts_digit (digits_onto f n acc) ≡ true
unfolding digits_onto starts_digit
starts_digit-onto zero n acc h = h
starts_digit-onto (suc f) n acc h = elim (Bool-cases (n / 10 == 0)) [
  | inl last ↦ rw last (is_digit-digit n)
  | inr more ↦ rw more (starts_digit-onto f (n / 10) ((b'0' + n % 10) ∷ acc) (is_digit-digit n))
]

starts_digit-onto_suc : (f n : ℕ) (acc : Str) → starts_digit (digits_onto (suc f) n acc) ≡ true
unfolding digits_onto starts_digit
starts_digit-onto_suc f n acc = elim (Bool-cases (n / 10 == 0)) [
  | inl last ↦ rw last (is_digit-digit n)
  | inr more ↦ rw more (starts_digit-onto f (n / 10) ((b'0' + n % 10) ∷ acc) (is_digit-digit n))
]

to_string-append : (n : ℕ) (rest : Str) → to_string n ++ rest ≡ digits_onto (suc n) n rest
unfolding to_string
to_string-append n rest =
    let e : n + 1 ≡ suc n = omega arith in
    ap (λ f. digits_onto f n [] ++ rest) e ∙ digits_onto-append (suc n) n [] rest

pub starts_digit-to_string : (n : ℕ) (rest : Str) → starts_digit (to_string n ++ rest) ≡ true
starts_digit-to_string n rest = rw (to_string-append n rest) (starts_digit-onto_suc n n rest)

digits_value-none : (v : ℕ) (s : Str) → starts_digit s ≡ false → digits_value v s ≡ v
unfolding digits_value starts_digit
digits_value-none v [] h = refl
digits_value-none v (c ∷ cs) h = rw h refl

after_digits-none : (s : Str) → starts_digit s ≡ false → after_digits s ≡ s
unfolding after_digits starts_digit
after_digits-none [] h = refl
after_digits-none (c ∷ cs) h = rw h refl

-- Digits before a text that starts with none are the number that they are printed from.
consume_digits-to_string :
    (size : ℕ) (negative : Bool) (n : ℕ) (rest : Str)
    → n < 2 ^ 64
    → starts_digit rest ≡ false
    → consume_digits size negative (to_string n ++ rest)
      ≡ ok (of_bits (if negative then (2 ^ 64 - n) % 2 ^ 64 else n), rest)
unfolding consume_digits
consume_digits-to_string size negative n rest b h =
    rw
      (
        to_string-append n rest,
        starts_digit-onto_suc n n rest,
        digits_value-onto (suc n) n rest (omega arith) b,
        digits_value-none n rest h,
        after_digits-onto (suc n) n rest,
        after_digits-none rest h,
      )
      refl

-- A text that starts with a digit starts with no space and no sign.
skip_ws-digits : (s : Str) → starts_digit s ≡ true → skip_ws s ≡ s
unfolding skip_ws starts_digit is_digit is_space
skip_ws-digits [] h = refl
skip_ws-digits (c ∷ cs) h = ground arith

starts_with-digits : (s : Str) → starts_digit s ≡ true → starts_with b'-' s ≡ false
unfolding starts_with starts_digit is_digit
starts_with-digits [] h = refl
starts_with-digits (c ∷ cs) h = ground arith

-- the range of `int64_t`
abbrev pub IsInt64 : ℤ → Type 0
IsInt64 (pos n) = n < 2 ^ 63
IsInt64 (negsuc n) = n < 2 ^ 63

of_bits-negated : (n : ℕ) → n < 2 ^ 63 → of_bits ((2 ^ 64 - suc n) % 2 ^ 64) ≡ negsuc n
unfolding of_bits
of_bits-negated n h = ground arith

-- What `std::to_string` writes for a value of 64 bits, before a text that starts with no digit, is
-- read as that value.
pub consume_int-int_to_string :
    (size : ℕ) (v : ℤ) (rest : Str)
    → IsInt64 v
    → starts_digit rest ≡ false
    → consume_int size (int_to_string v ++ rest) ≡ ok (v, rest)
unfolding consume_int int_to_string of_bits
consume_int-int_to_string size (pos n) rest b h =
    let digit = starts_digit-to_string n rest in
    rw
      (
        skip_ws-digits (to_string n ++ rest) digit,
        starts_with-digits (to_string n ++ rest) digit,
        consume_digits-to_string size false n rest (omega arith) h,
        lt→ltb n (2 ^ 63) b,
      )
      refl
consume_int-int_to_string size (negsuc n) rest b h =
    consume_digits-to_string size true (suc n) rest (omega arith) h
    ∙ ap (λ v. ok (v, rest)) (of_bits-negated n b)
