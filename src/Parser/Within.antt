-- ===== src/Parser/Within.antt =====
-- How much text the lexer leaves. Nothing is ever put back, and a keyword that is found is passed.
use hega_proto.Base.{
  ℕ, ◌+◌, ◌≤◌, ◌<◌, ◌≡◌, refl, Bool, true, false, [], ◌∷◌, map, arith, Str, str_eq, length, ltb,
  ◌==◌, to_upper_char, if◌then◌else◌, Bool-cases, inl, inr,
}
use hega_proto.Base.Outcome.{Result, ok, err, Error, parse_error, ◌>>=◌}
use hega_proto.Parser.Lexer.{
  skip_ws, word_of, after_word, starts_ident, starts_with, tail, try_keyword, after_digits,
  starts_digit, read_string, consume_ident, consume_qualified, consume_digits, consume_int,
  consume_string, expect_keyword, expect_char,
}

-- An exception of the class `ParseError`.
abbrev pub IsParseError : Error → Type 0
IsParseError (parse_error message) = Unit
IsParseError _ = ⊥

-- The code throws a parse error, or it leaves at most `n` characters.
abbrev pub Within {ℓ} : {A : Type ℓ} → ℕ → Result (A × Str) → Type 0
Within n (ok (a, r)) = length r ≤ n
Within n (err e) = IsParseError e

pub Within-bind {ℓ κ} :
    {A : Type ℓ} {B : Type κ} (n k : ℕ) (m : Result (A × Str)) (f : A × Str → Result (B × Str))
    → Within n m
    → ((a : A) (r : Str) → length r ≤ n → Within k (f (a, r)))
    → Within k (m >>= f)
Within-bind n k (ok (a, r)) f h g = g a r h
Within-bind n k (err e) f h g = h

pub Within-le {ℓ} : {A : Type ℓ} (n k : ℕ) (m : Result (A × Str)) → Within n m → n ≤ k → Within k m
Within-le n k (ok (a, r)) h le = omega arith
Within-le n k (err e) h le = h

pub Within-if {ℓ} :
    {A : Type ℓ} (n : ℕ) (b : Bool) (x y : Result (A × Str))
    → (b ≡ true → Within n x)
    → (b ≡ false → Within n y)
    → Within n (if b then x else y)
Within-if n true x y h k = h refl
Within-if n false x y h k = k refl

pub skip_ws-le : (s : Str) → length (skip_ws s) ≤ length s
unfolding skip_ws
skip_ws-le [] = omega arith
skip_ws-le (c ∷ cs) = ground (arith, skip_ws-le cs)

pub after_word-le : (s : Str) → length (after_word s) + length (word_of s) ≡ length s
unfolding after_word word_of
after_word-le [] = refl
after_word-le (c ∷ cs) = ground (arith, after_word-le cs)

pub after_digits-le : (s : Str) → length (after_digits s) ≤ length s
unfolding after_digits
after_digits-le [] = omega arith
after_digits-le (c ∷ cs) = ground (arith, after_digits-le cs)

pub tail-le : (s : Str) → length (tail s) ≤ length s
tail-le [] = omega arith
tail-le (c ∷ cs) = omega arith

pub tail-lt : (c : ℕ) (s : Str) → starts_with c s ≡ true → length (tail s) < length s
unfolding starts_with
tail-lt c [] h = cc
tail-lt c (d ∷ ds) h = omega arith

pub try_keyword-le : (kw s : Str) → length (try_keyword kw s).1 ≤ length s
unfolding try_keyword
try_keyword-le kw s = elim (Bool-cases (str_eq (map to_upper_char (word_of (skip_ws s))) kw)) [
  | inl found ↦ rw found (omega (arith, skip_ws-le s, after_word-le (skip_ws s)))
  | inr other ↦ rw other (skip_ws-le s)
]

map-nil : (f : ℕ → ℕ) (w kw : Str) → str_eq (map f w) kw ≡ true → 0 < length kw → 0 < length w
unfolding str_eq
map-nil f [] [] h p = p
map-nil f [] (c ∷ cs) h p = cc
map-nil f (c ∷ cs) kw h p = omega arith

pub try_keyword-lt :
    (kw s : Str)
    → 0 < length kw
    → (try_keyword kw s).0 ≡ true
    → length (try_keyword kw s).1 < length s
unfolding try_keyword
try_keyword-lt kw s p h = elim (Bool-cases (str_eq (map to_upper_char (word_of (skip_ws s))) kw)) [
  | inl found ↦ rw found (
      omega (
        arith,
        skip_ws-le s,
        after_word-le (skip_ws s),
        map-nil to_upper_char (word_of (skip_ws s)) kw found p,
      ))
  | inr other ↦ cc (rw other at h)
]

-- Both flags of `read_string` leave less than they are given.
read_string-Within : (flag : Bool) (s : Str) → Within (length s) (read_string flag s)
unfolding read_string
read_string-Within true [] = omega arith
read_string-Within true (c ∷ cs) =
    Within-if _ (c == b'\'') _ _
      (λ _.
        Within-bind (length cs) _ (read_string false cs) _ (read_string-Within false cs)
          λ a r h. omega arith)
      (λ _. omega arith)
read_string-Within false [] = tt
read_string-Within false (c ∷ cs) =
    Within-if _ (c == b'\'') _ _
      (λ _.
        Within-le (length cs) _ (read_string true cs) (read_string-Within true cs) (omega arith))
      λ _.
        Within-if _ (ltb 127 c) _ _ (λ _. tt)
          λ _.
            Within-bind (length cs) _ (read_string false cs) _ (read_string-Within false cs)
              λ a r h. omega arith

module _ (size : ℕ) where
  pub consume_ident-Within : (s : Str) → Within (length s) (consume_ident size s)
  unfolding consume_ident
  consume_ident-Within s =
      Within-if _ (starts_ident (skip_ws s)) _ _
        (λ _. omega (arith, skip_ws-le s, after_word-le (skip_ws s))) (λ _. tt)

  pub consume_qualified-Within : (s : Str) → Within (length s) (consume_qualified size s)
  unfolding consume_qualified
  consume_qualified-Within s =
      Within-bind (length s) _ (consume_ident size s) _ (consume_ident-Within s) λ name r h.
        Within-if _ (starts_with b'.' (skip_ws r)) _ _
          (λ _.
            Within-bind (length (tail (skip_ws r))) _ (consume_ident size (tail (skip_ws r))) _
              (consume_ident-Within (tail (skip_ws r)))
              λ bare u k. omega (arith, skip_ws-le r, tail-le (skip_ws r)))
          (λ _. omega (arith, skip_ws-le r))

  consume_digits-Within :
      (negative : Bool) (s : Str) → Within (length s) (consume_digits size negative s)
  unfolding consume_digits
  consume_digits-Within negative s =
      Within-if _ (starts_digit s) _ _ (λ _. after_digits-le s) (λ _. tt)

  pub consume_int-Within : (s : Str) → Within (length s) (consume_int size s)
  unfolding consume_int
  consume_int-Within s =
      Within-if _ (starts_with b'-' (skip_ws s)) _ _
        (λ _.
          Within-le _ _ (consume_digits size true (tail (skip_ws s)))
            (consume_digits-Within true (tail (skip_ws s)))
            (omega (arith, skip_ws-le s, tail-le (skip_ws s))))
        (λ _.
          Within-le _ _ (consume_digits size false (skip_ws s))
            (consume_digits-Within false (skip_ws s)) (skip_ws-le s))

  pub consume_string-Within : (s : Str) → Within (length s) (consume_string size s)
  unfolding consume_string
  consume_string-Within s =
      Within-if _ (starts_with b'\'' (skip_ws s)) _ _
        (λ _.
          Within-le _ _ (read_string false (tail (skip_ws s)))
            (read_string-Within false (tail (skip_ws s)))
            (omega (arith, skip_ws-le s, tail-le (skip_ws s))))
        (λ _. tt)

  -- The same for the steps that only move on.
  abbrev pub Moves : ℕ → Result Str → Type 0
  Moves n (ok r) = length r ≤ n
  Moves n (err e) = IsParseError e

  pub Moves-bind {ℓ} :
      {B : Type ℓ} (n k : ℕ) (m : Result Str) (f : Str → Result (B × Str))
      → Moves n m
      → ((r : Str) → length r ≤ n → Within k (f r))
      → Within k (m >>= f)
  Moves-bind n k (ok r) f h g = g r h
  Moves-bind n k (err e) f h g = h

  Moves-if :
      (n : ℕ) (b : Bool) (x : Str) (e : Error)
      → length x ≤ n
      → IsParseError e
      → Moves n (if b then ok x else err e)
  Moves-if n true x e h k = h
  Moves-if n false x e h k = k

  pub expect_keyword-Moves : (kw s : Str) → Moves (length s) (expect_keyword size kw s)
  unfolding expect_keyword
  expect_keyword-Moves kw s = Moves-if _ (try_keyword kw s).0 _ _ (try_keyword-le kw s) tt

  pub expect_char-Moves : (c : ℕ) (s : Str) → Moves (length s) (expect_char size c s)
  unfolding expect_char
  expect_char-Moves c s =
      Moves-if _ (starts_with c (skip_ws s)) _ _ (omega (arith, skip_ws-le s, tail-le (skip_ws s)))
        tt
