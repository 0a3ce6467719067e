-- ===== src/Execution/Characters.antt =====
-- A string test as the comparison of padded characters, one for each position of the column.
use native.Mathlib.Nat.{mod-eq_of_lt}
use native.Mathlib.Numerals.{add-one}
use mathlib.Core.Path.{subst, ap₂}
use hega_proto.Base.{
  ℕ, zero, suc, ◌+◌, ◌*◌, ◌^◌, ◌≤◌, ◌<◌, ◌≡◌, refl, ap, ◌∙◌, Bool, true, false, ◌&&◌, some, List,
  [], ◌∷◌, arith, Str, codes, str_eq, length, get_elem?, All, ◌==◌,
}
use hega_proto.Base.Int.{pos}
use hega_proto.Base.Outcome.{ok}
use hega_proto.Engine.{Engine, EngineLaws, encrypt_scalar, bit, max_value}
use hega_proto.Query.{PredNode, EncryptedLiteralEntry, find_literal}
use hega_proto.Query.Encryptor.{char_or_zero, literal_entry}
use hega_proto.Query.Encryptor.Growth.{NumberedFrom, find_literal-eq-get}
use hega_proto.Sql.{IsCharacter}
use hega_proto.Execution.Predicate.{char_comparisons, char_comparison}
use hega_proto.Execution.Combine.{IsBit, product}

-- The characters of `t` and `s` agree at the `rounds` positions from `p` on, 0 past their ends.
pub agree : ℕ → ℕ → Str → Str → Bool
agree zero p t s = true
agree (suc rounds) p t s = char_or_zero t p == char_or_zero s p && agree rounds (suc p) t s

agree-nil : (rounds p : ℕ) → agree rounds p [] [] ≡ true
unfolding agree
agree-nil zero p = refl
agree-nil (suc rounds) p = agree-nil rounds (suc p)

agree-cons :
    (rounds p x y : ℕ) (t s : Str) → agree rounds (suc p) (x ∷ t) (y ∷ s) ≡ agree rounds p t s
unfolding agree
agree-cons zero p x y t s = refl
agree-cons (suc rounds) p x y t s =
    ap (λ b. char_or_zero t p == char_or_zero s p && b) (agree-cons rounds (suc p) x y t s)

-- Over a width that holds both texts, ASCII texts without NUL agree exactly when they are equal.
pub agree-str_eq :
    (width : ℕ) (t s : Str)
    → length t ≤ width
    → length s ≤ width
    → All IsCharacter t
    → All IsCharacter s
    → agree width 0 t s ≡ str_eq t s
unfolding agree str_eq
agree-str_eq zero [] [] ht hs at as_ = refl
agree-str_eq zero [] (y ∷ s) ht hs at as_ = absurd (omega arith)
agree-str_eq zero (x ∷ t) s ht hs at as_ = absurd (omega arith)
agree-str_eq (suc w) [] [] ht hs at as_ = agree-nil w 1
agree-str_eq (suc w) (x ∷ t) [] ht hs at as_ = ground arith
agree-str_eq (suc w) [] (y ∷ s) ht hs at as_ = ground arith
agree-str_eq (suc w) (x ∷ t) (y ∷ s) ht hs at as_ =
    ap (λ b. x == y && b)
      (agree-cons w 0 x y t s ∙ agree-str_eq w t s (omega arith) (omega arith) at.1 as_.1)

char_or_zero_bound : (s : Str) (p : ℕ) → All IsCharacter s → char_or_zero s p ≤ max_value
char_or_zero_bound [] p h = omega arith
char_or_zero_bound (c ∷ s) zero h = omega arith
char_or_zero_bound (c ∷ s) (suc p) h = char_or_zero_bound s p h.1

pub bit-le_one : (b : Bool) → bit b ≤ 1
bit-le_one true = omega arith
bit-le_one false = omega arith

pub bit-and : (a b : Bool) → bit a * bit b ≡ bit (a && b)
bit-and true true = refl
bit-and true false = refl
bit-and false b = ground arith

module _ (e : Engine) (laws : EngineLaws e) (row : Str → ℕ) (node : PredNode)
    (literals : List EncryptedLiteralEntry) (numbered : NumberedFrom 0 literals) (width : ℕ)
    (s t : Str)
    (stored : (k : ℕ)
      → k < width
      → get_elem? literals (node.literal_id + k)
        ≡ some
            (literal_entry e (node.literal_id + k) (codes "STRING_CHAR") (pos (char_or_zero s k))))
    (room : node.literal_id + width < 2 ^ 32)
    (column : (k : ℕ)
      → k < width
      → row (e.string_physical_column node.column_name k) ≡ char_or_zero t k)
    (ascii_s : All IsCharacter s) (ascii_t : All IsCharacter t) where
  -- One character's comparison has the value of the equality of the two characters.
  value-char_comparison :
      (k : ℕ)
      → k < width
      → e.value row (
          char_comparison e node.column_name k
            (literal_entry e (node.literal_id + k) (codes "STRING_CHAR") (pos (char_or_zero s k))))
        ≡ bit (char_or_zero t k == char_or_zero s k)
  value-char_comparison k lt =
      let id = node.literal_id + k in
      let ct = encrypt_scalar e id (pos (char_or_zero s k)) in
      let literal =
        ap (λ c. e.value row (e.enc_literal c)) (laws.deserialize-serialize ct)
        ∙ laws.value-enc_literal row id (char_or_zero s k) (char_or_zero_bound s k ascii_s) in
      let stored_char =
        laws.value-column_ref row (e.string_physical_column node.column_name k) ∙ column k lt in
      laws.value-equal row _ _ (omega (arith, stored_char, char_or_zero_bound t k ascii_t))
        (omega (arith, literal, char_or_zero_bound s k ascii_s))
      ∙ ap₂ (λ (a b : ℕ). bit (a == b)) stored_char literal

  pub char_comparisons-agree :
      (rounds k : ℕ)
      → k + rounds ≤ width
      → (cs : List e.Expression) × (char_comparisons e rounds k node literals ≡ ok cs)
        × (length cs ≡ rounds)
        × All (IsBit e laws row) cs
        × (product e laws row cs ≡ bit (agree rounds k t s))
  unfolding char_comparisons agree
  char_comparisons-agree zero k h = ([], refl, refl, tt, refl)
  char_comparisons-agree (suc rounds) k h =
      let here : k < width = omega arith in
      let below : node.literal_id + k < 2 ^ 32 = omega arith in
      let found =
        ap (λ i. find_literal i literals) (mod-eq_of_lt below)
        ∙ find_literal-eq-get (node.literal_id + k) literals numbered
        ∙ stored k here in
      let (cs, made, count, bits, total) = char_comparisons-agree rounds (k + 1) (omega arith) in
      let total' =
        subst (λ j. product e laws row cs ≡ bit (agree rounds j t s)) (add-one k) total in
      let first = value-char_comparison k here in
      let here_bit = char_or_zero t k == char_or_zero s k in
      (
        char_comparison e node.column_name k
              (literal_entry e (node.literal_id + k) (codes "STRING_CHAR") (pos (char_or_zero s k)))
            ∷ cs,
        rw (found, char_comparisons) (rw made refl),
        omega (arith, count),
        (omega (arith, first, bit-le_one here_bit), bits),
        ap₂ ◌*◌ first total' ∙ bit-and here_bit (agree rounds (suc k) t s),
      )
