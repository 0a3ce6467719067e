-- ===== src/Parser/Words.antt =====
-- Names and string literals that are written out are read back, up to the spaces behind them.
use hega_proto.Base.{
  ℕ, ◌≡◌, refl, Bool, true, false, not, ◌&&◌, [], ◌∷◌, ◌++◌, append_assoc, arith, Str, ◌==◌,
  Bool-cases, inl, inr, ◌⊎◌, is_space, is_alpha, ltb, leb, and_left, and_right,
}
use hega_proto.Base.Outcome.{Result, ok, ◌>>=◌}
use hega_proto.Parser.Lexer.{
  skip_ws, is_word, word_of, after_word, starts_ident, starts_with, try_keyword, consume_ident,
  consume_qualified, read_string,
}

-- The code returns `a`, and leaves `rest` up to the spaces at its start.
abbrev pub Reads {ℓ} : {A : Type ℓ} → Result (A × Str) → A → Str → Type ℓ
Reads m a rest = (r : Str) × ((m ≡ ok (a, r)) × (skip_ws r ≡ skip_ws rest))

pub Reads-bind {ℓ κ} :
    {A : Type ℓ} {B : Type κ} (m : Result (A × Str)) (k : A × Str → Result (B × Str)) (a : A)
    (b : B) (rest after : Str)
    → Reads m a rest
    → ((r : Str) → skip_ws r ≡ skip_ws rest → Reads (k (a, r)) b after)
    → Reads (m >>= k) b after
Reads-bind m k a b rest after (r, (e, same)) h = rw e (h r same)

pub skip_ws-skip_ws : (s : Str) → skip_ws (skip_ws s) ≡ skip_ws s
unfolding skip_ws
skip_ws-skip_ws [] = refl
skip_ws-skip_ws (c ∷ cs) = elim (Bool-cases (is_space c)) [
  | inl space ↦ rw space (skip_ws-skip_ws cs)
  | inr other ↦ rw (other, other) refl
]

-- A keyword is looked for behind the spaces.
pub try_keyword-skip : (kw r s : Str) → skip_ws r ≡ skip_ws s → try_keyword kw r ≡ try_keyword kw s
unfolding try_keyword
try_keyword-skip kw r s e = rw e refl

-- `!atEnd() && (std::isalnum(peek()) || peek() == '_')`
abbrev pub starts_word : Str → Bool
starts_word [] = false
starts_word (c ∷ _) = is_word c

abbrev pub all_word : Str → Bool
all_word [] = true
all_word (c ∷ cs) = is_word c && all_word cs

-- a name without an alias
abbrev pub IsName : Str → Type 0
IsName w = (starts_ident w ≡ true) × (all_word w ≡ true)

-- a name, or two with a dot between them
abbrev pub IsColumn : Str → Type 0
IsColumn n = IsName n ⊎ ((a : Str) × ((b : Str) × ((n ≡ a ++ (b'.' ∷ b)) × (IsName a × IsName b))))

pub word_of-append :
    (w rest : Str) → all_word w ≡ true → starts_word rest ≡ false → word_of (w ++ rest) ≡ w
unfolding word_of
word_of-append [] [] h k = refl
word_of-append [] (c ∷ cs) h k = rw k refl
word_of-append (c ∷ cs) rest h k =
    rw (and_left (is_word c) _ h, word_of-append cs rest (and_right (is_word c) _ h) k) refl

pub after_word-append :
    (w rest : Str) → all_word w ≡ true → starts_word rest ≡ false → after_word (w ++ rest) ≡ rest
unfolding after_word
after_word-append [] [] h k = refl
after_word-append [] (c ∷ cs) h k = rw k refl
after_word-append (c ∷ cs) rest h k =
    rw (and_left (is_word c) _ h, after_word-append cs rest (and_right (is_word c) _ h) k) refl

pub starts_ident-append : (w rest : Str) → starts_ident w ≡ true → starts_ident (w ++ rest) ≡ true
unfolding starts_ident
starts_ident-append [] rest h = cc
starts_ident-append (c ∷ cs) rest h = h

pub skip_ws-ident : (s : Str) → starts_ident s ≡ true → skip_ws s ≡ s
unfolding skip_ws starts_ident is_alpha is_space
skip_ws-ident [] h = refl
skip_ws-ident (c ∷ cs) h = ground arith

module _ (size : ℕ) where
  pub consume_ident-name :
      (w rest : Str)
      → IsName w
      → starts_word rest ≡ false
      → consume_ident size (w ++ rest) ≡ ok (w, rest)
  unfolding consume_ident
  consume_ident-name w rest (first, all) k =
      let start = starts_ident-append w rest first in
      rw
        (
          skip_ws-ident (w ++ rest) start,
          start,
          word_of-append w rest all k,
          after_word-append w rest all k,
        )
        refl

  pub consume_ident-skip :
      (r s : Str) → skip_ws r ≡ skip_ws s → consume_ident size r ≡ consume_ident size s
  unfolding consume_ident
  consume_ident-skip r s e = rw e refl

  pub consume_qualified-skip :
      (r s : Str) → skip_ws r ≡ skip_ws s → consume_qualified size r ≡ consume_qualified size s
  unfolding consume_qualified
  consume_qualified-skip r s e = rw (consume_ident-skip r s e) refl

  pub consume_qualified-column :
      (n rest : Str)
      → IsColumn n
      → starts_word rest ≡ false
      → starts_with b'.' (skip_ws rest) ≡ false
      → Reads (consume_qualified size (n ++ rest)) n rest
  unfolding consume_qualified skip_ws starts_with is_word
  consume_qualified-column n rest (inl name) k dot =
      (skip_ws rest, (rw (consume_ident-name n rest name k, dot) refl, skip_ws-skip_ws rest))
  consume_qualified-column n rest (inr (a, (b, (e, (first, second))))) k dot = (
    rest,
    (
      rw
          (
            e,
            append_assoc a (b'.' ∷ b) rest,
            consume_ident-name a (b'.' ∷ (b ++ rest)) first refl,
            consume_ident-name b rest second k,
          )
          refl,
      refl,
    ),
  )

-- the characters of a literal that is written without escapes: ASCII, and no quote
abbrev pub is_plain : Str → Bool
is_plain [] = true
is_plain (c ∷ cs) = not (c == b'\'') && (leb c 127 && is_plain cs)

pub read_string-end :
    (rest : Str) → starts_with b'\'' rest ≡ false → read_string true rest ≡ ok ([], rest)
unfolding read_string starts_with
read_string-end [] h = refl
read_string-end (c ∷ cs) h = rw h refl

pub read_string-plain :
    (s rest : Str)
    → is_plain s ≡ true
    → starts_with b'\'' rest ≡ false
    → read_string false (s ++ (b'\'' ∷ rest)) ≡ ok (s, rest)
unfolding read_string
read_string-plain [] rest h k = read_string-end rest k
read_string-plain (c ∷ cs) rest h k =
    let unquoted : (c == b'\'') ≡ false = ground arith in
    let ascii : ltb 127 c ≡ false = ground arith in
    let others : is_plain cs ≡ true = ground arith in
    rw (unquoted, ascii, read_string-plain cs rest others k) refl
