-- ===== src/Parser/Strings.antt =====
-- String literals with quotes in them: written with each quote doubled, and written by `toSQL`.
use hega_proto.Base.{
  ℕ, ◌≡◌, refl, ap, ◌∙◌, Bool, true, false, ◌&&◌, [], ◌∷◌, ◌++◌, append_assoc, arith, Str, codes,
  leb, ltb, ◌==◌, if◌then◌else◌, is_space, Bool-cases, inl, inr, ==_iff,
}
use hega_proto.Base.Outcome.{ok}
use hega_proto.Ast.{string_literal}
use hega_proto.Ast.Print.{to_sql}
use hega_proto.Parser.Lexer.{skip_ws, starts_with, read_string, consume_string}
use hega_proto.Parser.Words.{is_plain, read_string-end, read_string-plain}

-- every quote twice
abbrev pub escape : Str → Str
escape [] = []
escape (c ∷ cs) = if c == b'\'' then b'\'' ∷ b'\'' ∷ escape cs else c ∷ escape cs

abbrev pub is_ascii : Str → Bool
is_ascii [] = true
is_ascii (c ∷ cs) = leb c 127 && is_ascii cs

read_string-escape :
    (s rest : Str)
    → is_ascii s ≡ true
    → starts_with b'\'' rest ≡ false
    → read_string false (escape s ++ (b'\'' ∷ rest)) ≡ ok (s, rest)
unfolding read_string
read_string-escape [] rest h k = read_string-end rest k
read_string-escape (c ∷ cs) rest h k =
    let others : is_ascii cs ≡ true = ground arith in
    let ascii : ltb 127 c ≡ false = ground arith in
    let ih = read_string-escape cs rest others k in
    elim (Bool-cases (c == b'\'')) [
      | inl quote_ ↦ rw (quote_, ih, (==_iff c b'\'').0 quote_) refl
      | inr other ↦ rw (other, other, ascii, ih) refl
    ]

-- An ASCII text that stands between quotes, with each of its quotes doubled, is read as itself, and
-- what follows is left, where that is no quote.
pub consume_string-escape :
    (size : ℕ) (s rest : Str)
    → is_ascii s ≡ true
    → starts_with b'\'' rest ≡ false
    → consume_string size (b'\'' ∷ (escape s ++ (b'\'' ∷ rest))) ≡ ok (s, rest)
unfolding consume_string skip_ws is_space starts_with
consume_string-escape size s rest h k = read_string-escape s rest h k

-- The literal that `toSQL` writes for a text with a quote in it, and a character other than a quote
-- behind that, is read as what stands before the quote, if that is ASCII without quotes; the rest of
-- the text is left.
pub consume_string-to_sql :
    (size : ℕ) (before : Str) (c : ℕ) (behind : Str)
    → is_plain before ≡ true
    → (c == b'\'') ≡ false
    → consume_string size (to_sql (string_literal (before ++ (b'\'' ∷ c ∷ behind))))
      ≡ ok (before, c ∷ (behind ++ b'\'' ∷ []))
unfolding consume_string to_sql codes skip_ws starts_with
consume_string-to_sql size before c behind h k =
    ap (read_string false) (append_assoc before (b'\'' ∷ c ∷ behind) (b'\'' ∷ []))
    ∙ read_string-plain before (c ∷ (behind ++ b'\'' ∷ [])) h k
