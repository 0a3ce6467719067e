-- ===== src/Decoder/Strings.antt =====
-- Texts: the characters that the client encrypts, one to a position, are read back as the text.
use hega_proto.Base.{
  ℕ, zero, suc, ◌≤◌, ◌≡◌, refl, false, some, List, [], ◌∷◌, arith, Str, length, get_elem?, All, ltb,
  le→ltb,
}
use hega_proto.Base.Int.{ℤ, pos}
use hega_proto.Base.Outcome.{ok}
use hega_proto.Query.Encryptor.{char_or_zero}
use hega_proto.Sql.{IsCharacter}
use hega_proto.Decoder.{decode_chars}

-- Slot `i` of position `p` holds character `p` of the text, or 0 past its end.
abbrev pub HoldsText : ℕ → Str → List (List ℤ) → Type 0
HoldsText i t positions =
    (p : ℕ) (chars : List ℤ)
    → get_elem? positions p ≡ some chars
    → get_elem? chars i ≡ some (pos (char_or_zero t p))

-- Whatever the width of the column, if the text fits it, the client decodes the text that was
-- stored: `decode_chars` stops at the first 0, and rejects no character of an ASCII text.
pub decode_chars-HoldsText :
    (i : ℕ) (t : Str) (positions : List (List ℤ))
    → length t ≤ length positions
    → All IsCharacter t
    → HoldsText i t positions
    → decode_chars i positions ≡ ok t
unfolding decode_chars
decode_chars-HoldsText i [] [] fits ascii h = refl
decode_chars-HoldsText i [] (chars ∷ positions) fits ascii h =
    rw (h 0 chars refl, decode_chars) refl
decode_chars-HoldsText i (c ∷ t) [] fits ascii h = absurd (omega arith)
decode_chars-HoldsText i (zero ∷ t) (chars ∷ positions) fits ascii h = absurd (omega arith)
decode_chars-HoldsText i (suc c ∷ t) (chars ∷ positions) fits ascii h =
    let inside : ltb 127 (suc c) ≡ false = le→ltb 127 (suc c) (omega arith) in
    let rest =
      decode_chars-HoldsText i t positions (omega arith) ascii.1 (λ p qs at. h (suc p) qs at) in
    rw (h 0 chars refl, decode_chars) (rw inside (rw rest refl))
