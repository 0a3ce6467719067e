-- ===== src/Parser/Lexer.antt =====
-- The lexer helpers of parser/parser.cpp. The state `src_`, `pos_` is the text from `pos_` on; `size`
-- is `src_.size()`, from which messages take the position.
use hega_proto.Base.{
  ℕ, ◌+◌, ◌-◌, ◌*◌, ◌%◌, ◌^◌, Bool, true, false, ◌||◌, [], ◌∷◌, ◌++◌, map, Str, codes, str_eq,
  length, ltb, ◌==◌, is_space, is_digit, is_alpha, is_alnum, to_upper_char, to_string,
  if◌then◌else◌,
}
use hega_proto.Base.Int.{ℤ, of_bits}
use hega_proto.Base.Outcome.{Result, ok, err, Error, parse_error, ◌>>=◌}

-- `skipWS`
unfoldable pub skip_ws : Str → Str
unfolding is_space
skip_ws [] = []
skip_ws (c ∷ cs) = if is_space c then skip_ws cs else c ∷ cs

-- `std::isalnum(c) || c == '_'`
unfoldable pub is_word : ℕ → Bool
unfolding is_alnum
is_word c = is_alnum c || c == b'_'

-- the loop that takes the characters of a word, and the text behind it
unfoldable pub word_of : Str → Str
unfolding is_word
word_of [] = []
word_of (c ∷ cs) = if is_word c then c ∷ word_of cs else []

unfoldable pub after_word : Str → Str
unfolding is_word
after_word [] = []
after_word (c ∷ cs) = if is_word c then after_word cs else c ∷ cs

-- `!atEnd() && (std::isalpha(peek()) || peek() == '_')`
unfoldable pub starts_ident : Str → Bool
unfolding is_alpha
starts_ident [] = false
starts_ident (c ∷ _) = is_alpha c || c == b'_'

-- `!atEnd() && peek() == c`
unfoldable pub starts_with : ℕ → Str → Bool
starts_with c [] = false
starts_with c (d ∷ _) = d == c

abbrev pub tail : Str → Str
tail [] = []
tail (_ ∷ cs) = cs

-- `tryKeyword`: whether the keyword is there, and the text behind it, else from the word on
unfoldable pub try_keyword : Str → Str → Bool × Str
unfolding skip_ws word_of after_word to_upper_char str_eq
try_keyword kw s =
    let r = skip_ws s in
    if str_eq (map to_upper_char (word_of r)) kw then (true, after_word r) else (false, r)

-- the digits at the start of the text, as the `int64_t` that they accumulate: signed overflow is
-- undefined, and is taken to wrap
unfoldable pub digits_value : ℕ → Str → ℕ
unfolding is_digit
digits_value v [] = v
digits_value v (c ∷ cs) =
    let more = digits_value ((v * 10 + (c - b'0')) % 2 ^ 64) cs in if is_digit c then more else v

unfoldable pub after_digits : Str → Str
unfolding is_digit
after_digits [] = []
after_digits (c ∷ cs) = if is_digit c then after_digits cs else c ∷ cs

unfoldable pub starts_digit : Str → Bool
unfolding is_digit
starts_digit [] = false
starts_digit (c ∷ _) = is_digit c

-- the loop of `consumeString`; the flag is set behind a quote that may be the last
unfoldable pub read_string : Bool → Str → Result (Str × Str)
read_string true [] = ok ([], [])
read_string true (c ∷ cs) =
    let rest = (do (value, r) ← read_string false cs; ok (b'\'' ∷ value, r)) in
    if c == b'\'' then rest else ok ([], c ∷ cs)
read_string false [] = err (parse_error (codes "Unterminated string literal"))
read_string false (c ∷ cs) =
    let closed = read_string true cs in
    let rest = (do (value, r) ← read_string false cs; ok (c ∷ value, r)) in
    if c == b'\''
    then closed
    else if ltb 127 c
    then err (parse_error (codes "Only ASCII string literals are supported"))
    else rest

module _ (size : ℕ) where
  -- an error with the position of the text that is left
  abbrev pub error_at : Str → Str → Error
  error_at message s = parse_error (message ++ to_string (size - length s))

  -- `consumeIdent`
  unfoldable pub consume_ident : Str → Result (Str × Str)
  unfolding skip_ws starts_ident word_of after_word
  consume_ident s =
      let r = skip_ws s in
      if starts_ident r
      then ok (word_of r, after_word r)
      else err (error_at (codes "Expected identifier at position ") r)

  -- `consumeQualifiedIdent`
  unfoldable pub consume_qualified : Str → Result (Str × Str)
  unfolding consume_ident starts_with
  consume_qualified s = do
    (name, r) ← consume_ident s
    let t = skip_ws r
    let field = (do (bare, u) ← consume_ident (tail t); ok (name ++ (b'.' ∷ bare), u))
    if starts_with b'.' t then field else ok (name, t)

  -- the digits of `consumeInt`, behind an optional sign
  unfoldable pub consume_digits : Bool → Str → Result (ℤ × Str)
  unfolding digits_value after_digits starts_digit of_bits
  consume_digits negative s =
      let v = digits_value 0 s in
      if starts_digit s
      then ok (of_bits (if negative then (2 ^ 64 - v) % 2 ^ 64 else v), after_digits s)
      else err (error_at (codes "Expected integer at position ") s)

  -- `consumeInt`
  unfoldable pub consume_int : Str → Result (ℤ × Str)
  unfolding consume_digits skip_ws starts_with
  consume_int s =
      let r = skip_ws s in
      if starts_with b'-' r then consume_digits true (tail r) else consume_digits false r

  -- `consumeString`; where the first character is no quote, `consume` has passed it
  unfoldable pub consume_string : Str → Result (Str × Str)
  unfolding read_string skip_ws starts_with
  consume_string s =
      let r = skip_ws s in
      if starts_with b'\'' r
      then read_string false (tail r)
      else err (error_at (codes "Expected string literal at position ") (tail r))

  -- `expectKeyword`
  unfoldable pub expect_keyword : Str → Str → Result Str
  unfolding try_keyword
  expect_keyword kw s =
      let (found, r) = try_keyword kw s in
      if found
      then ok r
      else err (error_at (codes "Expected keyword '" ++ (kw ++ codes "' at position ")) r)

  -- `expectChar`
  unfoldable pub expect_char : ℕ → Str → Result Str
  unfolding skip_ws starts_with
  expect_char c s =
      let r = skip_ws s in
      if starts_with c r
      then ok (tail r)
      else err (error_at (codes "Expected '" ++ (c ∷ codes "' at position ")) r)
