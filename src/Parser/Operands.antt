-- ===== src/Parser/Operands.antt =====
-- An operand that `toSQL` writes is read back by `parsePrimary`.
use hega_proto.Base.{
  ℕ, suc, ◌<◌, ◌≡◌, refl, ap, ◌∙◌, Bool, true, false, not, ◌&&◌, ◌||◌, [], ◌∷◌, ◌++◌, append_assoc,
  arith, Str, codes, ◌==◌, if◌then◌else◌, inl, inr, is_digit, is_space, is_alpha, is_alnum,
  to_string,
}
use hega_proto.Base.Int.{ℤ, pos, negsuc, int_to_string}
use hega_proto.Base.Outcome.{ok, err, parse_error, ◌>>=◌}
use hega_proto.Ast.{
  AstExpr, column_ref, int_literal, string_literal, comparison, connective, not_expr,
}
use hega_proto.Ast.Print.{to_sql}
use hega_proto.Parser.Lexer.{
  skip_ws, is_word, starts_ident, starts_digit, starts_with, consume_qualified, consume_int,
  consume_string,
}
use hega_proto.Parser.Expr.{Parsed, parse_atom, parse_or, parse_primary}
use hega_proto.Parser.Digits.{IsInt64, starts_digit-to_string, consume_int-int_to_string}
use hega_proto.Parser.Words.{
  Reads, Reads-bind, starts_word, IsColumn, starts_ident-append, consume_qualified-column, is_plain,
  read_string-plain,
}

-- an operand that is written as a text that stands for it
abbrev pub IsOperand : AstExpr → Type 0
IsOperand (column_ref n) = IsColumn n
IsOperand (int_literal v) = IsInt64 v
IsOperand (string_literal s) = is_plain s ≡ true
IsOperand _ = ⊥

-- what may stand behind an operand
abbrev pub Stops : Str → Type 0
Stops rest =
    (starts_word rest ≡ false)
    × ((starts_with b'\'' rest ≡ false) × (starts_with b'.' (skip_ws rest) ≡ false))

-- the text of an operand starts with no space and no parenthesis
abbrev pub starts_token : Str → Bool
starts_token [] = false
starts_token (c ∷ cs) = not (is_space c) && not (c == b'(')

starts_token-ident : (s : Str) → starts_ident s ≡ true → starts_token s ≡ true
unfolding starts_ident is_alpha is_space
starts_token-ident [] h = cc
starts_token-ident (c ∷ cs) h = ground arith

starts_token-digit : (s : Str) → starts_digit s ≡ true → starts_token s ≡ true
unfolding starts_digit is_digit is_space
starts_token-digit [] h = cc
starts_token-digit (c ∷ cs) h = ground arith

pub column-starts_ident : (n rest : Str) → IsColumn n → starts_ident (n ++ rest) ≡ true
column-starts_ident n rest (inl (first, all)) = starts_ident-append n rest first
column-starts_ident n rest (inr (a, (b, (e, ((first, all), second))))) =
    rw (e, append_assoc a (b'.' ∷ b) rest) (starts_ident-append a (b'.' ∷ (b ++ rest)) first)

pub skip_ws-token : (s : Str) → starts_token s ≡ true → skip_ws s ≡ s
unfolding skip_ws
skip_ws-token [] h = refl
skip_ws-token (c ∷ cs) h = let no_space : is_space c ≡ false = ground arith in rw no_space refl

-- A text that starts a name starts no number and no string.
ident-no_digit : (s : Str) → starts_ident s ≡ true → starts_digit s ≡ false
unfolding starts_ident is_alpha starts_digit is_digit
ident-no_digit [] h = refl
ident-no_digit (c ∷ cs) h = ground arith

pub ident-starts_with : (d : ℕ) (s : Str) → starts_ident s ≡ true → d < 65 → starts_with d s ≡ false
unfolding starts_ident is_alpha starts_with
ident-starts_with d [] h k = refl
ident-starts_with d (c ∷ cs) h k = ground arith

pub no_word-no_digit : (s : Str) → starts_word s ≡ false → starts_digit s ≡ false
unfolding is_word is_alnum starts_digit
no_word-no_digit [] h = refl
no_word-no_digit (c ∷ cs) h = ground (arith, is_alpha c)

int-number :
    (v : ℤ) (rest : Str)
    → (starts_digit (int_to_string v ++ rest) || starts_with b'-' (int_to_string v ++ rest)) ≡ true
unfolding int_to_string starts_with starts_digit is_digit
int-number (pos n) rest = rw (starts_digit-to_string n rest) refl
int-number (negsuc n) rest = refl

pub starts_token-int : (v : ℤ) (rest : Str) → starts_token (int_to_string v ++ rest) ≡ true
unfolding int_to_string is_space
starts_token-int (pos n) rest =
    starts_token-digit (to_string n ++ rest) (starts_digit-to_string n rest)
starts_token-int (negsuc n) rest = refl

module _ (size : ℕ) where
  -- the choice that `parse_primary` makes behind the spaces
  abbrev chosen : Str → Parsed → Parsed
  chosen r grouped = elim r [
    | [] ↦ err (parse_error (codes "Expected expression"))
    | c ∷ cs ↦ if c == b'(' then grouped else parse_atom size (c ∷ cs)
  ]

  chosen-atom :
      (r : Str) (grouped : Parsed) → starts_token r ≡ true → chosen r grouped ≡ parse_atom size r
  chosen-atom [] grouped h = cc
  chosen-atom (c ∷ cs) grouped h =
      let no_bracket : (c == b'(') ≡ false = ground arith in rw no_bracket refl

  primary-atom :
      (f : ℕ) (s : Str) → starts_token s ≡ true → parse_primary size (suc f) s ≡ parse_atom size s
  unfolding parse_or
  primary-atom f s h =
      let e = skip_ws-token s h in chosen-atom (skip_ws s) _ (rw e h) ∙ ap (parse_atom size) e

  atom-column :
      (s : Str)
      → starts_ident s ≡ true
      → parse_atom size s ≡ (do (n, t) ← consume_qualified size s; ok (column_ref n, t))
  unfolding parse_atom
  atom-column s h =
      rw
        (
          ident-no_digit s h,
          ident-starts_with b'-' s h (omega arith),
          ident-starts_with b'\'' s h (omega arith),
        )
        refl

  atom-number :
      (s : Str)
      → (starts_digit s || starts_with b'-' s) ≡ true
      → parse_atom size s ≡ (do (v, t) ← consume_int size s; ok (int_literal v, t))
  unfolding parse_atom
  atom-number s h = rw h refl

  primary-string :
      (f : ℕ) (s rest : Str)
      → is_plain s ≡ true
      → starts_with b'\'' rest ≡ false
      → parse_primary size (suc f) (b'\'' ∷ (s ++ (b'\'' ∷ rest))) ≡ ok (string_literal s, rest)
  unfolding parse_or parse_atom consume_string skip_ws is_space starts_digit is_digit starts_with
  primary-string f s rest h k = rw (read_string-plain s rest h k) refl

  pub parse_primary-operand :
      (f : ℕ) (x : AstExpr) (rest : Str)
      → IsOperand x
      → Stops rest
      → Reads (parse_primary size (suc f) (to_sql x ++ rest)) x rest
  unfolding to_sql codes
  parse_primary-operand f (column_ref n) rest h (word, (quote_, dot)) =
      let start = column-starts_ident n rest h in
      rw (primary-atom f (n ++ rest) (starts_token-ident (n ++ rest) start)) (
        rw (atom-column (n ++ rest) start) (
          Reads-bind _ _ n _ rest rest (consume_qualified-column size n rest h word dot)
            λ r same. (r, (refl, same))))
  parse_primary-operand f (int_literal v) rest h (word, (quote_, dot)) =
      let s = int_to_string v ++ rest in
      (
        rest,
        (
          rw
              (
                primary-atom f s (starts_token-int v rest),
                atom-number s (int-number v rest),
                consume_int-int_to_string size v rest h (no_word-no_digit rest word),
              )
              refl,
          refl,
        ),
      )
  parse_primary-operand f (string_literal s) rest h (word, (quote_, dot)) = (
    rest,
    (
      ap (λ t. parse_primary size (suc f) (b'\'' ∷ t)) (append_assoc s (b'\'' ∷ []) rest)
          ∙ primary-string f s rest h quote_,
      refl,
    ),
  )
  parse_primary-operand f (comparison _ _ _) rest h _ = elim h [ ]
  parse_primary-operand f (connective _ _ _) rest h _ = elim h [ ]
  parse_primary-operand f (not_expr _) rest h _ = elim h [ ]
