-- ===== src/Parser/Printable.antt =====
-- The expressions that `ASTExpr::toSQL` writes as a text that stands for them: their operands can be
-- read, and none of them is taken for NOT.
use hega_proto.Base.{
  ℕ, suc, ◌+◌, ◌≤◌, ◌≡◌, refl, sym, ap, ◌∙◌, true, false, [], ◌∷◌, ◌++◌, append_assoc, append-nil,
  map, arith, Str, codes, str_eq, length, length-append, ◌==◌, inl, inr, is_space, is_alnum,
  is_alpha, is_digit, to_upper_char, to_string,
}
use hega_proto.Base.Int.{ℤ, pos, negsuc, int_to_string}
use hega_proto.Ast.{
  and_, or_, AstExpr, column_ref, int_literal, string_literal, comparison, connective, not_expr,
}
use hega_proto.Ast.Print.{to_sql, connective_str}
use hega_proto.Parser.Lexer.{skip_ws, is_word, word_of, starts_digit, try_keyword}
use hega_proto.Parser.Words.{IsColumn, starts_word, all_word, word_of-append, skip_ws-ident}
use hega_proto.Parser.Digits.{starts_digit-to_string}
use hega_proto.Parser.Operands.{IsOperand, column-starts_ident, skip_ws-token, starts_token-int}

-- a column whose first word is not the keyword NOT, in any case
abbrev pub IsNoNot : AstExpr → Type 0
IsNoNot (column_ref n) = str_eq (map to_upper_char (word_of n)) (codes "NOT") ≡ false
IsNoNot _ = Unit {0}

-- a comparison between operands, a single operand, or a formula over these
abbrev pub IsPrintable : AstExpr → Type 0
IsPrintable (comparison op l r) = IsOperand l × (IsNoNot l × IsOperand r)
IsPrintable (connective op l r) = IsPrintable l × IsPrintable r
IsPrintable (not_expr l) = IsPrintable l
IsPrintable (column_ref n) = IsOperand (column_ref n) × IsNoNot (column_ref n)
IsPrintable (int_literal v) = IsOperand (int_literal v)
IsPrintable (string_literal s) = IsOperand (string_literal s)

abbrev pub depth : AstExpr → ℕ
depth (connective op l r) = suc (depth l + depth r)
depth (not_expr l) = suc (depth l)
depth _ = 0

length-inner :
    (a b c d : Str) → length (a ++ b ++ c ++ d) ≡ length a + (length b + (length c + length d))
length-inner a b c d =
    omega (arith, length-append a b, length-append (a ++ b) c, length-append (a ++ b ++ c) d)

-- Each level of an expression is written with parentheses.
pub depth-to_sql : (x : AstExpr) → depth x ≤ length (to_sql x)
unfolding to_sql codes
depth-to_sql (column_ref n) = omega arith
depth-to_sql (int_literal v) = omega arith
depth-to_sql (string_literal s) = omega arith
depth-to_sql (comparison op l r) = omega arith
depth-to_sql (not_expr l) = omega (arith, depth-to_sql l, length-append (to_sql l) (codes ")"))
depth-to_sql (connective and_ l r) = omega (
  arith,
  depth-to_sql l,
  depth-to_sql r,
  length-inner (to_sql l) (connective_str and_) (to_sql r) (codes ")"),
)
depth-to_sql (connective or_ l r) = omega (
  arith,
  depth-to_sql l,
  depth-to_sql r,
  length-inner (to_sql l) (connective_str or_) (to_sql r) (codes ")"),
)

word_of-all : (w : Str) → all_word w ≡ true → word_of w ≡ w
word_of-all w h = ap word_of (sym (append-nil w)) ∙ word_of-append w [] h refl

word_of-column :
    (n rest : Str) → IsColumn n → starts_word rest ≡ false → word_of (n ++ rest) ≡ word_of n
unfolding is_word
word_of-column n rest (inl (first, all)) k = word_of-append n rest all k ∙ sym (word_of-all n all)
word_of-column n rest (inr (a, (b, (e, ((first, all), second))))) k =
    rw
      (
        e,
        append_assoc a (b'.' ∷ b) rest,
        word_of-append a (b'.' ∷ (b ++ rest)) all refl,
        word_of-append a (b'.' ∷ b) all refl,
      )
      refl

digits-no_not :
    (s : Str) → starts_digit s ≡ true → str_eq (map to_upper_char (word_of s)) (codes "NOT") ≡ false
unfolding word_of is_word is_alnum starts_digit to_upper_char codes str_eq is_digit
digits-no_not [] h = cc
digits-no_not (c ∷ cs) h =
    let word : is_word c ≡ true = ground (arith, is_alpha c) in
    let other : (to_upper_char c == b'N') ≡ false = ground arith in rw (word, other) refl

int-no_not :
    (v : ℤ) (rest : Str)
    → str_eq (map to_upper_char (word_of (int_to_string v ++ rest))) (codes "NOT") ≡ false
unfolding int_to_string word_of is_word is_alnum is_alpha is_digit codes str_eq
int-no_not (pos n) rest = digits-no_not (to_string n ++ rest) (starts_digit-to_string n rest)
int-no_not (negsuc n) rest = refl

pub operand-no_not :
    (x : AstExpr) (rest : Str)
    → IsOperand x
    → IsNoNot x
    → starts_word rest ≡ false
    → try_keyword (codes "NOT") (to_sql x ++ rest) ≡ (false, to_sql x ++ rest)
unfolding to_sql try_keyword codes skip_ws is_space word_of is_word is_alnum is_alpha is_digit
    str_eq
operand-no_not (column_ref n) rest h k word =
    rw (skip_ws-ident (n ++ rest) (column-starts_ident n rest h), word_of-column n rest h word, k)
      refl
operand-no_not (int_literal v) rest h k word =
    let s = int_to_string v ++ rest in
    rw (skip_ws-token s (starts_token-int v rest), int-no_not v rest) refl
operand-no_not (string_literal s) rest h k word = refl
operand-no_not (comparison _ _ _) rest h _ _ = elim h [ ]
operand-no_not (connective _ _ _) rest h _ _ = elim h [ ]
operand-no_not (not_expr _) rest h _ _ = elim h [ ]
