-- ===== src/Parser/Aliases.antt =====
-- Which word behind the name of a table becomes its alias.
use hega_proto.Base.{
  Bool, List, arith, true, if◌then◌else◌, Bool-cases, inl, inr, ◌||◌, [], str_eq, ℕ, ◌≡◌, refl, ap,
  ◌∙◌, false, ◌∷◌, ◌++◌, map, Str, codes, str_eq, is_space, is_alnum, is_alpha, is_digit,
  to_upper_char,
}
use hega_proto.Base.Outcome.{ok}
use hega_proto.Parser.{is_clause_word, bare_alias, parse_table_ref}
use hega_proto.Parser.Lexer.{skip_ws, is_word, try_keyword}
use hega_proto.Parser.Lists.{aliased}
use hega_proto.Parser.Words.{
  IsName, starts_word, starts_ident-append, skip_ws-ident, word_of-append, consume_ident-name,
}

space-no_word : (t : Str) → starts_word (b' ' ∷ t) ≡ false
unfolding is_word is_alnum is_alpha is_digit
space-no_word t = refl

-- A name that is AS in no case is passed over when AS is looked for.
try_keyword-other :
    (w rest : Str)
    → IsName w
    → starts_word rest ≡ false
    → str_eq (map to_upper_char w) (codes "AS") ≡ false
    → try_keyword (codes "AS") (b' ' ∷ (w ++ rest)) ≡ (false, w ++ rest)
unfolding try_keyword skip_ws is_space
try_keyword-other w rest (first, all) word other =
    let start = starts_ident-append w rest first in
    rw (skip_ws-ident (w ++ rest) start, word_of-append w rest all word, other) refl

bare_alias-name :
    (size : ℕ) (table alias rest : Str)
    → IsName alias
    → is_clause_word alias ≡ false
    → starts_word rest ≡ false
    → bare_alias size table (alias ++ rest) ≡ (record { table_name = table; alias = alias }, rest)
unfolding bare_alias
bare_alias-name size table alias rest k no_clause word =
    ap (aliased table (alias ++ rest)) (consume_ident-name size alias rest k word)
    ∙ rw no_clause refl

-- The words that begin a clause, in capitals.
abbrev pub clause_words : List Str
clause_words =
    codes "WHERE" ∷ codes "ORDER" ∷ codes "LIMIT" ∷ codes "JOIN" ∷ codes "INNER" ∷ codes "ON" ∷ []

abbrev pub is_among : Str → List Str → Bool
is_among w [] = false
is_among w (x ∷ xs) = str_eq w x || is_among w xs

is_clause_word-is_among : (w : Str) → is_clause_word w ≡ is_among w clause_words
unfolding is_clause_word
is_clause_word-is_among w = ground arith

bare_alias-clause :
    (size : ℕ) (table alias rest : Str)
    → IsName alias
    → is_clause_word alias ≡ true
    → starts_word rest ≡ false
    → bare_alias size table (alias ++ rest)
      ≡ (record { table_name = table; alias = table }, alias ++ rest)
unfolding bare_alias
bare_alias-clause size table alias rest k clause word =
    ap (aliased table (alias ++ rest)) (consume_ident-name size alias rest k word) ∙ rw clause refl

-- A name behind the table that is AS in no case is its alias, and is read, if it is none of WHERE,
-- ORDER, LIMIT, JOIN, INNER and ON as they are written in capitals; if it is one of these, the
-- table's name is its alias, and the name is left to be read.
pub parse_table_ref-alias :
    (size : ℕ) (table alias rest : Str)
    → IsName table
    → IsName alias
    → str_eq (map to_upper_char alias) (codes "AS") ≡ false
    → starts_word rest ≡ false
    → parse_table_ref size (table ++ (b' ' ∷ (alias ++ rest)))
      ≡ ok (
          if is_among alias clause_words
          then (record { table_name = table; alias = table }, alias ++ rest)
          else (record { table_name = table; alias = alias }, rest))
unfolding parse_table_ref
parse_table_ref-alias size table alias rest h k no_as word =
    rw
      (
        consume_ident-name size table (b' ' ∷ (alias ++ rest)) h (space-no_word (alias ++ rest)),
        try_keyword-other alias rest k word no_as,
      )
      (elim (Bool-cases (is_among alias clause_words)) [
        | inl clause ↦
            rw
              (
                clause,
                bare_alias-clause size table alias rest k (is_clause_word-is_among alias ∙ clause)
                    word,
              )
              refl
        | inr other ↦
            rw
              (
                other,
                bare_alias-name size table alias rest k (is_clause_word-is_among alias ∙ other)
                    word,
              )
              refl
      ])
