-- ===== src/Parser/Names.antt =====
-- The lists of names that `SelectStatement::toSQL` writes, after SELECT and after ORDER BY, and its
-- tables, are read back.
use mathlib.Core.Path.{subst}
use hega_proto.Base.{
  ℕ, zero, suc, ◌<◌, ◌≡◌, refl, ap, ◌∙◌, true, false, not, List, [], ◌∷◌, ◌++◌, append_assoc,
  append-nil, All, arith, length, Str, codes, str_eq, str_eq_iff, Bool-cases, inl, inr, is_space,
  is_alnum, is_alpha, is_digit, to_upper_char,
}
use hega_proto.Ast.Print.{more_names, projection_sql, alias_sql}
use hega_proto.Parser.{parse_table_ref, projection_loop, parse_projection_list}
use hega_proto.Parser.Lexer.{
  skip_ws, is_word, word_of, after_word, starts_with, try_keyword, consume_qualified,
}
use hega_proto.Parser.Words.{
  Reads, Reads-bind, IsName, IsColumn, starts_word, skip_ws-skip_ws, skip_ws-ident,
  consume_ident-name, consume_ident-skip, consume_qualified-column, consume_qualified-skip,
}
use hega_proto.Parser.Operands.{Stops, column-starts_ident, ident-starts_with}
use hega_proto.Parser.Clauses.{TableEnds}

-- what stands behind a list of names
abbrev pub ListEnds : Str → Type 0
ListEnds s = Stops s × (starts_with b',' (skip_ws s) ≡ false)

more_names-Stops : (ns : List Str) (rest : Str) → ListEnds rest → Stops (more_names ns ++ rest)
unfolding codes is_word is_alnum is_alpha is_digit starts_with skip_ws is_space
more_names-Stops [] rest (stops, comma) = stops
more_names-Stops (n ∷ ns) rest h = (refl, (refl, refl))

as-no_word : (t : Str) → starts_word (codes " AS " ++ t) ≡ false
unfolding codes is_word is_alnum is_alpha is_digit
as-no_word t = refl

pub space-skip : (t : Str) → skip_ws (b' ' ∷ t) ≡ skip_ws t
unfolding skip_ws is_space
space-skip t = refl

module _ (size : ℕ) where
  pub qualified_at :
      (s n rest : Str)
      → skip_ws s ≡ skip_ws (n ++ rest)
      → IsColumn n
      → Stops rest
      → Reads (consume_qualified size s) n rest
  qualified_at s n rest e h (word, (quote_, dot)) =
      rw (consume_qualified-skip size s (n ++ rest) e)
        (consume_qualified-column size n rest h word dot)

  projection_loop-more_names :
      (f : ℕ) (read ns : List Str) (rest : Str)
      → All IsColumn ns
      → ListEnds rest
      → length ns < f
      → Reads (projection_loop size f read (skip_ws (more_names ns ++ rest))) (read ++ ns) rest
  unfolding projection_loop codes skip_ws is_space starts_with
  projection_loop-more_names zero read ns rest h ends enough = absurd (omega arith)
  projection_loop-more_names (suc f) read [] rest h (stops, comma) enough =
      (skip_ws rest, (rw (comma, append-nil read) refl, skip_ws-skip_ws rest))
  projection_loop-more_names (suc f) read (n ∷ ns) rest (first, others) ends enough =
      let t = more_names ns ++ rest in
      Reads-bind _ _ n (read ++ n ∷ ns) t rest
        (qualified_at (b' ' ∷ ((n ++ more_names ns) ++ rest)) n t
          (ap skip_ws (append_assoc n (more_names ns) rest)) first (more_names-Stops ns rest ends))
        λ r same.
          rw (same, ← append_assoc read (n ∷ []) ns)
            (projection_loop-more_names f (read ++ n ∷ []) ns rest others ends (omega arith))

  pub parse_projection_list-projection_sql :
      (f : ℕ) (s : Str) (ns : List Str) (rest : Str)
      → skip_ws s ≡ skip_ws (projection_sql ns ++ rest)
      → All IsColumn ns
      → ListEnds rest
      → length ns < f
      → Reads (parse_projection_list size f s) ns rest
  unfolding parse_projection_list codes skip_ws is_space starts_with
  parse_projection_list-projection_sql f s [] rest e h ends enough = (rest, (rw e refl, refl))
  parse_projection_list-projection_sql f s (n ∷ ns) rest e (first, others) ends enough =
      let t = more_names ns ++ rest in
      let start = column-starts_ident n t first in
      let e' = e ∙ ap skip_ws (append_assoc n (more_names ns) rest) in
      let no_star =
        ap (starts_with b'*') (e' ∙ skip_ws-ident (n ++ t) start)
        ∙ ident-starts_with b'*' (n ++ t) start (omega arith) in
      rw no_star (
        Reads-bind _ _ n (n ∷ ns) t rest
          (qualified_at (skip_ws s) n t (skip_ws-skip_ws s ∙ e') first
            (more_names-Stops ns rest ends))
          λ r same.
            rw same (projection_loop-more_names f (n ∷ []) ns rest others ends (omega arith)))

  table-bare :
      (s name rest : Str)
      → skip_ws s ≡ skip_ws (name ++ rest)
      → IsName name
      → TableEnds size rest
      → Reads (parse_table_ref size s) (record { table_name = name; alias = name }) rest
  unfolding parse_table_ref
  table-bare s name rest e h (word, (lacks, bare)) = (
    skip_ws rest,
    (
      rw
          (
            consume_ident-skip size s (name ++ rest) e,
            consume_ident-name size name rest h word,
            lacks,
            bare name,
          )
          refl,
      skip_ws-skip_ws rest,
    ),
  )

  try_keyword-as : (t : Str) → try_keyword (codes "AS") (codes " AS " ++ t) ≡ (true, b' ' ∷ t)
  unfolding try_keyword codes skip_ws is_space word_of after_word is_word is_alnum is_alpha is_digit
      to_upper_char str_eq
  try_keyword-as t = refl

  table-named :
      (s name alias rest : Str)
      → skip_ws s ≡ skip_ws (name ++ (codes " AS " ++ (alias ++ rest)))
      → IsName name
      → IsName alias
      → starts_word rest ≡ false
      → Reads (parse_table_ref size s) (record { table_name = name; alias = alias }) rest
  unfolding parse_table_ref
  table-named s name alias rest e h k word =
      let t = alias ++ rest in
      (
        rest,
        (
          rw
              (
                consume_ident-skip size s (name ++ (codes " AS " ++ t)) e,
                consume_ident-name size name (codes " AS " ++ t) h (as-no_word t),
                try_keyword-as t,
                consume_ident-skip size (b' ' ∷ t) t (space-skip t),
                consume_ident-name size alias rest k word,
              )
              refl,
          refl,
        ),
      )

  -- A table and its alias, which is written where it is another name.
  pub parse_table_ref-alias_sql :
      (s name alias rest : Str)
      → skip_ws s ≡ skip_ws (name ++ (alias_sql (not (str_eq alias name)) alias ++ rest))
      → IsName name
      → IsName alias
      → TableEnds size rest
      → Reads (parse_table_ref size s) (record { table_name = name; alias = alias }) rest
  parse_table_ref-alias_sql s name alias rest e h k ends = elim (Bool-cases (str_eq alias name)) [
    | inl equal ↦
        let same = (str_eq_iff alias name).0 equal in
        let e' =
          subst (λ b. skip_ws s ≡ skip_ws (name ++ (alias_sql (not b) alias ++ rest))) equal e in
        rw same (table-bare s name rest e' h ends)
    | inr other ↦
        let e' =
          subst (λ b. skip_ws s ≡ skip_ws (name ++ (alias_sql (not b) alias ++ rest))) other e in
        table-named s name alias rest
          (e' ∙ ap (λ t. skip_ws (name ++ t)) (append_assoc (codes " AS ") alias rest)) h k (ends.0)
  ]
