-- ===== src/Parser/Joins.antt =====
-- The JOIN clauses that `SelectStatement::toSQL` writes are read back.
use hega_proto.Base.{
  ℕ, zero, suc, ◌+◌, ◌*◌, ◌≤◌, ◌≡◌, refl, ap, ◌∙◌, Bool, true, not, List, [], ◌∷◌, ◌++◌,
  append_assoc, append-nil, All, arith, length, length-append, Str, codes, str_eq, is_space,
  is_alnum, is_alpha, is_digit, to_upper_char,
}
use hega_proto.Base.Outcome.{ok}
use hega_proto.Ast.{JoinClause}
use hega_proto.Ast.Print.{to_sql, alias_sql, join_sql, joins_sql}
use hega_proto.Parser.{parse_table_ref, join_loop}
use hega_proto.Parser.Lexer.{skip_ws, is_word, word_of, after_word, try_keyword, expect_keyword}
use hega_proto.Parser.Expr.{parse_or}
use hega_proto.Parser.Words.{Reads, Reads-bind, IsName, skip_ws-skip_ws, try_keyword-skip}
use hega_proto.Parser.Steps.{Lacks, parse_or-skip}
use hega_proto.Parser.Printable.{IsPrintable, depth, depth-to_sql}
use hega_proto.Parser.RoundTrip.{parse_or-to_sql}
use hega_proto.Parser.Clauses.{
  WhereRest, JoinRest-Follows, WhereRest-Lacks, joins_sql-JoinRest, on-TableEnds,
}
use hega_proto.Parser.Names.{parse_table_ref-alias_sql, space-skip}

abbrev pub IsPrintableJoin : JoinClause → Type 0
IsPrintableJoin j =
    IsName j.right_table.table_name × (IsName j.right_table.alias × IsPrintable j.condition)

-- the test with which the alias of a joined table is written
abbrev renamed : JoinClause → Bool
renamed j = not (str_eq j.right_table.alias j.right_table.table_name)

-- the text behind JOIN, and behind ON
abbrev behind_on : JoinClause → Str → Str
behind_on j t = to_sql j.condition ++ t

abbrev behind_join : JoinClause → Str → Str
behind_join j t =
    j.right_table.table_name
    ++ (alias_sql (renamed j) j.right_table.alias ++ (codes " ON " ++ behind_on j t))

join_text : (j : JoinClause) (t : Str) → join_sql j ++ t ≡ codes " JOIN " ++ behind_join j t
unfolding join_sql
join_text j t =
    rw
      (
        append_assoc (codes " JOIN ")
            (j.right_table.table_name
              ++ (alias_sql (renamed j) j.right_table.alias
                  ++ (codes " ON " ++ to_sql j.condition)))
            t,
        append_assoc j.right_table.table_name
            (alias_sql (renamed j) j.right_table.alias ++ (codes " ON " ++ to_sql j.condition)) t,
        append_assoc (alias_sql (renamed j) j.right_table.alias)
            (codes " ON " ++ to_sql j.condition) t,
        append_assoc (codes " ON ") (to_sql j.condition) t,
      )
      refl

depth-join_sql : (j : JoinClause) → depth j.condition + 6 ≤ length (join_sql j)
unfolding join_sql codes
depth-join_sql j = omega (
  arith,
  depth-to_sql j.condition,
  length-append j.right_table.table_name
      (alias_sql (renamed j) j.right_table.alias ++ (codes " ON " ++ to_sql j.condition)),
  length-append (alias_sql (renamed j) j.right_table.alias) (codes " ON " ++ to_sql j.condition),
)

join-Lacks_inner : (t : Str) → Lacks (codes "INNER") (codes " JOIN " ++ t)
unfolding codes is_word is_alnum is_alpha is_digit skip_ws is_space try_keyword word_of str_eq
    to_upper_char
join-Lacks_inner t = refl

try_keyword-join : (t : Str) → try_keyword (codes "JOIN") (codes " JOIN " ++ t) ≡ (true, b' ' ∷ t)
unfolding codes is_word is_alnum is_alpha is_digit skip_ws is_space try_keyword word_of after_word
    str_eq to_upper_char
try_keyword-join t = refl

try_keyword-on : (t : Str) → try_keyword (codes "ON") (codes " ON " ++ t) ≡ (true, b' ' ∷ t)
unfolding codes is_word is_alnum is_alpha is_digit skip_ws is_space try_keyword word_of after_word
    str_eq to_upper_char
try_keyword-on t = refl

module _ (size : ℕ) where
  pub expect_keyword-found :
      (kw r s t : Str)
      → skip_ws r ≡ skip_ws s
      → try_keyword kw s ≡ (true, t)
      → expect_keyword size kw r ≡ ok t
  unfolding expect_keyword
  expect_keyword-found kw r s t e found = rw (try_keyword-skip kw r s e, found) refl

  pub join_loop-joins_sql :
      (f : ℕ) (read js : List JoinClause) (s rest : Str)
      → skip_ws s ≡ skip_ws (joins_sql js ++ rest)
      → All IsPrintableJoin js
      → WhereRest rest
      → 8 * length (joins_sql js) + 1 ≤ f
      → Reads (join_loop size f read s) (read ++ js) rest
  unfolding join_loop
  join_loop-joins_sql zero read js s rest e h behind enough = absurd (omega arith)
  join_loop-joins_sql (suc f) read [] s rest e h behind enough =
      let (no_inner, no_join) = WhereRest-Lacks rest behind in
      (
        skip_ws rest,
        (
          rw
              (
                try_keyword-skip (codes "INNER") s rest e,
                no_inner,
                try_keyword-skip (codes "JOIN") (skip_ws rest) rest (skip_ws-skip_ws rest),
                no_join,
                append-nil read,
              )
              refl,
          skip_ws-skip_ws rest,
        ),
      )
  join_loop-joins_sql (suc f) read (j ∷ js) s rest e ((name, (alias, condition)), others) behind
        enough =
      let t = joins_sql js ++ rest in
      let x = behind_join j t in
      let text = e ∙ ap skip_ws (append_assoc (join_sql j) (joins_sql js) rest ∙ join_text j t) in
      let (closes, (no_and, (no_or, comma))) =
        JoinRest-Follows t (joins_sql-JoinRest js rest behind) in
      let joined =
        try_keyword-skip (codes "JOIN") (skip_ws (codes " JOIN " ++ x)) (codes " JOIN " ++ x)
          (skip_ws-skip_ws (codes " JOIN " ++ x))
        ∙ try_keyword-join x in
      let long = depth-join_sql j in
      let total = length-append (join_sql j) (joins_sql js) in
      rw (try_keyword-skip (codes "INNER") s (codes " JOIN " ++ x) text, join-Lacks_inner x, joined)
        (Reads-bind (parse_table_ref size (b' ' ∷ x)) _ j.right_table (read ++ j ∷ js)
          (codes " ON " ++ behind_on j t) rest
          (parse_table_ref-alias_sql size (b' ' ∷ x) j.right_table.table_name j.right_table.alias
            (codes " ON " ++ behind_on j t) (space-skip x) name alias
            (on-TableEnds size (behind_on j t)))
          λ u same.
            rw
              (
                expect_keyword-found (codes "ON") u (codes " ON " ++ behind_on j t)
                    (b' ' ∷ behind_on j t) same (try_keyword-on (behind_on j t)),
                parse_or-skip size f (b' ' ∷ behind_on j t) (behind_on j t)
                    (space-skip (behind_on j t)),
              )
              (Reads-bind (parse_or size f (behind_on j t)) _ j.condition (read ++ j ∷ js) t rest
                (parse_or-to_sql size f j.condition t condition closes no_and no_or (omega arith))
                λ w same'. rw (← append_assoc read (j ∷ []) js) (
                  join_loop-joins_sql f (read ++ j ∷ []) js w rest same' others behind
                    (omega arith))))
