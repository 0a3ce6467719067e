-- ===== src/Parser/Clauses.antt =====
-- What stands behind the parts of a statement that `SelectStatement::toSQL` writes: the end of the
-- text, or the keyword of a later clause.
use hega_proto.Base.{
  ℕ, suc, ◌+◌, ◌≡◌, refl, ◌∙◌, false, Option, none, some, List, [], ◌∷◌, ◌++◌, append_assoc, arith,
  le→ltb, lt→ltb, Str, codes, str_eq, inl, inr, ◌⊎◌, is_space, is_alnum, is_alpha, is_digit,
  to_upper_char,
}
use hega_proto.Base.Int.{ℤ, pos, negsuc, int_to_string}
use hega_proto.Ast.{AstExpr, OrderByColumn, JoinClause}
use hega_proto.Ast.Print.{
  to_sql, join_sql, joins_sql, where_sql, order_sql, direction_sql, more_orders, limit_sql,
}
use hega_proto.Parser.{is_clause_word, bare_alias}
use hega_proto.Parser.Lexer.{
  skip_ws, is_word, word_of, starts_ident, starts_with, try_keyword, consume_ident,
}
use hega_proto.Parser.Expr.{operator}
use hega_proto.Parser.Words.{starts_word}
use hega_proto.Parser.Steps.{Closes, Lacks}

-- the text behind the ORDER BY clause, behind the WHERE clause, behind the joins, and behind the table
abbrev pub LimitRest : Str → Type 0
LimitRest s = (s ≡ []) ⊎ ((t : Str) × (s ≡ codes " LIMIT " ++ t))

abbrev pub OrderRest : Str → Type 0
OrderRest s = LimitRest s ⊎ ((t : Str) × (s ≡ codes " ORDER BY " ++ t))

abbrev pub WhereRest : Str → Type 0
WhereRest s = OrderRest s ⊎ ((t : Str) × (s ≡ codes " WHERE " ++ t))

abbrev pub JoinRest : Str → Type 0
JoinRest s = WhereRest s ⊎ ((t : Str) × (s ≡ codes " JOIN " ++ t))

-- what is wanted of a text behind an element of a list, or behind an expression
abbrev pub Follows : Str → Type 0
Follows s =
    Closes s
    × (Lacks (codes "AND") s × (Lacks (codes "OR") s × (starts_with b',' (skip_ws s) ≡ false)))

pub JoinRest-Follows : (s : Str) → JoinRest s → Follows s
unfolding codes is_word is_alnum is_alpha is_digit starts_with skip_ws is_space operator try_keyword
    word_of str_eq to_upper_char
JoinRest-Follows s (inl (inl (inl (inl e)))) =
    rw e (((refl, (refl, refl)), refl), (refl, (refl, refl)))
JoinRest-Follows s (inl (inl (inl (inr (t, e))))) =
    rw e (((refl, (refl, refl)), refl), (refl, (refl, refl)))
JoinRest-Follows s (inl (inl (inr (t, e)))) =
    rw e (((refl, (refl, refl)), refl), (refl, (refl, refl)))
JoinRest-Follows s (inl (inr (t, e))) = rw e (((refl, (refl, refl)), refl), (refl, (refl, refl)))
JoinRest-Follows s (inr (t, e)) = rw e (((refl, (refl, refl)), refl), (refl, (refl, refl)))

pub WhereRest-Lacks : (s : Str) → WhereRest s → Lacks (codes "INNER") s × Lacks (codes "JOIN") s
unfolding codes is_word is_alnum is_alpha is_digit skip_ws is_space try_keyword word_of str_eq
    to_upper_char
WhereRest-Lacks s (inl (inl (inl e))) = rw e (refl, refl)
WhereRest-Lacks s (inl (inl (inr (t, e)))) = rw e (refl, refl)
WhereRest-Lacks s (inl (inr (t, e))) = rw e (refl, refl)
WhereRest-Lacks s (inr (t, e)) = rw e (refl, refl)

pub OrderRest-Lacks : (s : Str) → OrderRest s → Lacks (codes "WHERE") s
unfolding codes is_word is_alnum is_alpha is_digit skip_ws is_space try_keyword word_of str_eq
    to_upper_char
OrderRest-Lacks s (inl (inl e)) = rw e refl
OrderRest-Lacks s (inl (inr (t, e))) = rw e refl
OrderRest-Lacks s (inr (t, e)) = rw e refl

pub LimitRest-Lacks :
    (s : Str)
    → LimitRest s
    → Lacks (codes "ORDER") s × (Lacks (codes "DESC") s × Lacks (codes "ASC") s)
unfolding codes is_word is_alnum is_alpha is_digit skip_ws is_space try_keyword word_of str_eq
    to_upper_char
LimitRest-Lacks s (inl e) = rw e (refl, (refl, refl))
LimitRest-Lacks s (inr (t, e)) = rw e (refl, (refl, refl))

-- Each clause of the statement, or its absence, leaves a text of this form.
pub limit_sql-pos : (n : ℕ) → limit_sql (pos n) ≡ codes " LIMIT " ++ int_to_string (pos n)
unfolding limit_sql
limit_sql-pos n = rw (le→ltb (n + 0) 0 (omega arith)) refl

pub limit_sql-negsuc : (n : ℕ) → limit_sql (negsuc n) ≡ []
unfolding limit_sql
limit_sql-negsuc n = rw (lt→ltb 0 (0 + suc n) (omega arith)) refl

pub limit_sql-LimitRest : (n : ℤ) → LimitRest (limit_sql n)
limit_sql-LimitRest (pos n) = inr (int_to_string (pos n), limit_sql-pos n)
limit_sql-LimitRest (negsuc n) = inl (limit_sql-negsuc n)

pub order_sql-OrderRest :
    (cs : List OrderByColumn) (s : Str) → LimitRest s → OrderRest (order_sql cs ++ s)
order_sql-OrderRest [] s h = inl h
order_sql-OrderRest (c ∷ cs) s h = inr (
  c.column_name ++ (direction_sql c.direction ++ more_orders cs) ++ s,
  append_assoc (codes " ORDER BY ") _ s,
)

pub where_sql-WhereRest :
    (w : Option AstExpr) (s : Str) → OrderRest s → WhereRest (where_sql w ++ s)
unfolding where_sql
where_sql-WhereRest none s h = inl h
where_sql-WhereRest (some e) s h = inr (to_sql e ++ s, append_assoc (codes " WHERE ") (to_sql e) s)

pub joins_sql-JoinRest :
    (js : List JoinClause) (s : Str) → WhereRest s → JoinRest (joins_sql js ++ s)
unfolding join_sql
joins_sql-JoinRest [] s h = inl h
joins_sql-JoinRest (j ∷ js) s h = inr (
  _,
  append_assoc (join_sql j) (joins_sql js) s ∙ append_assoc (codes " JOIN ") _ (joins_sql js ++ s),
)

module _ (size : ℕ) where
  -- what is wanted of a text behind a table: no alias is read from it
  abbrev pub TableEnds : Str → Type 0
  TableEnds s =
      (starts_word s ≡ false)
      × (Lacks (codes "AS") s
          × ((table : Str)
              → bare_alias size table (skip_ws s)
                ≡ (record { table_name = table; alias = table }, skip_ws s)))

  pub JoinRest-TableEnds : (s : Str) → JoinRest s → TableEnds s
  unfolding codes is_word is_alnum is_alpha is_digit skip_ws is_space try_keyword word_of str_eq
      to_upper_char bare_alias is_clause_word consume_ident starts_ident
  JoinRest-TableEnds s (inl (inl (inl (inl e)))) = rw e (refl, (refl, λ table. refl))
  JoinRest-TableEnds s (inl (inl (inl (inr (t, e))))) = rw e (refl, (refl, λ table. refl))
  JoinRest-TableEnds s (inl (inl (inr (t, e)))) = rw e (refl, (refl, λ table. refl))
  JoinRest-TableEnds s (inl (inr (t, e))) = rw e (refl, (refl, λ table. refl))
  JoinRest-TableEnds s (inr (t, e)) = rw e (refl, (refl, λ table. refl))

  pub on-TableEnds : (t : Str) → TableEnds (codes " ON " ++ t)
  unfolding codes is_word is_alnum is_alpha is_digit skip_ws is_space try_keyword word_of str_eq
      to_upper_char bare_alias is_clause_word consume_ident starts_ident
  on-TableEnds t = (refl, (refl, λ table. refl))
