-- ===== src/Parser/Parts.antt =====
-- The text that `SelectStatement::toSQL` writes, taken apart: each part with what is behind it.
use hega_proto.Base.{
  suc, ◌≤◌, ◌≡◌, refl, Bool, true, not, ◌&&◌, List, [], ◌∷◌, ◌++◌, arith, length, length-append,
  Str, codes, str_eq, is_space, is_alnum, is_alpha, is_digit, to_upper_char,
}
use hega_proto.Ast.{OrderByColumn, SelectStatement}
use hega_proto.Ast.Print.{
  more_names, projection_sql, alias_sql, joins_sql, where_sql, direction_sql, more_orders,
  order_sql, limit_sql, statement_sql,
}
use hega_proto.Parser.Lexer.{
  skip_ws, is_word, word_of, after_word, starts_ident, starts_with, try_keyword,
}
use hega_proto.Parser.Words.{IsName}
use hega_proto.Parser.Names.{ListEnds}

pub try_keyword-select :
    (t : Str) → try_keyword (codes "SELECT") (codes "SELECT " ++ t) ≡ (true, b' ' ∷ t)
unfolding codes is_word is_alnum is_alpha is_digit skip_ws is_space try_keyword word_of after_word
    str_eq to_upper_char
try_keyword-select t = refl

pub try_keyword-from :
    (t : Str) → try_keyword (codes "FROM") (codes " FROM " ++ t) ≡ (true, b' ' ∷ t)
unfolding codes is_word is_alnum is_alpha is_digit skip_ws is_space try_keyword word_of after_word
    str_eq to_upper_char
try_keyword-from t = refl

pub from-ListEnds : (t : Str) → ListEnds (codes " FROM " ++ t)
unfolding codes is_word is_alnum is_alpha is_digit skip_ws is_space starts_with
from-ListEnds t = ((refl, (refl, refl)), refl)

alias-named :
    (b : Bool) (alias : Str)
    → IsName alias
    → alias_sql (not (str_eq alias []) && b) alias ≡ alias_sql b alias
unfolding starts_ident str_eq
alias-named b [] (h, _) = cc
alias-named b (c ∷ cs) h = refl

length-more_names : (ns : List Str) → length ns ≤ length (more_names ns)
unfolding codes
length-more_names [] = omega arith
length-more_names (n ∷ ns) = omega (arith, length-more_names ns, length-append n (more_names ns))

pub length-projection_sql : (ns : List Str) → length ns ≤ suc (length (projection_sql ns))
length-projection_sql [] = omega arith
length-projection_sql (n ∷ ns) =
    omega (arith, length-more_names ns, length-append n (more_names ns))

length-more_orders : (cs : List OrderByColumn) → length cs ≤ length (more_orders cs)
unfolding codes
length-more_orders [] = omega arith
length-more_orders (c ∷ cs) = omega (
  arith,
  length-more_orders cs,
  length-append c.column_name (direction_sql c.direction ++ more_orders cs),
  length-append (direction_sql c.direction) (more_orders cs),
)

pub length-order_sql : (cs : List OrderByColumn) → length cs ≤ length (order_sql cs)
unfolding codes
length-order_sql [] = omega arith
length-order_sql (c ∷ cs) = omega (
  arith,
  length-more_orders cs,
  length-append c.column_name (direction_sql c.direction ++ more_orders cs),
  length-append (direction_sql c.direction) (more_orders cs),
)

-- the parts of a statement's text, each with what is behind it
abbrev pub order_part : SelectStatement → Str
order_part st = order_sql st.order_by_columns ++ limit_sql st.limit_count

abbrev pub where_part : SelectStatement → Str
where_part st = where_sql st.where_clause ++ order_part st

abbrev pub join_part : SelectStatement → Str
join_part st = joins_sql st.joins ++ where_part st

abbrev pub from_part : SelectStatement → Str
from_part st =
    st.table_name
    ++ (alias_sql (not (str_eq st.table_alias st.table_name)) st.table_alias ++ join_part st)

abbrev pub projection_part : SelectStatement → Str
projection_part st = projection_sql st.projections ++ (codes " FROM " ++ from_part st)

pub statement_sql-parts :
    (st : SelectStatement)
    → IsName st.table_alias
    → statement_sql st ≡ codes "SELECT " ++ projection_part st
unfolding statement_sql
statement_sql-parts st h =
    rw (alias-named (not (str_eq st.table_alias st.table_name)) st.table_alias h) refl
