-- ===== src/Examples/Parsing.antt =====
-- Runs of the parser.
use hega_proto.Base.{
  ◌⊎◌, ◌≡◌, refl, some, [], ◌∷◌, inl, inr, arith, ◌++◌, is_digit, Str, codes, str_eq, is_alnum,
  is_alpha, to_upper_char,
}
use hega_proto.Base.Int.{pos, negsuc}
use hega_proto.Base.Outcome.{parse_error, ok, err}
use hega_proto.Ast.{
  SelectStatement, equal, less_equal, greater_equal, ascending, or_, column_ref, int_literal,
  string_literal, comparison, connective, not_expr, descending,
}
use hega_proto.Ast.Print.{to_sql, statement_sql}
use hega_proto.Parser.{parse, is_clause_word, parse_limit, parse_table_ref}
use hega_proto.Parser.Bounds.{IsLimitOf, parse_limit-IsLimitOf}
use hega_proto.Parser.Strings.{escape, consume_string-escape, consume_string-to_sql}
use hega_proto.Parser.Aliases.{parse_table_ref-alias}
use hega_proto.Parser.Ends.{parse-ends}
use hega_proto.Parser.Lexer.{
  try_keyword, starts_with, consume_string, starts_ident, is_word, word_of,
}
use hega_proto.Parser.Words.{IsColumn}
use hega_proto.Parser.Statement.{IsPrintableStatement, parse-statement_sql}

abbrev query : Str
query =
    codes
      "select p.age, name FROM people p WHERE not (age <= -3 OR name = 'It''s') order by age DESC LIMIT 2;"

abbrev parsed : SelectStatement
parsed = record {
  projections = codes "p.age" ∷ codes "name" ∷ [];
  table_name = codes "people";
  table_alias = codes "p";
  joins = [];
  where_clause = some (
      not_expr (
        connective or_ (comparison less_equal (column_ref (codes "age")) (int_literal (negsuc 2)))
          (comparison equal (column_ref (codes "name")) (string_literal (codes "It's")))));
  order_by_columns = record { column_name = codes "age"; direction = descending } ∷ [];
  limit_count = pos 2;
}

parse-query : parse query ≡ ok parsed
unfolding parse codes
parse-query = refl

parse-ends_example :
    ((stmt : SelectStatement) × (parse query ≡ ok stmt))
    ⊎ ((message : Str) × (parse query ≡ err (parse_error message)))
parse-ends_example = parse-ends query

abbrev age : Str
age = b'a' ∷ b'g' ∷ b'e' ∷ []

abbrev people : Str
people = b'p' ∷ []

abbrev depts : Str
depts = b'd' ∷ []

abbrev people_age : Str
people_age = b'p' ∷ b'.' ∷ age

-- SELECT p.age, age FROM age AS p JOIN d ON p.age = age WHERE NOT((age >= -7 OR p.age = 'It'))
-- ORDER BY p.age DESC, age LIMIT 3
abbrev printed : SelectStatement
printed = record {
  projections = people_age ∷ age ∷ [];
  table_name = age;
  table_alias = people;
  joins =
      record {
        right_table = record { table_name = depts; alias = depts };
        condition = comparison equal (column_ref people_age) (column_ref age);
      }
      ∷ [];
  where_clause = some (
      not_expr (
        connective or_ (comparison greater_equal (column_ref age) (int_literal (negsuc 6)))
          (comparison equal (column_ref people_age) (string_literal (b'I' ∷ b't' ∷ [])))));
  order_by_columns =
      record { column_name = people_age; direction = descending }
      ∷ record { column_name = age; direction = ascending }
      ∷ [];
  limit_count = pos 3;
}

is_age : IsColumn age
unfolding starts_ident is_word is_alnum is_alpha
is_age = inl (refl, refl)

is_people_age : IsColumn people_age
unfolding starts_ident is_word is_alnum is_alpha
is_people_age = inr (people, (age, (refl, ((refl, refl), (refl, refl)))))

printed-IsPrintableStatement : IsPrintableStatement printed
unfolding starts_ident is_word is_alnum is_alpha str_eq word_of to_upper_char codes
printed-IsPrintableStatement = (
  (is_people_age, (is_age, tt)),
  (
    (refl, refl),
    (
      (refl, refl),
      (
        (((refl, refl), ((refl, refl), (is_people_age, (refl, is_age)))), tt),
        (
          ((is_age, (refl, omega arith)), (is_people_age, (refl, refl))),
          ((is_people_age, (is_age, tt)), omega arith),
        ),
      ),
    ),
  ),
)

parse-statement_sql_example : parse (statement_sql printed) ≡ ok printed
parse-statement_sql_example = parse-statement_sql printed printed-IsPrintableStatement

limit_read : parse_limit 9 (codes " LIMIT 2;") ≡ ok (pos 2, b';' ∷ [])
unfolding parse_limit codes
limit_read = refl

parse_limit-IsLimitOf_example :
    IsLimitOf (try_keyword (codes "LIMIT") (codes " LIMIT 2;")).0 (pos 2)
parse_limit-IsLimitOf_example =
    parse_limit-IsLimitOf 9 (codes " LIMIT 2;") (pos 2) (b';' ∷ []) limit_read

-- the text It's
abbrev quoted : Str
quoted = b'I' ∷ b't' ∷ b'\'' ∷ b's' ∷ []

consume_string-escape_example :
    consume_string 7 (b'\'' ∷ (escape quoted ++ (b'\'' ∷ b')' ∷ []))) ≡ ok (quoted, b')' ∷ [])
unfolding starts_with
consume_string-escape_example = consume_string-escape 7 quoted (b')' ∷ []) refl refl

consume_string-to_sql_example :
    consume_string 6 (to_sql (string_literal quoted)) ≡ ok (b'I' ∷ b't' ∷ [], b's' ∷ b'\'' ∷ [])
consume_string-to_sql_example = consume_string-to_sql 6 (b'I' ∷ b't' ∷ []) b's' [] refl refl

-- the keyword where in small letters
abbrev small_where : Str
small_where = b'w' ∷ b'h' ∷ b'e' ∷ b'r' ∷ b'e' ∷ []

parse_table_ref-alias_example :
    parse_table_ref 14 (age ++ (b' ' ∷ (small_where ++ (b' ' ∷ people))))
    ≡ ok (record { table_name = age; alias = small_where }, b' ' ∷ people)
unfolding starts_ident is_word is_alnum is_alpha is_digit is_clause_word str_eq codes to_upper_char
parse_table_ref-alias_example =
    parse_table_ref-alias 14 age small_where (b' ' ∷ people) (refl, refl) (refl, refl) refl refl
