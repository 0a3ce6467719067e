-- ===== src/Parser/Later.antt =====
-- The clauses WHERE, ORDER BY and LIMIT that `SelectStatement::toSQL` writes are read back.
use hega_proto.Base.{
  ℕ, ◌+◌, ◌*◌, ◌≤◌, ◌≡◌, refl, sym, ap, ◌∙◌, true, Option, none, some, List, [], ◌∷◌, ◌++◌,
  append_assoc, append-nil, All, arith, length, Str, codes, str_eq, is_space, is_alnum, is_alpha,
  is_digit, to_upper_char, le→ltb, inl,
}
use hega_proto.Base.Int.{ℤ, pos, negsuc, int_to_string}
use hega_proto.Ast.{AstExpr, OrderByColumn}
use hega_proto.Ast.Print.{to_sql, where_sql, direction_sql, more_orders, order_sql, limit_sql}
use hega_proto.Parser.{parse_where, parse_order, parse_limit}
use hega_proto.Parser.Lexer.{
  skip_ws, is_word, word_of, after_word, starts_digit, try_keyword, consume_int,
}
use hega_proto.Parser.Expr.{parse_or}
use hega_proto.Parser.Words.{Reads, Reads-bind, skip_ws-skip_ws, try_keyword-skip}
use hega_proto.Parser.Digits.{IsInt64, consume_int-int_to_string}
use hega_proto.Parser.Steps.{Lacks, parse_or-skip}
use hega_proto.Parser.Printable.{IsPrintable, depth, depth-to_sql}
use hega_proto.Parser.RoundTrip.{parse_or-to_sql}
use hega_proto.Parser.Clauses.{
  LimitRest, OrderRest, JoinRest-Follows, OrderRest-Lacks, LimitRest-Lacks, limit_sql-pos,
  limit_sql-negsuc,
}
use hega_proto.Parser.Names.{space-skip}
use hega_proto.Parser.Orders.{IsOrder, parse_order_list-more_orders}
use hega_proto.Parser.Joins.{expect_keyword-found}

abbrev pub IsPrintableWhere : Option AstExpr → Type 0
IsPrintableWhere none = Unit {0}
IsPrintableWhere (some e) = IsPrintable e

-- a count, or the value that stands for no LIMIT
abbrev pub IsLimit : ℤ → Type 0
IsLimit (pos n) = IsInt64 (pos n)
IsLimit (negsuc n) = n ≡ 0

try_keyword-where :
    (t : Str) → try_keyword (codes "WHERE") (codes " WHERE " ++ t) ≡ (true, b' ' ∷ t)
unfolding codes is_word is_alnum is_alpha is_digit skip_ws is_space try_keyword word_of after_word
    str_eq to_upper_char
try_keyword-where t = refl

try_keyword-order :
    (t : Str) → try_keyword (codes "ORDER") (codes " ORDER BY " ++ t) ≡ (true, codes " BY " ++ t)
unfolding codes is_word is_alnum is_alpha is_digit skip_ws is_space try_keyword word_of after_word
    str_eq to_upper_char
try_keyword-order t = refl

try_keyword-by : (t : Str) → try_keyword (codes "BY") (codes " BY " ++ t) ≡ (true, b' ' ∷ t)
unfolding codes is_word is_alnum is_alpha is_digit skip_ws is_space try_keyword word_of after_word
    str_eq to_upper_char
try_keyword-by t = refl

try_keyword-limit :
    (t : Str) → try_keyword (codes "LIMIT") (codes " LIMIT " ++ t) ≡ (true, b' ' ∷ t)
unfolding codes is_word is_alnum is_alpha is_digit skip_ws is_space try_keyword word_of after_word
    str_eq to_upper_char
try_keyword-limit t = refl

try_keyword-nil : Lacks (codes "LIMIT") []
unfolding codes skip_ws try_keyword word_of str_eq
try_keyword-nil = refl

consume_int-space : (size : ℕ) (t : Str) → consume_int size (b' ' ∷ t) ≡ consume_int size t
unfolding consume_int skip_ws is_space
consume_int-space size t = refl

depth-where_sql : (x : AstExpr) → depth x ≤ length (where_sql (some x))
unfolding where_sql codes
depth-where_sql x = omega (arith, depth-to_sql x)

module _ (size : ℕ) where
  pub parse_where-where_sql :
      (f : ℕ) (s : Str) (w : Option AstExpr) (rest : Str)
      → skip_ws s ≡ skip_ws (where_sql w ++ rest)
      → IsPrintableWhere w
      → OrderRest rest
      → 8 * length (where_sql w) + 5 ≤ f
      → Reads (parse_where size f s) w rest
  unfolding parse_where where_sql
  parse_where-where_sql f s none rest e h behind enough = (
    skip_ws rest,
    (
      rw (try_keyword-skip (codes "WHERE") s rest e, OrderRest-Lacks rest behind) refl,
      skip_ws-skip_ws rest,
    ),
  )
  parse_where-where_sql f s (some x) rest e h behind enough =
      let t = to_sql x ++ rest in
      let (closes, (no_and, (no_or, comma))) = JoinRest-Follows rest (inl (inl behind)) in
      rw
        (
          try_keyword-skip (codes "WHERE") s (codes " WHERE " ++ t)
              (e ∙ ap skip_ws (append_assoc (codes " WHERE ") (to_sql x) rest)),
          try_keyword-where t,
          parse_or-skip size f (b' ' ∷ t) t (space-skip t),
        )
        (Reads-bind (parse_or size f t) _ x (some x) rest rest
          (parse_or-to_sql size f x rest h closes no_and no_or (omega (arith, depth-where_sql x)))
          λ r same. (r, (refl, same)))

  pub parse_order-order_sql :
      (f : ℕ) (s : Str) (cs : List OrderByColumn) (rest : Str)
      → skip_ws s ≡ skip_ws (order_sql cs ++ rest)
      → All IsOrder cs
      → LimitRest rest
      → length cs ≤ f
      → Reads (parse_order size f s) cs rest
  unfolding parse_order
  parse_order-order_sql f s [] rest e h behind enough = (
    skip_ws rest,
    (
      rw (try_keyword-skip (codes "ORDER") s rest e, (LimitRest-Lacks rest behind).0) refl,
      skip_ws-skip_ws rest,
    ),
  )
  parse_order-order_sql f s (c ∷ cs) rest e h behind enough =
      let y = (c.column_name ++ (direction_sql c.direction ++ more_orders cs)) ++ rest in
      let (closes, (no_and, (no_or, comma))) = JoinRest-Follows rest (inl (inl (inl behind))) in
      let read =
        parse_order_list-more_orders size f (b' ' ∷ y) c cs rest (space-skip y) h
          ((closes.0, (LimitRest-Lacks rest behind).1), comma) (omega arith) in
      (
        skip_ws rest,
        (
          rw
              (
                try_keyword-skip (codes "ORDER") s (codes " ORDER BY " ++ y)
                    (e ∙ ap skip_ws (append_assoc (codes " ORDER BY ") _ rest)),
                try_keyword-order y,
                expect_keyword-found size (codes "BY") (codes " BY " ++ y) (codes " BY " ++ y)
                    (b' ' ∷ y) refl (try_keyword-by y),
              )
              read,
          skip_ws-skip_ws rest,
        ),
      )

  pub parse_limit-limit_sql :
      (s : Str) (n : ℤ)
      → skip_ws s ≡ skip_ws (limit_sql n)
      → IsLimit n
      → Reads (parse_limit size s) n []
  unfolding parse_limit skip_ws starts_digit
  parse_limit-limit_sql s (pos n) e h =
      let d = int_to_string (pos n) in
      let read =
        consume_int-space size d
        ∙ ap (consume_int size) (sym (append-nil d))
        ∙ consume_int-int_to_string size (pos n) [] h refl in
      (
        [],
        (
          rw
              (
                try_keyword-skip (codes "LIMIT") s (codes " LIMIT " ++ d)
                    (e ∙ ap skip_ws (limit_sql-pos n)),
                try_keyword-limit d,
                read,
                le→ltb (n + 0) 0 (omega arith),
              )
              refl,
          refl,
        ),
      )
  parse_limit-limit_sql s (negsuc n) e h = (
    [],
    (
      rw
          (
            try_keyword-skip (codes "LIMIT") s [] (e ∙ ap skip_ws (limit_sql-negsuc n)),
            try_keyword-nil,
            h,
          )
          refl,
      refl,
    ),
  )
