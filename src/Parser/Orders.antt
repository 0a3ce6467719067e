-- ===== src/Parser/Orders.antt =====
-- The ORDER BY list that `SelectStatement::toSQL` writes is read back.
use hega_proto.Base.{
  ℕ, zero, suc, ◌<◌, ◌≡◌, refl, ap, ◌∙◌, true, false, List, [], ◌∷◌, ◌++◌, append_assoc, append-nil,
  All, arith, length, Str, codes, str_eq, is_space, is_alnum, is_alpha, is_digit, to_upper_char,
}
use hega_proto.Base.Outcome.{ok}
use hega_proto.Ast.{SortDirection, ascending, descending, OrderByColumn}
use hega_proto.Ast.Print.{direction_sql, more_orders}
use hega_proto.Parser.{parse_order_column, order_loop, parse_order_list}
use hega_proto.Parser.Lexer.{skip_ws, is_word, word_of, after_word, starts_with, try_keyword}
use hega_proto.Parser.Words.{
  IsColumn, starts_word, skip_ws-skip_ws, try_keyword-skip, word_of-append, after_word-append,
}
use hega_proto.Parser.Operands.{Stops}
use hega_proto.Parser.Steps.{Lacks}
use hega_proto.Parser.Names.{qualified_at}

-- what stands behind one column of the list, and behind the list
abbrev pub DirectionEnds : Str → Type 0
DirectionEnds s = Stops s × (Lacks (codes "DESC") s × Lacks (codes "ASC") s)

abbrev pub OrderEnds : Str → Type 0
OrderEnds s = DirectionEnds s × (starts_with b',' (skip_ws s) ≡ false)

abbrev pub IsOrder : OrderByColumn → Type 0
IsOrder c = IsColumn c.column_name

try_keyword-desc :
    (rest : Str)
    → starts_word rest ≡ false
    → try_keyword (codes "DESC") (codes " DESC" ++ rest) ≡ (true, rest)
unfolding try_keyword codes skip_ws is_space word_of after_word is_word is_alnum is_alpha is_digit
    to_upper_char str_eq
try_keyword-desc rest word =
    rw (word_of-append [] rest refl word, after_word-append [] rest refl word) refl

desc-Stops : (t : Str) → Stops (codes " DESC" ++ t)
unfolding codes is_word is_alnum is_alpha is_digit starts_with skip_ws is_space
desc-Stops t = (refl, (refl, refl))

more_orders-Ends :
    (cs : List OrderByColumn) (rest : Str)
    → DirectionEnds rest
    → DirectionEnds (more_orders cs ++ rest)
unfolding codes is_word is_alnum is_alpha is_digit starts_with skip_ws is_space try_keyword word_of
    str_eq
more_orders-Ends [] rest ends = ends
more_orders-Ends (c ∷ cs) rest ends = ((refl, (refl, refl)), (refl, refl))

module _ (size : ℕ) where
  order-ascending :
      (s n rest : Str)
      → skip_ws s ≡ skip_ws (n ++ rest)
      → IsColumn n
      → DirectionEnds rest
      → parse_order_column size s
        ≡ ok (record { column_name = n; direction = ascending }, skip_ws rest)
  unfolding parse_order_column
  order-ascending s n rest e h (stops, (no_desc, no_asc)) =
      let (r, (found, same)) = qualified_at size s n rest e h stops in
      rw
        (
          found,
          try_keyword-skip (codes "DESC") r rest same,
          no_desc,
          try_keyword-skip (codes "ASC") (skip_ws rest) rest (skip_ws-skip_ws rest),
          no_asc,
          skip_ws-skip_ws rest,
        )
        refl

  order-descending :
      (s n rest : Str)
      → skip_ws s ≡ skip_ws (n ++ (codes " DESC" ++ rest))
      → IsColumn n
      → DirectionEnds rest
      → parse_order_column size s
        ≡ ok (record { column_name = n; direction = descending }, skip_ws rest)
  unfolding parse_order_column
  order-descending s n rest e h ((word, others), _) =
      let t = codes " DESC" ++ rest in
      let (r, (found, same)) = qualified_at size s n t e h (desc-Stops rest) in
      rw (found, try_keyword-skip (codes "DESC") r t same, try_keyword-desc rest word) refl

  -- One column with its direction, and the spaces behind it.
  order_column :
      (s n : Str) (d : SortDirection) (rest : Str)
      → skip_ws s ≡ skip_ws (n ++ (direction_sql d ++ rest))
      → IsColumn n
      → DirectionEnds rest
      → parse_order_column size s ≡ ok (record { column_name = n; direction = d }, skip_ws rest)
  order_column s n ascending rest e h ends = order-ascending s n rest e h ends
  order_column s n descending rest e h ends = order-descending s n rest e h ends

  -- the text of the columns behind one, for the text of all
  orders_text :
      (c : OrderByColumn) (cs : List OrderByColumn) (rest : Str)
      → (c.column_name ++ (direction_sql c.direction ++ more_orders cs)) ++ rest
        ≡ c.column_name ++ (direction_sql c.direction ++ (more_orders cs ++ rest))
  orders_text c cs rest =
      append_assoc c.column_name (direction_sql c.direction ++ more_orders cs) rest
      ∙ ap (λ t. c.column_name ++ t)
          (append_assoc (direction_sql c.direction) (more_orders cs) rest)

  order_loop-more_orders :
      (f : ℕ) (read cs : List OrderByColumn) (rest : Str)
      → All IsOrder cs
      → OrderEnds rest
      → length cs < f
      → order_loop size f read (skip_ws (more_orders cs ++ rest)) ≡ ok (read ++ cs, skip_ws rest)
  unfolding order_loop codes skip_ws is_space starts_with
  order_loop-more_orders zero read cs rest h ends enough = absurd (omega arith)
  order_loop-more_orders (suc f) read [] rest h (ends, comma) enough =
      rw (comma, append-nil read) refl
  order_loop-more_orders (suc f) read (c ∷ cs) rest (first, others) ends enough =
      let t = more_orders cs ++ rest in
      let s = b' ' ∷ ((c.column_name ++ (direction_sql c.direction ++ more_orders cs)) ++ rest) in
      rw
        (
          order_column s c.column_name c.direction t (ap skip_ws (orders_text c cs rest)) first
              (more_orders-Ends cs rest (ends.0)),
          ← append_assoc read (c ∷ []) cs,
        )
        (order_loop-more_orders f (read ++ c ∷ []) cs rest others ends (omega arith))

  pub parse_order_list-more_orders :
      (f : ℕ) (s : Str) (c : OrderByColumn) (cs : List OrderByColumn) (rest : Str)
      → skip_ws s
        ≡ skip_ws ((c.column_name ++ (direction_sql c.direction ++ more_orders cs)) ++ rest)
      → All IsOrder (c ∷ cs)
      → OrderEnds rest
      → length cs < f
      → parse_order_list size f s ≡ ok (c ∷ cs, skip_ws rest)
  unfolding parse_order_list
  parse_order_list-more_orders f s c cs rest e (first, others) ends enough =
      rw
        (order_column s c.column_name c.direction (more_orders cs ++ rest)
          (e ∙ ap skip_ws (orders_text c cs rest)) first (more_orders-Ends cs rest (ends.0)))
        (order_loop-more_orders f (c ∷ []) cs rest others ends enough)
