-- ===== src/Parser/Lists.antt =====
-- How much text the lists and the tables of a statement leave, and the fuel that the lists take.
use hega_proto.Base.{
  ℕ, zero, suc, ◌≤◌, ◌<◌, List, [], ◌∷◌, ◌++◌, arith, Str, codes, length, if◌then◌else◌, Bool-cases,
  inl, inr,
}
use hega_proto.Base.Outcome.{Result, ok, err}
use hega_proto.Ast.{OrderByColumn, TableRef}
use hega_proto.Parser.{
  is_clause_word, bare_alias, parse_table_ref, projection_loop, parse_projection_list,
  parse_order_column, order_loop, parse_order_list,
}
use hega_proto.Parser.Lexer.{
  skip_ws, starts_with, tail, try_keyword, consume_ident, consume_qualified,
}
use hega_proto.Parser.Within.{
  Within, Within-bind, Within-if, Within-le, skip_ws-le, tail-le, tail-lt, try_keyword-le,
  consume_ident-Within, consume_qualified-Within,
}

-- the choice that `bare_alias` makes, on the outcome of the lexer
abbrev pub aliased : Str → Str → Result (Str × Str) → TableRef × Str
aliased table s m = elim m [
  | err _ ↦ (record { table_name = table; alias = table }, s)
  | ok (candidate, r) ↦
      if is_clause_word candidate
      then (record { table_name = table; alias = table }, s)
      else (record { table_name = table; alias = candidate }, r)
]

aliased-le :
    (table s : Str) (m : Result (Str × Str))
    → Within (length s) m
    → length (aliased table s m).1 ≤ length s
aliased-le table s (err e) h = omega arith
aliased-le table s (ok (candidate, r)) h = elim (Bool-cases (is_clause_word candidate)) [
  | inl word ↦ rw word (omega arith)
  | inr other ↦ rw other h
]

module _ (size : ℕ) where
  bare_alias-le : (table s : Str) → length (bare_alias size table s).1 ≤ length s
  unfolding bare_alias
  bare_alias-le table s = aliased-le table s (consume_ident size s) (consume_ident-Within size s)

  pub parse_table_ref-Within : (s : Str) → Within (length s) (parse_table_ref size s)
  unfolding parse_table_ref codes
  parse_table_ref-Within s =
      Within-bind (length s) _ (consume_ident size s) _ (consume_ident-Within size s) λ table r h.
        let t = (try_keyword (codes "AS") r).1 in
        let le = try_keyword-le (codes "AS") r in
        Within-if _ (try_keyword (codes "AS") r).0 _ _
          (λ _.
            Within-bind (length t) _ (consume_ident size t) _ (consume_ident-Within size t)
              λ alias u k. omega arith)
          (λ _. omega (arith, bare_alias-le table t))

  projection_loop-Within :
      (f : ℕ) (columns : List Str) (s : Str)
      → length s < f
      → Within (length s) (projection_loop size f columns s)
  unfolding projection_loop
  projection_loop-Within zero columns s h = absurd (omega arith)
  projection_loop-Within (suc f) columns s h =
      Within-if _ (starts_with b',' s) _ _
        (λ comma.
          let shorter = tail-lt b',' s comma in
          Within-bind (length (tail s)) _ (consume_qualified size (tail s)) _
            (consume_qualified-Within size (tail s))
            λ c r k.
              let le = skip_ws-le r in
              Within-le _ _ (projection_loop size f (columns ++ c ∷ []) (skip_ws r))
                (projection_loop-Within f (columns ++ c ∷ []) (skip_ws r) (omega arith))
                (omega arith))
        (λ _. omega arith)

  pub parse_projection_list-Within :
      (f : ℕ) (s : Str) → length s < f → Within (length s) (parse_projection_list size f s)
  unfolding parse_projection_list
  parse_projection_list-Within f s h =
      let le = skip_ws-le s in
      Within-if _ (starts_with b'*' (skip_ws s)) _ _ (λ _. omega (arith, tail-le (skip_ws s)))
        (λ _.
          Within-bind (length (skip_ws s)) _ (consume_qualified size (skip_ws s)) _
            (consume_qualified-Within size (skip_ws s))
            λ c t k.
              let shorter = skip_ws-le t in
              Within-le _ _ (projection_loop size f (c ∷ []) (skip_ws t))
                (projection_loop-Within f (c ∷ []) (skip_ws t) (omega arith)) (omega arith))

  parse_order_column-Within : (s : Str) → Within (length s) (parse_order_column size s)
  unfolding parse_order_column
  parse_order_column-Within s =
      Within-bind (length s) _ (consume_qualified size s) _ (consume_qualified-Within size s)
        λ c r h.
          let down = try_keyword (codes "DESC") r in
          let up = try_keyword (codes "ASC") down.1 in
          let le = try_keyword-le (codes "DESC") r in
          let le2 = try_keyword-le (codes "ASC") down.1 in
          Within-if _ down.0 _ _ (λ _. omega (arith, skip_ws-le down.1))
            (λ _. omega (arith, skip_ws-le up.1))

  order_loop-Within :
      (f : ℕ) (columns : List OrderByColumn) (s : Str)
      → length s < f
      → Within (length s) (order_loop size f columns s)
  unfolding order_loop
  order_loop-Within zero columns s h = absurd (omega arith)
  order_loop-Within (suc f) columns s h =
      Within-if _ (starts_with b',' s) _ _
        (λ comma.
          let shorter = tail-lt b',' s comma in
          Within-bind (length (tail s)) _ (parse_order_column size (tail s)) _
            (parse_order_column-Within (tail s))
            λ c r k.
              Within-le _ _ (order_loop size f (columns ++ c ∷ []) r)
                (order_loop-Within f (columns ++ c ∷ []) r (omega arith)) (omega arith))
        (λ _. omega arith)

  pub parse_order_list-Within :
      (f : ℕ) (s : Str) → length s < f → Within (length s) (parse_order_list size f s)
  unfolding parse_order_list
  parse_order_list-Within f s h =
      Within-bind (length s) _ (parse_order_column size s) _ (parse_order_column-Within s) λ c r k.
        Within-le _ _ (order_loop size f (c ∷ []) r) (order_loop-Within f (c ∷ []) r (omega arith))
          (omega arith)
