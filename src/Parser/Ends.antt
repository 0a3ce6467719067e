-- ===== src/Parser/Ends.antt =====
-- The fuel that `parse` gives is enough: the parser of statements ends on every text.
use hega_proto.Base.{
  ◌⊎◌, inl, inr, refl, ◌≡◌, ℕ, zero, suc, ◌+◌, ◌-◌, ◌*◌, ◌≤◌, ◌<◌, Bool, true, false, not, List, [],
  ◌∷◌, ◌++◌, arith, Str, codes, length, to_string, if◌then◌else◌,
}
use hega_proto.Base.Int.{ltb_ℤ, pos}
use hega_proto.Base.Outcome.{Result, ok, err, Error, parse_error, ◌>>=◌, ◌>>◌, guard}
use hega_proto.Ast.{JoinClause, SelectStatement}
use hega_proto.Parser.{
  parse_table_ref, parse_projection_list, parse_order_list, join_loop, parse_where, parse_order,
  parse_limit, parse_select, check_end, parse,
}
use hega_proto.Parser.Lexer.{skip_ws, starts_with, tail, try_keyword, consume_int, expect_keyword}
use hega_proto.Parser.Expr.{parse_or}
use hega_proto.Parser.Within.{
  IsParseError, Within, Within-bind, Within-if, Within-le, Moves-bind, try_keyword-le,
  try_keyword-lt, consume_int-Within, expect_keyword-Moves,
}
use hega_proto.Parser.Total.{parse_or-Within}
use hega_proto.Parser.Lists.{
  parse_table_ref-Within, parse_projection_list-Within, parse_order_list-Within,
}

module _ (size : ℕ) where
  join_loop-Within :
      (f : ℕ) (joins : List JoinClause) (s : Str)
      → 8 * length s + 1 ≤ f
      → Within (length s) (join_loop size f joins s)
  unfolding join_loop codes
  join_loop-Within zero joins s h = absurd (omega arith)
  join_loop-Within (suc f) joins s h =
      let r = (try_keyword (codes "INNER") s).1 in
      let t = (try_keyword (codes "JOIN") r).1 in
      let le = try_keyword-le (codes "INNER") s in
      Within-if _ (try_keyword (codes "JOIN") r).0 _ _
        (λ found.
          let shorter = try_keyword-lt (codes "JOIN") r (omega arith) found in
          Within-bind (length t) _ (parse_table_ref size t) _ (parse_table_ref-Within size t)
            λ table u k.
              Moves-bind size (length u) _ (expect_keyword size (codes "ON") u) _
                (expect_keyword-Moves size (codes "ON") u)
                λ v j.
                  Within-bind (length v) _ (parse_or size f v) _
                    (parse_or-Within size f v (omega arith))
                    λ condition w i.
                      Within-le _ _
                        (join_loop size f
                          (joins ++ record { right_table = table; condition = condition } ∷ []) w)
                        (join_loop-Within f
                          (joins ++ record { right_table = table; condition = condition } ∷ []) w
                          (omega arith))
                        (omega arith))
        (λ _. omega (arith, try_keyword-le (codes "JOIN") r))

  parse_where-Within :
      (f : ℕ) (s : Str) → 8 * length s + 5 ≤ f → Within (length s) (parse_where size f s)
  unfolding parse_where
  parse_where-Within f s h =
      let r = (try_keyword (codes "WHERE") s).1 in
      let le = try_keyword-le (codes "WHERE") s in
      Within-if _ (try_keyword (codes "WHERE") s).0 _ _
        (λ _.
          Within-bind (length r) _ (parse_or size f r) _ (parse_or-Within size f r (omega arith))
            λ e t k. omega arith)
        (λ _. le)

  parse_order-Within : (f : ℕ) (s : Str) → length s < f → Within (length s) (parse_order size f s)
  unfolding parse_order
  parse_order-Within f s h =
      let r = (try_keyword (codes "ORDER") s).1 in
      let le = try_keyword-le (codes "ORDER") s in
      Within-if _ (try_keyword (codes "ORDER") s).0 _ _
        (λ _.
          Moves-bind size (length r) _ (expect_keyword size (codes "BY") r) _
            (expect_keyword-Moves size (codes "BY") r)
            λ t k.
              Within-le _ _ (parse_order_list size f t)
                (parse_order_list-Within size f t (omega arith)) (omega arith))
        (λ _. le)

  guarded-Within {ℓ} :
      {A : Type ℓ} (n : ℕ) (b : Bool) (e : Error) (m : Result (A × Str))
      → IsParseError e
      → Within n m
      → Within n (guard b e >> m)
  guarded-Within n true e m h k = k
  guarded-Within n false e m h k = h

  parse_limit-Within : (s : Str) → Within (length s) (parse_limit size s)
  unfolding parse_limit
  parse_limit-Within s =
      let r = (try_keyword (codes "LIMIT") s).1 in
      let le = try_keyword-le (codes "LIMIT") s in
      Within-if _ (try_keyword (codes "LIMIT") s).0 _ _
        (λ _.
          Within-bind (length r) _ (consume_int size r) _ (consume_int-Within size r)
            λ n t k. guarded-Within _ (not (ltb_ℤ n (pos 0))) _ (ok (n, t)) tt (omega arith))
        (λ _. le)

  parse_select-Within :
      (f : ℕ) (s : Str) → 8 * length s + 8 ≤ f → Within (length s) (parse_select size f s)
  unfolding parse_select
  parse_select-Within f s h =
      Moves-bind size _ _ (expect_keyword size (codes "SELECT") s) _ (expect_keyword-Moves size _ s)
        λ a ha.
          Within-bind (length a) _ (parse_projection_list size f a) _
            (parse_projection_list-Within size f a (omega arith))
            λ projections b hb.
              Moves-bind size (length b) _ (expect_keyword size (codes "FROM") b) _
                (expect_keyword-Moves size _ b)
                λ c hc.
                  Within-bind (length c) _ (parse_table_ref size c) _
                    (parse_table_ref-Within size c)
                    λ from d hd.
                      Within-bind (length d) _ (join_loop size f [] d) _
                        (join_loop-Within f [] d (omega arith))
                        λ joins e he.
                          Within-bind (length e) _ (parse_where size f e) _
                            (parse_where-Within f e (omega arith))
                            λ clause w hw.
                              Within-bind (length w) _ (parse_order size f w) _
                                (parse_order-Within f w (omega arith))
                                λ order g hg.
                                  Within-bind (length g) _ (parse_limit size g) _
                                    (parse_limit-Within g) λ limit r hr. omega arith

-- what `check_end` finds behind the semicolon
abbrev pub ended : ℕ → Str → Result (Unit {0})
ended size r = elim r [
  | [] ↦ ok tt
  | c ∷ cs ↦ err (
      parse_error (
        codes "Unexpected token at position "
        ++ (to_string (size - length (c ∷ cs)) ++ (codes ": '" ++ (c ∷ codes "'")))))
]

-- What is returned, or a parse error.
abbrev IsEnd {ℓ} : {A : Type ℓ} → Result A → Type 0
IsEnd (ok a) = Unit
IsEnd (err e) = IsParseError e

ended-IsEnd : (size : ℕ) (r : Str) → IsEnd (ended size r)
ended-IsEnd size [] = tt
ended-IsEnd size (c ∷ cs) = tt

-- Behind a parse that ends so, the test of the end does too.
checked-IsEnd :
    (size n : ℕ) (m : Result (SelectStatement × Str))
    → Within n m
    → IsEnd (do (stmt, rest) ← m; check_end size rest; ok stmt)
unfolding check_end
checked-IsEnd size n (err e) h = h
checked-IsEnd size n (ok (stmt, rest)) h = then_ok _ stmt (
    ended-IsEnd size
      (skip_ws (if starts_with b';' (skip_ws rest) then tail (skip_ws rest) else skip_ws rest)))
  where
    then_ok : (m : Result (Unit {0})) (stmt : SelectStatement) → IsEnd m → IsEnd (m >> ok stmt)
    then_ok (ok x) stmt h = tt
    then_ok (err e) stmt h = h

parse-IsEnd : (sql : Str) → IsEnd (parse sql)
unfolding parse
parse-IsEnd sql =
    checked-IsEnd (length sql) (length sql) (parse_select (length sql) (8 * length sql + 8) sql)
      (parse_select-Within (length sql) (8 * length sql + 8) sql (omega arith))

IsEnd-cases :
    (m : Result SelectStatement)
    → IsEnd m
    → ((stmt : SelectStatement) × (m ≡ ok stmt))
      ⊎ ((message : Str) × (m ≡ err (parse_error message)))
IsEnd-cases (ok stmt) h = inl (stmt, refl)
IsEnd-cases (err (parse_error message)) h = inr (message, refl)
IsEnd-cases (err _) h = absurd h

-- The parser ends on every text, with a statement or with a parse error: no text uses up the fuel.
pub parse-ends :
    (sql : Str)
    → ((stmt : SelectStatement) × (parse sql ≡ ok stmt))
      ⊎ ((message : Str) × (parse sql ≡ err (parse_error message)))
parse-ends sql = IsEnd-cases (parse sql) (parse-IsEnd sql)
