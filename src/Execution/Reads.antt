-- ===== src/Execution/Reads.antt =====
-- The columns that the expression reads which the server rebuilds.
use mathlib.Core.Path.{subst}
use hega_proto.Base.{
  ℕ, zero, suc, ◌+◌, ◌<◌, ◌≤◌, ◌++◌, ◌≡◌, sym, List, [], ◌∷◌, arith, Str, length, take, drop, All,
  All-append, All-take, All-drop, Option-cases, inl, inr,
}
use hega_proto.Base.Outcome.{Gives, Gives-bind}
use hega_proto.Ast.{
  Comparison, equal, not_equal, greater_than, less_than, greater_equal, less_equal, Connective,
  and_, or_,
}
use hega_proto.Engine.{Engine, EngineLaws}
use hega_proto.Query.{PredNode, EncryptedLiteralEntry, find_literal, to_u32}
use hega_proto.Execution.Predicate.{char_comparisons, combine, combine_all, build_string, left_rest}
use hega_proto.Execution.Composed.{composed, connected}

module _ (e : Engine) (laws : EngineLaws e) (row : Str → ℕ) (P : Str → Type 0) where
  -- Every column that the expression reads has the property.
  abbrev pub Reads : e.Expression → Type 0
  Reads x = All P (e.columns x)

  Reads-both :
      (l r x : e.Expression)
      → e.columns x ≡ e.columns l ++ e.columns r
      → Reads l
      → Reads r
      → Reads x
  Reads-both l r x same p q =
      subst (All P) (sym same) (All-append P (e.columns l) (e.columns r) p q)

  pub Reads-not : (l : e.Expression) → Reads l → Reads (e.not_expr l)
  Reads-not l p = subst (All P) (sym (laws.columns-not l)) p

  Reads-and : (l r : e.Expression) → Reads l → Reads r → Reads (e.and_expr l r)
  Reads-and l r = Reads-both l r (e.and_expr l r) (laws.columns-and l r)

  Reads-or : (l r : e.Expression) → Reads l → Reads r → Reads (e.or_expr l r)
  Reads-or l r = Reads-both l r (e.or_expr l r) (laws.columns-or l r)

  Reads-equal : (l r : e.Expression) → Reads l → Reads r → Reads (e.equal l r)
  Reads-equal l r = Reads-both l r (e.equal l r) (laws.columns-equal l r)

  Reads-gt : (l r : e.Expression) → Reads l → Reads r → Reads (e.gt l r)
  Reads-gt l r = Reads-both l r (e.gt l r) (laws.columns-gt l r)

  Reads-lt : (l r : e.Expression) → Reads l → Reads r → Reads (e.lt l r)
  Reads-lt l r = Reads-both l r (e.lt l r) (laws.columns-lt l r)

  pub Reads-column_ref : (c : Str) → P c → Reads (e.column_ref c)
  Reads-column_ref c p = subst (All P) (sym (laws.columns-column_ref c)) (p, tt)

  pub Reads-enc_literal : (ct : e.Cipher) → Reads (e.enc_literal ct)
  Reads-enc_literal ct = subst (All P) (sym (laws.columns-enc_literal ct)) tt

  pub Reads-composed :
      (op : Comparison) (l r : e.Expression)
      → Reads l
      → Reads r
      → Reads (composed e laws row op l r)
  Reads-composed equal l r p q = Reads-equal l r p q
  Reads-composed not_equal l r p q = Reads-not (e.equal l r) (Reads-equal l r p q)
  Reads-composed greater_than l r p q = Reads-gt l r p q
  Reads-composed less_than l r p q = Reads-lt l r p q
  Reads-composed greater_equal l r p q =
      Reads-or (e.gt l r) (e.equal l r) (Reads-gt l r p q) (Reads-equal l r p q)
  Reads-composed less_equal l r p q =
      Reads-or (e.lt l r) (e.equal l r) (Reads-lt l r p q) (Reads-equal l r p q)

  pub Reads-connected :
      (op : Connective) (l r : e.Expression)
      → Reads l
      → Reads r
      → Reads (connected e laws row op l r)
  Reads-connected and_ l r p q = Reads-and l r p q
  Reads-connected or_ l r p q = Reads-or l r p q

  -- Both halves of a range, or the first comparison alone where the right half is empty.
  Reads-halves :
      (fuel : ℕ) (c left : e.Expression) (right : List e.Expression)
      → Reads c
      → Reads left
      → All Reads right
      → ((m : e.Expression) (ms : List e.Expression)
          → Reads m
          → All Reads ms
          → Reads (combine e fuel m ms))
      → Reads (elim right [ [] ↦ c | m ∷ ms ↦ e.and_expr left (combine e fuel m ms) ])
  Reads-halves fuel c left [] p q ps rec = p
  Reads-halves fuel c left (m ∷ ms) p q ps rec = Reads-and left _ q (rec m ms ps.0 ps.1)

  Reads-combine :
      (fuel : ℕ) (c : e.Expression) (cs : List e.Expression)
      → Reads c
      → All Reads cs
      → Reads (combine e fuel c cs)
  unfolding combine
  Reads-combine fuel c [] p ps = p
  Reads-combine zero c (d ∷ ds) p ps = p
  Reads-combine (suc fuel) c (d ∷ ds) p ps =
      let k = left_rest e (d ∷ ds) in
      Reads-halves fuel c (combine e fuel c (take k (d ∷ ds))) (drop k (d ∷ ds)) p
        (Reads-combine fuel c (take k (d ∷ ds)) p (All-take Reads k (d ∷ ds) ps))
        (All-drop Reads k (d ∷ ds) ps) (Reads-combine fuel)

  Reads-combine_all : (cs : List e.Expression) → All Reads cs → Gives Reads (combine_all e cs)
  Reads-combine_all [] ps = tt
  Reads-combine_all (c ∷ cs) ps = Reads-combine (length cs) c cs ps.0 ps.1

  module _ (node : PredNode) (literals : List EncryptedLiteralEntry)
      (held : (k : ℕ)
        → k < node.string_width
        → P (e.string_physical_column node.column_name k)) where
    char_comparisons-Reads :
        (rounds k : ℕ)
        → k + rounds ≤ node.string_width
        → Gives (All Reads) (char_comparisons e rounds k node literals)
    unfolding char_comparisons
    char_comparisons-Reads zero k h = tt
    char_comparisons-Reads (suc rounds) k h =
        elim (Option-cases (find_literal (to_u32 (node.literal_id + k)) literals)) [
          | inl lacking ↦ rw (lacking, char_comparisons) tt
          | inr (l, found) ↦
              rw (found, char_comparisons)
                (Gives-bind (All Reads) (All Reads)
                  (char_comparisons e rounds (k + 1) node literals) _
                  (char_comparisons-Reads rounds (k + 1) (omega arith))
                  λ cs ps. (
                    Reads-equal _ _ (Reads-column_ref _ (held k (omega arith)))
                        (Reads-enc_literal _),
                    ps,
                  ))
        ]

    -- A string test reads the physical columns of its column.
    pub build_string-Reads : Gives Reads (build_string e node literals)
    unfolding build_string
    build_string-Reads =
        Gives-bind (All Reads) Reads (char_comparisons e node.string_width 0 node literals) _
          (char_comparisons-Reads node.string_width 0 (omega arith)) Reads-combine_all
