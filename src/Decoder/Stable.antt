-- ===== src/Decoder/Stable.antt =====
-- ORDER BY is stable.
use mathlib.Core.Bool.{false≢true}
use hega_proto.Base.{
  ◌≡◌, refl, sym, ap, ◌∙◌, Bool, true, false, not, ◌&&◌, inl, inr, Option, some, List, [], ◌∷◌,
  arith, All, if◌then◌else◌, Bool-cases,
}
use hega_proto.Base.Int.{ℤ, eqb_ℤ}
use hega_proto.Base.Dict.{lookup}
use hega_proto.Ast.{OrderByColumn, SortDirection, ascending, descending}
use hega_proto.Decoder.{ResultRow, row_less, insert_row, stable_sort}
use hega_proto.Decoder.Order.{IsComplete, Before-trans, less_in, row_less_complete}
use hega_proto.Decoder.Sort.{stable_sort-All}

-- The rows that satisfy a test, in their order.
pub keep : (ResultRow → Bool) → List ResultRow → List ResultRow
keep p [] = []
keep p (r ∷ rows) = if p r then r ∷ keep p rows else keep p rows

-- Neither row is less than the other.
tied : List OrderByColumn → ResultRow → ResultRow → Bool
tied os k r = not (row_less os k r) && not (row_less os r k)

-- Of two rows tied with the same row, neither is less than the other.
tied-not_less :
    (os : List OrderByColumn) (k r s : ResultRow)
    → IsComplete os k
    → IsComplete os r
    → IsComplete os s
    → tied os k r ≡ true
    → tied os k s ≡ true
    → row_less os s r ≡ true
    → ⊥
unfolding tied
tied-not_less os k r s ck cr cs tr ts less =
    let first : row_less os k r ≡ false = ground arith in
    let second : row_less os s k ≡ false = ground arith in
    false≢true (sym (Before-trans os r k s cr ck cs first second) ∙ less)

keep-insert_row :
    (os : List OrderByColumn) (k r : ResultRow) (rows : List ResultRow)
    → IsComplete os k
    → IsComplete os r
    → All (IsComplete os) rows
    → keep (tied os k) (insert_row os r rows) ≡ keep (tied os k) (r ∷ rows)
unfolding keep insert_row
keep-insert_row os k r [] ck cr c = refl
keep-insert_row os k r (s ∷ rows) ck cr c = elim (Bool-cases (row_less os s r)) [
  | inl less ↦ ground (
    arith,
    keep-insert_row os k r rows ck cr c.1,
    λ (a : tied os k r ≡ true) (b : tied os k s ≡ true). tied-not_less os k r s ck cr c.0 a b less,
  )
  | inr before ↦ rw before refl
]

abbrev pub equal_at : Option ℤ → Option ℤ → Bool
equal_at (some x) (some y) = eqb_ℤ x y
equal_at _ _ = false

-- The two rows have the same numbers in all ORDER BY columns.
abbrev pub same_keys : List OrderByColumn → ResultRow → ResultRow → Bool
same_keys [] a b = true
same_keys (o ∷ os) a b =
    equal_at (lookup o.column_name a.values) (lookup o.column_name b.values) && same_keys os a b

tied_step :
    (d : SortDirection) (x y : ℤ) (less back same : Bool)
    → not less && not back ≡ same
    → not (if eqb_ℤ x y then less else less_in d x y)
        && not (if eqb_ℤ y x then back else less_in d y x)
      ≡ eqb_ℤ x y && same
tied_step ascending x y less back same h = ground arith
tied_step descending x y less back same h = ground arith

tied-same_keys :
    (os : List OrderByColumn) (a b : ResultRow)
    → IsComplete os a
    → IsComplete os b
    → tied os a b ≡ same_keys os a b
unfolding tied row_less
tied-same_keys [] a b ca cb = refl
tied-same_keys (o ∷ os) a b ((x, p), ca) ((y, q), cb) =
    rw (row_less_complete o os a b x y p q, row_less_complete o os b a y x q p)
      (tied_step o.direction x y (row_less os a b) (row_less os b a) (same_keys os a b)
          (tied-same_keys os a b ca cb)
        ∙ rw (p, q) refl)

keep-tied :
    (os : List OrderByColumn) (k : ResultRow) (rows : List ResultRow)
    → IsComplete os k
    → All (IsComplete os) rows
    → keep (tied os k) rows ≡ keep (same_keys os k) rows
unfolding keep
keep-tied os k [] ck c = refl
keep-tied os k (r ∷ rows) ck c = rw (tied-same_keys os k r ck c.0, keep-tied os k rows ck c.1) refl

keep-tied-stable_sort :
    (os : List OrderByColumn) (k : ResultRow) (rows : List ResultRow)
    → IsComplete os k
    → All (IsComplete os) rows
    → keep (tied os k) (stable_sort os rows) ≡ keep (tied os k) rows
unfolding stable_sort keep
keep-tied-stable_sort os k [] ck c = refl
keep-tied-stable_sort os k (r ∷ rows) ck c =
    keep-insert_row os k r (stable_sort os rows) ck c.0
      (stable_sort-All os (IsComplete os) rows c.1)
    ∙ ap (λ rest. if tied os k r then r ∷ rest else rest) (keep-tied-stable_sort os k rows ck c.1)

-- Sorting rows that have a number for every ORDER BY column is stable: the rows with the same
-- numbers in these columns as any given row that has them keep their order.
pub keep-stable_sort :
    (os : List OrderByColumn) (k : ResultRow) (rows : List ResultRow)
    → IsComplete os k
    → All (IsComplete os) rows
    → keep (same_keys os k) (stable_sort os rows) ≡ keep (same_keys os k) rows
keep-stable_sort os k rows ck c =
    sym (keep-tied os k (stable_sort os rows) ck (stable_sort-All os (IsComplete os) rows c))
    ∙ keep-tied-stable_sort os k rows ck c
    ∙ keep-tied os k rows ck c
