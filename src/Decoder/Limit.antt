-- ===== src/Decoder/Limit.antt =====
-- ORDER BY with LIMIT, and ORDER BY over columns that hold no number.
use mathlib.Core.List.{Perm}
use mathlib.Core.List.Perm
use hega_proto.Base.{
  ℕ, zero, suc, ◌≤◌, ◌≡◌, refl, sym, ap, ◌∙◌, false, none, inl, inr, List, [], ◌∷◌, arith, length,
  take, All, ltb, Bool-cases,
}
use hega_proto.Base.Int.{ℤ, pos, negsuc}
use hega_proto.Base.Dict.{lookup}
use hega_proto.Ast.{OrderByColumn}
use hega_proto.Decoder.{
  ResultRow, row_less, insert_row, stable_sort, sort_if_any, limit_rows, apply_sort_and_limit,
}
use hega_proto.Decoder.Order.{IsComplete, Before, IsSorted}
use hega_proto.Decoder.Sort.{stable_sort-perm, stable_sort-IsSorted}

-- The row has no number for any column of the ORDER BY, as where they all have type STRING.
abbrev pub LacksNumbers : List OrderByColumn → ResultRow → Type 0
LacksNumbers os r = All (λ o. lookup o.column_name r.values ≡ none) os

row_less-lacking :
    (os : List OrderByColumn) (a b : ResultRow) → LacksNumbers os a → row_less os a b ≡ false
unfolding row_less
row_less-lacking [] a b h = refl
row_less-lacking (o ∷ os) a b h = rw (h.0, row_less) (row_less-lacking os a b h.1)

-- An ORDER BY over columns of which the rows have no number leaves the rows as they were: texts
-- are never compared.
pub apply_sort_and_limit-lacking :
    (os : List OrderByColumn) (rows : List ResultRow) (limit : ℤ)
    → All (LacksNumbers os) rows
    → apply_sort_and_limit rows os limit ≡ apply_sort_and_limit rows [] limit
unfolding apply_sort_and_limit
apply_sort_and_limit-lacking [] rows limit h = refl
apply_sort_and_limit-lacking (o ∷ os) rows limit h = ap (limit_rows limit) (unsorted rows h)
  where
    inserted :
        (r : ResultRow) (ss : List ResultRow)
        → All (LacksNumbers (o ∷ os)) ss
        → insert_row (o ∷ os) r ss ≡ r ∷ ss
    inserted r [] g = refl
    inserted r (s ∷ ss) g = rw (row_less-lacking (o ∷ os) s r g.0) refl

    unsorted : (ss : List ResultRow) → All (LacksNumbers (o ∷ os)) ss → stable_sort (o ∷ os) ss ≡ ss
    unsorted [] g = refl
    unsorted (r ∷ ss) g = ap (insert_row (o ∷ os) r) (unsorted ss g.1) ∙ inserted r ss g.1

All-take :
    (P : ResultRow → Type 0) (n : ℕ) (rows : List ResultRow) → All P rows → All P (take n rows)
All-take P zero rows h = tt
All-take P (suc n) [] h = tt
All-take P (suc n) (r ∷ rows) h = (h.0, All-take P n rows h.1)

IsSorted-take :
    (os : List OrderByColumn) (n : ℕ) (rows : List ResultRow)
    → IsSorted os rows
    → IsSorted os (take n rows)
IsSorted-take os zero rows h = tt
IsSorted-take os (suc n) [] h = tt
IsSorted-take os (suc n) (r ∷ rows) h =
    (All-take (Before os r) n rows h.0, IsSorted-take os n rows h.1)

All-Before-nil : (r : ResultRow) (rows : List ResultRow) → All (Before [] r) rows
unfolding row_less
All-Before-nil r [] = tt
All-Before-nil r (s ∷ rows) = (refl, All-Before-nil r rows)

IsSorted-nil : (rows : List ResultRow) → IsSorted [] rows
IsSorted-nil [] = tt
IsSorted-nil (r ∷ rows) = (All-Before-nil r rows, IsSorted-nil rows)

sort_if_any-IsSorted :
    (os : List OrderByColumn) (rows : List ResultRow)
    → All (IsComplete os) rows
    → IsSorted os (sort_if_any os rows)
sort_if_any-IsSorted [] rows c = IsSorted-nil rows
sort_if_any-IsSorted (o ∷ os) rows c = stable_sort-IsSorted (o ∷ os) rows c

sort_if_any-perm :
    (os : List OrderByColumn) (rows : List ResultRow) → Perm (sort_if_any os rows) rows
sort_if_any-perm [] rows = Perm.refl rows
sort_if_any-perm (o ∷ os) rows = stable_sort-perm (o ∷ os) rows

limit_rows-IsSorted :
    (os : List OrderByColumn) (limit : ℤ) (rows : List ResultRow)
    → IsSorted os rows
    → IsSorted os (limit_rows limit rows)
limit_rows-IsSorted os (negsuc n) rows h = h
limit_rows-IsSorted os (pos n) rows h = elim (Bool-cases (ltb n (length rows))) [
  | inl short ↦ rw short (IsSorted-take os n rows h)
  | inr all ↦ rw all h
]

take_all : (n : ℕ) (rows : List ResultRow) → length rows ≤ n → take n rows ≡ rows
take_all zero [] h = refl
take_all zero (r ∷ rows) h = absurd (omega arith)
take_all (suc n) [] h = refl
take_all (suc n) (r ∷ rows) h = ap (λ rest. r ∷ rest) (take_all n rows (omega arith))

-- The first rows that a LIMIT asks for; a negative LIMIT asks for all.
abbrev pub first_rows : ℤ → List ResultRow → List ResultRow
first_rows (pos n) rows = take n rows
first_rows (negsuc _) rows = rows

limit_rows-first_rows :
    (limit : ℤ) (rows : List ResultRow) → limit_rows limit rows ≡ first_rows limit rows
limit_rows-first_rows (negsuc n) rows = refl
limit_rows-first_rows (pos n) rows = elim (Bool-cases (ltb n (length rows))) [
  | inl short ↦ rw short refl
  | inr all ↦ rw all (sym (take_all n rows (ground arith)))
]

-- On rows that have a number for every ORDER BY column, the rows that are left are in order, and
-- they are the first rows, as many as LIMIT says, of a permutation of all the rows that is in order
-- as a whole.
pub apply_sort_and_limit-IsSorted :
    (os : List OrderByColumn) (rows : List ResultRow) (limit : ℤ)
    → All (IsComplete os) rows
    → IsSorted os (apply_sort_and_limit rows os limit)
      × (sorted : List ResultRow) × Perm sorted rows
      × IsSorted os sorted
      × (apply_sort_and_limit rows os limit ≡ first_rows limit sorted)
unfolding apply_sort_and_limit
apply_sort_and_limit-IsSorted os rows limit c =
    let sorted = sort_if_any-IsSorted os rows c in
    (
      limit_rows-IsSorted os limit (sort_if_any os rows) sorted,
      sort_if_any os rows,
      sort_if_any-perm os rows,
      sorted,
      limit_rows-first_rows limit (sort_if_any os rows),
    )
