-- ===== src/Decoder/Sort.antt =====
-- ORDER BY permutes the rows and sorts them.
use mathlib.Core.List.{Perm}
use mathlib.Core.List.Perm
use hega_proto.Base.{inl, inr, List, [], ◌∷◌, All, Bool-cases}
use hega_proto.Ast.{OrderByColumn}
use hega_proto.Decoder.{ResultRow, row_less, insert_row, stable_sort}
use hega_proto.Decoder.Order.{IsComplete, Before, IsSorted, row_less-asymmetric, Before-trans}

-- Insertion and sorting permute the rows.
insert_row-perm :
    (os : List OrderByColumn) (r : ResultRow) (rows : List ResultRow)
    → Perm (insert_row os r rows) (r ∷ rows)
unfolding insert_row
insert_row-perm os r [] = Perm.refl (r ∷ [])
insert_row-perm os r (s ∷ rows) = elim (Bool-cases (row_less os s r)) [
  | inl less ↦ rw less (Perm.trans (Perm.cons s (insert_row-perm os r rows)) (Perm.swap r s rows))
  | inr before ↦ rw before (Perm.refl (r ∷ s ∷ rows))
]

pub stable_sort-perm :
    (os : List OrderByColumn) (rows : List ResultRow) → Perm (stable_sort os rows) rows
unfolding stable_sort
stable_sort-perm os [] = Perm.refl []
stable_sort-perm os (r ∷ rows) =
    Perm.trans (insert_row-perm os r (stable_sort os rows)) (Perm.cons r (stable_sort-perm os rows))

module _ (os : List OrderByColumn) (P : ResultRow → Type 0) where
  pub insert_row-All :
      (r : ResultRow) (rows : List ResultRow) → P r → All P rows → All P (insert_row os r rows)
  unfolding insert_row
  insert_row-All r [] p h = (p, tt)
  insert_row-All r (s ∷ rows) p h = elim (Bool-cases (row_less os s r)) [
    | inl less ↦ rw less (h.0, insert_row-All r rows p h.1)
    | inr before ↦ rw before (p, h)
  ]

  pub stable_sort-All : (rows : List ResultRow) → All P rows → All P (stable_sort os rows)
  unfolding stable_sort
  stable_sort-All [] h = tt
  stable_sort-All (r ∷ rows) h =
      insert_row-All r (stable_sort os rows) h.0 (stable_sort-All rows h.1)

Before-All :
    (os : List OrderByColumn) (r s : ResultRow) (rows : List ResultRow)
    → IsComplete os r
    → IsComplete os s
    → Before os r s
    → All (IsComplete os) rows
    → All (Before os s) rows
    → All (Before os r) rows
Before-All os r s [] cr cs b c h = tt
Before-All os r s (t ∷ rows) cr cs b c h =
    (Before-trans os r s t cr cs c.0 b h.0, Before-All os r s rows cr cs b c.1 h.1)

insert_row-IsSorted :
    (os : List OrderByColumn) (r : ResultRow) (rows : List ResultRow)
    → IsComplete os r
    → All (IsComplete os) rows
    → IsSorted os rows
    → IsSorted os (insert_row os r rows)
unfolding insert_row
insert_row-IsSorted os r [] cr c h = (tt, tt)
insert_row-IsSorted os r (s ∷ rows) cr c h = elim (Bool-cases (row_less os s r)) [
  | inl less ↦ rw less (
    insert_row-All os (Before os s) r rows (row_less-asymmetric os s r c.0 cr less) h.0,
    insert_row-IsSorted os r rows cr c.1 h.1,
  )
  | inr before ↦ rw before ((before, Before-All os r s rows cr c.0 before c.1 h.0), h)
]

pub stable_sort-IsSorted :
    (os : List OrderByColumn) (rows : List ResultRow)
    → All (IsComplete os) rows
    → IsSorted os (stable_sort os rows)
unfolding stable_sort
stable_sort-IsSorted os [] c = tt
stable_sort-IsSorted os (r ∷ rows) c =
    insert_row-IsSorted os r (stable_sort os rows) c.0 (stable_sort-All os (IsComplete os) rows c.1)
      (stable_sort-IsSorted os rows c.1)
