-- ===== src/Planner/Columns.antt =====
-- The column lists of a plan: what they hold, and that no column stands in them twice.
use hega_proto.Base.{
  ◌≡◌, refl, true, false, inl, inr, List, [], ◌∷◌, ◌++◌, arith, Str, str_eq, str_eq_iff,
  str_eq_refl, bare_name, All, Bool-cases,
}
use hega_proto.Ast.{
  AstExpr, column_ref, int_literal, string_literal, comparison, connective, not_expr, OrderByColumn,
}
use hega_proto.Planner.{
  JoinFields, contains, add_missing, add_order_columns, collect_columns, is_joined_column,
  add_projected,
}

pub contains-append_left :
    (c : Str) (xs ys : List Str) → contains c xs ≡ true → contains c (xs ++ ys) ≡ true
unfolding contains
contains-append_left c [] ys h = cc
contains-append_left c (x ∷ xs) ys h = ground (arith, contains-append_left c xs ys)

contains-append_self : (c : Str) (xs : List Str) → contains c (xs ++ c ∷ []) ≡ true
unfolding contains
contains-append_self c [] = rw (str_eq_refl c) refl
contains-append_self c (x ∷ xs) = ground (arith, contains-append_self c xs)

pub contains-add_missing_self : (c : Str) (xs : List Str) → contains c (add_missing xs c) ≡ true
unfolding add_missing
contains-add_missing_self c xs = elim (Bool-cases (contains c xs)) [
  | inl there ↦ rw there there
  | inr missing ↦ rw missing (contains-append_self c xs)
]

-- `c` stays in a list that a column is added to.
pub contains-add_missing :
    (c d : Str) (xs : List Str) → contains c xs ≡ true → contains c (add_missing xs d) ≡ true
unfolding add_missing
contains-add_missing c d xs h = elim (Bool-cases (contains d xs)) [
  | inl there ↦ rw there h
  | inr missing ↦ rw missing (contains-append_left c xs (d ∷ []) h)
]

pub contains-add_order_columns :
    (c : Str) (xs : List Str) (os : List OrderByColumn)
    → contains c xs ≡ true
    → contains c (add_order_columns xs os) ≡ true
unfolding add_order_columns
contains-add_order_columns c xs [] h = h
contains-add_order_columns c xs (o ∷ os) h =
    contains-add_order_columns c (add_missing xs o.column_name) os
      (contains-add_missing c o.column_name xs h)

-- Every ORDER BY column is in the projection.
pub add_order_columns-All :
    (xs : List Str) (os : List OrderByColumn)
    → All (λ o. contains o.column_name (add_order_columns xs os) ≡ true) os
unfolding add_order_columns
add_order_columns-All xs [] = tt
add_order_columns-All xs (o ∷ os) = (
  contains-add_order_columns o.column_name (add_missing xs o.column_name) os
      (contains-add_missing_self o.column_name xs),
  add_order_columns-All (add_missing xs o.column_name) os,
)

-- The columns that an expression reads.
abbrev pub columns_of : AstExpr → List Str
columns_of (column_ref n) = n ∷ []
columns_of (comparison _ l r) = columns_of l ++ columns_of r
columns_of (connective _ l r) = columns_of l ++ columns_of r
columns_of (not_expr l) = columns_of l
columns_of _ = []

pub contains-collect_columns :
    (x : AstExpr) (c : Str) (xs : List Str)
    → contains c xs ≡ true
    → contains c (collect_columns x xs) ≡ true
unfolding collect_columns
contains-collect_columns (column_ref n) c xs h = contains-add_missing c (bare_name n) xs h
contains-collect_columns (comparison _ l r) c xs h =
    contains-collect_columns r c (collect_columns l xs) (contains-collect_columns l c xs h)
contains-collect_columns (connective _ l r) c xs h =
    contains-collect_columns r c (collect_columns l xs) (contains-collect_columns l c xs h)
contains-collect_columns (not_expr l) c xs h = contains-collect_columns l c xs h
contains-collect_columns (int_literal v) c xs h = h
contains-collect_columns (string_literal s) c xs h = h

module _ (P : Str → Type 0) where
  All-append : (xs ys : List Str) → All P xs → All P ys → All P (xs ++ ys)
  All-append [] ys h k = k
  All-append (x ∷ xs) ys h k = (h.0, All-append xs ys h.1 k)

  pub All-add_missing : (xs : List Str) (c : Str) → All P xs → P c → All P (add_missing xs c)
  unfolding add_missing
  All-add_missing xs c h p = elim (Bool-cases (contains c xs)) [
    | inl there ↦ rw there h
    | inr missing ↦ rw missing (All-append xs (c ∷ []) h (p, tt))
  ]

  pub All-add_order_columns :
      (xs : List Str) (os : List OrderByColumn)
      → All P xs
      → All (λ o. P o.column_name) os
      → All P (add_order_columns xs os)
  unfolding add_order_columns
  All-add_order_columns xs [] h p = h
  All-add_order_columns xs (o ∷ os) h p =
      All-add_order_columns (add_missing xs o.column_name) os
        (All-add_missing xs o.column_name h p.0) p.1

-- No column stands in the list twice.
abbrev pub IsDistinct : List Str → Type 0
IsDistinct [] = Unit
IsDistinct (x ∷ xs) = (contains x xs ≡ false) × IsDistinct xs

contains-append_other :
    (x c : Str) (xs : List Str)
    → contains x xs ≡ false
    → str_eq c x ≡ false
    → contains x (xs ++ c ∷ []) ≡ false
unfolding contains
contains-append_other x c [] h e = rw e refl
contains-append_other x c (y ∷ xs) h e = ground (arith, contains-append_other x c xs)

IsDistinct-append :
    (c : Str) (xs : List Str) → IsDistinct xs → contains c xs ≡ false → IsDistinct (xs ++ c ∷ [])
unfolding contains
IsDistinct-append c [] h e = (refl, tt)
IsDistinct-append c (x ∷ xs) h e = (
  contains-append_other x c xs h.0 (ground (arith, str_eq_iff x c, str_eq_iff c x)),
  IsDistinct-append c xs h.1 (ground arith),
)

pub add_missing-IsDistinct :
    (xs : List Str) (c : Str) → IsDistinct xs → IsDistinct (add_missing xs c)
unfolding add_missing
add_missing-IsDistinct xs c h = elim (Bool-cases (contains c xs)) [
  | inl there ↦ rw there h
  | inr missing ↦ rw missing (IsDistinct-append c xs h missing)
]

pub collect_columns-IsDistinct :
    (x : AstExpr) (xs : List Str) → IsDistinct xs → IsDistinct (collect_columns x xs)
unfolding collect_columns
collect_columns-IsDistinct (column_ref n) xs h = add_missing-IsDistinct xs (bare_name n) h
collect_columns-IsDistinct (comparison _ l r) xs h =
    collect_columns-IsDistinct r (collect_columns l xs) (collect_columns-IsDistinct l xs h)
collect_columns-IsDistinct (connective _ l r) xs h =
    collect_columns-IsDistinct r (collect_columns l xs) (collect_columns-IsDistinct l xs h)
collect_columns-IsDistinct (not_expr l) xs h = collect_columns-IsDistinct l xs h
collect_columns-IsDistinct (int_literal v) xs h = h
collect_columns-IsDistinct (string_literal s) xs h = h

pub add_projected-IsDistinct :
    (join : JoinFields) (xs cs : List Str) → IsDistinct xs → IsDistinct (add_projected join xs cs)
unfolding add_projected
add_projected-IsDistinct join xs [] h = h
add_projected-IsDistinct join xs (c ∷ cs) h = elim (Bool-cases (is_joined_column join c)) [
  | inl joined ↦ rw joined (add_projected-IsDistinct join xs cs h)
  | inr own ↦ rw own (
      add_projected-IsDistinct join (add_missing xs (bare_name c)) cs
        (add_missing-IsDistinct xs (bare_name c) h))
]
