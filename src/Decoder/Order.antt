-- ===== src/Decoder/Order.antt =====
-- The comparison of `applySortAndLimit` on rows that have the ORDER BY columns.
use hega_proto.Base.{
  ◌≡◌, refl, ap, ◌∙◌, Bool, true, false, ◌&&◌, ◌||◌, some, List, [], ◌∷◌, arith, All, if◌then◌else◌,
}
use hega_proto.Base.Int.{ℤ, ltb_ℤ, eqb_ℤ}
use hega_proto.Base.Dict.{lookup}
use hega_proto.Ast.{SortDirection, ascending, descending, OrderByColumn}
use hega_proto.Decoder.{ResultRow, row_less}

-- The row has a number for every column of the ORDER BY.
abbrev pub IsComplete : List OrderByColumn → ResultRow → Type 0
IsComplete os r = All (λ o. (v : ℤ) × (lookup o.column_name r.values ≡ some v)) os

-- `r` may stand before `s`.
abbrev pub Before : List OrderByColumn → ResultRow → ResultRow → Type 0
Before os r s = row_less os s r ≡ false

abbrev pub IsSorted : List OrderByColumn → List ResultRow → Type 0
IsSorted os [] = Unit
IsSorted os (r ∷ rows) = All (Before os r) rows × IsSorted os rows

abbrev pub less_in : SortDirection → ℤ → ℤ → Bool
less_in ascending x y = ltb_ℤ x y
less_in descending x y = ltb_ℤ y x

pub row_less_complete :
    (o : OrderByColumn) (os : List OrderByColumn) (a b : ResultRow) (x y : ℤ)
    → lookup o.column_name a.values ≡ some x
    → lookup o.column_name b.values ≡ some y
    → row_less (o ∷ os) a b ≡ (if eqb_ℤ x y then row_less os a b else less_in o.direction x y)
unfolding row_less
row_less_complete o os a b x y p q = rw (p, row_less) (rw q (ground arith))

-- One column of the lexicographic comparison, over what the later columns say.
lex_asymmetric :
    (d : SortDirection) (x y : ℤ) (later back : Bool)
    → (later ≡ true → back ≡ false)
    → (if eqb_ℤ x y then later else less_in d x y) ≡ true
    → (if eqb_ℤ y x then back else less_in d y x) ≡ false
lex_asymmetric ascending x y later back k h = ground arith
lex_asymmetric descending x y later back k h = ground arith

lex_trans :
    (d : SortDirection) (x y z : ℤ) (ba cb ca : Bool)
    → (ba ≡ false → cb ≡ false → ca ≡ false)
    → (if eqb_ℤ y x then ba else less_in d y x) ≡ false
    → (if eqb_ℤ z y then cb else less_in d z y) ≡ false
    → (if eqb_ℤ z x then ca else less_in d z x) ≡ false
lex_trans ascending x y z ba cb ca k h j = ground arith
lex_trans descending x y z ba cb ca k h j = ground arith

-- On rows that have the ORDER BY columns the comparison is asymmetric: of two rows, not each is less
-- than the other.
pub row_less-asymmetric :
    (os : List OrderByColumn) (a b : ResultRow)
    → IsComplete os a
    → IsComplete os b
    → row_less os a b ≡ true
    → row_less os b a ≡ false
row_less-asymmetric [] a b ca cb h = unfold row_less in refl
row_less-asymmetric (o ∷ os) a b ((x, p), ca) ((y, q), cb) h =
    let h' = rw (row_less_complete o os a b x y p q) at h in
    rw (row_less_complete o os b a y x q p) (
      lex_asymmetric o.direction x y (row_less os a b) (row_less os b a)
        (row_less-asymmetric os a b ca cb) h')

-- On rows that have the ORDER BY columns, "not to come after" is transitive.
pub Before-trans :
    (os : List OrderByColumn) (a b c : ResultRow)
    → IsComplete os a
    → IsComplete os b
    → IsComplete os c
    → Before os a b
    → Before os b c
    → Before os a c
Before-trans [] a b c ca cb cc_ h k = unfold row_less in refl
Before-trans (o ∷ os) a b c ((x, p), ca) ((y, q), cb) ((z, r), cc_) h k =
    let h' = rw (row_less_complete o os b a y x q p) at h in
    let k' = rw (row_less_complete o os c b z y r q) at k in
    rw (row_less_complete o os c a z x r p) (
      lex_trans o.direction x y z (row_less os b a) (row_less os c b) (row_less os c a)
        (Before-trans os a b c ca cb cc_) h' k')

-- The numbers of a row's ORDER BY columns.
abbrev pub IsKey : List OrderByColumn → ResultRow → List ℤ → Type 0
IsKey [] r [] = Unit
IsKey (o ∷ os) r (k ∷ ks) = (lookup o.column_name r.values ≡ some k) × IsKey os r ks
IsKey _ r _ = ⊥

-- The lexicographic order of such lists, each place in the direction of its column.
abbrev pub lex_less : List OrderByColumn → List ℤ → List ℤ → Bool
lex_less (o ∷ os) (x ∷ xs) (y ∷ ys) = less_in o.direction x y || (eqb_ℤ x y && lex_less os xs ys)
lex_less _ _ _ = false

lex_step :
    (d : SortDirection) (x y : ℤ) (rest : Bool)
    → (if eqb_ℤ x y then rest else less_in d x y) ≡ less_in d x y || (eqb_ℤ x y && rest)
lex_step ascending x y rest = ground arith
lex_step descending x y rest = ground arith

-- On rows that have a number for every ORDER BY column, the comparison is the lexicographic order of
-- these numbers, each compared in the direction of its column.
pub row_less-lex_less :
    (os : List OrderByColumn) (a b : ResultRow) (xs ys : List ℤ)
    → IsKey os a xs
    → IsKey os b ys
    → row_less os a b ≡ lex_less os xs ys
unfolding row_less
row_less-lex_less [] a b [] [] p q = refl
row_less-lex_less (o ∷ os) a b (x ∷ xs) (y ∷ ys) (p, ps) (q, qs) =
    row_less_complete o os a b x y p q
    ∙ lex_step o.direction x y (row_less os a b)
    ∙ ap (λ rest. less_in o.direction x y || (eqb_ℤ x y && rest))
        (row_less-lex_less os a b xs ys ps qs)
row_less-lex_less [] a b (x ∷ xs) ys p q = absurd p
row_less-lex_less [] a b [] (y ∷ ys) p q = absurd q
row_less-lex_less (o ∷ os) a b [] ys p q = absurd p
row_less-lex_less (o ∷ os) a b (x ∷ xs) [] p q = absurd q
