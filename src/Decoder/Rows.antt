-- ===== src/Decoder/Rows.antt =====
-- Which rows of a batch the client keeps, and the numbers that it puts in them.
use mathlib.Core.Bool.{false≢true}
use hega_proto.Base.{
  replicate, ◌<◌, ◌≤◌, ℕ, zero, suc, ◌+◌, ◌≡◌, refl, sym, ap, ◌∙◌, Bool, true, false, Option, none,
  some, inl, inr, List, [], ◌∷◌, Str, str_eq, str_eq_iff, length, arith, get_elem?, ◌==◌,
  if◌then◌else◌, Bool-cases,
}
use hega_proto.Base.Int.{ℤ, pos, negsuc, eqb_ℤ}
use hega_proto.Base.Dict.{Dict, lookup, insert, lookup-insert}
use hega_proto.Base.Outcome.{Result, ok, ◌>>=◌, >>=-eq-ok, ok_inj}
use hega_proto.Engine.{Engine}
use hega_proto.Decoder.{
  ResultRow, EncryptedResultBatch, Columns, value_at, number_values, decode_row, decode_rows,
  is_selected, decrypt_mask, decode, to_size, decrypt_columns, no_columns,
}

-- No name stands twice.
abbrev pub IsUnique {ℓ} : {V : Type ℓ} → Dict V → Type ℓ
IsUnique [] = Unit
IsUnique ((k, v) ∷ m) = (lookup k m ≡ none) × IsUnique m

-- Writing an entry keeps the names of a map unique.
pub insert-IsUnique {ℓ} :
    {V : Type ℓ} (k : Str) (v : V) (m : Dict V) → IsUnique m → IsUnique (insert k v m)
unfolding insert lookup
insert-IsUnique k v [] h = (refl, tt)
insert-IsUnique k v ((j, w) ∷ m) h = elim (Bool-cases (str_eq j k)) [
  | inl same ↦ rw same h
  | inr differs ↦
      rw differs
        (lookup-insert k j v m ∙ other differs (str_eq k j) refl, insert-IsUnique k v m h.1)
]
  where
    other :
        str_eq j k ≡ false → (b : Bool) → str_eq k j ≡ b → (if b then some v else lookup j m) ≡ none
    other d false e = h.0
    other d true e = absurd (false≢true (sym d ∙ (str_eq_iff j k).1 (sym ((str_eq_iff k j).0 e))))

-- The value of slot `i` of a column that is there, else what was there before.
abbrev pub slot_or : ℕ → Option (List ℤ) → Option ℤ → Option ℤ
slot_or i none before = before
slot_or i (some vals) before = some (value_at vals i)

-- A row gets, for each number column, the value of its slot, and keeps its other values.
pub lookup-number_values :
    (i : ℕ) (cols : Dict (List ℤ)) (row : Dict ℤ) (k : Str)
    → IsUnique cols
    → lookup k (number_values i cols row) ≡ slot_or i (lookup k cols) (lookup k row)
unfolding number_values lookup
lookup-number_values i [] row k u = refl
lookup-number_values i ((name, vals) ∷ cols) row k u =
    let row' = insert name (value_at vals i) row in
    lookup-number_values i cols row' k u.1
    ∙ ap (slot_or i (lookup k cols)) (lookup-insert name k (value_at vals i) row)
    ∙ by_name (str_eq name k) refl
  where
    by_name :
        (b : Bool)
        → str_eq name k ≡ b
        → slot_or i (lookup k cols) (if b then some (value_at vals i) else lookup k row)
          ≡ slot_or i (if b then some vals else lookup k cols) (lookup k row)
    by_name true e =
        let gone : lookup k cols ≡ none =
          ap (λ j. lookup j cols) (sym ((str_eq_iff name k).0 e)) ∙ u.0 in
        rw gone refl
    by_name false e = refl

-- The mask has the value 1 at the slot.
abbrev pub is_one : Option ℤ → Bool
is_one (some (pos n)) = n == 1
is_one _ = false

-- The slots at which the mask is 1, from `i` on, among `n`.
pub selected : ℕ → ℕ → List ℤ → List ℕ
selected zero i mask = []
selected (suc n) i mask =
    let rest = selected n (i + 1) mask in if is_one (get_elem? mask i) then i ∷ rest else rest

is_selected-is_one : (mask : List ℤ) (i : ℕ) → is_selected mask i ≡ is_one (get_elem? mask i)
unfolding is_selected
is_selected-is_one mask i = of_slot (get_elem? mask i)
  where
    of_slot : (m : Option ℤ) → elim m [ none ↦ false | some v ↦ eqb_ℤ v (pos 1) ] ≡ is_one m
    of_slot none = refl
    of_slot (some (pos n)) = ground arith
    of_slot (some (negsuc n)) = ground arith

pub decode_all : Columns → List ℕ → Result (List ResultRow)
decode_all cols [] = ok []
decode_all cols (i ∷ is) = do row ← decode_row cols i; rows ← decode_all cols is; ok (row ∷ rows)

decode_rows-selected :
    (n i : ℕ) (mask : List ℤ) (cols : Columns)
    → decode_rows n i mask cols ≡ decode_all cols (selected n i mask)
unfolding decode_rows decode_all selected
decode_rows-selected zero i mask cols = refl
decode_rows-selected (suc n) i mask cols = elim (Bool-cases (is_one (get_elem? mask i))) [
  | inl taken ↦
      rw (is_selected-is_one mask i, taken)
        (ap (λ rest. decode_row cols i >>= λ row. rest >>= λ rows. ok (row ∷ rows))
          (decode_rows-selected n (i + 1) mask cols))
  | inr skipped ↦ rw (is_selected-is_one mask i, skipped) (decode_rows-selected n (i + 1) mask cols)
]

length-decode_all :
    (cols : Columns) (is : List ℕ) {rows : List ResultRow}
    → decode_all cols is ≡ ok rows
    → length rows ≡ length is
unfolding decode_all
length-decode_all cols [] h = ap length (sym (ok_inj h))
length-decode_all cols (i ∷ is) h =
    let (row, _, h₁) = >>=-eq-ok (decode_row cols i) _ h in
    let (rest, e, h₂) = >>=-eq-ok (decode_all cols is) _ h₁ in
    ap length (sym (ok_inj h₂)) ∙ ap suc (length-decode_all cols is e)

-- The slots from `i` on, `n` of them.
pub slots : ℕ → ℕ → List ℕ
slots zero i = []
slots (suc n) i = i ∷ slots n (i + 1)

get_elem?-replicate : (n i : ℕ) (v : ℤ) → i < n → get_elem? (replicate n v) i ≡ some v
get_elem?-replicate zero i v h = absurd (omega arith)
get_elem?-replicate (suc n) zero v h = refl
get_elem?-replicate (suc n) (suc i) v h = get_elem?-replicate n i v (omega arith)

-- A mask of ones selects all slots.
selected-replicate :
    (total n i : ℕ) → n + i ≤ total → selected n i (replicate total (pos 1)) ≡ slots n i
unfolding selected slots
selected-replicate total zero i h = refl
selected-replicate total (suc n) i h =
    rw (get_elem?-replicate total i (pos 1) (omega arith))
      (ap (λ is. i ∷ is) (selected-replicate total n (i + 1) (omega arith)))

module _ (e : Engine) (batch : EncryptedResultBatch) where
  abbrev rows_of : ℕ
  rows_of = to_size batch.logical_row_count

  -- The slots that the decrypted mask selects, or all of them where there is no mask.
  abbrev pub kept_slots : List ℕ
  kept_slots =
      if batch.has_mask
      then selected rows_of 0
          (e.decrypt (e.deserialize_with_size batch.selection_mask_bytes rows_of) rows_of)
      else slots rows_of 0

  decrypt_mask-kept_slots : selected rows_of 0 (decrypt_mask e batch) ≡ kept_slots
  unfolding decrypt_mask
  decrypt_mask-kept_slots = elim (Bool-cases batch.has_mask) [
    | inl masked ↦ rw masked refl
    | inr plain ↦ rw plain (selected-replicate rows_of rows_of 0 (omega arith))
  ]

  -- A batch that decodes gives the rows of the slots at which its decrypted mask is 1, or of all slots
  -- if it has no mask, in the order of the slots, and as many rows as there are such slots.
  pub decode-selected :
      {rows : List ResultRow}
      → decode e batch ≡ ok rows
      → (decode_all
            (decrypt_columns e (to_size batch.logical_row_count) batch.columns no_columns)
            kept_slots
          ≡ ok rows)
        × (length rows ≡ length kept_slots)
  unfolding decode
  decode-selected h =
      let cols = decrypt_columns e rows_of batch.columns no_columns in
      let h' =
        ap (decode_all cols) (sym decrypt_mask-kept_slots)
        ∙ sym (decode_rows-selected rows_of 0 (decrypt_mask e batch) cols)
        ∙ h in
      (h', length-decode_all cols kept_slots h')
