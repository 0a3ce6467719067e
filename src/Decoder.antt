-- ===== src/Decoder.antt =====
-- include/proto2/result.h and result/result_decoder.cpp: decrypted batches as rows, then ORDER BY
-- and LIMIT on the client.
pub mod Strings
pub mod Rows
pub mod Order
pub mod Sort
pub mod Stable
pub mod Limit
use hega_proto.Base.{
  ℕ, zero, suc, ◌+◌, ◌-◌, ◌*◌, ◌^◌, Bool, true, false, not, ◌&&◌, ◌||◌, Option, none, some, List,
  [], ◌∷◌, ◌++◌, Str, codes, str_eq, get_elem?, length, take, replicate, ltb, leb, ◌==◌,
  if◌then◌else◌,
}
use hega_proto.Base.Int.{ℤ, pos, negsuc, ltb_ℤ, eqb_ℤ}
use hega_proto.Base.Dict.{Dict, lookup, insert}
use hega_proto.Base.Outcome.{Result, ok, err, runtime_error, ◌>>=◌}
use hega_proto.Ast.{SortDirection, ascending, descending, OrderByColumn}
use hega_proto.Engine.{Engine}

pub record EncryptedColumnResult : Type 0 where
  pub column_name : Str
  pub logical_type : Str
  pub string_position : ℕ
  pub ciphertext_bytes : List ℕ
  pub logical_size : ℕ

pub record EncryptedResultBatch : Type 0 where
  pub batch_id : ℕ
  pub logical_row_count : ℤ
  pub columns : List EncryptedColumnResult
  pub selection_mask_bytes : List ℕ
  pub has_mask : Bool

pub record ResultRow : Type 0 where
  pub values : Dict ℤ
  pub string_values : Dict Str

-- `static_cast<size_t>(int64_t)`
unfoldable pub to_size : ℤ → ℕ
to_size (pos n) = n
to_size (negsuc n) = 2 ^ 64 - suc n

-- `vals[i]`; where `i` is out of range the source reads past the end of the vector, and decryption
-- gives as many values as there are rows.
abbrev pub value_at : List ℤ → ℕ → ℤ
value_at vals i = elim (get_elem? vals i) [ none ↦ pos 0 | some v ↦ v ]

-- The decrypted columns: numbers by name, and the characters of texts by name and position.
pub record Columns : Type 0 where
  pub numbers : Dict (List ℤ)
  pub texts : Dict (List (List ℤ))

abbrev pub no_columns : Columns
no_columns = record { numbers = []; texts = [] }

-- `if (positions.size() <= p) positions.resize(p + 1); positions[p] = values;`
unfoldable pub set_position : ℕ → List ℤ → List (List ℤ) → List (List ℤ)
set_position zero values [] = values ∷ []
set_position zero values (_ ∷ ps) = values ∷ ps
set_position (suc p) values [] = [] ∷ set_position p values []
set_position (suc p) values (q ∷ ps) = q ∷ set_position p values ps

abbrev pub or_empty {ℓ} : {A : Type ℓ} → Option (List A) → List A
or_empty none = []
or_empty (some xs) = xs

-- one round of the loop that decrypts the columns
unfoldable pub add_column : EncryptedColumnResult → List ℤ → Columns → Columns
unfolding set_position lookup insert
add_column c values cols =
    if str_eq c.logical_type (codes "STRING")
    then record cols {
      texts =
          insert c.column_name
            (set_position c.string_position values (or_empty (lookup c.column_name cols.texts)))
            cols.texts;
    }
    else record cols { numbers = insert c.column_name values cols.numbers }

-- the values of row `i`, for each number column
unfoldable pub number_values : ℕ → Dict (List ℤ) → Dict ℤ → Dict ℤ
unfolding insert
number_values i [] row = row
number_values i ((name, vals) ∷ cols) row = number_values i cols (insert name (value_at vals i) row)

abbrev pub invalid_ascii {ℓ} : {A : Type ℓ} → Result A
invalid_ascii = err (runtime_error (codes "Decoded string contains invalid ASCII"))

-- the text of row `i`, up to its first 0 or missing character
unfoldable pub decode_chars : ℕ → List (List ℤ) → Result Str
decode_chars i [] = ok []
decode_chars i (chars ∷ positions) =
    let rest = decode_chars i positions in
    elim (get_elem? chars i) [
      | none ↦ ok []
      | some (pos zero) ↦ ok []
      | some (pos (suc c)) ↦
          if ltb 127 (suc c) then invalid_ascii else (do cs ← rest; ok (suc c ∷ cs))
      | some (negsuc _) ↦ invalid_ascii
    ]

unfoldable pub string_values : ℕ → Dict (List (List ℤ)) → Dict Str → Result (Dict Str)
unfolding decode_chars insert
string_values i [] row = ok row
string_values i ((name, positions) ∷ cols) row = do
  s ← decode_chars i positions
  string_values i cols (insert name s row)

unfoldable pub decode_row : Columns → ℕ → Result ResultRow
unfolding number_values string_values
decode_row cols i = do
  strings ← string_values i cols.texts []
  ok (record { values = number_values i cols.numbers []; string_values = strings })

-- `i < mask.size() && mask[i] == 1`
unfoldable pub is_selected : List ℤ → ℕ → Bool
is_selected mask i = elim (get_elem? mask i) [ none ↦ false | some m ↦ eqb_ℤ m (pos 1) ]

-- the loop over the rows, from `i` on, with `rounds` left
unfoldable pub decode_rows : ℕ → ℕ → List ℤ → Columns → Result (List ResultRow)
unfolding is_selected decode_row
decode_rows zero i mask cols = ok []
decode_rows (suc rounds) i mask cols =
    let rest = decode_rows rounds (i + 1) mask cols in
    let taken = (do row ← decode_row cols i; rows ← rest; ok (row ∷ rows)) in
    if is_selected mask i then taken else rest

module _ (e : Engine) where
  -- `ResultDecoder::decryptMask`
  unfoldable pub decrypt_mask : EncryptedResultBatch → List ℤ
  unfolding to_size
  decrypt_mask batch =
      let n = to_size batch.logical_row_count in
      if not batch.has_mask
      then replicate n (pos 1)
      else e.decrypt (e.deserialize_with_size batch.selection_mask_bytes n) n

  unfoldable pub decrypt_columns : ℕ → List EncryptedColumnResult → Columns → Columns
  unfolding add_column
  decrypt_columns n [] cols = cols
  decrypt_columns n (c ∷ cs) cols =
      decrypt_columns n cs
        (add_column c (e.decrypt (e.deserialize_with_size c.ciphertext_bytes n) n) cols)

  -- `ResultDecoder::decode`
  unfoldable pub decode : EncryptedResultBatch → Result (List ResultRow)
  unfolding decrypt_mask decrypt_columns decode_rows
  decode batch =
      let n = to_size batch.logical_row_count in
      decode_rows n 0 (decrypt_mask batch) (decrypt_columns n batch.columns no_columns)

-- The comparison of `applySortAndLimit`: the first column on which both rows have different
-- numbers decides; a column that one of them lacks is passed over.
unfoldable pub row_less : List OrderByColumn → ResultRow → ResultRow → Bool
unfolding lookup
row_less [] a b = false
row_less (o ∷ os) a b =
    let rest = row_less os a b in
    elim (lookup o.column_name a.values) [
      | none ↦ rest
      | some x ↦ elim (lookup o.column_name b.values) [
        | none ↦ rest
        | some y ↦
            if eqb_ℤ x y
            then rest
            else elim o.direction [ ascending ↦ ltb_ℤ x y | descending ↦ ltb_ℤ y x ]
      ]
    ]

-- `std::stable_sort`, by insertion from the right: a row goes before the first row that is not less.
unfoldable pub insert_row : List OrderByColumn → ResultRow → List ResultRow → List ResultRow
unfolding row_less
insert_row os r [] = r ∷ []
insert_row os r (s ∷ rows) = if row_less os s r then s ∷ insert_row os r rows else r ∷ s ∷ rows

unfoldable pub stable_sort : List OrderByColumn → List ResultRow → List ResultRow
unfolding insert_row
stable_sort os [] = []
stable_sort os (r ∷ rows) = insert_row os r (stable_sort os rows)

-- `if (!orderBy.empty()) std::stable_sort(...)`
abbrev pub sort_if_any : List OrderByColumn → List ResultRow → List ResultRow
sort_if_any [] rows = rows
sort_if_any (o ∷ os) rows = stable_sort (o ∷ os) rows

-- `if (limit >= 0 && limit < rows.size()) rows.resize(limit);`
abbrev pub limit_rows : ℤ → List ResultRow → List ResultRow
limit_rows (negsuc _) rows = rows
limit_rows (pos n) rows = if ltb n (length rows) then take n rows else rows

-- `ResultDecoder::applySortAndLimit`
unfoldable pub apply_sort_and_limit : List ResultRow → List OrderByColumn → ℤ → List ResultRow
unfolding stable_sort
apply_sort_and_limit rows order_by limit = limit_rows limit (sort_if_any order_by rows)
