-- ===== src/Examples/Client.antt =====
-- Runs of the theorems about planning, decoding and sorting.
use mathlib.Core.List.{Perm}
use hega_proto.Base.{
  ℕ, zero, suc, ◌≡◌, refl, sym, ap, true, List, [], ◌∷◌, arith, codes, str_eq, length, All,
  some_inj, get_elem?,
}
use hega_proto.Base.Int.{ℤ, pos}
use hega_proto.Base.Dict.{Dict, lookup, insert}
use hega_proto.Base.Outcome.{ok}
use hega_proto.Ast.{OrderByColumn, ascending}
use hega_proto.Planner.{no_join, join_fields}
use hega_proto.Decoder.{
  ResultRow, EncryptedResultBatch, EncryptedColumnResult, decode_chars, number_values, decode,
  decrypt_mask, decrypt_columns, no_columns, to_size, row_less, stable_sort, apply_sort_and_limit,
  is_selected, decode_row, decode_rows, string_values, add_column,
}
use hega_proto.Decoder.Strings.{HoldsText, decode_chars-HoldsText}
use hega_proto.Decoder.Rows.{
  IsUnique, decode_all, decode-selected, kept_slots, slot_or, lookup-number_values,
}
use hega_proto.Decoder.Order.{
  IsKey, lex_less, row_less-lex_less, IsComplete, Before, IsSorted, row_less-asymmetric,
  Before-trans,
}
use hega_proto.Decoder.Stable.{keep, same_keys, keep-stable_sort}
use hega_proto.Decoder.Limit.{
  LacksNumbers, first_rows, apply_sort_and_limit-IsSorted, apply_sort_and_limit-lacking,
}
use hega_proto.Examples.Toy.{toy}
use hega_proto.Examples.Where.{age, dept, name, al, by_age}

joined : join_fields [] ≡ ok no_join
unfolding join_fields
joined = refl

-- A and l at slot 1 of three positions
abbrev positions : List (List ℤ)
positions = (pos 66 ∷ pos 65 ∷ []) ∷ (pos 0 ∷ pos 108 ∷ []) ∷ (pos 0 ∷ pos 0 ∷ []) ∷ []

positions-HoldsText : HoldsText 1 al positions
positions-HoldsText zero chars h = ap (λ (cs : List ℤ). get_elem? cs 1) (sym (some_inj h))
positions-HoldsText (suc zero) chars h = ap (λ (cs : List ℤ). get_elem? cs 1) (sym (some_inj h))
positions-HoldsText (suc (suc zero)) chars h =
    ap (λ (cs : List ℤ). get_elem? cs 1) (sym (some_inj h))
positions-HoldsText (suc (suc (suc p))) chars h = cc

decode_chars-HoldsText_example : decode_chars 1 positions ≡ ok al
decode_chars-HoldsText_example =
    decode_chars-HoldsText 1 al positions (omega arith)
      ((omega arith, omega arith), ((omega arith, omega arith), tt)) positions-HoldsText

abbrev two_columns : Dict (List ℤ)
two_columns = (age, pos 35 ∷ pos 28 ∷ []) ∷ (dept, pos 1 ∷ pos 2 ∷ []) ∷ []

two_columns-IsUnique : IsUnique two_columns
unfolding lookup str_eq
two_columns-IsUnique = (refl, (refl, tt))

lookup-number_values_example :
    lookup age (number_values 1 two_columns []) ≡ slot_or 1 (lookup age two_columns) (lookup age [])
lookup-number_values_example = lookup-number_values 1 two_columns [] age two_columns-IsUnique

-- a batch of three rows, of which the mask selects the first and the last
abbrev age_batch : EncryptedColumnResult
age_batch = record {
  column_name = age;
  logical_type = [];
  string_position = 0;
  ciphertext_bytes = toy.serialize (pos 35 ∷ pos 28 ∷ pos 51 ∷ []);
  logical_size = 3;
}

abbrev pub batch : EncryptedResultBatch
batch = record {
  batch_id = 0;
  logical_row_count = pos 3;
  columns = age_batch ∷ [];
  selection_mask_bytes = toy.serialize (pos 1 ∷ pos 0 ∷ pos 1 ∷ []);
  has_mask = true;
}

abbrev pub row_of : ℕ → ResultRow
row_of n = record { values = (age, pos n) ∷ []; string_values = [] }

pub batch_decoded : decode toy batch ≡ ok (row_of 35 ∷ row_of 51 ∷ [])
unfolding decode decrypt_mask decrypt_columns add_column to_size decode_rows is_selected decode_row
    number_values string_values insert codes str_eq
batch_decoded = refl

decode-selected_example :
    (decode_all
        (decrypt_columns toy (to_size (pos 3)) (age_batch ∷ []) no_columns)
        (kept_slots toy batch)
      ≡ ok (row_of 35 ∷ row_of 51 ∷ []))
    × (length (row_of 35 ∷ row_of 51 ∷ []) ≡ length (kept_slots toy batch))
decode-selected_example = decode-selected toy batch batch_decoded

row-IsComplete : (n : ℕ) → IsComplete (by_age ∷ []) (row_of n)
unfolding lookup str_eq
row-IsComplete n = ((pos n, refl), tt)

abbrev three_rows : List ResultRow
three_rows = row_of 35 ∷ row_of 28 ∷ row_of 35 ∷ []

rows-IsComplete : All (IsComplete (by_age ∷ [])) three_rows
rows-IsComplete = (row-IsComplete 35, (row-IsComplete 28, (row-IsComplete 35, tt)))

younger_less : row_less (by_age ∷ []) (row_of 28) (row_of 35) ≡ true
unfolding row_less lookup str_eq
younger_less = refl

younger-Before : Before (by_age ∷ []) (row_of 28) (row_of 35)
younger-Before =
    row_less-asymmetric (by_age ∷ []) (row_of 28) (row_of 35) (row-IsComplete 28)
      (row-IsComplete 35) younger_less

row_less-asymmetric_example : Before (by_age ∷ []) (row_of 28) (row_of 35)
row_less-asymmetric_example =
    row_less-asymmetric (by_age ∷ []) (row_of 28) (row_of 35) (row-IsComplete 28)
      (row-IsComplete 35) younger_less

tie-Before : Before (by_age ∷ []) (row_of 35) (row_of 35)
unfolding row_less lookup str_eq
tie-Before = refl

Before-trans_example : Before (by_age ∷ []) (row_of 28) (row_of 35)
Before-trans_example =
    Before-trans (by_age ∷ []) (row_of 28) (row_of 35) (row_of 35) (row-IsComplete 28)
      (row-IsComplete 35) (row-IsComplete 35) younger-Before tie-Before

apply_sort_and_limit-IsSorted_example :
    IsSorted (by_age ∷ []) (apply_sort_and_limit three_rows (by_age ∷ []) (pos 2))
    × (sorted : List ResultRow) × Perm sorted three_rows
    × IsSorted (by_age ∷ []) sorted
    × (apply_sort_and_limit three_rows (by_age ∷ []) (pos 2) ≡ first_rows (pos 2) sorted)
apply_sort_and_limit-IsSorted_example =
    apply_sort_and_limit-IsSorted (by_age ∷ []) three_rows (pos 2) rows-IsComplete

keep-stable_sort_example :
    keep (same_keys (by_age ∷ []) (row_of 35)) (stable_sort (by_age ∷ []) three_rows)
    ≡ keep (same_keys (by_age ∷ []) (row_of 35)) three_rows
keep-stable_sort_example =
    keep-stable_sort (by_age ∷ []) (row_of 35) three_rows (row-IsComplete 35) rows-IsComplete

abbrev by_name : List OrderByColumn
by_name = record { column_name = name; direction = ascending } ∷ []

name_lacks : (n : ℕ) → LacksNumbers by_name (row_of n)
unfolding lookup str_eq
name_lacks n = (refl, tt)

apply_sort_and_limit-lacking_example :
    apply_sort_and_limit three_rows by_name (pos 2) ≡ apply_sort_and_limit three_rows [] (pos 2)
apply_sort_and_limit-lacking_example =
    apply_sort_and_limit-lacking by_name three_rows (pos 2)
      (name_lacks 35, (name_lacks 28, (name_lacks 35, tt)))

age-IsKey : (n : ℕ) → IsKey (by_age ∷ []) (row_of n) (pos n ∷ [])
unfolding lookup str_eq
age-IsKey n = (refl, tt)

row_less-lex_less_example :
    row_less (by_age ∷ []) (row_of 28) (row_of 35)
    ≡ lex_less (by_age ∷ []) (pos 28 ∷ []) (pos 35 ∷ [])
row_less-lex_less_example =
    row_less-lex_less (by_age ∷ []) (row_of 28) (row_of 35) (pos 28 ∷ []) (pos 35 ∷ [])
      (age-IsKey 28) (age-IsKey 35)
