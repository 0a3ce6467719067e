-- ===== src/Examples/Toy.antt =====
-- An engine without secrecy that meets the laws: a ciphertext is its plaintext, and an expression is a
-- tree. It shows that the laws can hold.
use hega_proto.Base.{
  ℕ, zero, suc, ◌+◌, ◌-◌, ◌*◌, ◌≡◌, refl, ap, List, [], ◌∷◌, Str, ltb, ◌==◌, length, Option, none,
  some, ◌++◌, All, All-split,
}
use mathlib.Core.Path.{ap₂}
use hega_proto.Base.Int.{ℤ, pos, negsuc}
use hega_proto.Engine.{Engine, EngineLaws, bit, encrypt_scalar}

-- Two numbers for each value, a sign and a size.
abbrev pub bytes_of : List ℤ → List ℕ
bytes_of [] = []
bytes_of (pos n ∷ vs) = 0 ∷ n ∷ bytes_of vs
bytes_of (negsuc n ∷ vs) = 1 ∷ n ∷ bytes_of vs

abbrev pub values_of : List ℕ → List ℤ
values_of (zero ∷ n ∷ ns) = pos n ∷ values_of ns
values_of (suc _ ∷ n ∷ ns) = negsuc n ∷ values_of ns
values_of _ = []

values_of-bytes_of : (vs : List ℤ) → values_of (bytes_of vs) ≡ vs
values_of-bytes_of [] = refl
values_of-bytes_of (pos n ∷ vs) = ap (λ ws. pos n ∷ ws) (values_of-bytes_of vs)
values_of-bytes_of (negsuc n ∷ vs) = ap (λ ws. negsuc n ∷ ws) (values_of-bytes_of vs)

abbrev pub without_header : List ℕ → List ℕ
without_header [] = []
without_header (_ ∷ ns) = ns

-- The first values, with zeros for those that lack.
abbrev pub fit : ℕ → List ℤ → List ℤ
fit zero _ = []
fit (suc n) [] = pos 0 ∷ fit n []
fit (suc n) (v ∷ vs) = v ∷ fit n vs

length-fit : (vs : List ℤ) (n : ℕ) → length (fit n vs) ≡ n
length-fit vs zero = refl
length-fit [] (suc n) = ap suc (length-fit [] n)
length-fit (v ∷ vs) (suc n) = ap suc (length-fit vs n)

abbrev pub first_value : List ℤ → ℕ
first_value (pos n ∷ _) = n
first_value _ = 0

-- An expression: a column, a number, or an operation on the values of others.
pub data Tree : Type 0 where
  reading : Str → Tree
  number : ℕ → Tree
  joined : (ℕ → ℕ → ℕ) → Tree → Tree → Tree
  changed : (ℕ → ℕ) → Tree → Tree

abbrev pub value_of : (Str → ℕ) → Tree → ℕ
value_of row (reading c) = row c
value_of row (number n) = n
value_of row (joined f l r) = f (value_of row l) (value_of row r)
value_of row (changed f l) = f (value_of row l)

abbrev pub columns_in : Tree → List Str
columns_in (reading c) = c ∷ []
columns_in (number n) = []
columns_in (joined f l r) = columns_in l ++ columns_in r
columns_in (changed f l) = columns_in l

-- a comparison or a product is one level
abbrev pub levels : Tree → ℕ
levels (joined f l r) = suc (levels l + levels r)
levels (changed f l) = levels l
levels _ = 0

abbrev pub apply_both : (ℕ → ℕ → ℕ) → Option ℕ → Option ℕ → Option ℕ
apply_both f (some a) (some b) = some (f a b)
apply_both f _ _ = none

abbrev pub apply_one : (ℕ → ℕ) → Option ℕ → Option ℕ
apply_one f none = none
apply_one f (some a) = some (f a)

abbrev pub run : (Str → Option ℕ) → Tree → Option ℕ
run batch (reading c) = batch c
run batch (number n) = some n
run batch (joined f l r) = apply_both f (run batch l) (run batch r)
run batch (changed f l) = apply_one f (run batch l)

run-value_of :
    (batch : Str → Option ℕ) (row : Str → ℕ) (x : Tree)
    → All (λ c. batch c ≡ some (row c)) (columns_in x)
    → run batch x ≡ some (value_of row x)
run-value_of batch row (reading c) h = h.0
run-value_of batch row (number n) h = refl
run-value_of batch row (joined f l r) h =
    let (left, right) = All-split _ (columns_in l) (columns_in r) h in
    ap₂ (apply_both f) (run-value_of batch row l left) (run-value_of batch row r right)
run-value_of batch row (changed f l) h = ap (apply_one f) (run-value_of batch row l h)

abbrev pub toy : Engine
toy = record {
  Cipher = List ℤ;
  Expression = Tree;
  slot_count = 4;
  param_set_id = b'P' ∷ [];
  encrypt = λ _ vs. vs;
  serialize = λ vs. 7 ∷ bytes_of vs;
  logical_size = λ vs. length vs;
  deserialize_with_size = λ bs _. values_of (without_header bs);
  decrypt = λ vs n. fit n vs;
  column_ref = reading;
  enc_literal = λ vs. number (first_value vs);
  equal = joined (λ x y. bit (x == y));
  gt = joined (λ x y. bit (ltb y x));
  lt = joined (λ x y. bit (ltb x y));
  and_expr = joined (λ x y. x * y);
  or_expr = joined (λ x y. x + y - x * y);
  not_expr = changed (λ x. 1 - x);
  string_physical_column = λ n k. (256 + k) ∷ n;
  value = value_of;
  columns = columns_in;
  depth = levels;
  max_depth = 12;
  evaluate = run;
}

pub toy_laws : EngineLaws toy
unfolding encrypt_scalar
toy_laws = record {
  serialize_nonempty = λ c h. cc;
  deserialize-serialize = λ c. values_of-bytes_of c;
  length-decrypt = length-fit;
  value-enc_literal = λ row call n h. refl;
  value-column_ref = λ row c. refl;
  evaluate-value = λ batch row x held within. run-value_of batch row x held;
  columns-column_ref = λ c. refl;
  columns-enc_literal = λ ct. refl;
  columns-equal = λ l r. refl;
  columns-gt = λ l r. refl;
  columns-lt = λ l r. refl;
  columns-and = λ l r. refl;
  columns-or = λ l r. refl;
  columns-not = λ l. refl;
  value-equal = λ row l r h k. refl;
  value-gt = λ row l r h k. refl;
  value-lt = λ row l r h k. refl;
  value-and = λ row l r h k. refl;
  value-or = λ row l r h k. refl;
  value-not = λ row l h. refl;
}
