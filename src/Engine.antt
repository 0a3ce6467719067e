-- ===== src/Engine.antt =====
-- The FHE library of Prototype 1 (`proto1`), which this repository only calls: its keys, its
-- ciphertexts, its expression trees and their homomorphic evaluation. It is a parameter of the
-- model. `Engine` holds the operations that are called; `EngineLaws` holds what docs/architecture.md,
-- docs/security-model.md and the README say of them, over one slot of a batch.
use hega_proto.Base.{
  ℕ, ◌+◌, ◌-◌, ◌*◌, ◌≤◌, ◌≡◌, Bool, true, false, List, Str, ltb, ◌==◌, replicate, length, Option,
  some, [], ◌∷◌, ◌++◌, All,
}
use hega_proto.Base.Int.{ℤ, pos}

pub record Engine : Type 1 where
  -- proto1::EncryptedVector
  pub Cipher : Type 0
  -- proto1::Expression
  pub Expression : Type 0
  -- ClientKeyContext::slotCount, and the parameter set's name
  pub slot_count : ℕ
  pub param_set_id : Str
  -- ClientKeyContext::encrypt on a PlaintextVector. Encryption is randomised: the first argument
  -- tells one call from another.
  pub encrypt : ℕ → List ℤ → Cipher
  -- EncryptedVector::serialize, EncryptedVector::logicalSize, FHEKeyContext::deserializeWithSize
  pub serialize : Cipher → List ℕ
  pub logical_size : Cipher → ℕ
  pub deserialize_with_size : List ℕ → ℕ → Cipher
  -- ClientKeyContext::decrypt, with the number of values wanted
  pub decrypt : Cipher → ℕ → List ℤ
  -- the factories of proto1::Expression
  pub column_ref : Str → Expression
  pub enc_literal : Cipher → Expression
  pub equal : Expression → Expression → Expression
  pub gt : Expression → Expression → Expression
  pub lt : Expression → Expression → Expression
  pub and_expr : Expression → Expression → Expression
  pub or_expr : Expression → Expression → Expression
  pub not_expr : Expression → Expression
  -- proto1::stringPhysicalColumn
  pub string_physical_column : Str → ℕ → Str
  -- the number that an expression denotes where its columns have the values of `row`, the columns
  -- that it reads, and its multiplicative depth
  pub value : (row : Str → ℕ) → Expression → ℕ
  pub columns : Expression → List Str
  pub depth : Expression → ℕ
  -- the multiplicative depth of the parameter set
  pub max_depth : ℕ
  -- ExpressionExecutor::evaluate followed by decryption, at one slot of a batch that has some columns
  -- and lacks others; it throws `Column not found in batch` where it reads one that is lacking
  pub evaluate : (batch : Str → Option ℕ) → Expression → Option ℕ

-- 1 for true and 0 for false, as a selection mask has them
abbrev pub bit : Bool → ℕ
bit true = 1
bit false = 0

-- The bound of the README: "Values must be in [0, 128] due to BFV plaintext modulus p=257".
abbrev pub max_value : ℕ
max_value = 128

-- `ClientCryptoContext::encryptScalar`: the value in every slot.
unfoldable pub encrypt_scalar : (e : Engine) → ℕ → ℤ → e.Cipher
encrypt_scalar e call v = e.encrypt call (replicate e.slot_count v)

pub record EngineLaws (e : Engine) : Type 0 where
  -- a ciphertext is never the empty byte string, and is read back from its bytes
  pub serialize_nonempty : (c : e.Cipher) → e.serialize c ≡ [] → ⊥
  pub deserialize-serialize :
      (c : e.Cipher) → e.deserialize_with_size (e.serialize c) (e.logical_size c) ≡ c
  -- decryption gives the number of values that is asked for
  pub length-decrypt : (c : e.Cipher) (n : ℕ) → length (e.decrypt c n) ≡ n
  -- a literal within the bound decrypts to itself
  pub value-enc_literal :
      (row : Str → ℕ) (call n : ℕ)
      → n ≤ max_value
      → e.value row (e.enc_literal (encrypt_scalar e call (pos n))) ≡ n
  -- within the multiplicative depth, over columns that are all in the batch, evaluation is exact
  pub evaluate-value :
      (batch : Str → Option ℕ) (row : Str → ℕ) (x : e.Expression)
      → All (λ c. batch c ≡ some (row c)) (e.columns x)
      → e.depth x ≤ e.max_depth
      → e.evaluate batch x ≡ some (e.value row x)
  pub columns-column_ref : (c : Str) → e.columns (e.column_ref c) ≡ c ∷ []
  pub columns-enc_literal : (ct : e.Cipher) → e.columns (e.enc_literal ct) ≡ []
  pub columns-equal : (l r : e.Expression) → e.columns (e.equal l r) ≡ e.columns l ++ e.columns r
  pub columns-gt : (l r : e.Expression) → e.columns (e.gt l r) ≡ e.columns l ++ e.columns r
  pub columns-lt : (l r : e.Expression) → e.columns (e.lt l r) ≡ e.columns l ++ e.columns r
  pub columns-and : (l r : e.Expression) → e.columns (e.and_expr l r) ≡ e.columns l ++ e.columns r
  pub columns-or : (l r : e.Expression) → e.columns (e.or_expr l r) ≡ e.columns l ++ e.columns r
  pub columns-not : (l : e.Expression) → e.columns (e.not_expr l) ≡ e.columns l
  pub value-column_ref : (row : Str → ℕ) (c : Str) → e.value row (e.column_ref c) ≡ row c
  -- EQ, GT and LT are exact on values within the bound
  pub value-equal :
      (row : Str → ℕ) (l r : e.Expression)
      → e.value row l ≤ max_value
      → e.value row r ≤ max_value
      → e.value row (e.equal l r) ≡ bit (e.value row l == e.value row r)
  pub value-gt :
      (row : Str → ℕ) (l r : e.Expression)
      → e.value row l ≤ max_value
      → e.value row r ≤ max_value
      → e.value row (e.gt l r) ≡ bit (ltb (e.value row r) (e.value row l))
  pub value-lt :
      (row : Str → ℕ) (l r : e.Expression)
      → e.value row l ≤ max_value
      → e.value row r ≤ max_value
      → e.value row (e.lt l r) ≡ bit (ltb (e.value row l) (e.value row r))
  -- AND = M1 * M2, OR = M1 + M2 - M1 * M2, NOT = 1 - M, on masks of zeros and ones
  pub value-and :
      (row : Str → ℕ) (l r : e.Expression)
      → e.value row l ≤ 1
      → e.value row r ≤ 1
      → e.value row (e.and_expr l r) ≡ e.value row l * e.value row r
  pub value-or :
      (row : Str → ℕ) (l r : e.Expression)
      → e.value row l ≤ 1
      → e.value row r ≤ 1
      → e.value row (e.or_expr l r) ≡ e.value row l + e.value row r - e.value row l * e.value row r
  pub value-not :
      (row : Str → ℕ) (l : e.Expression)
      → e.value row l ≤ 1
      → e.value row (e.not_expr l) ≡ 1 - e.value row l
