-- ===== src/Base/Outcome.antt =====
-- The exceptions of the program as values, and the results of code that may throw.
use mathlib.Core.Path.{◌≡◌, refl}
use mathlib.Core.Bool.{Bool, true, false}
use hega_proto.Base.Tests.{if◌then◌else◌}
use hega_proto.Base.Text.{Str}

-- One constructor for each exception class that is thrown, with its message. `exhausted` is no
-- exception: it says that the fuel of a model function ran out.
pub data Error : Type 0 where
  parse_error : Str → Error
  semantic_error : Str → Error
  validation_error : Str → Error
  runtime_error : Str → Error
  exhausted : Error

-- What a function returns, or the exception that it throws.
pub data Result {ℓ} (Value : Type ℓ) : Type ℓ where
  ok : Value → Result Value
  err : Error → Result Value

module _ {ℓ} {Value : Type ℓ} where
  pub ok_inj : {x y : Value} → ok x ≡ ok y → x ≡ y
  ok_inj same = cc

-- `if (!test) throw thrown;`
abbrev pub guard : Bool → Error → Result (Unit {0})
guard false thrown = err thrown
guard true _ = ok tt

pub guard-eq-ok :
    (test : Bool) (thrown : Error) {u : Unit {0}} → guard test thrown ≡ ok u → test ≡ true
guard-eq-ok false thrown passed = cc
guard-eq-ok true thrown passed = refl

-- Statements in sequence, up to the first that throws.
infixl 5 ◌>>=◌ ◌>>◌
abbrev pub ◌>>=◌ {ℓ κ} :
    {Value : Type ℓ} {Next : Type κ} → Result Value → (Value → Result Next) → Result Next
err thrown >>= next = err thrown
ok x >>= next = next x

abbrev pub ◌>>◌ {κ} : {Next : Type κ} → Result (Unit {0}) → Result Next → Result Next
first >> next = first >>= λ done. next

-- A sequence that returns has a first part that returns, and goes on with its value.
pub >>=-eq-ok {ℓ κ} :
    {Value : Type ℓ} {Next : Type κ} (first : Result Value) (next : Value → Result Next) {y : Next}
    → (first >>= next) ≡ ok y
    → (x : Value) × (first ≡ ok x) × (next x ≡ ok y)
>>=-eq-ok (err thrown) next returned = cc
>>=-eq-ok (ok x) next returned = (x, refl, returned)

-- A test that is passed, before the rest.
pub guard->>-ok {κ} :
    {Next : Type κ} (test : Bool) (thrown : Error) (rest : Result Next) {y : Next}
    → (guard test thrown >> rest) ≡ ok y
    → (test ≡ true) × (rest ≡ ok y)
guard->>-ok false thrown rest returned = cc
guard->>-ok true thrown rest returned = (refl, returned)

pub rest-ok {κ} :
    {Next : Type κ} (first : Result (Unit {0})) (rest : Result Next) {y : Next}
    → (first >> rest) ≡ ok y
    → rest ≡ ok y
rest-ok (err thrown) rest returned = cc
rest-ok (ok x) rest returned = returned

-- What the code returns, if it returns, has the property.
abbrev pub Gives {ℓ} : {A : Type ℓ} → (A → Type 0) → Result A → Type 0
Gives P (ok a) = P a
Gives P (err e) = Unit {0}

pub Gives-bind {ℓ κ} :
    {A : Type ℓ} {B : Type κ} (Q : A → Type 0) (P : B → Type 0) (m : Result A) (k : A → Result B)
    → Gives Q m
    → ((a : A) → Q a → Gives P (k a))
    → Gives P (m >>= k)
Gives-bind Q P (ok a) k h g = g a h
Gives-bind Q P (err e) k h g = tt

pub Gives-ok : {A : Type 0} (m : Result A) → Gives (λ a. m ≡ ok a) m
Gives-ok (ok a) = refl
Gives-ok (err e) = tt

pub Gives-both :
    {A : Type 0} (P Q : A → Type 0) (m : Result A)
    → Gives P m
    → Gives Q m
    → Gives (λ a. P a × Q a) m
Gives-both P Q (ok a) p q = (p, q)
Gives-both P Q (err e) p q = tt

pub Gives-map :
    {A : Type 0} {P Q : A → Type 0} (m : Result A) → ((a : A) → P a → Q a) → Gives P m → Gives Q m
Gives-map (ok a) f h = f a h
Gives-map (err e) f h = tt

pub Gives-after {ℓ κ} :
    {A : Type ℓ} {B : Type κ} (P : B → Type 0) (m : Result A) (k : A → Result B)
    → ((a : A) → Gives P (k a))
    → Gives P (m >>= k)
Gives-after P (ok a) k g = g a
Gives-after P (err e) k g = tt

pub Gives-if {ℓ} :
    {A : Type ℓ} (P : A → Type 0) (b : Bool) (x y : Result A)
    → (b ≡ true → Gives P x)
    → (b ≡ false → Gives P y)
    → Gives P (if b then x else y)
Gives-if P true x y h k = h refl
Gives-if P false x y h k = k refl

pub Gives-rest {κ} :
    {B : Type κ} (P : B → Type 0) (m : Result (Unit {0})) (k : Result B)
    → Gives P k
    → Gives P (m >> k)
Gives-rest P (ok x) k h = h
Gives-rest P (err e) k h = tt
