-- ===== src/Base/Text.antt =====
-- `std::string` as the list of its bytes: equality, `find('.')` and `substr`, and the classes of
-- <cctype> in the "C" locale, which the program never changes.
use Prim.Native.Nat.{ℕ, zero, suc, ◌+◌, ◌-◌, ◌/◌, ◌%◌}
use Prim.Native.Char.{code}
use Prim.Native.String.{String}
use mathlib.Core.Path.{◌≡◌, refl}
use mathlib.Core.Logic.{◌↔◌}
use mathlib.Core.Bool.{Bool, true, false, ◌&&◌, ◌||◌}
use mathlib.Core.List.{List, [], ◌∷◌}
use mathlib.Core.Option.{Option, none, some}
use native.Mathlib.Omega.{arith}
use hega_proto.Base.Tests.{leb, ◌==◌, if◌then◌else◌, and_left, and_right, ==_iff}

abbrev pub Str : Type 0
Str = List ℕ

-- A literal of the source. It is shut, so that messages stay small in proofs.
unfoldable pub codes : String → Str
codes String.[] = []
codes (String.◌∷◌ c s) = code c ∷ codes s

unfoldable pub str_eq : Str → Str → Bool
str_eq [] [] = true
str_eq (x ∷ xs) (y ∷ ys) = x == y && str_eq xs ys
str_eq _ _ = false

pub str_eq_refl : (s : Str) → str_eq s s ≡ true
unfolding str_eq
str_eq_refl [] = refl
str_eq_refl (x ∷ xs) = ground (arith, str_eq_refl xs)

pub str_eq→eq : (s t : Str) → str_eq s t ≡ true → s ≡ t
unfolding str_eq
str_eq→eq [] [] h = refl
str_eq→eq (x ∷ xs) (y ∷ ys) h =
    cc (str_eq→eq xs ys (and_right (x == y) _ h), (==_iff x y).0 (and_left (x == y) _ h))
str_eq→eq [] (y ∷ ys) h = cc
str_eq→eq (x ∷ xs) [] h = cc

pub str_eq_iff : (s t : Str) → (str_eq s t ≡ true) ↔ (s ≡ t)
str_eq_iff s t = (str_eq→eq s t, λ e. rw e (str_eq_refl t))

-- `const auto dot = s.find('.')`, with `s.substr(0, dot)` and `s.substr(dot + 1)` where there is one.
unfoldable pub split_dot : Str → Option (Str × Str)
split_dot [] = none
split_dot (c ∷ cs) =
    if c == b'.'
    then some ([], cs)
    else elim (split_dot cs) [ none ↦ none | some (a, b) ↦ some (c ∷ a, b) ]

-- `dot == npos ? s : s.substr(dot + 1)`
unfoldable pub bare_name : Str → Str
bare_name s = elim (split_dot s) [ none ↦ s | some (_, b) ↦ b ]

-- `dot == npos ? other : s.substr(0, dot)`
unfoldable pub qualifier_or : Str → Str → Str
qualifier_or s other = elim (split_dot s) [ none ↦ other | some (a, _) ↦ a ]

unfoldable pub is_space : ℕ → Bool
is_space c = c == 32 || (leb 9 c && leb c 13)

unfoldable pub is_digit : ℕ → Bool
is_digit c = leb b'0' c && leb c b'9'

unfoldable pub is_alpha : ℕ → Bool
is_alpha c = (leb b'a' c && leb c b'z') || (leb b'A' c && leb c b'Z')

unfoldable pub is_alnum : ℕ → Bool
unfolding is_alpha is_digit
is_alnum c = is_alpha c || is_digit c

unfoldable pub to_upper_char : ℕ → ℕ
to_upper_char c = if leb b'a' c && leb c b'z' then c - 32 else c

-- `std::to_string` of a natural number. The digits of `n` are found from the last one; `fuel` bounds
-- their number, and `n + 1` is enough.
unfoldable pub digits_onto : ℕ → ℕ → Str → Str
digits_onto zero n acc = acc
digits_onto (suc f) n acc =
    let acc' = (b'0' + n % 10) ∷ acc in
    let more = digits_onto f (n / 10) acc' in if n / 10 == 0 then acc' else more

unfoldable pub to_string : ℕ → Str
unfolding digits_onto
to_string n = digits_onto (n + 1) n []
