-- ===== src/Base/Dict.antt =====
-- `std::unordered_map<std::string, V>` as an association list. Where the program iterates over a map
-- it only fills another map, or looks for a single match, so the order of the entries is not seen.
use mathlib.Core.Path.{◌≡◌, refl}
use mathlib.Core.Option.{Option, none, some}
use mathlib.Core.List.{List, [], ◌∷◌}
use native.Mathlib.Omega.{arith}
use hega_proto.Base.Tests.{if◌then◌else◌}
use hega_proto.Base.Text.{Str, str_eq, str_eq_iff}

abbrev pub Dict {ℓ} : Type ℓ → Type ℓ
Dict V = List (Str × V)

module _ {ℓ} {V : Type ℓ} where
  -- `m.find(name)`
  unfoldable pub lookup : Str → Dict V → Option V
  lookup name [] = none
  lookup name ((key, held) ∷ others) = if str_eq key name then some held else lookup name others

  -- `m[name] = value`
  unfoldable pub insert : Str → V → Dict V → Dict V
  insert name value [] = (name, value) ∷ []
  insert name value ((key, held) ∷ others) =
      if str_eq key name then (key, value) ∷ others else (key, held) ∷ insert name value others

  pub lookup-insert :
      (name wanted : Str) (value : V) (entries : Dict V)
      → lookup wanted (insert name value entries)
        ≡ (if str_eq name wanted then some value else lookup wanted entries)
  unfolding lookup insert
  lookup-insert name wanted value [] = refl
  lookup-insert name wanted value ((key, held) ∷ others) =
      let later = lookup-insert name wanted value others in
      ground (arith, later, str_eq_iff key name, str_eq_iff key wanted, str_eq_iff name wanted)
