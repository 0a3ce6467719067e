-- ===== src/Semantic/Throws.antt =====
-- Helpers of semantic/semantic.cpp for its exceptions.
use hega_proto.Base.{Bool, true, false, [], ◌∷◌, ◌++◌, Str, codes}
use hega_proto.Base.Outcome.{Result, ok, Error, semantic_error, ◌>>=◌}

abbrev pub is_empty_name : Str → Bool
is_empty_name [] = true
is_empty_name (_ ∷ _) = false

-- `if (test) { ... }`
abbrev pub when : Bool → Result (Unit {0}) → Result (Unit {0})
when true m = m
when false m = ok tt

-- a call for its exceptions only
abbrev pub discard {ℓ} : {A : Type ℓ} → Result A → Result (Unit {0})
discard m = m >>= λ _. ok tt

abbrev pub quoted : Str → Str → Error
quoted message name = semantic_error (message ++ codes " '" ++ name ++ codes "'")
