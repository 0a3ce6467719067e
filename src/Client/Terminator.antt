-- ===== src/Client/Terminator.antt =====
-- The test for the end of a statement and the parser agree on where a string literal ends.
use hega_proto.Base.{
  ℕ, ◌≡◌, refl, ap, ◌∙◌, Bool, true, false, [], ◌∷◌, Str, ltb, ◌==◌, Bool-cases, inl, inr,
}
use hega_proto.Base.Outcome.{ok, ok_inj, >>=-eq-ok}
use hega_proto.Parser.Lexer.{read_string}
use hega_proto.Client.{in_string}

in_string-plain :
    (inside : Bool) (c : ℕ) (cs : Str)
    → (c == b'\'') ≡ false
    → in_string inside (c ∷ cs) ≡ in_string inside cs
unfolding in_string
in_string-plain inside c [] h = rw h refl
in_string-plain inside c (d ∷ ds) h = rw h refl

-- If the parser reads a string from a text and leaves the rest, the test is inside a string before the
-- text exactly as it is outside one before the rest.
pub in_string-read_string :
    (s value rest : Str)
    → read_string false s ≡ ok (value, rest)
    → in_string true s ≡ in_string false rest
unfolding read_string in_string
in_string-read_string [] value rest h = cc
in_string-read_string (c ∷ []) value rest h = elim (Bool-cases (c == b'\'')) [
  | inl quote_ ↦
      let e = ok_inj (rw quote_ at h) in rw quote_ (ap (λ (p : Str × Str). in_string false p.1) e)
  | inr other ↦ elim (Bool-cases (ltb 127 c)) [
    | inl high ↦ cc (rw (other, high) at h)
    | inr low ↦ cc (rw (other, low) at h)
  ]
]
in_string-read_string (c ∷ d ∷ ds) value rest h = elim (Bool-cases (c == b'\'')) [
  | inl quote_ ↦ elim (Bool-cases (d == b'\'')) [
    | inl escaped ↦
        let ((v, r), read, e) = >>=-eq-ok (read_string false ds) _ (rw (quote_, escaped) at h) in
        rw (quote_, escaped)
          (in_string-read_string ds v r read
            ∙ ap (λ (p : Str × Str). in_string false p.1) (ok_inj e))
    | inr closed ↦
        let e = ok_inj (rw (quote_, closed) at h) in
        rw (quote_, closed) (ap (λ (p : Str × Str). in_string false p.1) e)
  ]
  | inr other ↦ elim (Bool-cases (ltb 127 c)) [
    | inl high ↦ cc (rw (other, high) at h)
    | inr low ↦
        let ((v, r), read, e) = >>=-eq-ok (read_string false (d ∷ ds)) _ (rw (other, low) at h) in
        rw other (
          in_string-read_string (d ∷ ds) v r read
          ∙ ap (λ (p : Str × Str). in_string false p.1) (ok_inj e))
  ]
]
