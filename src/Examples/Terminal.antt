-- ===== src/Examples/Terminal.antt =====
-- Runs of the client's theorems.
use hega_proto.Base.{◌≡◌, refl, true, false, [], ◌∷◌, Str}
use hega_proto.Base.Outcome.{ok}
use hega_proto.Parser.Lexer.{read_string}
use hega_proto.Client.{in_string}
use hega_proto.Client.Terminator.{in_string-read_string}

-- what stands behind the first quote of 'It''s'; done
abbrev literal : Str
literal = b'I' ∷ b't' ∷ b'\'' ∷ b'\'' ∷ b's' ∷ b'\'' ∷ b';' ∷ []

read_literal : read_string false literal ≡ ok (b'I' ∷ b't' ∷ b'\'' ∷ b's' ∷ [], b';' ∷ [])
unfolding read_string
read_literal = refl

in_string-read_string_example : in_string true literal ≡ in_string false (b';' ∷ [])
in_string-read_string_example =
    in_string-read_string literal (b'I' ∷ b't' ∷ b'\'' ∷ b's' ∷ []) (b';' ∷ []) read_literal
