-- ===== src/Transport.antt =====
-- transport/transport.cpp: frames over a socket. The operating system is a parameter: `Incoming` is
-- the data of the calls of `read` to come, as they would be cut by an unlimited buffer, and
-- `accepted` the number of bytes that each call of `write` to come takes; an empty read, a write of
-- nothing and the end of either list are the results `r <= 0`, on which the source throws.
pub mod Frames
pub mod RoundTrip
pub mod Protocol
use hega_proto.Base.{
  ℕ, zero, suc, ◌+◌, ◌-◌, ◌*◌, ◌/◌, ◌%◌, ◌^◌, Bool, true, false, Option, none, some, List, [], ◌∷◌,
  ◌++◌, codes, length, take, drop, leb, if◌then◌else◌,
}
use hega_proto.Base.Outcome.{Result, ok, err, runtime_error, exhausted, ◌>>=◌}

abbrev pub Incoming : Type 0
Incoming = List (List ℕ)

-- `::read(fd, p, n)`
unfoldable pub read_some : ℕ → Incoming → Option (List ℕ × Incoming)
read_some n [] = none
read_some n ([] ∷ chunks) = none
read_some n ((b ∷ bs) ∷ chunks) =
    some (take n (b ∷ bs), (if leb (length (b ∷ bs)) n then chunks else drop n (b ∷ bs) ∷ chunks))

-- `readBytes`: reads until `len` bytes are there. Each call gives one byte or more, so that `len` is
-- fuel enough.
unfoldable pub read_bytes : ℕ → ℕ → Incoming → Result (List ℕ × Incoming)
unfolding read_some
read_bytes fuel zero incoming = ok ([], incoming)
read_bytes zero (suc len) incoming = err exhausted
read_bytes (suc fuel) (suc len) incoming = elim (read_some (suc len) incoming) [
  | none ↦ err (runtime_error (codes "Transport: connection closed"))
  | some (got, later) ↦ do
    (rest, after) ← read_bytes fuel (suc len - length got) later
    ok (got ++ rest, after)
]

-- the bytes of `htonl(v)`
abbrev pub u32_bytes : ℕ → List ℕ
u32_bytes v = v / 16777216 % 256 ∷ v / 65536 % 256 ∷ v / 256 % 256 ∷ v % 256 ∷ []

-- `ntohl` of four bytes
abbrev pub u32_value : List ℕ → ℕ
u32_value (a ∷ b ∷ c ∷ d ∷ _) = a * 16777216 + b * 65536 + c * 256 + d
u32_value _ = 0

-- `readU32BE`
unfoldable pub read_u32 : Incoming → Result (ℕ × Incoming)
unfolding read_bytes
read_u32 incoming = do (bytes, after) ← read_bytes 4 4 incoming; ok (u32_value bytes, after)

-- what has been sent, and what the calls of `write` to come take
pub record Outgoing : Type 0 where
  pub accepted : List ℕ
  pub sent : List ℕ

-- `writeBytes`, over the calls of `write`
unfoldable pub write_all : List ℕ → List ℕ → List ℕ → Result Outgoing
write_all accepted sent [] = ok (record { accepted = accepted; sent = sent })
write_all [] sent (b ∷ bs) = err (runtime_error (codes "Transport: write failed"))
write_all (zero ∷ calls) sent (b ∷ bs) = err (runtime_error (codes "Transport: write failed"))
write_all (suc n ∷ calls) sent (b ∷ bs) =
    write_all calls (sent ++ take (suc n) (b ∷ bs)) (drop (suc n) (b ∷ bs))

abbrev pub write_bytes : List ℕ → Outgoing → Result Outgoing
write_bytes data_ out = write_all out.accepted out.sent data_

-- `sendFrame`; `writeU32BE` writes the four bytes of a number in the same way
unfoldable pub send_frame : ℕ → List ℕ → Outgoing → Result Outgoing
unfolding write_all
send_frame type payload out = do
  typed ← write_bytes (u32_bytes type) out
  sized ← write_bytes (u32_bytes (length payload % 2 ^ 32)) typed
  write_bytes payload sized

-- `recvFrame`
unfoldable pub recv_frame : Incoming → Result ((ℕ × List ℕ) × Incoming)
unfolding read_u32 read_bytes
recv_frame incoming = do
  (type, sized) ← read_u32 incoming
  (len, body) ← read_u32 sized
  (payload, after) ← read_bytes len len body
  ok ((type, payload), after)
