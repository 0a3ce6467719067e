-- ===== src/Transport/RoundTrip.antt =====
-- A frame that one side sends is the frame that the other side receives.
use mathlib.Core.List.{append_assoc}
use hega_proto.Base.{
  ℕ, zero, suc, ◌+◌, ◌≤◌, ◌<◌, ◌^◌, ◌≡◌, refl, sym, ap, ◌∙◌, List, [], ◌∷◌, ◌++◌, arith, length,
  take, drop, All, length-append, length-drop,
}
use native.Mathlib.Nat.{mod-eq_of_lt}
use hega_proto.Base.Outcome.{ok}
use hega_proto.Transport.{
  Incoming, Outgoing, read_u32, u32_bytes, u32_value, write_all, send_frame, recv_frame,
}
use hega_proto.Transport.Frames.{joined, HasData, read_bytes-Reads, append-nil}

u32_value-u32_bytes :
    (v : ℕ) (later : List ℕ) → v < 2 ^ 32 → u32_value (take 4 (u32_bytes v ++ later)) ≡ v
u32_value-u32_bytes v later h = omega arith

-- A number arrives as it was sent.
pub record ReadsU32 (v : ℕ) (later : List ℕ) (incoming : Incoming) : Type 0 where
  pub after : Incoming
  pub read : read_u32 incoming ≡ ok (v, after)
  pub rest : joined after ≡ later
  pub has_data : HasData after

read_u32-ReadsU32 :
    (v : ℕ) (later : List ℕ) (incoming : Incoming)
    → v < 2 ^ 32
    → HasData incoming
    → joined incoming ≡ u32_bytes v ++ later
    → ReadsU32 v later incoming
unfolding read_u32
read_u32-ReadsU32 v later incoming small d arrived =
    let reads =
      read_bytes-Reads 4 4 incoming d (omega (arith, ap (λ xs. length xs) arrived)) (omega arith) in
    record {
      after = reads.after;
      read = rw reads.read (
          ap (λ (n : ℕ). ok (n, reads.after))
            (ap (λ xs. u32_value (take 4 xs)) arrived ∙ u32_value-u32_bytes v later small));
      rest = reads.rest ∙ ap (λ xs. drop 4 xs) arrived;
      has_data = reads.has_data;
    }

abbrev pub frame_bytes : ℕ → List ℕ → List ℕ
frame_bytes type payload = u32_bytes type ++ u32_bytes (length payload) ++ payload

take-exact : (xs ys : List ℕ) → take (length xs) (xs ++ ys) ≡ xs
take-exact [] ys = refl
take-exact (x ∷ xs) ys = ap (λ zs. x ∷ zs) (take-exact xs ys)

drop-exact : (xs ys : List ℕ) → drop (length xs) (xs ++ ys) ≡ ys
drop-exact [] ys = refl
drop-exact (x ∷ xs) ys = drop-exact xs ys

-- The bytes of a frame, followed by any others and cut into chunks in any way, are received as that
-- frame, and the others are left.
pub recv_frame-frame_bytes :
    (type : ℕ) (payload later : List ℕ) (incoming : Incoming)
    → type < 2 ^ 32
    → length payload < 2 ^ 32
    → HasData incoming
    → joined incoming ≡ u32_bytes type ++ (u32_bytes (length payload) ++ (payload ++ later))
    → (after : Incoming) × (recv_frame incoming ≡ ok ((type, payload), after))
      × (joined after ≡ later)
      × HasData after
unfolding recv_frame
recv_frame-frame_bytes type payload later incoming small short d arrived =
    let typed =
      read_u32-ReadsU32 type (u32_bytes (length payload) ++ (payload ++ later)) incoming small d
        arrived in
    let sized =
      read_u32-ReadsU32 (length payload) (payload ++ later) typed.after short typed.has_data
        typed.rest in
    let body =
      read_bytes-Reads (length payload) (length payload) sized.after sized.has_data
        (omega (arith, ap (λ xs. length xs) sized.rest, length-append payload later))
        (omega arith) in
    let exact = ap (take (length payload)) sized.rest ∙ take-exact payload later in
    (
      body.after,
      rw typed.read
          (rw sized.read (rw body.read (ap (λ (p : List ℕ). ok ((type, p), body.after)) exact))),
      body.rest ∙ ap (drop (length payload)) sized.rest ∙ drop-exact payload later,
      body.has_data,
    )

-- Every call of `write` takes a byte or more.
abbrev pub IsWilling : List ℕ → Type 0
IsWilling accepted = All (λ n. 0 < n) accepted

take-drop : (n : ℕ) (xs : List ℕ) → take n xs ++ drop n xs ≡ xs
take-drop zero xs = refl
take-drop (suc n) [] = refl
take-drop (suc n) (x ∷ xs) = ap (λ zs. x ∷ zs) (take-drop n xs)

length-drop_le : (n : ℕ) (xs : List ℕ) → length (drop n xs) ≤ length xs
length-drop_le zero xs = omega arith
length-drop_le (suc n) [] = omega arith
length-drop_le (suc n) (x ∷ xs) = omega (arith, length-drop_le n xs)

-- The loop sends the data, whole and in order, with at most one call for each byte.
pub record Writes (accepted sent data_ : List ℕ) : Type 0 where
  pub left : List ℕ
  pub written :
      write_all accepted sent data_ ≡ ok (record { accepted = left; sent = sent ++ data_ })
  pub willing : IsWilling left
  pub enough : length accepted ≤ length left + length data_

pub write_all-Writes :
    (accepted sent data_ : List ℕ)
    → IsWilling accepted
    → length data_ ≤ length accepted
    → Writes accepted sent data_
unfolding write_all
write_all-Writes accepted sent [] w h = record {
  left = accepted;
  written = ap (λ xs. ok (record { accepted = accepted; sent = xs })) (sym (append-nil sent));
  willing = w;
  enough = omega arith;
}
write_all-Writes [] sent (b ∷ bs) w h = absurd (omega arith)
write_all-Writes (zero ∷ calls) sent (b ∷ bs) w h = absurd (omega (arith, w.0))
write_all-Writes (suc n ∷ calls) sent (b ∷ bs) w h =
    let shorter = length-drop n bs in
    let next =
      write_all-Writes calls (sent ++ b ∷ take n bs) (drop n bs) w.1
        (omega (arith, h, shorter, length-drop_le n bs)) in
    record {
      left = next.left;
      written =
          next.written
          ∙ ap (λ xs. ok (record { accepted = next.left; sent = xs }))
              (append_assoc sent (b ∷ take n bs) (drop n bs)
                ∙ ap (λ xs. sent ++ b ∷ xs) (take-drop n bs));
      willing = next.willing;
      enough = omega (arith, next.enough, length-drop_le n bs);
    }

-- Over calls of `write` that each take a byte or more, as many as the frame has bytes, `sendFrame`
-- sends a frame with a 32-bit type and length; and those bytes, followed by any others and cut into
-- chunks in any way, are received as that type and payload, and the others are left.
pub recv_frame-send_frame :
    (type : ℕ) (payload later accepted : List ℕ) (incoming : Incoming)
    → type < 2 ^ 32
    → length payload < 2 ^ 32
    → IsWilling accepted
    → 8 + length payload ≤ length accepted
    → HasData incoming
    → joined incoming ≡ frame_bytes type payload ++ later
    → (out : Outgoing) × (send_frame type payload (record { accepted = accepted; sent = [] })
        ≡ ok out)
      × (out.sent ≡ frame_bytes type payload)
      × (after : Incoming) × (recv_frame incoming ≡ ok ((type, payload), after))
      × (joined after ≡ later)
unfolding send_frame
recv_frame-send_frame type payload later accepted incoming small short w enough d arrived =
    let typed = write_all-Writes accepted [] (u32_bytes type) w (omega arith) in
    let sized =
      write_all-Writes typed.left (u32_bytes type) (u32_bytes (length payload)) typed.willing
        (omega (arith, typed.enough)) in
    let body =
      write_all-Writes sized.left (u32_bytes type ++ u32_bytes (length payload)) payload
        sized.willing (omega (arith, typed.enough, sized.enough)) in
    let (after, received, rest, _) =
      recv_frame-frame_bytes type payload later incoming small short d arrived in
    (
      record { accepted = body.left; sent = frame_bytes type payload },
      rw typed.written (rw (mod-eq_of_lt short) (rw sized.written body.written)),
      refl,
      after,
      received,
      rest,
    )
