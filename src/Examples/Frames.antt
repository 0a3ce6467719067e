-- ===== src/Examples/Frames.antt =====
-- A frame of type 1 with two bytes, sent in two calls and more, and received in three chunks.
use hega_proto.Base.{ℕ, ◌≡◌, refl, [], ◌∷◌, ◌++◌, List, arith}
use hega_proto.Base.Outcome.{ok}
use hega_proto.Transport.{Incoming, Outgoing, send_frame, recv_frame}
use hega_proto.Transport.Frames.{joined}
use hega_proto.Transport.RoundTrip.{frame_bytes, recv_frame-send_frame}

abbrev calls : List ℕ
calls = 3 ∷ 1 ∷ 1 ∷ 4 ∷ 1 ∷ 1 ∷ 2 ∷ 1 ∷ 1 ∷ 1 ∷ []

abbrev chunks : Incoming
chunks = (0 ∷ 0 ∷ 0 ∷ 1 ∷ 0 ∷ []) ∷ (0 ∷ 0 ∷ []) ∷ (2 ∷ 65 ∷ 66 ∷ 9 ∷ []) ∷ []

joined-chunks : joined chunks ≡ frame_bytes 1 (65 ∷ 66 ∷ []) ++ 9 ∷ []
unfolding joined
joined-chunks = refl

recv_frame-send_frame_example :
    (out : Outgoing) × (send_frame 1 (65 ∷ 66 ∷ []) (record { accepted = calls; sent = [] })
      ≡ ok out)
    × (out.sent ≡ frame_bytes 1 (65 ∷ 66 ∷ []))
    × (after : Incoming) × (recv_frame chunks ≡ ok ((1, 65 ∷ 66 ∷ []), after))
    × (joined after ≡ 9 ∷ [])
recv_frame-send_frame_example =
    recv_frame-send_frame 1 (65 ∷ 66 ∷ []) (9 ∷ []) calls chunks (omega arith) (omega arith)
      (
        omega arith,
        (
          omega arith,
          (
            omega arith,
            (
              omega arith,
              (
                omega arith,
                (omega arith, (omega arith, (omega arith, (omega arith, (omega arith, tt))))),
              ),
            ),
          ),
        ),
      )
      (omega arith) (omega arith, (omega arith, (omega arith, tt))) joined-chunks
