-- ===== src/Transport/Protocol/Session.antt =====
-- A query over a connection gives the client what the handler gives the server.
use hega_proto.Base.{
  ℕ, ◌+◌, ◌^◌, ◌≤◌, ◌<◌, ◌≡◌, ◌≢◌, refl, sym, ap, ◌∙◌, true, false, List, [], ◌∷◌, ◌++◌,
  append_assoc, append-nil, All, arith, length, length-append,
}
use native.Mathlib.Nat.{mod-eq_of_lt}
use hega_proto.Base.Outcome.{
  Result, ok, err, parse_error, semantic_error, validation_error, runtime_error, exhausted, ◌>>=◌,
}
use hega_proto.Query.{QueryPackage}
use hega_proto.Decoder.{EncryptedResultBatch}
use hega_proto.Serialization.{Archive, serialize_package, serialize_batch}
use hega_proto.Serialization.RoundTrip.{
  ArchiveLaws, IsPackage, IsBatch, deserialize_package-serialize_package,
  deserialize_batch-serialize_batch, sound_struct, sound_pair, sound_bool, sound_text, sound_u32,
}
use hega_proto.Transport.{Incoming, Outgoing, u32_bytes, send_frame}
use hega_proto.Transport.Frames.{joined, HasData}
use hega_proto.Transport.RoundTrip.{
  frame_bytes, recv_frame-frame_bytes, IsWilling, write_all-Writes,
}
use hega_proto.Transport.Protocol.{
  query_request, query_response, result_batch, error, QueryResponse, what, QueryHandler,
  response_fields, response_struct, response_format, send_batches, answer, handle_client,
  recv_batches, send_request, recv_response, send_query,
}

-- What is sent goes out whole, behind what has been sent.
pub record Sends (out : Outgoing) (bytes : List ℕ) (m : Result Outgoing) : Type 0 where
  pub next : Outgoing
  pub done : m ≡ ok next
  pub sent : next.sent ≡ out.sent ++ bytes
  pub willing : IsWilling next.accepted
  pub enough : length out.accepted ≤ length next.accepted + length bytes

three : (a b c d : List ℕ) → a ++ b ++ c ++ d ≡ a ++ (b ++ c ++ d)
three a b c d = rw (append_assoc (a ++ b) c d, append_assoc a b (c ++ d), append_assoc b c d) refl

pub send_frame-Sends :
    (type : ℕ) (payload : List ℕ) (out : Outgoing)
    → length payload < 2 ^ 32
    → IsWilling out.accepted
    → 8 + length payload ≤ length out.accepted
    → Sends out (frame_bytes type payload) (send_frame type payload out)
unfolding send_frame
send_frame-Sends type payload out short w room =
    let typed = write_all-Writes out.accepted out.sent (u32_bytes type) w (omega arith) in
    let sized =
      write_all-Writes typed.left (out.sent ++ u32_bytes type) (u32_bytes (length payload))
        typed.willing (omega (arith, typed.enough)) in
    let body =
      write_all-Writes sized.left (out.sent ++ u32_bytes type ++ u32_bytes (length payload)) payload
        sized.willing (omega (arith, typed.enough, sized.enough)) in
    record {
      next = record {
        accepted = body.left;
        sent = out.sent ++ u32_bytes type ++ u32_bytes (length payload) ++ payload;
      };
      done = rw typed.written (rw (mod-eq_of_lt short) (rw sized.written body.written));
      sent = three out.sent (u32_bytes type) (u32_bytes (length payload)) payload;
      willing = body.willing;
      enough = omega (arith, typed.enough, sized.enough, body.enough);
    }

-- One thing is sent after another.
Sends-bind :
    (out : Outgoing) (first second : List ℕ) (m : Result Outgoing) (k : Outgoing → Result Outgoing)
    → Sends out first m
    → ((next : Outgoing)
        → IsWilling next.accepted
        → length out.accepted ≤ length next.accepted + length first
        → Sends next second (k next))
    → Sends out (first ++ second) (m >>= k)
Sends-bind out first second m k h g =
    let then_ = g h.next h.willing h.enough in
    record {
      next = then_.next;
      done = rw h.done then_.done;
      sent = then_.sent ∙ ap (λ xs. xs ++ second) h.sent ∙ append_assoc out.sent first second;
      willing = then_.willing;
      enough = omega (arith, h.enough, then_.enough, length-append first second);
    }

module _ (a : Archive) where
  abbrev pub batches_bytes : List EncryptedResultBatch → List ℕ
  batches_bytes [] = []
  batches_bytes (b ∷ bs) = frame_bytes result_batch (serialize_batch a b) ++ batches_bytes bs

  -- a batch that a frame can carry
  abbrev pub Fits : EncryptedResultBatch → Type 0
  Fits b = IsBatch b × (length (serialize_batch a b) < 2 ^ 32)

  send_batches-Sends :
      (bs : List EncryptedResultBatch) (out : Outgoing)
      → All Fits bs
      → IsWilling out.accepted
      → length (batches_bytes bs) ≤ length out.accepted
      → Sends out (batches_bytes bs) (send_batches a bs out)
  unfolding send_batches
  send_batches-Sends [] out h w room = record {
    next = out;
    done = refl;
    sent = sym (append-nil out.sent);
    willing = w;
    enough = omega arith;
  }
  send_batches-Sends (b ∷ bs) out ((is, short), others) w room =
      let total =
        length-append (frame_bytes result_batch (serialize_batch a b)) (batches_bytes bs) in
      Sends-bind out (frame_bytes result_batch (serialize_batch a b)) (batches_bytes bs) _
        (send_batches a bs)
        (send_frame-Sends result_batch (serialize_batch a b) out short w (omega arith))
        λ next willing enough. send_batches-Sends bs next others willing (omega arith)

  recv_batches-batches_bytes :
      ArchiveLaws a
      → (bs : List EncryptedResultBatch) (incoming : Incoming) (later : List ℕ) → All Fits bs
      → HasData incoming
      → joined incoming ≡ batches_bytes bs ++ later
      → recv_batches a (length bs) incoming ≡ ok bs
  unfolding recv_batches
  recv_batches-batches_bytes laws [] incoming later h d arrived = refl
  recv_batches-batches_bytes laws (b ∷ bs) incoming later ((is, short), others) d arrived =
      let payload = serialize_batch a b in
      let (after, received, rest, d') =
        recv_frame-frame_bytes result_batch payload (batches_bytes bs ++ later) incoming
          (omega arith) short d
          (arrived ∙ append_assoc (frame_bytes result_batch payload) (batches_bytes bs) later) in
      rw
        (
          received,
          deserialize_batch-serialize_batch a laws b is,
          recv_batches-batches_bytes laws bs after later others d' rest,
        )
        refl

  -- the response that the client is to get, for what the handler gives
  abbrev pub response_of :
      QueryPackage → Result (List EncryptedResultBatch) → QueryResponse × List EncryptedResultBatch
  response_of p (ok bs) = (
    record { success = true; error_message = []; batch_count = length bs; query_id = p.query_id },
    bs,
  )
  response_of p (err e) = (
    record { success = false; error_message = what e; batch_count = 0; query_id = p.query_id },
    [],
  )

  -- the bytes of an answer
  abbrev pub answer_bytes : QueryPackage → Result (List EncryptedResultBatch) → List ℕ
  answer_bytes p (ok bs) =
      frame_bytes query_response ((response_format a).put (response_of p (ok bs)).0)
      ++ batches_bytes bs
  answer_bytes p (err e) = frame_bytes error (what e)

  -- an answer that frames can carry
  abbrev pub IsAnswer : QueryPackage → Result (List EncryptedResultBatch) → Type 0
  IsAnswer p (ok bs) =
      All Fits bs
      × ((length bs < 2 ^ 32)
          × (length ((response_format a).put (response_of p (ok bs)).0) < 2 ^ 32))
  IsAnswer p (err e) = (e ≢ exhausted) × (length (what e) < 2 ^ 32)

  answer-Sends :
      (p : QueryPackage) (r : Result (List EncryptedResultBatch)) (out : Outgoing)
      → IsAnswer p r
      → IsWilling out.accepted
      → length (answer_bytes p r) ≤ length out.accepted
      → Sends out (answer_bytes p r) (answer a p r out)
  unfolding answer
  answer-Sends p (ok bs) out (fits, (few, short)) w room =
      let header = (response_format a).put (response_of p (ok bs)).0 in
      let total = length-append (frame_bytes query_response header) (batches_bytes bs) in
      rw (mod-eq_of_lt few) (
        Sends-bind out (frame_bytes query_response header) (batches_bytes bs) _ (send_batches a bs)
          (send_frame-Sends query_response header out short w (omega arith))
          λ next willing enough. send_batches-Sends bs next fits willing (omega arith))
  answer-Sends p (err exhausted) out (h, short) w room = absurd (h refl)
  answer-Sends p (err (parse_error m)) out (h, short) w room =
      send_frame-Sends error m out short w (omega arith)
  answer-Sends p (err (semantic_error m)) out (h, short) w room =
      send_frame-Sends error m out short w (omega arith)
  answer-Sends p (err (validation_error m)) out (h, short) w room =
      send_frame-Sends error m out short w (omega arith)
  answer-Sends p (err (runtime_error m)) out (h, short) w room =
      send_frame-Sends error m out short w (omega arith)

  response-read :
      ArchiveLaws a
      → (p : QueryPackage) (bs : List EncryptedResultBatch) → IsPackage p
      → length bs < 2 ^ 32
      → (response_format a).get ((response_format a).put (response_of p (ok bs)).0)
        ≡ ok ((response_of p (ok bs)).0, [])
  response-read laws p bs is few =
      let header = (response_format a).put (response_of p (ok bs)).0 in
      ap (response_format a).get (sym (append-nil header))
      ∙ (sound_struct response_fields response_struct (λ x. refl)
            (sound_pair (sound_bool a laws) (
              sound_pair (sound_text a laws)
                (sound_pair (sound_u32 a laws) (sound_text a laws))))).law
          (response_of p (ok bs)).0 [] (tt, ((tt, omega arith), (few, is.0)))

  recv_response-answer_bytes :
      ArchiveLaws a
      → (p : QueryPackage) (r : Result (List EncryptedResultBatch)) (incoming : Incoming)
      → IsPackage p
      → IsAnswer p r
      → HasData incoming
      → joined incoming ≡ answer_bytes p r
      → recv_response a p incoming ≡ ok (response_of p r)
  unfolding recv_response
  recv_response-answer_bytes laws p (err e) incoming is (h, short) d arrived =
      let (after, received, rest, d') =
        recv_frame-frame_bytes error (what e) [] incoming (omega arith) short d
          (arrived ∙ sym (append-nil (frame_bytes error (what e)))) in
      rw received refl
  recv_response-answer_bytes laws p (ok bs) incoming is (fits, (few, short)) d arrived =
      let header = (response_format a).put (response_of p (ok bs)).0 in
      let (after, received, rest, d') =
        recv_frame-frame_bytes query_response header (batches_bytes bs) incoming (omega arith) short
          d arrived in
      rw
        (
          received,
          response-read laws p bs is few,
          recv_batches-batches_bytes laws bs after [] fits d'
              (rest ∙ sym (append-nil (batches_bytes bs))),
        )
        refl

  handle_client-answer :
      ArchiveLaws a
      → (handler : QueryHandler) (p : QueryPackage) (incoming : Incoming) (out : Outgoing)
      → IsPackage p
      → length (serialize_package a p) < 2 ^ 32
      → HasData incoming
      → joined incoming ≡ frame_bytes query_request (serialize_package a p)
      → handle_client a handler incoming out ≡ answer a p (handler p) out
  unfolding handle_client
  handle_client-answer laws handler p incoming out is short d arrived =
      let payload = serialize_package a p in
      let (after, received, rest, d') =
        recv_frame-frame_bytes query_request payload [] incoming (omega arith) short d
          (arrived ∙ sym (append-nil (frame_bytes query_request payload))) in
      rw (received, deserialize_package-serialize_package a laws p is) refl

-- Over archives that read what they write, and calls of `write` that each take a byte or more: the
-- request is sent; if its bytes arrive at the server, in any chunks, the server answers; and if the
-- bytes of the answer arrive at the client, in any chunks, `sendQuery` returns the batches that the
-- handler returned for the package, with their number and the package's id, or, where the handler
-- threw, no success and the message of its exception. The fields of package and batches fit their
-- types, and each frame 32 bits.
pub send_query-handle_client :
    (a : Archive)
    → ArchiveLaws a
    → (handler : QueryHandler) (p : QueryPackage) (client server : List ℕ)
      (to_server to_client : Incoming)
    → IsPackage p
    → length (serialize_package a p) < 2 ^ 32
    → IsAnswer a p (handler p)
    → IsWilling client
    → 8 + length (serialize_package a p) ≤ length client
    → IsWilling server
    → length (answer_bytes a p (handler p)) ≤ length server
    → HasData to_server
    → HasData to_client
    → ((sent : Outgoing)
        → send_request a p (record { accepted = client; sent = [] }) ≡ ok sent
        → joined to_server ≡ sent.sent)
    → ((sent : Outgoing)
        → handle_client a handler to_server (record { accepted = server; sent = [] }) ≡ ok sent
        → joined to_client ≡ sent.sent)
    → send_query a p (record { accepted = client; sent = [] }) to_client
      ≡ ok (response_of a p (handler p))
unfolding send_query send_request
send_query-handle_client a laws handler p client server to_server to_client is short answered
      willing room willing' room' d d' wire wire' =
    let request =
      send_frame-Sends query_request (serialize_package a p)
        (record { accepted = client; sent = [] }) short willing room in
    let arrived = wire request.next request.done ∙ request.sent in
    let handled =
      handle_client-answer a laws handler p to_server (record { accepted = server; sent = [] }) is
        short d arrived in
    let reply =
      answer-Sends a p (handler p) (record { accepted = server; sent = [] }) answered willing'
        room' in
    let arrived' = wire' reply.next (handled ∙ reply.done) ∙ reply.sent in
    rw request.done
      (recv_response-answer_bytes a laws p (handler p) to_client is answered d' arrived')
