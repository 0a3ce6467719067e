-- ===== src/Transport/Protocol.antt =====
-- transport/transport.cpp and include/proto2/transport.h: one query over one connection, on both
-- sides. A connection is what it will deliver, `Incoming`, and what has been sent on it, `Outgoing`;
-- closing it changes neither.
pub mod Session
use hega_proto.Base.{
  ℕ, zero, suc, ◌%◌, ◌^◌, Bool, true, false, not, List, [], ◌∷◌, ◌++◌, Str, codes, length, ◌==◌,
  if◌then◌else◌,
}
use hega_proto.Base.Outcome.{
  Result, ok, err, Error, parse_error, semantic_error, validation_error, runtime_error, exhausted,
  ◌>>=◌, ◌>>◌, guard,
}
use hega_proto.Query.{QueryPackage, to_u32}
use hega_proto.Decoder.{EncryptedResultBatch}
use hega_proto.Serialization.{
  Format, Archive, then_format, fields_format, serialize_package, deserialize_package,
  serialize_batch, deserialize_batch,
}
use hega_proto.Transport.{Incoming, Outgoing, send_frame, recv_frame}

-- `enum class MsgType : uint32_t`
abbrev pub query_request : ℕ
query_request = 1

abbrev pub query_response : ℕ
query_response = 2

abbrev pub result_batch : ℕ
result_batch = 3

abbrev pub error : ℕ
error = 4

pub record QueryResponse : Type 0 where
  pub success : Bool
  pub error_message : Str
  pub batch_count : ℕ
  pub query_id : Str

-- `e.what()`
abbrev pub what : Error → Str
what (parse_error m) = m
what (semantic_error m) = m
what (validation_error m) = m
what (runtime_error m) = m
what exhausted = []

abbrev pub QueryHandler : Type 0
QueryHandler = QueryPackage → Result (List EncryptedResultBatch)

abbrev pub response_fields : QueryResponse → Bool × (Str × (ℕ × Str))
response_fields r = (r.success, (r.error_message, (r.batch_count, r.query_id)))

abbrev pub response_struct : Bool × (Str × (ℕ × Str)) → QueryResponse
response_struct (success, (message, (count, id))) = record {
  success = success;
  error_message = message;
  batch_count = count;
  query_id = id;
}

module _ (a : Archive) where
  -- `ar(resp.success, resp.errorMessage, resp.batchCount, resp.queryId)`
  abbrev pub response_format : Format QueryResponse
  response_format =
      fields_format response_fields response_struct
        (then_format a.bool (then_format a.text (then_format a.u32 a.text)))

  -- the loop that streams the batches
  unfoldable pub send_batches : List EncryptedResultBatch → Outgoing → Result Outgoing
  unfolding serialize_batch send_frame
  send_batches [] out = ok out
  send_batches (b ∷ bs) out = do
    next ← send_frame result_batch (serialize_batch a b) out
    send_batches bs next

  -- the answer to a package: the handler's exception, or the header and the batches
  unfoldable pub answer :
      QueryPackage → Result (List EncryptedResultBatch) → Outgoing → Result Outgoing
  unfolding send_batches send_frame
  answer package_ (err exhausted) out = err exhausted
  answer package_ (err e) out = send_frame error (what e) out
  answer package_ (ok batches) out = do
    next ←
        send_frame query_response
          (response_format.put (record {
            success = true;
            error_message = [];
            batch_count = to_u32 (length batches);
            query_id = package_.query_id;
          }))
          out
    send_batches batches next

  -- `TcpServerTransport::handleClient`, up to the `catch` around it. An exception that gets to that
  -- `catch` is printed there, and the connection is closed: it is the result here, without what was
  -- sent before it.
  unfoldable pub handle_client : QueryHandler → Incoming → Outgoing → Result Outgoing
  unfolding recv_frame deserialize_package answer send_frame
  handle_client handler incoming out = do
    ((type, payload), after) ← recv_frame incoming
    let refused = send_frame error (codes "Expected QueryRequest") out
    let accepted = (do
      package_ ← deserialize_package a payload
      answer package_ (handler package_) out)
    if type == query_request then accepted else refused

  -- the loop that receives the batches
  unfoldable pub recv_batches : ℕ → Incoming → Result (List EncryptedResultBatch)
  unfolding recv_frame deserialize_batch
  recv_batches zero incoming = ok []
  recv_batches (suc n) incoming = do
    ((type, payload), after) ← recv_frame incoming
    guard (type == result_batch) (runtime_error (codes "Transport: expected ResultBatch"))
    b ← deserialize_batch a payload
    bs ← recv_batches n after
    ok (b ∷ bs)

  -- `TcpClientTransport::sendQuery` up to the request
  unfoldable pub send_request : QueryPackage → Outgoing → Result Outgoing
  unfolding serialize_package send_frame
  send_request package_ out = send_frame query_request (serialize_package a package_) out

  -- the rest of `sendQuery`: the response, with the batches behind it
  unfoldable pub recv_response :
      QueryPackage → Incoming → Result (QueryResponse × List EncryptedResultBatch)
  unfolding recv_frame recv_batches
  recv_response package_ incoming = do
    ((type, payload), after) ← recv_frame incoming
    let failed : Result (QueryResponse × List EncryptedResultBatch) = ok (
      record {
        success = false;
        error_message = payload;
        batch_count = 0;
        query_id = package_.query_id;
      },
      [],
    )
    let answered : Result (QueryResponse × List EncryptedResultBatch) = (do
      guard (type == query_response) (runtime_error (codes "Transport: expected QueryResponse"))
      (response, rest) ← response_format.get payload
      let received : Result (QueryResponse × List EncryptedResultBatch) = (do
        batches ← recv_batches response.batch_count after
        ok (response, batches))
      if response.success then received else ok (response, []))
    if type == error then failed else answered

  -- `TcpClientTransport::sendQuery` on a connection
  unfoldable pub send_query :
      QueryPackage → Outgoing → Incoming → Result (QueryResponse × List EncryptedResultBatch)
  unfolding send_request recv_response
  send_query package_ out incoming = do
    sent ← send_request package_ out
    recv_response package_ incoming
