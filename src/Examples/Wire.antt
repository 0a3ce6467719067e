-- ===== src/Examples/Wire.antt =====
-- An archive that writes numbers as they are and lists behind their length, and a query over it.
use hega_proto.Base.{
  ℕ, zero, suc, ◌≡◌, refl, ap, Bool, true, false, List, [], ◌∷◌, ◌++◌, append_assoc, All, arith,
  length, replicate, get_elem?, none, some,
}
use hega_proto.Base.Int.{ℤ, pos, negsuc}
use hega_proto.Base.Outcome.{Result, ok, ok_inj, err, runtime_error, ◌>>=◌}
use hega_proto.Catalog.{DataType, int64, bool, string}
use hega_proto.Query.{
  default_package, PredNodeKind, column_ref, literal_ref, equal, not_equal, greater_than, less_than,
  greater_equal, less_equal, and_, or_, not_, string_equal, string_not_equal,
}
use hega_proto.Decoder.{EncryptedResultBatch}
use hega_proto.Serialization.{
  Format, Archive, serialize_package, deserialize_package, serialize_batch, deserialize_batch,
}
use hega_proto.Transport.{Outgoing}
use hega_proto.Transport.Frames.{joined}
use hega_proto.Transport.RoundTrip.{frame_bytes, IsWilling}
use hega_proto.Transport.Protocol.{
  query_request, QueryHandler, send_query, send_request, handle_client,
}
use hega_proto.Transport.Protocol.Session.{answer_bytes, send_query-handle_client}
use hega_proto.Serialization.RoundTrip.{
  RoundTrips, ArchiveLaws, IsPackage, IsBatch, deserialize_package-serialize_package,
  deserialize_batch-serialize_batch,
}

abbrev put_many : {A : Type 0} → Format A → List A → List ℕ
put_many f [] = []
put_many f (x ∷ xs) = f.put x ++ put_many f xs

abbrev get_many : {A : Type 0} → Format A → ℕ → List ℕ → Result (List A × List ℕ)
get_many f zero s = ok ([], s)
get_many f (suc n) s = do (x, r) ← f.get s; (xs, t) ← get_many f n r; ok (x ∷ xs, t)

abbrev get_number : List ℕ → Result (ℕ × List ℕ)
get_number [] = err (runtime_error [])
get_number (n ∷ r) = ok (n, r)

abbrev number : Format ℕ
number = record { put = λ n. n ∷ []; get = get_number }

abbrev vector_of : {A : Type 0} → Format A → Format (List A)
vector_of f = record {
  put = λ xs. length xs ∷ put_many f xs;
  get = λ s. (do (n, r) ← get_number s; get_many f n r);
}

abbrev number_of_kind : PredNodeKind → ℕ
number_of_kind column_ref = 0
number_of_kind literal_ref = 1
number_of_kind equal = 2
number_of_kind not_equal = 3
number_of_kind greater_than = 4
number_of_kind less_than = 5
number_of_kind greater_equal = 6
number_of_kind less_equal = 7
number_of_kind and_ = 8
number_of_kind or_ = 9
number_of_kind not_ = 10
number_of_kind string_equal = 11
number_of_kind string_not_equal = 12

abbrev kinds : List PredNodeKind
kinds =
    column_ref ∷ literal_ref ∷ equal ∷ not_equal ∷ greater_than ∷ less_than ∷ greater_equal
    ∷ less_equal ∷ and_ ∷ or_ ∷ not_ ∷ string_equal ∷ string_not_equal ∷ []

abbrev kind_of_number : ℕ → PredNodeKind
kind_of_number n = elim (get_elem? kinds n) [ none ↦ column_ref | some k ↦ k ]

abbrev number_of_type : DataType → ℕ
number_of_type int64 = 0
number_of_type bool = 1
number_of_type string = 2

abbrev type_of_number : ℕ → DataType
type_of_number zero = int64
type_of_number (suc zero) = bool
type_of_number _ = string

abbrev number_of_bool : Bool → ℕ
number_of_bool true = 1
number_of_bool false = 0

abbrev bool_of_number : ℕ → Bool
bool_of_number zero = false
bool_of_number _ = true

abbrev put_int : ℤ → List ℕ
put_int (pos n) = 0 ∷ n ∷ []
put_int (negsuc n) = 1 ∷ n ∷ []

abbrev get_int : List ℕ → Result (ℤ × List ℕ)
get_int (zero ∷ n ∷ r) = ok (pos n, r)
get_int (suc zero ∷ n ∷ r) = ok (negsuc n, r)
get_int _ = err (runtime_error [])

-- values that have numbers
abbrev numbered : {A : Type 0} → (A → ℕ) → (ℕ → A) → Format A
numbered to from = record {
  put = λ x. to x ∷ [];
  get = λ s. (do (n, r) ← get_number s; ok (from n, r));
}

abbrev pub toy_archive : Archive
toy_archive = record {
  bool = numbered number_of_bool bool_of_number;
  u32 = number;
  u64 = number;
  i64 = record { put = put_int; get = get_int };
  text = vector_of number;
  bytes = vector_of number;
  data_type = numbered number_of_type type_of_number;
  node_kind = numbered number_of_kind kind_of_number;
  vector = vector_of;
}

get_many-put_many :
    {A : Type 0} (P : A → Type 0) (f : Format A) (xs : List A) (rest : List ℕ)
    → RoundTrips P f
    → All P xs
    → get_many f (length xs) (put_many f xs ++ rest) ≡ ok (xs, rest)
get_many-put_many P f [] rest h k = refl
get_many-put_many P f (x ∷ xs) rest h (first, others) =
    rw
      (
        append_assoc (f.put x) (put_many f xs) rest,
        h x (put_many f xs ++ rest) first,
        get_many-put_many P f xs rest h others,
      )
      refl

type_of_number-number_of_type : (t : DataType) → type_of_number (number_of_type t) ≡ t
type_of_number-number_of_type int64 = refl
type_of_number-number_of_type bool = refl
type_of_number-number_of_type string = refl

bool_of_number-number_of_bool : (b : Bool) → bool_of_number (number_of_bool b) ≡ b
bool_of_number-number_of_bool true = refl
bool_of_number-number_of_bool false = refl

kind_of_number-number_of_kind : (k : PredNodeKind) → kind_of_number (number_of_kind k) ≡ k
kind_of_number-number_of_kind column_ref = refl
kind_of_number-number_of_kind literal_ref = refl
kind_of_number-number_of_kind equal = refl
kind_of_number-number_of_kind not_equal = refl
kind_of_number-number_of_kind greater_than = refl
kind_of_number-number_of_kind less_than = refl
kind_of_number-number_of_kind greater_equal = refl
kind_of_number-number_of_kind less_equal = refl
kind_of_number-number_of_kind and_ = refl
kind_of_number-number_of_kind or_ = refl
kind_of_number-number_of_kind not_ = refl
kind_of_number-number_of_kind string_equal = refl
kind_of_number-number_of_kind string_not_equal = refl

get_int-put_int : (v : ℤ) (rest : List ℕ) → get_int (put_int v ++ rest) ≡ ok (v, rest)
get_int-put_int (pos n) rest = refl
get_int-put_int (negsuc n) rest = refl

pub toy_archive_laws : ArchiveLaws toy_archive
toy_archive_laws = record {
  bool_law = λ b rest h. ap (λ (x : Bool). ok (x, rest)) (bool_of_number-number_of_bool b);
  u32_law = λ n rest h. refl;
  u64_law = λ n rest h. refl;
  i64_law = λ v rest h. get_int-put_int v rest;
  text_law = λ s rest h. get_many-put_many _ number s rest (λ n r k. refl) h.0;
  bytes_law = λ s rest h. get_many-put_many _ number s rest (λ n r k. refl) h.0;
  data_type_law = λ t rest h. ap (λ (x : DataType). ok (x, rest)) (type_of_number-number_of_type t);
  node_kind_law =
      λ k rest h. ap (λ (x : PredNodeKind). ok (x, rest)) (kind_of_number-number_of_kind k);
  vector_law = λ P f law xs rest h. get_many-put_many P f xs rest law h.0;
}

-- A batch of one row with two bytes for its mask, and the package with the defaults.
abbrev sent_batch : EncryptedResultBatch
sent_batch = record {
  batch_id = 0;
  logical_row_count = pos 1;
  columns =
      record {
        column_name = b'a' ∷ [];
        logical_type = [];
        string_position = 0;
        ciphertext_bytes = 7 ∷ [];
        logical_size = 1;
      }
      ∷ [];
  selection_mask_bytes = 5 ∷ 6 ∷ [];
  has_mask = true;
}

default_package-IsPackage : IsPackage default_package
default_package-IsPackage = (
  (tt, omega arith),
  (
    omega arith,
    (
      omega arith,
      (
        (tt, omega arith),
        (
          (tt, omega arith),
          (
            (tt, omega arith),
            (
              (tt, omega arith),
              (
                (tt, omega arith),
                (
                  (tt, omega arith),
                  (
                    tt,
                    (
                      (tt, omega arith),
                      (
                        (tt, omega arith),
                        (
                          (tt, omega arith),
                          (
                            (tt, omega arith),
                            (
                              (tt, omega arith),
                              (
                                (
                                  (tt, omega arith),
                                  (
                                    omega arith,
                                    (omega arith, (omega arith, (omega arith, (tt, omega arith)))),
                                  ),
                                ),
                                (omega arith, omega arith),
                              ),
                            ),
                          ),
                        ),
                      ),
                    ),
                  ),
                ),
              ),
            ),
          ),
        ),
      ),
    ),
  ),
)

sent_batch-IsBatch : IsBatch sent_batch
sent_batch-IsBatch = (
  omega arith,
  (
    omega arith,
    (
      (
        (
          (
            ((omega arith, tt), omega arith),
            ((tt, omega arith), (omega arith, (((omega arith, tt), omega arith), omega arith))),
          ),
          tt,
        ),
        omega arith,
      ),
      (((omega arith, (omega arith, tt)), omega arith), tt),
    ),
  ),
)

deserialize_package-serialize_package_example :
    deserialize_package toy_archive (serialize_package toy_archive default_package)
    ≡ ok default_package
deserialize_package-serialize_package_example =
    deserialize_package-serialize_package toy_archive toy_archive_laws default_package
      default_package-IsPackage

deserialize_batch-serialize_batch_example :
    deserialize_batch toy_archive (serialize_batch toy_archive sent_batch) ≡ ok sent_batch
deserialize_batch-serialize_batch_example =
    deserialize_batch-serialize_batch toy_archive toy_archive_laws sent_batch sent_batch-IsBatch

-- the bytes of the request and of the answer
abbrev request : List ℕ
request = frame_bytes query_request (serialize_package toy_archive default_package)

abbrev handler : QueryHandler
handler p = ok (sent_batch ∷ [])

abbrev calls : List ℕ
calls = replicate 40 1

replicate-IsWilling : (n : ℕ) → IsWilling (replicate n 1)
replicate-IsWilling zero = tt
replicate-IsWilling (suc n) = (omega arith, replicate-IsWilling n)

request_sent :
    (sent : Outgoing)
    → send_request toy_archive default_package (record { accepted = calls; sent = [] }) ≡ ok sent
    → joined (request ∷ []) ≡ sent.sent
unfolding send_request serialize_package joined
request_sent sent e = ap (λ (o : Outgoing). o.sent) (ok_inj e)

answer_sent :
    (sent : Outgoing)
    → handle_client toy_archive handler (request ∷ []) (record { accepted = calls; sent = [] })
      ≡ ok sent
    → joined (answer_bytes toy_archive default_package (handler default_package) ∷ []) ≡ sent.sent
unfolding handle_client serialize_package serialize_batch joined
answer_sent sent e = ap (λ (o : Outgoing). o.sent) (ok_inj e)

send_query-handle_client_example :
    send_query toy_archive default_package
      (record { accepted = calls; sent = [] })
      (answer_bytes toy_archive default_package (handler default_package) ∷ [])
    ≡ ok (
      record { success = true; error_message = []; batch_count = 1; query_id = [] },
      sent_batch ∷ [],
    )
unfolding serialize_package serialize_batch
send_query-handle_client_example =
    send_query-handle_client toy_archive toy_archive_laws handler default_package calls calls
      (request ∷ []) (answer_bytes toy_archive default_package (handler default_package) ∷ [])
      default_package-IsPackage (omega arith)
      (((sent_batch-IsBatch, (omega arith)), tt), ((omega arith), (omega arith)))
      (replicate-IsWilling 40) (omega arith) (replicate-IsWilling 40) (omega arith)
      (omega arith, tt) (omega arith, tt) request_sent answer_sent
