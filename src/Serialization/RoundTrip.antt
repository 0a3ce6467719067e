-- ===== src/Serialization/RoundTrip.antt =====
-- A package or batch that is written is read back, over archives that read back what they write.
use hega_proto.Base.{
  ℕ, ◌^◌, ◌<◌, ◌≡◌, refl, sym, ap, ◌∙◌, Bool, List, [], ◌++◌, append_assoc, append-nil, All, length,
  Str,
}
use hega_proto.Base.Int.{ℤ, pos, negsuc}
use hega_proto.Base.Outcome.{Result, ok, ◌>>=◌}
use hega_proto.Catalog.{DataType, ColumnSchema}
use hega_proto.Query.{FheParamsMeta, EncryptedLiteralEntry, PredNodeKind, PredNode, QueryPackage}
use hega_proto.Decoder.{EncryptedColumnResult, EncryptedResultBatch}
use hega_proto.Serialization.{
  Format, Archive, then_format, fields_format, params_fields, params_struct, literal_fields,
  literal_struct, node_fields, node_struct, schema_fields, schema_struct, package_fields,
  package_struct, column_fields, column_struct, batch_fields, batch_struct, package_format,
  batch_format, serialize_package, deserialize_package, serialize_batch, deserialize_batch,
}

-- What is written for a value of the kind, before any other bytes, is read as that value.
abbrev pub RoundTrips : {A : Type 0} → (A → Type 0) → Format A → Type 0
RoundTrips {A = A} P f = (x : A) (rest : List ℕ) → P x → f.get (f.put x ++ rest) ≡ ok (x, rest)

abbrev pub Any : {A : Type 0} → A → Type 0
Any x = Unit

abbrev pub IsU32 : ℕ → Type 0
IsU32 n = n < 2 ^ 32

abbrev pub IsU64 : ℕ → Type 0
IsU64 n = n < 2 ^ 64

abbrev pub IsI64 : ℤ → Type 0
IsI64 (pos n) = n < 2 ^ 63
IsI64 (negsuc n) = n < 2 ^ 63

-- a container with a 64-bit size
abbrev pub IsVector : {A : Type 0} → (A → Type 0) → List A → Type 0
IsVector P xs = All P xs × (length xs < 2 ^ 64)

abbrev pub IsBytes : List ℕ → Type 0
IsBytes s = IsVector (λ c. c < 256) s

-- what cereal documents of its binary archives
pub record ArchiveLaws (a : Archive) : Type 1 where
  pub bool_law : RoundTrips Any a.bool
  pub u32_law : RoundTrips IsU32 a.u32
  pub u64_law : RoundTrips IsU64 a.u64
  pub i64_law : RoundTrips IsI64 a.i64
  pub text_law : RoundTrips IsBytes a.text
  pub bytes_law : RoundTrips IsBytes a.bytes
  pub data_type_law : RoundTrips Any a.data_type
  pub node_kind_law : RoundTrips Any a.node_kind
  pub vector_law :
      {A : Type 0} (P : A → Type 0) (f : Format A)
      → RoundTrips P f
      → RoundTrips (IsVector P) (a.vector f)

-- the fields of each struct fit their types
abbrev pub IsParams : FheParamsMeta → Type 0
IsParams m =
    IsBytes m.param_set_id
    × (IsU64 m.plaintext_modulus
        × (IsU32 m.multiplicative_depth
            × (IsU32 m.ring_dimension × (IsU64 m.slot_count × IsBytes m.key_id))))

abbrev pub IsLiteral : EncryptedLiteralEntry → Type 0
IsLiteral l =
    IsU32 l.id × (IsBytes l.logical_type × (IsBytes l.ciphertext_bytes × IsU64 l.logical_size))

abbrev pub IsNode : PredNode → Type 0
IsNode n =
    Any n.kind
    × (IsBytes n.column_name
        × (IsU32 n.literal_id × (IsU32 n.string_width × (IsU32 n.left × IsU32 n.right))))

abbrev pub IsSchema : ColumnSchema → Type 0
IsSchema c = IsBytes c.name × (Any c.type × IsU64 c.max_length)

abbrev pub IsPackage : QueryPackage → Type 0
IsPackage p =
    IsBytes p.query_id
    × (IsU32 p.protocol_version
        × (IsU32 p.schema_version
            × (IsBytes p.table_name
                × (IsBytes p.table_alias
                    × (IsBytes p.joined_table_name
                        × (IsBytes p.joined_table_alias
                            × (IsBytes p.join_left_column
                                × (IsBytes p.join_right_column
                                    × (Any p.has_join
                                        × (IsVector IsBytes p.scan_columns
                                            × (IsVector IsBytes p.project_columns
                                                × (IsVector IsSchema p.result_schema
                                                    × (IsVector IsNode p.predicate_nodes
                                                        × (IsVector IsLiteral p.encrypted_literals
                                                            × (IsParams p.fhe_params
                                                            × (IsU32 p.shard_id
                                                            × IsU32 p.partition_id))))))))))))))))

abbrev pub IsColumnResult : EncryptedColumnResult → Type 0
IsColumnResult c =
    IsBytes c.column_name
    × (IsBytes c.logical_type
        × (IsU32 c.string_position × (IsBytes c.ciphertext_bytes × IsU64 c.logical_size)))

abbrev pub IsBatch : EncryptedResultBatch → Type 0
IsBatch b =
    IsU32 b.batch_id
    × (IsI64 b.logical_row_count
        × (IsVector IsColumnResult b.columns × (IsBytes b.selection_mask_bytes × Any b.has_mask)))

-- a format, with the values that it is meant for
pub record Sound (A : Type 0) : Type 1 where
  pub Holds : A → Type 0
  pub format : Format A
  pub law : RoundTrips Holds format

abbrev pub sound_pair : {A B : Type 0} → Sound A → Sound B → Sound (A × B)
sound_pair f g = record {
  Holds = λ (x, y). f.Holds x × g.Holds y;
  format = then_format f.format g.format;
  law = λ (x, y) rest (hx, hy).
      rw
        (
          append_assoc (f.format.put x) (g.format.put y) rest,
          f.law x (g.format.put y ++ rest) hx,
          g.law y rest hy,
        )
        refl;
}

abbrev pub sound_struct :
    {A B : Type 0} (fields : A → B) (struct : B → A)
    → ((x : A) → struct (fields x) ≡ x)
    → Sound B
    → Sound A
sound_struct fields struct same f = record {
  Holds = λ x. f.Holds (fields x);
  format = fields_format fields struct f.format;
  law = λ x rest hx. rw (f.law (fields x) rest hx) (ap (λ y. ok (y, rest)) (same x));
}

module _ (a : Archive) (laws : ArchiveLaws a) where
  abbrev sound_vector : {A : Type 0} → Sound A → Sound (List A)
  sound_vector f = record {
    Holds = IsVector f.Holds;
    format = a.vector f.format;
    law = laws.vector_law f.Holds f.format f.law;
  }

  abbrev pub sound_text : Sound Str
  sound_text = record { Holds = IsBytes; format = a.text; law = laws.text_law }

  abbrev sound_bytes : Sound (List ℕ)
  sound_bytes = record { Holds = IsBytes; format = a.bytes; law = laws.bytes_law }

  abbrev pub sound_u32 : Sound ℕ
  sound_u32 = record { Holds = IsU32; format = a.u32; law = laws.u32_law }

  abbrev sound_u64 : Sound ℕ
  sound_u64 = record { Holds = IsU64; format = a.u64; law = laws.u64_law }

  abbrev sound_i64 : Sound ℤ
  sound_i64 = record { Holds = IsI64; format = a.i64; law = laws.i64_law }

  abbrev pub sound_bool : Sound Bool
  sound_bool = record { Holds = Any; format = a.bool; law = laws.bool_law }

  abbrev sound_data_type : Sound DataType
  sound_data_type = record { Holds = Any; format = a.data_type; law = laws.data_type_law }

  abbrev sound_node_kind : Sound PredNodeKind
  sound_node_kind = record { Holds = Any; format = a.node_kind; law = laws.node_kind_law }

  abbrev sound_params : Sound FheParamsMeta
  sound_params =
      sound_struct params_fields params_struct (λ x. refl)
        (sound_pair sound_text (
          sound_pair sound_u64
            (sound_pair sound_u32 (sound_pair sound_u32 (sound_pair sound_u64 sound_text)))))

  abbrev sound_literal : Sound EncryptedLiteralEntry
  sound_literal =
      sound_struct literal_fields literal_struct (λ x. refl)
        (sound_pair sound_u32 (sound_pair sound_text (sound_pair sound_bytes sound_u64)))

  abbrev sound_node : Sound PredNode
  sound_node =
      sound_struct node_fields node_struct (λ x. refl)
        (sound_pair sound_node_kind (
          sound_pair sound_text
            (sound_pair sound_u32 (sound_pair sound_u32 (sound_pair sound_u32 sound_u32)))))

  abbrev sound_schema : Sound ColumnSchema
  sound_schema =
      sound_struct schema_fields schema_struct (λ x. refl)
        (sound_pair sound_text (sound_pair sound_data_type sound_u64))

  abbrev sound_package : Sound QueryPackage
  sound_package =
      sound_struct package_fields package_struct (λ x. refl)
        (sound_pair sound_text (
          sound_pair sound_u32 (
            sound_pair sound_u32 (
              sound_pair sound_text (
                sound_pair sound_text (
                  sound_pair sound_text (
                    sound_pair sound_text (
                      sound_pair sound_text (
                        sound_pair sound_text (
                          sound_pair sound_bool (
                            sound_pair (sound_vector sound_text) (
                              sound_pair (sound_vector sound_text) (
                                sound_pair (sound_vector sound_schema) (
                                  sound_pair (sound_vector sound_node) (
                                    sound_pair (sound_vector sound_literal) (
                                      sound_pair sound_params
                                        (sound_pair sound_u32 sound_u32)))))))))))))))))

  abbrev sound_column : Sound EncryptedColumnResult
  sound_column =
      sound_struct column_fields column_struct (λ x. refl)
        (sound_pair sound_text
          (sound_pair sound_text (sound_pair sound_u32 (sound_pair sound_bytes sound_u64))))

  abbrev sound_batch : Sound EncryptedResultBatch
  sound_batch =
      sound_struct batch_fields batch_struct (λ x. refl)
        (sound_pair sound_u32 (
          sound_pair sound_i64
            (sound_pair (sound_vector sound_column) (sound_pair sound_bytes sound_bool))))

-- A package whose fields fit their types is read back from the bytes that it is written as, over
-- archives that read what they write.
pub deserialize_package-serialize_package :
    (a : Archive)
    → ArchiveLaws a
    → (p : QueryPackage) → IsPackage p
    → deserialize_package a (serialize_package a p) ≡ ok p
unfolding deserialize_package serialize_package
deserialize_package-serialize_package a laws p h =
    let read =
      ap (package_format a).get (sym (append-nil ((package_format a).put p)))
      ∙ (sound_package a laws).law p [] h in
    ap (λ (m : Result (QueryPackage × List ℕ)). (do (q, rest) ← m; ok q)) read

-- A batch whose fields fit their types is read back from the bytes that it is written as, over
-- archives that read what they write.
pub deserialize_batch-serialize_batch :
    (a : Archive)
    → ArchiveLaws a
    → (b : EncryptedResultBatch) → IsBatch b
    → deserialize_batch a (serialize_batch a b) ≡ ok b
unfolding deserialize_batch serialize_batch
deserialize_batch-serialize_batch a laws b h =
    let read =
      ap (batch_format a).get (sym (append-nil ((batch_format a).put b)))
      ∙ (sound_batch a laws).law b [] h in
    ap (λ (m : Result (EncryptedResultBatch × List ℕ)). (do (q, rest) ← m; ok q)) read
