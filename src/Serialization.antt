-- ===== src/Serialization.antt =====
-- query/query_package.cpp and result/result.cpp: packages and batches as bytes. The archives of cereal
-- are the parameter `Archive`, one format for each type that the structs pass to them.
pub mod RoundTrip
use hega_proto.Base.{
  ℕ, ◌^◌, ◌<◌, ◌≡◌, refl, sym, ap, ◌∙◌, Bool, List, [], ◌∷◌, ◌++◌, append_assoc, All, length, Str,
}
use hega_proto.Base.Int.{ℤ}
use hega_proto.Base.Outcome.{Result, ok, err, ◌>>=◌}
use hega_proto.Catalog.{DataType, ColumnSchema}
use hega_proto.Query.{FheParamsMeta, EncryptedLiteralEntry, PredNodeKind, PredNode, QueryPackage}
use hega_proto.Decoder.{EncryptedColumnResult, EncryptedResultBatch}

-- how values are written to an output archive, and read from an input archive
pub record Format (A : Type 0) : Type 0 where
  pub put : A → List ℕ
  pub get : List ℕ → Result (A × List ℕ)

-- what cereal's binary archives provide
pub record Archive : Type 1 where
  pub bool : Format Bool
  pub u32 : Format ℕ
  pub u64 : Format ℕ
  pub i64 : Format ℤ
  pub text : Format Str
  pub bytes : Format (List ℕ)
  pub data_type : Format DataType
  pub node_kind : Format PredNodeKind
  pub vector : {A : Type 0} → Format A → Format (List A)

-- `ar(x, y)`: one value after the other
abbrev pub then_format : {A B : Type 0} → Format A → Format B → Format (A × B)
then_format f g = record {
  put = λ (x, y). f.put x ++ g.put y;
  get = λ s. (do (x, r) ← f.get s; (y, t) ← g.get r; ok ((x, y), t));
}

-- the fields of a struct, which the same template writes and reads
abbrev pub fields_format : {A B : Type 0} → (A → B) → (B → A) → Format B → Format A
fields_format fields struct f = record {
  put = λ x. f.put (fields x);
  get = λ s. (do (y, r) ← f.get s; ok (struct y, r));
}

-- the fields of each struct, in the order in which its template passes them to the archive
abbrev pub params_fields : FheParamsMeta → Str × (ℕ × (ℕ × (ℕ × (ℕ × Str))))
params_fields = λ m. (
  m.param_set_id,
  (m.plaintext_modulus, (m.multiplicative_depth, (m.ring_dimension, (m.slot_count, m.key_id)))),
)

abbrev pub params_struct : Str × (ℕ × (ℕ × (ℕ × (ℕ × Str)))) → FheParamsMeta
params_struct = λ (id, (modulus, (depth, (dimension, (slots, key))))). record {
  param_set_id = id;
  plaintext_modulus = modulus;
  multiplicative_depth = depth;
  ring_dimension = dimension;
  slot_count = slots;
  key_id = key;
}

abbrev pub literal_fields : EncryptedLiteralEntry → ℕ × (Str × (List ℕ × ℕ))
literal_fields = λ l. (l.id, (l.logical_type, (l.ciphertext_bytes, l.logical_size)))

abbrev pub literal_struct : ℕ × (Str × (List ℕ × ℕ)) → EncryptedLiteralEntry
literal_struct = λ (id, (type, (bytes, size))). record {
  id = id;
  logical_type = type;
  ciphertext_bytes = bytes;
  logical_size = size;
}

abbrev pub node_fields : PredNode → PredNodeKind × (Str × (ℕ × (ℕ × (ℕ × ℕ))))
node_fields = λ n. (n.kind, (n.column_name, (n.literal_id, (n.string_width, (n.left, n.right)))))

abbrev pub node_struct : PredNodeKind × (Str × (ℕ × (ℕ × (ℕ × ℕ)))) → PredNode
node_struct = λ (kind, (name, (literal, (width, (left, right))))). record {
  kind = kind;
  column_name = name;
  literal_id = literal;
  string_width = width;
  left = left;
  right = right;
}

abbrev pub schema_fields : ColumnSchema → Str × (DataType × ℕ)
schema_fields = λ c. (c.name, (c.type, c.max_length))

abbrev pub schema_struct : Str × (DataType × ℕ) → ColumnSchema
schema_struct = λ (name, (type, length)). record { name = name; type = type; max_length = length }

abbrev pub package_fields :
    QueryPackage
    → Str
      × (ℕ
          × (ℕ
              × (Str
                  × (Str
                      × (Str
                          × (Str
                              × (Str
                                  × (Str
                                      × (Bool
                                          × (List Str
                                              × (List Str
                                                  × (List ColumnSchema
                                                      × (List PredNode
                                                          × (List EncryptedLiteralEntry
                                                            × (FheParamsMeta
                                                            × (ℕ × ℕ))))))))))))))))
package_fields = λ p. (
  p.query_id,
  (
    p.protocol_version,
    (
      p.schema_version,
      (
        p.table_name,
        (
          p.table_alias,
          (
            p.joined_table_name,
            (
              p.joined_table_alias,
              (
                p.join_left_column,
                (
                  p.join_right_column,
                  (
                    p.has_join,
                    (
                      p.scan_columns,
                      (
                        p.project_columns,
                        (
                          p.result_schema,
                          (
                            p.predicate_nodes,
                            (p.encrypted_literals, (p.fhe_params, (p.shard_id, p.partition_id))),
                          ),
                        ),
                      ),
                    ),
                  ),
                ),
              ),
            ),
          ),
        ),
      ),
    ),
  ),
)

abbrev pub package_struct :
    Str
      × (ℕ
          × (ℕ
              × (Str
                  × (Str
                      × (Str
                          × (Str
                              × (Str
                                  × (Str
                                      × (Bool
                                          × (List Str
                                              × (List Str
                                                  × (List ColumnSchema
                                                      × (List PredNode
                                                          × (List EncryptedLiteralEntry
                                                            × (FheParamsMeta
                                                            × (ℕ × ℕ))))))))))))))))
    → QueryPackage
package_struct =
    λ (
      id,
      (
        protocol,
        (
          version,
          (
            table,
            (
              alias,
              (
                joined,
                (
                  joined_alias,
                  (
                    left,
                    (
                      right,
                      (
                        join,
                        (
                          scan,
                          (project, (schema, (nodes, (literals, (params, (shard, partition)))))),
                        ),
                      ),
                    ),
                  ),
                ),
              ),
            ),
          ),
        ),
      ),
    ).
      record {
        query_id = id;
        protocol_version = protocol;
        schema_version = version;
        table_name = table;
        table_alias = alias;
        joined_table_name = joined;
        joined_table_alias = joined_alias;
        join_left_column = left;
        join_right_column = right;
        has_join = join;
        scan_columns = scan;
        project_columns = project;
        result_schema = schema;
        predicate_nodes = nodes;
        encrypted_literals = literals;
        fhe_params = params;
        shard_id = shard;
        partition_id = partition;
      }

abbrev pub column_fields : EncryptedColumnResult → Str × (Str × (ℕ × (List ℕ × ℕ)))
column_fields = λ c.
    (c.column_name, (c.logical_type, (c.string_position, (c.ciphertext_bytes, c.logical_size))))

abbrev pub column_struct : Str × (Str × (ℕ × (List ℕ × ℕ))) → EncryptedColumnResult
column_struct = λ (name, (type, (position, (bytes, size)))). record {
  column_name = name;
  logical_type = type;
  string_position = position;
  ciphertext_bytes = bytes;
  logical_size = size;
}

abbrev pub batch_fields :
    EncryptedResultBatch → ℕ × (ℤ × (List EncryptedColumnResult × (List ℕ × Bool)))
batch_fields =
    λ b. (b.batch_id, (b.logical_row_count, (b.columns, (b.selection_mask_bytes, b.has_mask))))

abbrev pub batch_struct :
    ℕ × (ℤ × (List EncryptedColumnResult × (List ℕ × Bool))) → EncryptedResultBatch
batch_struct = λ (id, (rows, (columns, (mask, has_mask)))). record {
  batch_id = id;
  logical_row_count = rows;
  columns = columns;
  selection_mask_bytes = mask;
  has_mask = has_mask;
}

module _ (a : Archive) where
  -- `serialize(Archive&, FHEParamsMeta&)`
  abbrev pub params_format : Format FheParamsMeta
  params_format = fields_format params_fields params_struct (
      then_format a.text
        (then_format a.u64 (then_format a.u32 (then_format a.u32 (then_format a.u64 a.text)))))

  -- `serialize(Archive&, EncryptedLiteralEntry&)`
  abbrev pub literal_format : Format EncryptedLiteralEntry
  literal_format =
      fields_format literal_fields literal_struct
        (then_format a.u32 (then_format a.text (then_format a.bytes a.u64)))

  -- `serialize(Archive&, PredNode&)`
  abbrev pub node_format : Format PredNode
  node_format = fields_format node_fields node_struct (
      then_format a.node_kind
        (then_format a.text (then_format a.u32 (then_format a.u32 (then_format a.u32 a.u32)))))

  -- `serialize(Archive&, ColumnSchema&)`
  abbrev pub schema_format : Format ColumnSchema
  schema_format =
      fields_format schema_fields schema_struct (then_format a.text (then_format a.data_type a.u64))

  -- `serialize(Archive&, QueryPackage&)`
  abbrev pub package_format : Format QueryPackage
  package_format = fields_format package_fields package_struct (
      then_format a.text (
        then_format a.u32 (
          then_format a.u32 (
            then_format a.text (
              then_format a.text (
                then_format a.text (
                  then_format a.text (
                    then_format a.text (
                      then_format a.text (
                        then_format a.bool (
                          then_format (a.vector a.text) (
                            then_format (a.vector a.text) (
                              then_format (a.vector schema_format) (
                                then_format (a.vector node_format) (
                                  then_format (a.vector literal_format) (
                                    then_format params_format
                                      (then_format a.u32 a.u32)))))))))))))))))

  -- `serialize(Archive&, EncryptedColumnResult&)`
  abbrev pub column_format : Format EncryptedColumnResult
  column_format =
      fields_format column_fields column_struct
        (then_format a.text (then_format a.text (then_format a.u32 (then_format a.bytes a.u64))))

  -- `serialize(Archive&, EncryptedResultBatch&)`
  abbrev pub batch_format : Format EncryptedResultBatch
  batch_format = fields_format batch_fields batch_struct (
      then_format a.u32
        (then_format a.i64 (then_format (a.vector column_format) (then_format a.bytes a.bool))))

  -- `QueryPackage::serialize` and `deserialize`, which leaves what is behind the package
  unfoldable pub serialize_package : QueryPackage → List ℕ
  serialize_package p = package_format.put p

  unfoldable pub deserialize_package : List ℕ → Result QueryPackage
  deserialize_package bytes = do (p, rest) ← package_format.get bytes; ok p

  -- `EncryptedResultBatch::serialize` and `deserialize`
  unfoldable pub serialize_batch : EncryptedResultBatch → List ℕ
  serialize_batch b = batch_format.put b

  unfoldable pub deserialize_batch : List ℕ → Result EncryptedResultBatch
  deserialize_batch bytes = do (b, rest) ← batch_format.get bytes; ok b
