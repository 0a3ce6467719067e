-- ===== src/Query.antt =====
-- include/proto2/query_package.h: the unit that the client sends to the server.
pub mod Encryptor
pub mod Validator
use hega_proto.Base.{
  ℕ, ◌-◌, ◌^◌, ◌%◌, Bool, false, Option, none, some, List, [], ◌∷◌, Str, ◌==◌, if◌then◌else◌,
}
use hega_proto.Catalog.{ColumnSchema}

pub record FheParamsMeta : Type 0 where
  pub param_set_id : Str
  pub plaintext_modulus : ℕ
  pub multiplicative_depth : ℕ
  pub ring_dimension : ℕ
  pub slot_count : ℕ
  pub key_id : Str

pub record EncryptedLiteralEntry : Type 0 where
  pub id : ℕ
  pub logical_type : Str
  pub ciphertext_bytes : List ℕ
  pub logical_size : ℕ

pub data PredNodeKind : Type 0 where
  column_ref literal_ref : PredNodeKind
  equal not_equal greater_than less_than greater_equal less_equal : PredNodeKind
  and_ or_ not_ string_equal string_not_equal : PredNodeKind

pub record PredNode : Type 0 where
  pub kind : PredNodeKind
  pub column_name : Str
  pub literal_id : ℕ
  pub string_width : ℕ
  pub left : ℕ
  pub right : ℕ

abbrev pub uint32_max : ℕ
uint32_max = 2 ^ 32 - 1

-- `static_cast<uint32_t>(n)`
abbrev pub to_u32 : ℕ → ℕ
to_u32 n = n % 2 ^ 32

-- A `PredNode` with the defaults of its declaration.
abbrev pub default_node : PredNode
default_node = record {
  kind = column_ref;
  column_name = [];
  literal_id = 0;
  string_width = 0;
  left = uint32_max;
  right = uint32_max;
}

pub record QueryPackage : Type 0 where
  pub query_id : Str
  pub protocol_version : ℕ
  pub schema_version : ℕ
  pub table_name : Str
  pub table_alias : Str
  pub joined_table_name : Str
  pub joined_table_alias : Str
  pub join_left_column : Str
  pub join_right_column : Str
  pub has_join : Bool
  pub scan_columns : List Str
  pub project_columns : List Str
  pub result_schema : List ColumnSchema
  pub predicate_nodes : List PredNode
  pub encrypted_literals : List EncryptedLiteralEntry
  pub fhe_params : FheParamsMeta
  pub shard_id : ℕ
  pub partition_id : ℕ

-- A `FHEParamsMeta` and a `QueryPackage` with the defaults of their declarations.
abbrev pub default_params : FheParamsMeta
default_params = record {
  param_set_id = [];
  plaintext_modulus = 0;
  multiplicative_depth = 0;
  ring_dimension = 0;
  slot_count = 0;
  key_id = [];
}

abbrev pub default_package : QueryPackage
default_package = record {
  query_id = [];
  protocol_version = 2;
  schema_version = 1;
  table_name = [];
  table_alias = [];
  joined_table_name = [];
  joined_table_alias = [];
  join_left_column = [];
  join_right_column = [];
  has_join = false;
  scan_columns = [];
  project_columns = [];
  result_schema = [];
  predicate_nodes = [];
  encrypted_literals = [];
  fhe_params = default_params;
  shard_id = 0;
  partition_id = 0;
}

-- `for (auto& lit : literals) if (lit.id == id) { ...; break; }`
unfoldable pub find_literal : ℕ → List EncryptedLiteralEntry → Option EncryptedLiteralEntry
find_literal id [] = none
find_literal id (l ∷ ls) = if l.id == id then some l else find_literal id ls
