-- ===== src/Execution/Scan.antt =====
-- The part of `QueryExecutor::execute` for one table. The operators of proto1 (`TableScanExec`,
-- `FilterExec`, `ProjectExec`, `EncryptedResultStream`) are the parameter `Backend`: the batches that
-- the stream gives for a table, its scanned columns, a filter and the projected columns.
pub mod Answers
use hega_proto.Base.{
  ℕ, zero, suc, ◌+◌, ◌-◌, Option, none, some, List, [], ◌∷◌, ◌++◌, Str, codes, length,
  if◌then◌else◌,
}
use hega_proto.Base.Int.{ℤ}
use hega_proto.Base.Dict.{Dict, lookup}
use hega_proto.Base.Outcome.{Result, ok, err, runtime_error, ◌>>=◌}
use hega_proto.Catalog.{Catalog, ColumnSchema, get_table, column, is_string_type, is_found}
use hega_proto.Engine.{Engine}
use hega_proto.Query.{QueryPackage, to_u32}
use hega_proto.Query.Validator.{is_empty}
use hega_proto.Execution.Predicate.{build_expression}
use hega_proto.Decoder.{EncryptedColumnResult, EncryptedResultBatch}

-- proto1::EncryptedBatch, with the ciphertexts of the chunk of each column
pub record Batch (e : Engine) : Type 0 where
  pub row_count : ℤ
  pub columns : Dict (List e.Cipher)
  pub mask : Option e.Cipher

pub record Backend (e : Engine) : Type 0 where
  pub stream :
      (table : Str) (scan : List Str) (filter : Option e.Expression) (project : List Str)
      → List (Batch e)

module _ (e : Engine) where
  abbrev pub physical_name : ColumnSchema → Str → ℕ → Str
  physical_name c name position =
      if is_string_type c.type then e.string_physical_column name position else name

  -- `schema.type == DataType::STRING ? schema.maxLength : 1`
  abbrev pub width : ColumnSchema → ℕ
  width c = if is_string_type c.type then c.max_length else 1

  abbrev pub physical_names : ℕ → ℕ → ColumnSchema → Str → List Str
  physical_names zero position c name = []
  physical_names (suc rounds) position c name =
      physical_name c name position ∷ physical_names rounds (suc position) c name

  -- the loops that make `physicalScanColumns` and `physicalProjectColumns`
  unfoldable pub physical_columns : Catalog → Str → List Str → Result (List Str)
  unfolding get_table column
  physical_columns catalog table [] = ok []
  physical_columns catalog table (name ∷ names) = do
    t ← get_table catalog table
    c ← column t name
    rest ← physical_columns catalog table names
    ok (physical_names (width c) 0 c name ++ rest)

  abbrev pub logical_type_of : ColumnSchema → Str
  logical_type_of c = if is_string_type c.type then codes "STRING" else codes "INT64"

  abbrev pub column_result : ColumnSchema → Str → ℕ → e.Cipher → EncryptedColumnResult
  column_result c name position ct = record {
    column_name = name;
    logical_type = logical_type_of c;
    string_position = to_u32 position;
    ciphertext_bytes = e.serialize ct;
    logical_size = e.logical_size ct;
  }

  -- the loop over the positions of one column, from `position` on
  unfoldable pub position_results :
      ℕ → ℕ → ColumnSchema → Str → Dict (List e.Cipher) → Result (List EncryptedColumnResult)
  unfolding lookup
  position_results zero position c name columns = ok []
  position_results (suc rounds) position c name columns =
      elim (lookup (physical_name c name position) columns) [
        | none ↦ err (
            runtime_error
              (codes "QueryExecutor: missing column: " ++ physical_name c name position))
        | some [] ↦ err (
            runtime_error
              (codes "QueryExecutor: empty ciphertext for: " ++ physical_name c name position))
        | some (ct ∷ _) ↦ do
          rest ← position_results rounds (suc position) c name columns
          ok (column_result c name position ct ∷ rest)
      ]

  -- the loop over the projected columns of one batch
  unfoldable pub batch_columns :
      Catalog → Str → List Str → Dict (List e.Cipher) → Result (List EncryptedColumnResult)
  unfolding get_table column position_results
  batch_columns catalog table [] columns = ok []
  batch_columns catalog table (name ∷ names) columns = do
    t ← get_table catalog table
    c ← column t name
    here ← position_results (width c) 0 c name columns
    rest ← batch_columns catalog table names columns
    ok (here ++ rest)

  abbrev pub mask_bytes : Option e.Cipher → List ℕ
  mask_bytes none = []
  mask_bytes (some mask) = e.serialize mask

  abbrev pub result_batch : ℕ → Batch e → List EncryptedColumnResult → EncryptedResultBatch
  result_batch id batch columns = record {
    batch_id = id;
    logical_row_count = batch.row_count;
    columns = columns;
    selection_mask_bytes = mask_bytes batch.mask;
    has_mask = is_found batch.mask;
  }

  -- `while (auto batch = stream.next())`, with the next batch id
  unfoldable pub result_batches :
      ℕ → Catalog → Str → List Str → List (Batch e) → Result (List EncryptedResultBatch)
  unfolding batch_columns
  result_batches id catalog table names [] = ok []
  result_batches id catalog table names (batch ∷ batches) = do
    columns ← batch_columns catalog table names batch.columns
    rest ← result_batches (to_u32 (id + 1)) catalog table names batches
    ok (result_batch id batch columns ∷ rest)

  unfoldable pub build_filter : ℕ → QueryPackage → Result (Option e.Expression)
  unfolding build_expression
  build_filter fuel pkg =
      let filter = (do
        x ← build_expression e fuel pkg (to_u32 (length pkg.predicate_nodes - 1))
        ok (some x)) in
      if is_empty pkg.predicate_nodes then ok none else filter

  -- `QueryExecutor::execute`, for a package without JOIN
  unfoldable pub execute_scan :
      ℕ → Backend e → Catalog → QueryPackage → Result (List EncryptedResultBatch)
  unfolding physical_columns build_filter result_batches
  execute_scan fuel backend catalog pkg = do
    scan ← physical_columns catalog pkg.table_name pkg.scan_columns
    filter ← build_filter fuel pkg
    project ← physical_columns catalog pkg.table_name pkg.project_columns
    result_batches 0 catalog pkg.table_name pkg.project_columns
        (backend.stream pkg.table_name scan filter project)
