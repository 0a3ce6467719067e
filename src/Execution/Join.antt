-- ===== src/Execution/Join.antt =====
-- The part of `QueryExecutor::execute` for a package with a JOIN: every chunk of the left table with
-- every chunk of the right one. The storage of proto1, and its evaluation of an expression on the
-- columns of a pair, are the parameter `Storage`.
pub mod Entries
pub mod Whole
pub mod Taken
pub mod Pairs
use hega_proto.Base.{
  ℕ, zero, suc, ◌+◌, Bool, true, false, not, ◌&&◌, ◌||◌, Option, none, some, List, [], ◌∷◌, ◌++◌,
  Str, codes, str_eq, bare_name, qualifier_or, length, take, drop, if◌then◌else◌,
}
use hega_proto.Base.Int.{ℤ, pos, eqb_ℤ}
use hega_proto.Base.Dict.{Dict, insert}
use hega_proto.Base.Outcome.{Result, ok, err, Error, runtime_error, ◌>>=◌, ◌>>◌, guard}
use hega_proto.Catalog.{Catalog, ColumnSchema, TableSchema, get_table, column}
use hega_proto.Engine.{Engine}
use hega_proto.Query.{QueryPackage, PredNode, PredNodeKind, column_ref, to_u32}
use hega_proto.Decoder.{EncryptedColumnResult, EncryptedResultBatch}
use hega_proto.Execution.Scan.{physical_name, physical_names, width, column_result, build_filter}

pub record ChunkMeta : Type 0 where
  pub partition_id : ℕ
  pub chunk_id : ℕ

pub record Chunk (e : Engine) : Type 0 where
  pub logical_row_count : ℤ
  pub ciphertexts : List e.Cipher

pub record Storage (e : Engine) : Type 0 where
  -- EncryptedStorage::listChunks and getChunk
  pub list_chunks : (table column : Str) → List ChunkMeta
  pub get_chunk : (table column : Str) (partition chunk : ℕ) → Result (Chunk e)
  -- ExpressionExecutor::evaluate on a batch of one row, and FHEKeyContext::evalMult
  pub evaluate : e.Expression → Dict (Chunk e) → Result e.Cipher
  pub eval_mult : e.Cipher → e.Cipher → e.Cipher

-- `s.compare(0, prefix.size(), prefix) == 0`
abbrev pub has_prefix : Str → Str → Bool
has_prefix prefix s = str_eq (take (length prefix) s) prefix

-- `whereUsesJoinedTable`
unfoldable pub uses_table : Str → List PredNode → Bool
uses_table prefix [] = false
uses_table prefix (n ∷ ns) = elim n.kind [
  | column_ref ↦ has_prefix prefix n.column_name || uses_table prefix ns
  | _ ↦ uses_table prefix ns
]

module _ (e : Engine) (storage : Storage e) (catalog : Catalog) where
  -- `addTableColumns`, over the physical names of one column and over the columns
  unfoldable pub add_chunks : Str → Str → ℕ → List Str → Dict (Chunk e) → Result (Dict (Chunk e))
  unfolding insert
  add_chunks table alias chunk_id [] batch = ok batch
  add_chunks table alias chunk_id (name ∷ names) batch = do
    chunk ← storage.get_chunk table name 0 chunk_id
    add_chunks table alias chunk_id names (insert (alias ++ (b'.' ∷ name)) chunk batch)

  unfoldable pub add_columns :
      Str → Str → ℕ → List ColumnSchema → Dict (Chunk e) → Result (Dict (Chunk e))
  unfolding add_chunks
  add_columns table alias chunk_id [] batch = ok batch
  add_columns table alias chunk_id (c ∷ cs) batch = do
    more ← add_chunks table alias chunk_id (physical_names e (width e c) 0 c c.name) batch
    add_columns table alias chunk_id cs more

  unfoldable pub add_table_columns : Str → Str → ℕ → Dict (Chunk e) → Result (Dict (Chunk e))
  unfolding add_columns get_table
  add_table_columns table alias chunk_id batch = do
    t ← get_table catalog table
    add_columns table alias chunk_id t.columns batch

  -- the loop over the positions of one projected column, from `position` on
  unfoldable pub pair_positions :
      ℕ → ℕ → ColumnSchema → Str → Str → Str → ℕ → Result (List EncryptedColumnResult)
  pair_positions zero position c name bare table chunk_id = ok []
  pair_positions (suc rounds) position c name bare table chunk_id = do
    chunk ← storage.get_chunk table (physical_name e c bare position) 0 chunk_id
    elim chunk.ciphertexts [
      | [] ↦ err (runtime_error (codes "JOIN result column has no ciphertext"))
      | ct ∷ _ ↦ do
        rest ← pair_positions rounds (suc position) c name bare table chunk_id
        ok (column_result e c name position ct ∷ rest)
    ]

  module _ (pkg : QueryPackage) where
    -- one projected column of a pair of chunks
    unfoldable pub pair_column : ChunkMeta → ChunkMeta → Str → Result (List EncryptedColumnResult)
    unfolding get_table column qualifier_or bare_name pair_positions
    pair_column lm rm name = do
      let bare = bare_name name
      let left = str_eq (qualifier_or name pkg.table_alias) pkg.table_alias
      let table = if left then pkg.table_name else pkg.joined_table_name
      t ← get_table catalog table
      c ← column t bare
      pair_positions (width e c) 0 c name bare table (if left then lm.chunk_id else rm.chunk_id)

    unfoldable pub pair_columns :
        ChunkMeta → ChunkMeta → List Str → Result (List EncryptedColumnResult)
    unfolding pair_column
    pair_columns lm rm [] = ok []
    pair_columns lm rm (name ∷ names) = do
      here ← pair_column lm rm name
      rest ← pair_columns lm rm names
      ok (here ++ rest)

    -- the mask of a pair: the join, times what the WHERE clause says of the pair or of the left row
    unfoldable pub pair_mask :
        Option e.Expression → Bool → Option e.Cipher → Dict (Chunk e) → Result e.Cipher
    pair_mask clause uses left_mask pair_ = do
      mask ←
          storage.evaluate
            (e.equal (e.column_ref pkg.join_left_column) (e.column_ref pkg.join_right_column)) pair_
      elim clause [
        | none ↦ ok mask
        | some x ↦
            if uses
            then (do where_mask ← storage.evaluate x pair_; ok (storage.eval_mult mask where_mask))
            else elim left_mask [ none ↦ ok mask | some m ↦ ok (storage.eval_mult mask m) ]
      ]

    abbrev chunk_size_error : Error
    chunk_size_error = runtime_error (codes "JOIN requires setup data ingested with chunk size 1")

    -- the body of the loops, for one pair of chunks
    unfoldable pub pair_batch :
        Str
        → Option e.Expression
        → Bool
        → Option e.Cipher
        → ℕ
        → ChunkMeta
        → ChunkMeta
        → Result EncryptedResultBatch
    unfolding add_table_columns pair_mask pair_columns
    pair_batch right_key clause uses left_mask id lm rm = do
      right ← storage.get_chunk pkg.joined_table_name right_key rm.partition_id rm.chunk_id
      guard (eqb_ℤ right.logical_row_count (pos 1)) chunk_size_error
      left_columns ← add_table_columns pkg.table_name pkg.table_alias lm.chunk_id []
      pair_ ←
          add_table_columns pkg.joined_table_name pkg.joined_table_alias rm.chunk_id left_columns
      mask ← pair_mask clause uses left_mask pair_
      columns ← pair_columns lm rm pkg.project_columns
      ok (record {
        batch_id = id;
        logical_row_count = pos 1;
        columns = columns;
        selection_mask_bytes = e.serialize mask;
        has_mask = true;
      })

    -- the loop over the chunks of the right table, with the next batch id
    unfoldable pub right_loop :
        Str
        → Option e.Expression
        → Bool
        → Option e.Cipher
        → ChunkMeta
        → ℕ
        → List ChunkMeta
        → Result (List EncryptedResultBatch × ℕ)
    unfolding pair_batch
    right_loop right_key clause uses left_mask lm id [] = ok ([], id)
    right_loop right_key clause uses left_mask lm id (rm ∷ rms) = do
      b ← pair_batch right_key clause uses left_mask id lm rm
      (bs, next) ← right_loop right_key clause uses left_mask lm (to_u32 (id + 1)) rms
      ok (b ∷ bs, next)

    -- the mask of a left row, where the clause does not use the joined table
    unfoldable pub left_mask_of : Option e.Expression → Bool → ChunkMeta → Result (Option e.Cipher)
    unfolding add_table_columns
    left_mask_of none uses lm = ok none
    left_mask_of (some x) uses lm =
        let masked = (do
          left_only ← add_table_columns pkg.table_name pkg.table_alias lm.chunk_id []
          mask ← storage.evaluate x left_only
          ok (some mask)) in
        if uses then ok none else masked

    -- the loop over the chunks of the left table
    unfoldable pub left_loop :
        Str
        → Str
        → Option e.Expression
        → Bool
        → List ChunkMeta
        → ℕ
        → List ChunkMeta
        → Result (List EncryptedResultBatch)
    unfolding left_mask_of right_loop
    left_loop left_key right_key clause uses rms id [] = ok []
    left_loop left_key right_key clause uses rms id (lm ∷ lms) = do
      left ← storage.get_chunk pkg.table_name left_key lm.partition_id lm.chunk_id
      guard (eqb_ℤ left.logical_row_count (pos 1)) chunk_size_error
      left_mask ← left_mask_of clause uses lm
      (here, next) ← right_loop right_key clause uses left_mask lm id rms
      rest ← left_loop left_key right_key clause uses rms next lms
      ok (here ++ rest)

  -- `QueryExecutor::execute`, for a package with a JOIN
  unfoldable pub execute_join : ℕ → QueryPackage → Result (List EncryptedResultBatch)
  unfolding uses_table build_filter left_loop
  execute_join fuel pkg = do
    guard
        (has_prefix (pkg.table_alias ++ b'.' ∷ []) pkg.join_left_column
          && has_prefix (pkg.joined_table_alias ++ b'.' ∷ []) pkg.join_right_column)
        (runtime_error (codes "JOIN columns must be qualified by their aliases"))
    let left_key = drop (length pkg.table_alias + 1) pkg.join_left_column
    let right_key = drop (length pkg.joined_table_alias + 1) pkg.join_right_column
    clause ← build_filter e fuel pkg
    left_loop pkg left_key right_key clause
        (uses_table (pkg.joined_table_alias ++ b'.' ∷ []) pkg.predicate_nodes)
        (storage.list_chunks pkg.joined_table_name right_key) 0
        (storage.list_chunks pkg.table_name left_key)
