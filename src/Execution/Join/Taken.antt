-- ===== src/Execution/Join/Taken.antt =====
-- The columns of the result of one pair of chunks.
use hega_proto.Base.{
  ◌++◌, ℕ, zero, suc, codes, ◌≡◌, refl, List, [], ◌∷◌, Str, str_eq, qualifier_or, bare_name,
  if◌then◌else◌,
}
use hega_proto.Base.Outcome.{
  Result, ok, err, runtime_error, ◌>>=◌, Gives, Gives-bind, Gives-ok, Gives-map,
}
use hega_proto.Catalog.{Catalog, TableSchema, ColumnSchema, get_table, column}
use hega_proto.Engine.{Engine}
use hega_proto.Query.{QueryPackage, to_u32}
use hega_proto.Decoder.{EncryptedColumnResult}
use hega_proto.Execution.Scan.{physical_name, width, column_result}
use hega_proto.Execution.Join.{ChunkMeta, Chunk, Storage, pair_positions, pair_column, pair_columns}

module _ (e : Engine) (storage : Storage e) (catalog : Catalog) where
  -- The result for one position of a column: its name and the position, and the first ciphertext of
  -- the physical column in the table's chunk.
  abbrev pub IsCipherOf : ColumnSchema → Str → Str → ℕ → ℕ → EncryptedColumnResult → Type 0
  IsCipherOf c name table id position r =
      (r.column_name ≡ name)
      × (r.string_position ≡ to_u32 position)
      × (chunk : Chunk e) × (ct : e.Cipher) × (others : List e.Cipher) × (storage.get_chunk table
            (physical_name e c (bare_name name) position) 0 id
          ≡ ok chunk)
      × (chunk.ciphertexts ≡ ct ∷ others)
      × (r.ciphertext_bytes ≡ e.serialize ct)

  -- One result for each of the positions of a column, from `position` on.
  abbrev pub ArePositions :
      ℕ → ℕ → ColumnSchema → Str → Str → ℕ → List EncryptedColumnResult → Type 0
  ArePositions zero position c name table id [] = Unit
  ArePositions (suc rounds) position c name table id (r ∷ rs) =
      IsCipherOf c name table id position r × ArePositions rounds (suc position) c name table id rs
  ArePositions _ position c name table id _ = ⊥

  -- The results for a projected name: the column is the left table's, from the left chunk, if the name
  -- has no alias or that of the left table, else the right one's.
  abbrev pub IsColumn :
      QueryPackage → ChunkMeta → ChunkMeta → Str → List EncryptedColumnResult → Type 0
  IsColumn pkg lm rm name rs =
      let left = str_eq (qualifier_or name pkg.table_alias) pkg.table_alias in
      let table = if left then pkg.table_name else pkg.joined_table_name in
      (t : TableSchema) × (get_table catalog table ≡ ok t)
      × (c : ColumnSchema) × (column t (bare_name name) ≡ ok c)
      × ArePositions (width e c) 0 c name table (if left then lm.chunk_id else rm.chunk_id) rs

  -- The results for each of the projected names, in their order.
  abbrev pub AreColumns :
      QueryPackage → ChunkMeta → ChunkMeta → List Str → List EncryptedColumnResult → Type 0
  AreColumns pkg lm rm [] rs = rs ≡ []
  AreColumns pkg lm rm (name ∷ names) rs =
      (here : List EncryptedColumnResult) × (rest : List EncryptedColumnResult) × (rs
        ≡ here ++ rest)
      × IsColumn pkg lm rm name here
      × AreColumns pkg lm rm names rest

  -- one position of a chunk that is read, before the later ones
  position-ArePositions :
      (rounds position : ℕ) (c : ColumnSchema) (name table : Str) (id : ℕ) (chunk : Chunk e)
      (later : Result (List EncryptedColumnResult))
      → storage.get_chunk table (physical_name e c (bare_name name) position) 0 id ≡ ok chunk
      → Gives (ArePositions rounds (suc position) c name table id) later
      → (cts : List e.Cipher) → chunk.ciphertexts ≡ cts
      → Gives (ArePositions (suc rounds) position c name table id) (elim cts [
        | [] ↦ err (runtime_error (codes "JOIN result column has no ciphertext"))
        | ct ∷ _ ↦ do rest ← later; ok (column_result e c name position ct ∷ rest)
      ])
  position-ArePositions rounds position c name table id chunk later read h [] same = tt
  position-ArePositions rounds position c name table id chunk later read h (ct ∷ others) same =
      Gives-bind (ArePositions rounds (suc position) c name table id)
        (ArePositions (suc rounds) position c name table id) later _ h
        λ rest k. ((refl, refl, chunk, ct, others, read, same, refl), k)

  pair_positions-ArePositions :
      (rounds position : ℕ) (c : ColumnSchema) (name table : Str) (id : ℕ)
      → Gives
          (ArePositions rounds position c name table id)
          (pair_positions e storage catalog rounds position c name (bare_name name) table id)
  unfolding pair_positions
  pair_positions-ArePositions zero position c name table id = tt
  pair_positions-ArePositions (suc rounds) position c name table id =
      let column_ = physical_name e c (bare_name name) position in
      Gives-bind (λ chunk. storage.get_chunk table column_ 0 id ≡ ok chunk)
        (ArePositions (suc rounds) position c name table id) (storage.get_chunk table column_ 0 id)
        _ (Gives-ok (storage.get_chunk table column_ 0 id))
        λ chunk read.
          position-ArePositions rounds position c name table id chunk _ read
            (pair_positions-ArePositions rounds (suc position) c name table id) chunk.ciphertexts
            refl

  module _ (pkg : QueryPackage) (lm rm : ChunkMeta) where
    pair_column-IsColumn :
        (name : Str)
        → Gives (IsColumn pkg lm rm name) (pair_column e storage catalog pkg lm rm name)
    unfolding pair_column
    pair_column-IsColumn name =
        let P : List EncryptedColumnResult → Type 0 = IsColumn pkg lm rm name in
        let left = str_eq (qualifier_or name pkg.table_alias) pkg.table_alias in
        let table = if left then pkg.table_name else pkg.joined_table_name in
        let id = if left then lm.chunk_id else rm.chunk_id in
        Gives-bind (λ t. get_table catalog table ≡ ok t) P (get_table catalog table) _
          (Gives-ok (get_table catalog table))
          λ t found.
            Gives-bind (λ c. column t (bare_name name) ≡ ok c) P (column t (bare_name name)) _
              (Gives-ok (column t (bare_name name)))
              λ c known.
                Gives-map
                  (pair_positions e storage catalog (width e c) 0 c name (bare_name name) table id)
                  (λ rs h. (t, found, c, known, h))
                  (pair_positions-ArePositions (width e c) 0 c name table id)

    pub pair_columns-AreColumns :
        (names : List Str)
        → Gives (AreColumns pkg lm rm names) (pair_columns e storage catalog pkg lm rm names)
    unfolding pair_columns
    pair_columns-AreColumns [] = refl
    pair_columns-AreColumns (name ∷ names) =
        Gives-bind (IsColumn pkg lm rm name) (AreColumns pkg lm rm (name ∷ names))
          (pair_column e storage catalog pkg lm rm name) _ (pair_column-IsColumn name)
          λ here h.
            Gives-bind (AreColumns pkg lm rm names) (AreColumns pkg lm rm (name ∷ names))
              (pair_columns e storage catalog pkg lm rm names) _ (pair_columns-AreColumns names)
              λ rest k. (here, rest, refl, h, k)
