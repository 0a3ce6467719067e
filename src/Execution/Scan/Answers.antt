-- ===== src/Execution/Scan/Answers.antt =====
-- One result for each batch of the stream, with the ciphertext of every projected physical column.
use hega_proto.Base.{ℕ, zero, suc, ◌+◌, ◌≡◌, refl, sym, Option, some, List, [], ◌∷◌, ◌++◌, Str, All}
use hega_proto.Base.Dict.{Dict, lookup}
use hega_proto.Base.Outcome.{ok, >>=-eq-ok, ok_inj}
use hega_proto.Catalog.{Catalog, ColumnSchema, TableSchema, get_table, column, is_found}
use hega_proto.Engine.{Engine}
use hega_proto.Query.{QueryPackage, to_u32}
use hega_proto.Decoder.{EncryptedColumnResult, EncryptedResultBatch}
use hega_proto.Execution.Scan.{
  Backend, build_filter, execute_scan, Batch, width, physical_names, physical_columns,
  position_results, batch_columns, result_batch, result_batches, column_result, mask_bytes,
}
use mathlib.Core.Path.{subst}

module _ (e : Engine) where
  -- The batch has a ciphertext for the physical column.
  abbrev pub Holds : Dict (List e.Cipher) → Str → Type 0
  Holds columns p =
      (ct : e.Cipher) × (others : List e.Cipher) × (lookup p columns ≡ some (ct ∷ others))

  -- The results are the first ciphertexts of the physical columns, in their order.
  abbrev pub Carries : Dict (List e.Cipher) → List Str → List EncryptedColumnResult → Type 0
  Carries columns [] [] = Unit
  Carries columns (p ∷ ps) (r ∷ rs) =
      ((ct : e.Cipher) × (others : List e.Cipher) × (lookup p columns ≡ some (ct ∷ others))
        × (r.ciphertext_bytes ≡ e.serialize ct)
        × (r.logical_size ≡ e.logical_size ct))
      × Carries columns ps rs
  Carries columns _ _ = ⊥

  Carries-append :
      (columns : Dict (List e.Cipher)) (ps qs : List Str) (rs ss : List EncryptedColumnResult)
      → Carries columns ps rs
      → Carries columns qs ss
      → Carries columns (ps ++ qs) (rs ++ ss)
  Carries-append columns [] qs [] ss h k = k
  Carries-append columns (p ∷ ps) qs (r ∷ rs) ss h k =
      (h.0, Carries-append columns ps qs rs ss h.1 k)
  Carries-append columns [] qs (r ∷ rs) ss h k = absurd h
  Carries-append columns (p ∷ ps) qs [] ss h k = absurd h

  All-left :
      (columns : Dict (List e.Cipher)) (ps qs : List Str)
      → All (Holds columns) (ps ++ qs)
      → All (Holds columns) ps
  All-left columns [] qs h = tt
  All-left columns (p ∷ ps) qs h = (h.0, All-left columns ps qs h.1)

  All-right :
      (columns : Dict (List e.Cipher)) (ps qs : List Str)
      → All (Holds columns) (ps ++ qs)
      → All (Holds columns) qs
  All-right columns [] qs h = h
  All-right columns (p ∷ ps) qs h = All-right columns ps qs h.1

  position_results-Carries :
      (rounds position : ℕ) (c : ColumnSchema) (name : Str) (columns : Dict (List e.Cipher))
      → All (Holds columns) (physical_names e rounds position c name)
      → (rs : List EncryptedColumnResult) × (position_results e rounds position c name columns
          ≡ ok rs)
        × Carries columns (physical_names e rounds position c name) rs
  unfolding position_results
  position_results-Carries zero position c name columns h = ([], refl, tt)
  position_results-Carries (suc rounds) position c name columns ((ct, others, at), h) =
      let (rest, made, carries) = position_results-Carries rounds (suc position) c name columns h in
      (
        column_result e c name position ct ∷ rest,
        rw (at, position_results) (rw made refl),
        ((ct, others, at, refl, refl), carries),
      )

  batch_columns_cons :
      (catalog : Catalog) (table name : Str) (names : List Str) (columns : Dict (List e.Cipher))
      {t : TableSchema} {c : ColumnSchema} {here rest : List EncryptedColumnResult}
      → get_table catalog table ≡ ok t
      → column t name ≡ ok c
      → position_results e (width e c) 0 c name columns ≡ ok here
      → batch_columns e catalog table names columns ≡ ok rest
      → batch_columns e catalog table (name ∷ names) columns ≡ ok (here ++ rest)
  unfolding batch_columns
  batch_columns_cons catalog table name names columns p q r s = rw p (rw q (rw r (rw s refl)))

  batch_columns-Carries :
      (catalog : Catalog) (table : Str) (names : List Str) (columns : Dict (List e.Cipher))
      (ps : List Str)
      → physical_columns e catalog table names ≡ ok ps
      → All (Holds columns) ps
      → (rs : List EncryptedColumnResult) × (batch_columns e catalog table names columns ≡ ok rs)
        × Carries columns ps rs
  unfolding batch_columns physical_columns
  batch_columns-Carries catalog table [] columns ps h k =
      ([], refl, subst (λ qs. Carries columns qs []) (ok_inj h) tt)
  batch_columns-Carries catalog table (name ∷ names) columns ps h k =
      let (t, table_at, h₁) = >>=-eq-ok (get_table catalog table) _ h in
      let (c, column_at, h₂) = >>=-eq-ok (column t name) _ h₁ in
      let (qs, later, h₃) = >>=-eq-ok (physical_columns e catalog table names) _ h₂ in
      let own = physical_names e (width e c) 0 c name in
      let whole : own ++ qs ≡ ps = ok_inj h₃ in
      let all = subst (All (Holds columns)) (sym whole) k in
      let (here, made, carries) =
        position_results-Carries (width e c) 0 c name columns (All-left columns own qs all) in
      let (rest, made', carries') =
        batch_columns-Carries catalog table names columns qs later (All-right columns own qs all) in
      (
        here ++ rest,
        batch_columns_cons catalog table name names columns table_at column_at made made',
        subst (λ xs. Carries columns xs (here ++ rest)) whole
            (Carries-append columns own qs here rest carries carries'),
      )

  -- The results answer the batches, numbered from `id`.
  abbrev pub Answers : ℕ → List Str → List (Batch e) → List EncryptedResultBatch → Type 0
  Answers id ps [] [] = Unit
  Answers id ps (b ∷ bs) (r ∷ rs) =
      ((r.batch_id ≡ id)
        × (r.logical_row_count ≡ b.row_count)
        × (r.has_mask ≡ is_found b.mask)
        × (r.selection_mask_bytes ≡ mask_bytes e b.mask)
        × Carries b.columns ps r.columns)
      × Answers (to_u32 (id + 1)) ps bs rs
  Answers id ps _ _ = ⊥

  -- If every batch of the stream has a ciphertext for each projected physical column, the loop over
  -- the stream returns one result for each batch, in their order and numbered from `id`, with the
  -- batch's row count and mask and the ciphertext of each of these columns, in their order.
  pub result_batches-Answers :
      (id : ℕ) (catalog : Catalog) (table : Str) (names ps : List Str) (batches : List (Batch e))
      → physical_columns e catalog table names ≡ ok ps
      → All (λ b. All (Holds b.columns) ps) batches
      → (rs : List EncryptedResultBatch) × (result_batches e id catalog table names batches ≡ ok rs)
        × Answers id ps batches rs
  unfolding result_batches
  result_batches-Answers id catalog table names ps [] h k = ([], refl, tt)
  result_batches-Answers id catalog table names ps (b ∷ bs) h k =
      let (columns, made, carries) = batch_columns-Carries catalog table names b.columns ps h k.0 in
      let (rest, made', answers) =
        result_batches-Answers (to_u32 (id + 1)) catalog table names ps bs h k.1 in
      (
        result_batch e id b columns ∷ rest,
        rw made (rw made' refl),
        ((refl, refl, refl, refl, carries), answers),
      )

  -- If the columns of a package without JOIN are known and its filter is rebuilt, and every batch of
  -- the stream has a ciphertext for each projected physical column, execution returns one result for
  -- each batch, in their order and numbered from 0, with the batch's row count and mask and the
  -- ciphertext of each of these columns, in their order.
  pub execute_scan-Answers :
      (fuel : ℕ) (backend : Backend e) (catalog : Catalog) (pkg : QueryPackage) (scan ps : List Str)
      (filter : Option e.Expression)
      → physical_columns e catalog pkg.table_name pkg.scan_columns ≡ ok scan
      → build_filter e fuel pkg ≡ ok filter
      → physical_columns e catalog pkg.table_name pkg.project_columns ≡ ok ps
      → All (λ b. All (Holds b.columns) ps) (backend.stream pkg.table_name scan filter ps)
      → (rs : List EncryptedResultBatch) × (execute_scan e fuel backend catalog pkg ≡ ok rs)
        × Answers 0 ps (backend.stream pkg.table_name scan filter ps) rs
  unfolding execute_scan
  execute_scan-Answers fuel backend catalog pkg scan ps filter scanned filtered projected served =
      let (rs, made, answers) =
        result_batches-Answers 0 catalog pkg.table_name pkg.project_columns ps
          (backend.stream pkg.table_name scan filter ps) projected served in
      (rs, rw scanned (rw filtered (rw projected made)), answers)
