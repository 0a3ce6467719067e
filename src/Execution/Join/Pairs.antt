-- ===== src/Execution/Join/Pairs.antt =====
-- A JOIN gives one batch for each pair of chunks.
use mathlib.Core.Path.{subst}
use hega_proto.Base.{
  ℕ, some_inj, ◌+◌, ◌≡◌, refl, ap, ◌⊎◌, inl, inr, Bool, true, false, Option, none, some, List, [],
  ◌∷◌, ◌++◌, Str, All, length, map, drop, if◌then◌else◌,
}
use hega_proto.Base.Int.{pos}
use hega_proto.Base.Dict.{Dict}
use hega_proto.Base.Outcome.{
  Result, ok, ◌>>=◌, Gives, Gives-bind, Gives-after, Gives-rest, Gives-ok, Gives-map, Gives-both,
}
use hega_proto.Engine.{Engine}
use hega_proto.Catalog.{Catalog}
use hega_proto.Query.{QueryPackage, to_u32}
use hega_proto.Decoder.{EncryptedResultBatch}
use hega_proto.Execution.Scan.{build_filter}
use hega_proto.Execution.Join.{
  ChunkMeta, Chunk, Storage, add_table_columns, pair_mask, pair_columns, left_mask_of, pair_batch,
  right_loop, left_loop, uses_table, execute_join,
}
use hega_proto.Execution.Join.Entries.{IsChunkOf, add_table_columns-All}
use hega_proto.Execution.Join.Whole.{IsWhole, IsWhole-Extends, add_table_columns-IsWhole}
use hega_proto.Execution.Join.Taken.{AreColumns, pair_columns-AreColumns}

-- Every chunk of the left table with every chunk of the right one, the left ones in the outer loop.
abbrev pub all_pairs : List ChunkMeta → List ChunkMeta → List (ChunkMeta × ChunkMeta)
all_pairs [] rms = []
all_pairs (lm ∷ lms) rms = map (λ rm. (lm, rm)) rms ++ all_pairs lms rms

module _ (e : Engine) (storage : Storage e) (catalog : Catalog) (pkg : QueryPackage) where
  -- The columns of the chunk of the left table: all of them, and no others.
  abbrev pub AreLeft : ChunkMeta → Dict (Chunk e) → Type 0
  AreLeft lm columns =
      All (IsChunkOf e storage catalog pkg.table_name pkg.table_alias lm.chunk_id) columns
      × IsWhole e storage catalog pkg.table_name pkg.table_alias columns

  abbrev IsPairColumn : ChunkMeta → ChunkMeta → Str × Chunk e → Type 0
  IsPairColumn lm rm entry =
      IsChunkOf e storage catalog pkg.table_name pkg.table_alias lm.chunk_id entry
      ⊎ IsChunkOf e storage catalog pkg.joined_table_name pkg.joined_table_alias rm.chunk_id entry

  -- The columns of the two chunks of a pair: all of them, and no others.
  abbrev pub AreOfPair : ChunkMeta → ChunkMeta → Dict (Chunk e) → Type 0
  AreOfPair lm rm columns =
      All (IsPairColumn lm rm) columns
      × IsWhole e storage catalog pkg.table_name pkg.table_alias columns
      × IsWhole e storage catalog pkg.joined_table_name pkg.joined_table_alias columns

  abbrev left_columns : ChunkMeta → Result (Dict (Chunk e))
  left_columns lm =
      add_table_columns e storage catalog pkg.table_name pkg.table_alias lm.chunk_id []

  left_columns-AreLeft : (lm : ChunkMeta) → Gives (AreLeft lm) (left_columns lm)
  left_columns-AreLeft lm =
      let P = IsChunkOf e storage catalog pkg.table_name pkg.table_alias lm.chunk_id in
      Gives-map (left_columns lm) (λ d (own, (whole, kept)). (own, whole))
        (Gives-both (All P) _ (left_columns lm)
          (add_table_columns-All e storage catalog P pkg.table_name pkg.table_alias lm.chunk_id
            (λ entry h. h) [] tt)
          (add_table_columns-IsWhole e storage catalog pkg.table_name pkg.table_alias lm.chunk_id
            []))

  All-inl :
      (lm rm : ChunkMeta) (d : Dict (Chunk e))
      → All (IsChunkOf e storage catalog pkg.table_name pkg.table_alias lm.chunk_id) d
      → All (IsPairColumn lm rm) d
  All-inl lm rm [] h = tt
  All-inl lm rm (x ∷ xs) h = (inl h.0, All-inl lm rm xs h.1)

  right_columns-AreOfPair :
      (lm rm : ChunkMeta) (left : Dict (Chunk e))
      → AreLeft lm left
      → Gives (AreOfPair lm rm) (
          add_table_columns e storage catalog pkg.joined_table_name pkg.joined_table_alias
            rm.chunk_id left)
  right_columns-AreOfPair lm rm left (own, whole) =
      let columns =
        add_table_columns e storage catalog pkg.joined_table_name pkg.joined_table_alias rm.chunk_id
          left in
      Gives-map columns
        (λ d (own', (whole', kept)). (
          own',
          IsWhole-Extends e storage catalog pkg.table_name pkg.table_alias left d kept whole,
          whole',
        ))
        (Gives-both (All (IsPairColumn lm rm)) _ columns
          (add_table_columns-All e storage catalog (IsPairColumn lm rm) pkg.joined_table_name
            pkg.joined_table_alias rm.chunk_id (λ entry h. inr h) left (All-inl lm rm left own))
          (add_table_columns-IsWhole e storage catalog pkg.joined_table_name pkg.joined_table_alias
            rm.chunk_id left))

  -- What the WHERE clause gives: its value on the columns of the pair, if it uses the joined table,
  -- else its value on columns of the left chunk.
  abbrev pub IsWhere : Bool → ChunkMeta → Dict (Chunk e) → e.Expression → e.Cipher → Type 0
  IsWhere uses lm columns x w =
      if uses
      then storage.evaluate x columns ≡ ok w
      else (left : Dict (Chunk e)) × AreLeft lm left × (storage.evaluate x left ≡ ok w)

  -- The mask of a pair: the equality of the JOIN on columns of the pair, times the WHERE clause.
  abbrev pub IsMask : Bool → ChunkMeta → ChunkMeta → Option e.Expression → e.Cipher → Type 0
  IsMask uses lm rm filter mask =
      (columns : Dict (Chunk e)) × AreOfPair lm rm columns
      × (joined : e.Cipher) × (storage.evaluate
            (e.equal (e.column_ref pkg.join_left_column) (e.column_ref pkg.join_right_column))
            columns
          ≡ ok joined)
      × elim filter [
        | none ↦ mask ≡ joined
        | some x ↦
            (w : e.Cipher) × IsWhere uses lm columns x w × (mask ≡ storage.eval_mult joined w)
      ]

  -- The batch of a pair: one row, with its number, the columns of the pair and the mask.
  abbrev pub IsPairBatch :
      Bool → Option e.Expression → ℕ → ChunkMeta → ChunkMeta → EncryptedResultBatch → Type 0
  IsPairBatch uses filter id lm rm b =
      (b.batch_id ≡ id)
      × (b.logical_row_count ≡ pos 1)
      × (b.has_mask ≡ true)
      × AreColumns e storage catalog pkg lm rm pkg.project_columns b.columns
      × (mask : e.Cipher) × IsMask uses lm rm filter mask
      × (b.selection_mask_bytes ≡ e.serialize mask)

  -- One batch for each pair, in their order, numbered from `id` on.
  abbrev pub ArePairs :
      Bool
      → Option e.Expression
      → ℕ
      → List (ChunkMeta × ChunkMeta)
      → List EncryptedResultBatch
      → Type 0
  ArePairs uses filter id [] [] = Unit
  ArePairs uses filter id ((lm, rm) ∷ ps) (b ∷ bs) =
      IsPairBatch uses filter id lm rm b × ArePairs uses filter (to_u32 (id + 1)) ps bs
  ArePairs uses filter id _ _ = ⊥

  -- the number behind those of some batches
  abbrev after : ℕ → List ChunkMeta → ℕ
  after id [] = id
  after id (rm ∷ rms) = after (to_u32 (id + 1)) rms

  ArePairs-append :
      (uses : Bool) (filter : Option e.Expression) (id : ℕ) (lm : ChunkMeta) (rms : List ChunkMeta)
      (ps : List (ChunkMeta × ChunkMeta)) (xs ys : List EncryptedResultBatch)
      → ArePairs uses filter id (map (λ rm. (lm, rm)) rms) xs
      → ArePairs uses filter (after id rms) ps ys
      → ArePairs uses filter id (map (λ rm. (lm, rm)) rms ++ ps) (xs ++ ys)
  ArePairs-append uses filter id lm [] ps [] ys h k = k
  ArePairs-append uses filter id lm (rm ∷ rms) ps (x ∷ xs) ys (first, others) k =
      (first, ArePairs-append uses filter (to_u32 (id + 1)) lm rms ps xs ys others k)
  ArePairs-append uses filter id lm [] ps (x ∷ xs) ys h k = absurd h
  ArePairs-append uses filter id lm (rm ∷ rms) ps [] ys h k = absurd h

  -- The mask of a left row is the value of the clause, if there is one that does not use the joined
  -- table.
  abbrev IsLeftMask : Bool → ChunkMeta → Option e.Expression → Option e.Cipher → Type 0
  IsLeftMask uses lm none m = m ≡ none
  IsLeftMask true lm (some x) m = Unit
  IsLeftMask false lm (some x) m =
      (left : Dict (Chunk e)) × AreLeft lm left
      × (w : e.Cipher) × (storage.evaluate x left ≡ ok w)
      × (m ≡ some w)

  left_mask_of-IsLeftMask :
      (uses : Bool) (filter : Option e.Expression) (lm : ChunkMeta)
      → Gives (IsLeftMask uses lm filter) (left_mask_of e storage catalog pkg filter uses lm)
  unfolding left_mask_of
  left_mask_of-IsLeftMask uses none lm = refl
  left_mask_of-IsLeftMask true (some x) lm = tt
  left_mask_of-IsLeftMask false (some x) lm =
      let P : Option e.Cipher → Type 0 = IsLeftMask false lm (some x) in
      Gives-bind (AreLeft lm) P (left_columns lm) _ (left_columns-AreLeft lm) λ left own.
        Gives-bind (λ w. storage.evaluate x left ≡ ok w) P (storage.evaluate x left) _
          (Gives-ok (storage.evaluate x left)) λ w value. (left, own, w, value, refl)

  filtered-IsMask :
      (uses : Bool) (filter : Option e.Expression) (lm rm : ChunkMeta) (left_mask : Option e.Cipher)
      (columns : Dict (Chunk e)) (joined : e.Cipher)
      → AreOfPair lm rm columns
      → storage.evaluate
          (e.equal (e.column_ref pkg.join_left_column) (e.column_ref pkg.join_right_column))
          columns
        ≡ ok joined
      → IsLeftMask uses lm filter left_mask
      → Gives (IsMask uses lm rm filter) (elim filter [
        | none ↦ ok joined
        | some x ↦
            if uses
            then (do
              where_mask ← storage.evaluate x columns
              ok (storage.eval_mult joined where_mask))
            else elim left_mask [ none ↦ ok joined | some m ↦ ok (storage.eval_mult joined m) ]
      ])
  filtered-IsMask uses none lm rm left_mask columns joined own join known =
      (columns, own, joined, join, refl)
  filtered-IsMask true (some x) lm rm left_mask columns joined own join known =
      Gives-bind (λ w. storage.evaluate x columns ≡ ok w) (IsMask true lm rm (some x))
        (storage.evaluate x columns) _ (Gives-ok (storage.evaluate x columns))
        λ w value. (columns, own, joined, join, (w, value, refl))
  filtered-IsMask false (some x) lm rm none columns joined own join (left, owned, w, value, same) =
      cc
  filtered-IsMask false (some x) lm rm (some m) columns joined own join
        (left, owned, w, value, same) =
      (
        columns,
        own,
        joined,
        join,
        (w, (left, owned, value), ap (storage.eval_mult joined) (some_inj same)),
      )

  pair_mask-IsMask :
      (uses : Bool) (filter : Option e.Expression) (lm rm : ChunkMeta) (left_mask : Option e.Cipher)
      (columns : Dict (Chunk e))
      → AreOfPair lm rm columns
      → IsLeftMask uses lm filter left_mask
      → Gives
          (IsMask uses lm rm filter)
          (pair_mask e storage catalog pkg filter uses left_mask columns)
  unfolding pair_mask
  pair_mask-IsMask uses filter lm rm left_mask columns own known =
      let x = e.equal (e.column_ref pkg.join_left_column) (e.column_ref pkg.join_right_column) in
      Gives-bind (λ joined. storage.evaluate x columns ≡ ok joined) (IsMask uses lm rm filter)
        (storage.evaluate x columns) _ (Gives-ok (storage.evaluate x columns))
        λ joined join. filtered-IsMask uses filter lm rm left_mask columns joined own join known

  pair_batch-IsPairBatch :
      (uses : Bool) (filter : Option e.Expression) (right_key : Str) (left_mask : Option e.Cipher)
      (id : ℕ) (lm rm : ChunkMeta)
      → IsLeftMask uses lm filter left_mask
      → Gives
          (IsPairBatch uses filter id lm rm)
          (pair_batch e storage catalog pkg right_key filter uses left_mask id lm rm)
  unfolding pair_batch
  pair_batch-IsPairBatch uses filter right_key left_mask id lm rm known =
      let P : EncryptedResultBatch → Type 0 = IsPairBatch uses filter id lm rm in
      Gives-after P (storage.get_chunk pkg.joined_table_name right_key rm.partition_id rm.chunk_id)
        _
        λ right. Gives-rest P _ _ (
          Gives-bind (AreLeft lm) P (left_columns lm) _ (left_columns-AreLeft lm) λ left own_left.
            Gives-bind (AreOfPair lm rm) P
              (add_table_columns e storage catalog pkg.joined_table_name pkg.joined_table_alias
                rm.chunk_id left)
              _ (right_columns-AreOfPair lm rm left own_left)
              λ columns own.
                Gives-bind (IsMask uses lm rm filter) P
                  (pair_mask e storage catalog pkg filter uses left_mask columns) _
                  (pair_mask-IsMask uses filter lm rm left_mask columns own known)
                  λ mask is_mask.
                    Gives-bind (AreColumns e storage catalog pkg lm rm pkg.project_columns) P
                      (pair_columns e storage catalog pkg lm rm pkg.project_columns) _
                      (pair_columns-AreColumns e storage catalog pkg lm rm pkg.project_columns)
                      λ taken is_taken. (refl, refl, refl, is_taken, mask, is_mask, refl))

  abbrev IsRow :
      Bool
      → Option e.Expression
      → ℕ
      → ChunkMeta
      → List ChunkMeta
      → List EncryptedResultBatch × ℕ
      → Type 0
  IsRow uses filter id lm rms (bs, next) =
      ArePairs uses filter id (map (λ rm. (lm, rm)) rms) bs × (next ≡ after id rms)

  right_loop-IsRow :
      (uses : Bool) (filter : Option e.Expression) (right_key : Str) (left_mask : Option e.Cipher)
      (lm : ChunkMeta) (id : ℕ) (rms : List ChunkMeta)
      → IsLeftMask uses lm filter left_mask
      → Gives
          (IsRow uses filter id lm rms)
          (right_loop e storage catalog pkg right_key filter uses left_mask lm id rms)
  unfolding right_loop
  right_loop-IsRow uses filter right_key left_mask lm id [] known = (tt, refl)
  right_loop-IsRow uses filter right_key left_mask lm id (rm ∷ rms) known =
      let P : List EncryptedResultBatch × ℕ → Type 0 = IsRow uses filter id lm (rm ∷ rms) in
      Gives-bind (IsPairBatch uses filter id lm rm) P
        (pair_batch e storage catalog pkg right_key filter uses left_mask id lm rm) _
        (pair_batch-IsPairBatch uses filter right_key left_mask id lm rm known)
        λ b hb.
          Gives-bind (IsRow uses filter (to_u32 (id + 1)) lm rms) P
            (right_loop e storage catalog pkg right_key filter uses left_mask lm (to_u32 (id + 1))
              rms)
            _ (right_loop-IsRow uses filter right_key left_mask lm (to_u32 (id + 1)) rms known)
            λ (bs, next) (numbered, last). ((hb, numbered), last)

  left_loop-ArePairs :
      (uses : Bool) (filter : Option e.Expression) (left_key right_key : Str) (rms : List ChunkMeta)
      (id : ℕ) (lms : List ChunkMeta)
      → Gives
          (ArePairs uses filter id (all_pairs lms rms))
          (left_loop e storage catalog pkg left_key right_key filter uses rms id lms)
  unfolding left_loop
  left_loop-ArePairs uses filter left_key right_key rms id [] = tt
  left_loop-ArePairs uses filter left_key right_key rms id (lm ∷ lms) =
      let P : List EncryptedResultBatch → Type 0 =
        ArePairs uses filter id (all_pairs (lm ∷ lms) rms) in
      Gives-after P (storage.get_chunk pkg.table_name left_key lm.partition_id lm.chunk_id) _
        λ left. Gives-rest P _ _ (
          Gives-bind (IsLeftMask uses lm filter) P
            (left_mask_of e storage catalog pkg filter uses lm) _
            (left_mask_of-IsLeftMask uses filter lm)
            λ left_mask known.
              Gives-bind (IsRow uses filter id lm rms) P
                (right_loop e storage catalog pkg right_key filter uses left_mask lm id rms) _
                (right_loop-IsRow uses filter right_key left_mask lm id rms known)
                λ (here, next) (first, last).
                  Gives-bind (ArePairs uses filter next (all_pairs lms rms)) P
                    (left_loop e storage catalog pkg left_key right_key filter uses rms next lms) _
                    (left_loop-ArePairs uses filter left_key right_key rms next lms)
                    λ rest others.
                      ArePairs-append uses filter id lm rms (all_pairs lms rms) here rest first (
                        subst (λ (n : ℕ). ArePairs uses filter n (all_pairs lms rms) rest) last
                          others))

-- If a JOIN returns, the WHERE clause was rebuilt, and there is one batch for each pair of a chunk of
-- the left table and a chunk of the right one, the left ones in the outer loop, numbered from 0 on in
-- 32 bits. Each batch is of one row. Its columns are, for each projected name in their order and each
-- position of that column, the first ciphertext of the physical column in the pair's chunk of the
-- table that the name's alias says. Its mask is the value of the JOIN's equality on all columns of the
-- two chunks and no others, times that of the WHERE clause, if there is one, on the same columns if it
-- uses the joined table, else on those of the left chunk.
pub execute_join-ArePairs :
    (e : Engine) (storage : Storage e) (catalog : Catalog) (fuel : ℕ) (pkg : QueryPackage)
    (batches : List EncryptedResultBatch)
    → execute_join e storage catalog fuel pkg ≡ ok batches
    → (filter : Option e.Expression) × (build_filter e fuel pkg ≡ ok filter)
      × ArePairs e storage catalog pkg
          (uses_table (pkg.joined_table_alias ++ b'.' ∷ []) pkg.predicate_nodes)
          filter
          0
          (all_pairs
            (storage.list_chunks pkg.table_name
              (drop (length pkg.table_alias + 1) pkg.join_left_column))
            (storage.list_chunks pkg.joined_table_name
              (drop (length pkg.joined_table_alias + 1) pkg.join_right_column)))
          batches
unfolding execute_join
execute_join-ArePairs e storage catalog fuel pkg batches returned =
    let left_key = drop (length pkg.table_alias + 1) pkg.join_left_column in
    let right_key = drop (length pkg.joined_table_alias + 1) pkg.join_right_column in
    let lms = storage.list_chunks pkg.table_name left_key in
    let rms = storage.list_chunks pkg.joined_table_name right_key in
    let uses = uses_table (pkg.joined_table_alias ++ b'.' ∷ []) pkg.predicate_nodes in
    let P : List EncryptedResultBatch → Type 0 = λ bs.
      (filter : Option e.Expression) × (build_filter e fuel pkg ≡ ok filter)
      × ArePairs e storage catalog pkg uses filter 0 (all_pairs lms rms) bs in
    subst (Gives P) returned (
      Gives-rest P _ _ (
        Gives-bind (λ filter. build_filter e fuel pkg ≡ ok filter) P (build_filter e fuel pkg) _
          (Gives-ok (build_filter e fuel pkg))
          λ filter built.
            Gives-map (left_loop e storage catalog pkg left_key right_key filter uses rms 0 lms)
              (λ bs pairs. (filter, built, pairs))
              (left_loop-ArePairs e storage catalog pkg uses filter left_key right_key rms 0 lms)))
