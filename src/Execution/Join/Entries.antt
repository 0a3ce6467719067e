-- ===== src/Execution/Join/Entries.antt =====
-- The columns over which the executor evaluates a JOIN and its WHERE clause, for one pair of chunks.
use mathlib.Core.Path.{subst}
use hega_proto.Base.{
  ℕ, ◌≡◌, refl, sym, inl, inr, List, [], ◌∷◌, ◌++◌, Str, str_eq, str_eq_iff, All, Bool-cases,
}
use hega_proto.Base.Dict.{Dict, insert}
use hega_proto.Base.Outcome.{ok, Gives, Gives-bind, Gives-after, Gives-ok}
use hega_proto.Catalog.{Catalog, ColumnSchema, get_table}
use hega_proto.Engine.{Engine}
use hega_proto.Execution.Scan.{physical_names, width}
use hega_proto.Execution.Join.{Chunk, Storage, add_chunks, add_columns, add_table_columns}

insert-All :
    {V : Type 0} (P : Str × V → Type 0) (k : Str) (v : V) (d : Dict V)
    → P (k, v)
    → All P d
    → All P (insert k v d)
unfolding insert
insert-All P k v [] p h = (p, tt)
insert-All P k v ((key, held) ∷ others) p h = elim (Bool-cases (str_eq key k)) [
  | inl same ↦ rw same (subst (λ j. P (j, v)) (sym ((str_eq_iff key k).0 same)) p, h.1)
  | inr other ↦ rw other (h.0, insert-All P k v others p h.1)
]

module _ (e : Engine) (storage : Storage e) (catalog : Catalog) where
  -- A column of a table's chunk, under the table's alias.
  abbrev pub IsChunkOf : Str → Str → ℕ → Str × Chunk e → Type 0
  IsChunkOf table alias id (key, chunk) =
      (name : Str) × (key ≡ alias ++ (b'.' ∷ name)) × (storage.get_chunk table name 0 id ≡ ok chunk)

  module _ (P : Str × Chunk e → Type 0) (table alias : Str) (id : ℕ)
      (own : (entry : Str × Chunk e) → IsChunkOf table alias id entry → P entry) where
    add_chunks-All :
        (names : List Str) (batch : Dict (Chunk e))
        → All P batch
        → Gives (All P) (add_chunks e storage catalog table alias id names batch)
    unfolding add_chunks
    add_chunks-All [] batch h = h
    add_chunks-All (name ∷ names) batch h =
        Gives-bind (λ c. storage.get_chunk table name 0 id ≡ ok c) (All P)
          (storage.get_chunk table name 0 id) _ (Gives-ok (storage.get_chunk table name 0 id))
          λ chunk read. add_chunks-All names (insert (alias ++ (b'.' ∷ name)) chunk batch) (
            insert-All P (alias ++ (b'.' ∷ name)) chunk batch
              (own (alias ++ (b'.' ∷ name), chunk) (name, refl, read)) h)

    add_columns-All :
        (cs : List ColumnSchema) (batch : Dict (Chunk e))
        → All P batch
        → Gives (All P) (add_columns e storage catalog table alias id cs batch)
    unfolding add_columns
    add_columns-All [] batch h = h
    add_columns-All (c ∷ cs) batch h =
        Gives-bind (All P) (All P)
          (add_chunks e storage catalog table alias id (physical_names e (width e c) 0 c c.name)
            batch)
          _ (add_chunks-All (physical_names e (width e c) 0 c c.name) batch h) (add_columns-All cs)

    pub add_table_columns-All :
        (batch : Dict (Chunk e))
        → All P batch
        → Gives (All P) (add_table_columns e storage catalog table alias id batch)
    unfolding add_table_columns
    add_table_columns-All batch h =
        Gives-after (All P) (get_table catalog table) _ λ t. add_columns-All t.columns batch h
