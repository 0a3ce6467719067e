-- ===== src/Execution/Join/Whole.antt =====
-- All columns of a table's chunk are among those that a pair is evaluated on.
use hega_proto.Base.{
  ◌≡◌, refl, ℕ, ◌∙◌, inl, inr, some, List, [], ◌∷◌, ◌++◌, Str, str_eq, str_eq_refl, All, Bool-cases,
}
use hega_proto.Base.Dict.{Dict, insert, lookup, lookup-insert}
use hega_proto.Base.Outcome.{ok, Gives, Gives-bind, Gives-after, Gives-ok, Gives-map}
use hega_proto.Catalog.{Catalog, TableSchema, ColumnSchema, get_table}
use hega_proto.Engine.{Engine}
use hega_proto.Execution.Scan.{physical_names, width}
use hega_proto.Execution.Join.{Chunk, Storage, add_chunks, add_columns, add_table_columns}

module _ (e : Engine) (storage : Storage e) (catalog : Catalog) where
  abbrev pub HasColumn : Dict (Chunk e) → Str → Type 0
  HasColumn d k = (chunk : Chunk e) × (lookup k d ≡ some chunk)

  -- Every physical column of the table is there, under the alias.
  abbrev pub HasAll : Str → List ColumnSchema → Dict (Chunk e) → Type 0
  HasAll alias cs d =
      All
        (λ c.
          All (λ n. HasColumn d (alias ++ (b'.' ∷ n))) (physical_names e (width e c) 0 c c.name))
        cs

  abbrev pub IsWhole : Str → Str → Dict (Chunk e) → Type 0
  IsWhole table alias d =
      (t : TableSchema) × (get_table catalog table ≡ ok t) × HasAll alias t.columns d

  -- The columns that were there are still there.
  abbrev pub Extends : Dict (Chunk e) → Dict (Chunk e) → Type 0
  Extends d d' = (k : Str) → HasColumn d k → HasColumn d' k

  insert-Extends : (k : Str) (chunk : Chunk e) (d : Dict (Chunk e)) → Extends d (insert k chunk d)
  insert-Extends k chunk d j (old, at) = elim (Bool-cases (str_eq k j)) [
    | inl same ↦ (chunk, lookup-insert k j chunk d ∙ rw same refl)
    | inr other ↦ (old, lookup-insert k j chunk d ∙ rw other at)
  ]

  HasColumn-insert :
      (k : Str) (chunk : Chunk e) (d : Dict (Chunk e)) → HasColumn (insert k chunk d) k
  HasColumn-insert k chunk d = (chunk, lookup-insert k k chunk d ∙ rw (str_eq_refl k) refl)

  module _ (table alias : Str) (id : ℕ) where
    abbrev HasNames : List Str → Dict (Chunk e) → Type 0
    HasNames names d = All (λ n. HasColumn d (alias ++ (b'.' ∷ n))) names

    HasNames-Extends :
        (names : List Str) (d d' : Dict (Chunk e))
        → Extends d d'
        → HasNames names d
        → HasNames names d'
    HasNames-Extends [] d d' f h = tt
    HasNames-Extends (n ∷ ns) d d' f h =
        (f (alias ++ (b'.' ∷ n)) h.0, HasNames-Extends ns d d' f h.1)

    add_chunks-HasNames :
        (names : List Str) (d : Dict (Chunk e))
        → Gives
            (λ d'. HasNames names d' × Extends d d')
            (add_chunks e storage catalog table alias id names d)
    unfolding add_chunks
    add_chunks-HasNames [] d = (tt, λ k h. h)
    add_chunks-HasNames (n ∷ ns) d =
        let key = alias ++ (b'.' ∷ n) in
        Gives-after (λ d'. HasNames (n ∷ ns) d' × Extends d d') (storage.get_chunk table n 0 id) _
          λ chunk.
            Gives-map (add_chunks e storage catalog table alias id ns (insert key chunk d))
              (λ d' (later, kept). (
                (kept key (HasColumn-insert key chunk d), later),
                λ k h. kept k (insert-Extends key chunk d k h),
              ))
              (add_chunks-HasNames ns (insert key chunk d))

    add_columns-HasAll :
        (cs : List ColumnSchema) (d : Dict (Chunk e))
        → Gives
            (λ d'. HasAll alias cs d' × Extends d d')
            (add_columns e storage catalog table alias id cs d)
    unfolding add_columns
    add_columns-HasAll [] d = (tt, λ k h. h)
    add_columns-HasAll (c ∷ cs) d =
        let names = physical_names e (width e c) 0 c c.name in
        Gives-bind (λ d₁. HasNames names d₁ × Extends d d₁)
          (λ d'. HasAll alias (c ∷ cs) d' × Extends d d')
          (add_chunks e storage catalog table alias id names d) _ (add_chunks-HasNames names d)
          λ d₁ (here, kept₁).
            Gives-map (add_columns e storage catalog table alias id cs d₁)
              (λ d' (later, kept).
                ((HasNames-Extends names d₁ d' kept here, later), λ k h. kept k (kept₁ k h)))
              (add_columns-HasAll cs d₁)

    -- The columns that were there stay, and those of the table are there.
    pub add_table_columns-IsWhole :
        (d : Dict (Chunk e))
        → Gives
            (λ d'. IsWhole table alias d' × Extends d d')
            (add_table_columns e storage catalog table alias id d)
    unfolding add_table_columns
    add_table_columns-IsWhole d =
        Gives-bind (λ t. get_table catalog table ≡ ok t)
          (λ d'. IsWhole table alias d' × Extends d d') (get_table catalog table) _
          (Gives-ok (get_table catalog table))
          λ t found.
            Gives-map (add_columns e storage catalog table alias id t.columns d)
              (λ d' (all, kept). ((t, found, all), kept)) (add_columns-HasAll t.columns d)

  HasAll-Extends :
      (alias : Str) (cs : List ColumnSchema) (d d' : Dict (Chunk e))
      → Extends d d'
      → HasAll alias cs d
      → HasAll alias cs d'
  HasAll-Extends alias [] d d' f h = tt
  HasAll-Extends alias (c ∷ cs) d d' f h = (
    HasNames-Extends [] alias 0 (physical_names e (width e c) 0 c c.name) d d' f h.0,
    HasAll-Extends alias cs d d' f h.1,
  )

  pub IsWhole-Extends :
      (table alias : Str) (d d' : Dict (Chunk e))
      → Extends d d'
      → IsWhole table alias d
      → IsWhole table alias d'
  IsWhole-Extends table alias d d' f (t, found, all) =
      (t, found, HasAll-Extends alias t.columns d d' f all)
