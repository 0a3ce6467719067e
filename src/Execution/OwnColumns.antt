-- ===== src/Execution/OwnColumns.antt =====
-- The columns of a statement over one table, as the analyzer and the encryptor resolve them.
use hega_proto.Base.{
  ◌≡◌, refl, sym, Bool, true, false, none, some, inl, inr, List, [], ◌∷◌, ◌++◌, map, Str, str_eq,
  str_eq_refl, str_eq_iff, split_dot, bare_name, qualifier_or, All, Bool-cases, Option-cases,
  if◌then◌else◌,
}
use hega_proto.Base.Dict.{lookup}
use hega_proto.Base.Outcome.{ok, ◌>>◌, guard, >>=-eq-ok, guard->>-ok}
use hega_proto.Ast.{OrderByColumn}
use hega_proto.Catalog.{
  Catalog, TableSchema, ColumnSchema, get_table, column, has_column, find_column, is_found,
}
use hega_proto.Catalog.Laws.{has_column→column}
use hega_proto.Planner.{PhysicalPlan, contains, add_missing, add_order_columns, projection_or_all}
use hega_proto.Query.Encryptor.{result_schema}
use hega_proto.Query.Validator.Refuses.{IsDotless}
use hega_proto.Engine.{Engine}
use hega_proto.Semantic.{resolve, resolve_bare, resolve_all, resolve_order}
use hega_proto.Semantic.Throws.{discard}

-- The name is that of a column of the one table: it has no alias or the table's own.
abbrev pub IsOwnColumn : TableSchema → Str → Str → Type 0
IsOwnColumn schema alias c =
    (str_eq (qualifier_or c alias) alias ≡ true)
    × (found : ColumnSchema) × (column schema (bare_name c) ≡ ok found)

pub result_schema-IsOwnColumn :
    (e : Engine) (catalog : Catalog) (plan : PhysicalPlan) (schema : TableSchema) (names : List Str)
    → get_table catalog plan.table_name ≡ ok schema
    → All (IsOwnColumn schema plan.table_alias) names
    → (columns : List ColumnSchema) × (result_schema e catalog plan names ≡ ok columns)
unfolding result_schema
result_schema-IsOwnColumn e catalog plan schema [] table h = ([], refl)
result_schema-IsOwnColumn e catalog plan schema (c ∷ cs) table ((own, found, at), h) =
    let (rest, resolved) = result_schema-IsOwnColumn e catalog plan schema cs table h in
    (
      record { name = c; type = found.type; max_length = found.max_length } ∷ rest,
      rw (own, table) (rw at (rw resolved refl)),
    )

module _ (P : Str → Type 0) where
  All-append : (xs ys : List Str) → All P xs → All P ys → All P (xs ++ ys)
  All-append [] ys h k = k
  All-append (x ∷ xs) ys h k = (h.0, All-append xs ys h.1 k)

  All-add_missing : (xs : List Str) (c : Str) → All P xs → P c → All P (add_missing xs c)
  unfolding add_missing
  All-add_missing xs c h p = elim (Bool-cases (contains c xs)) [
    | inl there ↦ rw there h
    | inr missing ↦ rw missing (All-append xs (c ∷ []) h (p, tt))
  ]

  pub All-add_order_columns :
      (xs : List Str) (os : List OrderByColumn)
      → All P xs
      → All (λ o. P o.column_name) os
      → All P (add_order_columns xs os)
  unfolding add_order_columns
  All-add_order_columns xs [] h k = h
  All-add_order_columns xs (o ∷ os) h k =
      All-add_order_columns (add_missing xs o.column_name) os
        (All-add_missing xs o.column_name h k.0) k.1

module _ (schema : TableSchema) (alias : Str) where
  resolve-IsOwnColumn :
      (c : Str) {found : ColumnSchema}
      → resolve ((alias, schema) ∷ []) c ≡ ok found
      → IsOwnColumn schema alias c
  unfolding resolve resolve_bare lookup qualifier_or bare_name
  resolve-IsOwnColumn c {found} e = elim (Option-cases (split_dot c)) [
    | inl bare ↦ elim (Bool-cases (has_column schema c)) [
      | inl there ↦
          let (found', at) = has_column→column schema c there in
          (rw (bare, qualifier_or) (str_eq_refl alias), found', rw (bare, bare_name) at)
      | inr missing ↦ cc (rw (bare, resolve, resolve_bare, missing) at e)
    ]
    | inr ((a, b), dotted) ↦ elim (Bool-cases (str_eq alias a)) [
      | inl own ↦
          let e' : (guard (has_column schema b) _ >> column schema b) ≡ ok found =
            rw (dotted, resolve, lookup, own) at e in
          let same : a ≡ alias = sym ((str_eq_iff alias a).0 own) in
          (
            rw (dotted, qualifier_or) ((str_eq_iff a alias).1 same),
            found,
            rw (dotted, bare_name) (guard->>-ok (has_column schema b) _ (column schema b) e').1,
          )
      | inr other ↦ cc (rw (dotted, resolve, lookup, other) at e)
    ]
  ]

  pub resolve_all-IsOwnColumn :
      (cs : List Str) {u : Unit {0}}
      → resolve_all ((alias, schema) ∷ []) cs ≡ ok u
      → All (IsOwnColumn schema alias) cs
  unfolding resolve_all
  resolve_all-IsOwnColumn [] e = tt
  resolve_all-IsOwnColumn (c ∷ cs) e =
      let (_, first, rest) = >>=-eq-ok (discard (resolve ((alias, schema) ∷ []) c)) _ e in
      let (found, at, _) = >>=-eq-ok (resolve ((alias, schema) ∷ []) c) (λ _. ok tt) first in
      (resolve-IsOwnColumn c at, resolve_all-IsOwnColumn cs rest)

  pub resolve_order-IsOwnColumn :
      (os : List OrderByColumn) {u : Unit {0}}
      → resolve_order ((alias, schema) ∷ []) os ≡ ok u
      → All (λ o. IsOwnColumn schema alias o.column_name) os
  unfolding resolve_order
  resolve_order-IsOwnColumn [] e = tt
  resolve_order-IsOwnColumn (o ∷ os) e =
      let (_, first, rest) =
        >>=-eq-ok (discard (resolve ((alias, schema) ∷ []) o.column_name)) _ e in
      let (found, at, _) =
        >>=-eq-ok (resolve ((alias, schema) ∷ []) o.column_name) (λ _. ok tt) first in
      (resolve-IsOwnColumn o.column_name at, resolve_order-IsOwnColumn os rest)

  -- `SELECT *`: the table's columns under their own names.
  own_columns :
      (cs : List ColumnSchema)
      → ((n : Str)
          → is_found (find_column n cs) ≡ true
          → is_found (find_column n schema.columns) ≡ true)
      → All (λ c. split_dot c.name ≡ none) cs
      → All (IsOwnColumn schema alias) (map (λ c. c.name) cs)
  unfolding find_column qualifier_or bare_name has_column
  own_columns [] f h = tt
  own_columns (c ∷ cs) f h =
      let (found, at) = has_column→column schema c.name (f c.name (rw (str_eq_refl c.name) refl)) in
      (
        (rw (h.0, qualifier_or) (str_eq_refl alias), found, rw (h.0, bare_name) at),
        own_columns cs (λ n there. f n (later n there (str_eq c.name n))) h.1,
      )
    where
      later :
          (n : Str)
          → is_found (find_column n cs) ≡ true
          → (b : Bool) → is_found (if b then some c else find_column n cs) ≡ true
      later n there true = refl
      later n there false = there

  pub projection_or_all-IsOwnColumn :
      (cs : List Str)
      → IsDotless schema
      → All (IsOwnColumn schema alias) cs
      → All (IsOwnColumn schema alias) (projection_or_all cs schema)
  projection_or_all-IsOwnColumn [] dotless h = own_columns schema.columns (λ n there. there) dotless
  projection_or_all-IsOwnColumn (c ∷ cs) dotless h = h
