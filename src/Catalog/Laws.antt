-- ===== src/Catalog/Laws.antt =====
-- Laws of the column lookup.
use hega_proto.Base.{◌≡◌, refl, true, Option, none, some, arith, Str}
use hega_proto.Base.Outcome.{ok}
use hega_proto.Catalog.{
  TableSchema, ColumnSchema, has_column, column, find_column, is_found, or_throw,
}

pub is_found→or_throw {ℓ} :
    {A : Type ℓ} (o : Option A) (message : Str)
    → is_found o ≡ true
    → (a : A) × (or_throw o message ≡ ok a)
is_found→or_throw none message h = cc
is_found→or_throw (some a) message h = (a, refl)

-- A column is found exactly when `has_column` says so.
pub has_column→column :
    (t : TableSchema) (n : Str) → has_column t n ≡ true → (c : ColumnSchema) × (column t n ≡ ok c)
unfolding has_column column
has_column→column t n h = is_found→or_throw (find_column n t.columns) _ h

pub column→has_column :
    (t : TableSchema) (n : Str) {c : ColumnSchema} → column t n ≡ ok c → has_column t n ≡ true
unfolding has_column column
column→has_column t n h = ground arith
