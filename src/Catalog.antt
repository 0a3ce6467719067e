-- ===== src/Catalog.antt =====
-- include/proto2/catalog.h and catalog/catalog.cpp: the registry of table schemas.
pub mod Laws
use hega_proto.Base.{
  ℕ, ◌+◌, ◌%◌, ◌^◌, Bool, true, false, ◌&&◌, Option, none, some, List, [], ◌∷◌, ◌++◌, Str, codes,
  str_eq, if◌then◌else◌,
}
use hega_proto.Base.Dict.{Dict, lookup, insert}
use hega_proto.Base.Outcome.{Result, ok, err, runtime_error, ◌>>=◌}

pub data DataType : Type 0 where
  int64 bool string : DataType

abbrev pub is_int64 : DataType → Bool
is_int64 int64 = true
is_int64 _ = false

abbrev pub is_string_type : DataType → Bool
is_string_type string = true
is_string_type _ = false

-- `a == b` on the enumeration
abbrev pub type_eq : DataType → DataType → Bool
type_eq int64 int64 = true
type_eq bool bool = true
type_eq string string = true
type_eq _ _ = false

pub record ColumnSchema : Type 0 where
  pub name : Str
  pub type : DataType
  pub max_length : ℕ

pub record TableSchema : Type 0 where
  pub table_id : Str
  pub columns : List ColumnSchema

unfoldable pub find_column : Str → List ColumnSchema → Option ColumnSchema
find_column n [] = none
find_column n (c ∷ cs) = if str_eq c.name n then some c else find_column n cs

abbrev pub is_found {ℓ} : {A : Type ℓ} → Option A → Bool
is_found none = false
is_found (some _) = true

-- `TableSchema::hasColumn`
unfoldable pub has_column : TableSchema → Str → Bool
unfolding find_column
has_column t n = is_found (find_column n t.columns)

abbrev pub or_throw {ℓ} : {A : Type ℓ} → Option A → Str → Result A
or_throw none message = err (runtime_error message)
or_throw (some a) message = ok a

-- `TableSchema::column`
unfoldable pub column : TableSchema → Str → Result ColumnSchema
unfolding find_column
column t n = or_throw (find_column n t.columns) (codes "Column not found: " ++ n)

pub record Catalog : Type 0 where
  pub tables : Dict TableSchema
  pub version : ℕ

-- `Catalog::registerTable`
unfoldable pub register_table : Catalog → TableSchema → Catalog
unfolding insert
register_table c t = record c { tables = insert t.table_id t c.tables }

-- `Catalog::hasTable`
unfoldable pub has_table : Catalog → Str → Bool
unfolding lookup
has_table c id = is_found (lookup id c.tables)

-- `Catalog::getTable`
unfoldable pub get_table : Catalog → Str → Result TableSchema
unfolding lookup
get_table c id = or_throw (lookup id c.tables) (codes "Table not found: " ++ id)

-- `Catalog::hasColumn`; `getTable` cannot throw behind `hasTable`
unfoldable pub catalog_has_column : Catalog → Str → Str → Bool
unfolding lookup has_column
catalog_has_column c table n = elim (lookup table c.tables) [
  | none ↦ false
  | some t ↦ has_column t n
]

-- `Catalog::bumpVersion`, on a `uint32_t`
unfoldable pub bump_version : Catalog → Catalog
bump_version c = record c { version = (c.version + 1) % 2 ^ 32 }

-- `makeEmployeesCatalog`
unfoldable pub make_employees_catalog : Catalog
unfolding register_table codes str_eq
make_employees_catalog =
    register_table
      (register_table (record { tables = []; version = 1 })
        (record {
          table_id = codes "employees";
          columns =
              record { name = codes "id"; type = int64; max_length = 0 }
              ∷ record { name = codes "age"; type = int64; max_length = 0 }
              ∷ record { name = codes "salary"; type = int64; max_length = 0 }
              ∷ record { name = codes "department_id"; type = int64; max_length = 0 }
              ∷ record { name = codes "name"; type = string; max_length = 16 }
              ∷ [];
        }))
      (record {
        table_id = codes "departments";
        columns =
            record { name = codes "id"; type = int64; max_length = 0 }
            ∷ record { name = codes "department_name"; type = string; max_length = 16 }
            ∷ [];
      })
