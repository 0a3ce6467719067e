-- ===== src/Examples/Where.antt =====
-- SELECT age FROM people p WHERE (name = 'Al' AND age >= 30) OR NOT (age = dept) ORDER BY age: the
-- statement from the client's tree to the server's mask, on the row with age 35 and name Al.
use hega_proto.Base.{
  ◌<◌, ◌⊎◌, List, Option, none, ℕ, ◌+◌, ◌-◌, ◌≤◌, ◌≡◌, refl, sym, ◌∙◌, true, false, some, inl, inr,
  [], ◌∷◌, arith, Str, str_eq, str_eq_iff, split_dot, bare_name, length, All, leb, if◌then◌else◌,
  Bool-cases,
}
use hega_proto.Base.Int.{pos}
use hega_proto.Base.Outcome.{ok, ok_inj}
use hega_proto.Ast.{
  equal, greater_equal, and_, or_, AstExpr, column_ref, int_literal, string_literal, comparison,
  connective, not_expr, OrderByColumn, ascending, SelectStatement,
}
use hega_proto.Catalog.{
  Catalog, ColumnSchema, TableSchema, int64, string, column, has_column, get_table, is_string_type,
}
use hega_proto.Planner.{PhysicalPlan, contains}
use hega_proto.Planner.Columns.{columns_of}
use mathlib.Core.Path.{subst}
use hega_proto.Query.{QueryPackage, default_params}
use hega_proto.Query.Encryptor.{char_or_zero, encrypt_query, result_schema}
use hega_proto.Query.Encryptor.Represents.{node_count, literal_count}
use hega_proto.Query.Validator.{check_predicate}
use hega_proto.Query.Validator.Accepts.{HasPlainColumns}
use hega_proto.Sql.{Row, holds, IsCharacter, IsStringTest}
use hega_proto.Engine.{bit, max_value}
use hega_proto.Execution.Predicate.{build_expression}
use hega_proto.Execution.Stored.{IsStored, IsStoredText, IsPlainClause}
use hega_proto.Execution.Refinement.{
  root_of, IsSupported, encrypted_where_correct, encrypted_where_validates,
}
use hega_proto.Examples.Toy.{toy, toy_laws}

abbrev pub age : Str
age = b'a' ∷ b'g' ∷ b'e' ∷ []

abbrev pub dept : Str
dept = b'd' ∷ b'e' ∷ b'p' ∷ b't' ∷ []

abbrev pub name : Str
name = b'n' ∷ b'a' ∷ b'm' ∷ b'e' ∷ []

abbrev pub al : Str
al = b'A' ∷ b'l' ∷ []

abbrev pub people : Str
people = b'p' ∷ b'e' ∷ b'o' ∷ []

abbrev pub age_column : ColumnSchema
age_column = record { name = age; type = int64; max_length = 0 }

abbrev pub name_column : ColumnSchema
name_column = record { name = name; type = string; max_length = 3 }

abbrev pub schema : TableSchema
schema = record {
  table_id = people;
  columns = age_column ∷ record { name = dept; type = int64; max_length = 0 } ∷ name_column ∷ [];
}

abbrev pub catalog : Catalog
catalog = record { tables = (people, schema) ∷ []; version = 1 }

abbrev pub clause_tree : AstExpr
clause_tree =
    connective or_
      (connective and_ (comparison equal (column_ref name) (string_literal al))
        (comparison greater_equal (column_ref age) (int_literal (pos 30))))
      (not_expr (comparison equal (column_ref age) (column_ref dept)))

abbrev pub by_age : OrderByColumn
by_age = record { column_name = age; direction = ascending }

abbrev pub statement : SelectStatement
statement = record {
  projections = age ∷ [];
  table_name = people;
  table_alias = b'p' ∷ [];
  joins = [];
  where_clause = some clause_tree;
  order_by_columns = by_age ∷ [];
  limit_count = pos 1;
}

abbrev pub plan : PhysicalPlan
plan = record {
  table_name = people;
  table_alias = b'p' ∷ [];
  joined_table_name = [];
  joined_table_alias = [];
  join_left_column = [];
  join_right_column = [];
  has_join = false;
  scan_columns = name ∷ age ∷ dept ∷ [];
  project_columns = age ∷ [];
  has_filter = true;
}

abbrev pub row : Row
row = record { number = λ n. if str_eq n age then 35 else 5; text = λ n. al }

-- the three physical columns of the name, and the columns age and dept
abbrev pub batch : Str → Option ℕ
batch [] = none
batch (c ∷ n) =
    if leb 256 c
    then (if str_eq n name then some (char_or_zero al (c - 256)) else none)
    else if str_eq (c ∷ n) age
    then some 35
    else if str_eq (c ∷ n) dept
    then some 5
    else none

al_ascii : All IsCharacter al
al_ascii = ((omega arith, omega arith), ((omega arith, omega arith), tt))

All-contains : (P : Str → Type 0) (xs : List Str) (n : Str) → All P xs → contains n xs ≡ true → P n
unfolding contains
All-contains P [] n h there = cc
All-contains P (x ∷ xs) n h there = elim (Bool-cases (str_eq x n)) [
  | inl same ↦ subst P ((str_eq_iff x n).0 same) h.0
  | inr other ↦ All-contains P xs n h.1 (rw (other, contains) at there)
]

abbrev HasNumber : Str → Type 0
HasNumber n =
    (c : ColumnSchema)
    → column schema n ≡ ok c
    → is_string_type c.type ≡ false
    → (batch n ≡ some (row.number n)) × (row.number n ≤ max_value)

abbrev HasText : Str → Type 0
HasText n =
    (c : ColumnSchema)
    → column schema n ≡ ok c
    → is_string_type c.type ≡ true
    → IsStoredText toy c n (row.text n) batch

name_known : {c : ColumnSchema} → column schema name ≡ ok c → name_column ≡ c
unfolding column str_eq
name_known found = ok_inj found

int_known :
    (n : Str) {c : ColumnSchema}
    → column schema n ≡ ok (record { name = n; type = int64; max_length = 0 })
    → column schema n ≡ ok c
    → is_string_type c.type ≡ true
    → ⊥
int_known n here found typed = cc (
    subst (λ (d : ColumnSchema). is_string_type d.type ≡ true) (sym (ok_inj (sym here ∙ found)))
      typed)

name_numbers : HasNumber name
name_numbers c found typed =
    cc (subst (λ (d : ColumnSchema). is_string_type d.type ≡ false) (sym (name_known found)) typed)

age_numbers : HasNumber age
unfolding str_eq
age_numbers c found typed = (refl, omega arith)

dept_numbers : HasNumber dept
unfolding str_eq
dept_numbers c found typed = (refl, omega arith)

name_stored : IsStoredText toy name_column name al batch
unfolding str_eq
name_stored = (
  omega arith,
  al_ascii,
  λ k lt.
      let high : leb 256 (256 + k) ≡ true = ground arith in
      let back : 256 + k - 256 ≡ k = omega arith in rw (high, back) refl,
)

name_text : HasText name
name_text c found typed =
    subst (λ d. IsStoredText toy d name al batch) (name_known found) name_stored

age_text : HasText age
unfolding column str_eq
age_text c found typed = absurd (int_known age refl found typed)

dept_text : HasText dept
unfolding column str_eq
dept_text c found typed = absurd (int_known dept refl found typed)

pub row-IsStored : IsStored toy schema (columns_of clause_tree) row batch
row-IsStored = record {
  number = λ n c scanned.
      All-contains HasNumber (columns_of clause_tree) n
        (name_numbers, (age_numbers, (age_numbers, (dept_numbers, tt)))) scanned c;
  text = λ n c scanned.
      All-contains HasText (columns_of clause_tree) n
        (name_text, (age_text, (age_text, (dept_text, tt)))) scanned c;
}

pub clause-IsPlainClause : IsPlainClause schema clause_tree
unfolding split_dot column str_eq
clause-IsPlainClause = (
  (refl, ((refl, age_column, refl, refl), tt)),
  ((refl, age_column, refl, refl), (refl, _, refl, refl)),
)

name_test : IsStringTest schema equal name al
unfolding column bare_name split_dot str_eq
name_test = record {
  column_schema = name_column;
  found = refl;
  typed = refl;
  op_ok = inl refl;
  fits = omega arith;
  width_pos = omega arith;
  width_u32 = omega arith;
  ascii = al_ascii;
}

pub clause-IsSupported : IsSupported toy schema clause_tree
unfolding node_count literal_count column bare_name split_dot str_eq
clause-IsSupported = record {
  predicate = ((name_test, (tt, omega arith)), (tt, tt));
  nodes_fit = omega arith;
  literals_fit = omega arith;
}

table_found : get_table catalog people ≡ ok schema
unfolding get_table str_eq
table_found = refl

age_resolved : result_schema toy catalog plan (age ∷ []) ≡ ok (age_column ∷ [])
unfolding result_schema get_table column str_eq bare_name split_dot
age_resolved = refl

clause_plain : HasPlainColumns schema clause_tree
unfolding bare_name split_dot str_eq has_column
clause_plain =
    ((((refl, refl, refl), tt), ((refl, refl, refl), tt)), ((refl, refl, refl), (refl, refl, refl)))

clause_scanned : All (λ c. contains c (columns_of clause_tree) ≡ true) (columns_of clause_tree)
unfolding contains str_eq
clause_scanned = (refl, (refl, (refl, (refl, tt))))

encrypted_where_correct_example :
    (pkg : QueryPackage) × (encrypt_query toy statement plan catalog default_params ≡ ok pkg)
    × (mask : toy.Expression) × (build_expression toy (length pkg.predicate_nodes) pkg (root_of pkg)
        ≡ ok mask)
    × ((12 < toy.depth mask) ⊎ (toy.evaluate batch mask ≡ some (bit (holds row clause_tree))))
encrypted_where_correct_example =
    encrypted_where_correct toy statement plan catalog default_params schema clause_tree
      (age_column ∷ []) refl table_found age_resolved clause-IsSupported toy_laws
      (columns_of clause_tree) clause-IsPlainClause clause_scanned row batch row-IsStored

encrypted_where_validates_example :
    (pkg : QueryPackage) × (encrypt_query toy statement plan catalog default_params ≡ ok pkg)
    × (check_predicate (length pkg.predicate_nodes) catalog pkg schema ≡ ok tt)
encrypted_where_validates_example =
    encrypted_where_validates toy statement plan catalog default_params schema clause_tree
      (age_column ∷ []) refl table_found age_resolved clause-IsSupported toy_laws refl clause_plain
