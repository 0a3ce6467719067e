-- ===== src/Examples/Scan.antt =====
-- A stream of one batch with the columns age and name of the table of Where.
use hega_proto.Base.{◌≡◌, refl, none, some, [], ◌∷◌, List, Str, str_eq, All}
use hega_proto.Base.Int.{pos}
use hega_proto.Base.Dict.{lookup}
use hega_proto.Base.Outcome.{ok}
use hega_proto.Catalog.{get_table, column}
use hega_proto.Query.{QueryPackage, default_package}
use hega_proto.Decoder.{EncryptedResultBatch}
use hega_proto.Execution.Scan.{Batch, Backend, physical_columns, build_filter, execute_scan}
use hega_proto.Execution.Scan.Answers.{Holds, Answers, execute_scan-Answers}
use hega_proto.Examples.Toy.{toy}
use hega_proto.Examples.Where.{age, name, people, catalog}

abbrev physical_projection : List Str
physical_projection = age ∷ (256 ∷ name) ∷ (257 ∷ name) ∷ (258 ∷ name) ∷ []

abbrev one_batch : Batch toy
one_batch = record {
  row_count = pos 1;
  columns =
      (age, (pos 35 ∷ []) ∷ [])
      ∷ (256 ∷ name, (pos 65 ∷ []) ∷ [])
      ∷ (257 ∷ name, (pos 108 ∷ []) ∷ [])
      ∷ (258 ∷ name, (pos 0 ∷ []) ∷ [])
      ∷ [];
  mask = some (pos 1 ∷ []);
}

columns_found : physical_columns toy catalog people (age ∷ name ∷ []) ≡ ok physical_projection
unfolding physical_columns get_table column str_eq
columns_found = refl

batch_served : All (Holds toy one_batch.columns) physical_projection
unfolding lookup str_eq
batch_served = ((_, _, refl), ((_, _, refl), ((_, _, refl), ((_, _, refl), tt))))

abbrev pub backend : Backend toy
backend = record { stream = λ table scan filter project. one_batch ∷ [] }

abbrev sent : QueryPackage
sent = record default_package {
  table_name = people;
  scan_columns = age ∷ name ∷ [];
  project_columns = age ∷ name ∷ [];
}

no_filter : build_filter toy 1 sent ≡ ok none
unfolding build_filter
no_filter = refl

execute_scan-Answers_example :
    (rs : List EncryptedResultBatch) × (execute_scan toy 1 backend catalog sent ≡ ok rs)
    × Answers toy 0 physical_projection (one_batch ∷ []) rs
execute_scan-Answers_example =
    execute_scan-Answers toy 1 backend catalog sent physical_projection physical_projection none
      columns_found no_filter columns_found (batch_served, tt)
