-- ===== src/Examples/Joined.antt =====
-- A run of a JOIN of two chunks with two.
use hega_proto.Base.{Option, false, ℕ, ◌≡◌, refl, true, List, [], ◌∷◌, codes, str_eq, split_dot}
use hega_proto.Base.Int.{pos}
use hega_proto.Base.Dict.{insert, lookup}
use hega_proto.Base.Outcome.{ok}
use hega_proto.Query.{QueryPackage, default_package}
use hega_proto.Decoder.{EncryptedResultBatch}
use hega_proto.Execution.Scan.{build_filter}
use hega_proto.Execution.Join.{ChunkMeta, Storage, uses_table, execute_join}
use hega_proto.Execution.Join.Pairs.{all_pairs, ArePairs, execute_join-ArePairs}
use hega_proto.Examples.Toy.{toy}
use hega_proto.Examples.Where.{age, people, catalog}

abbrev two_chunks : List ChunkMeta
two_chunks =
    record { partition_id = 0; chunk_id = 0 } ∷ record { partition_id = 0; chunk_id = 1 } ∷ []

abbrev pub storage : Storage toy
storage = record {
  list_chunks = λ table column.
      record { partition_id = 0; chunk_id = 0 } ∷ record { partition_id = 0; chunk_id = 1 } ∷ [];
  get_chunk = λ table column partition chunk.
      ok (record { logical_row_count = pos 1; ciphertexts = (pos chunk ∷ []) ∷ [] });
  evaluate = λ x columns. ok (pos 1 ∷ []);
  eval_mult = λ x y. x;
}

abbrev pub joined_package : QueryPackage
joined_package = record default_package {
  table_name = people;
  table_alias = b'p' ∷ [];
  joined_table_name = people;
  joined_table_alias = b'q' ∷ [];
  join_left_column = b'p' ∷ b'.' ∷ age;
  join_right_column = b'q' ∷ b'.' ∷ age;
  has_join = true;
  project_columns = (b'q' ∷ b'.' ∷ age) ∷ [];
}

-- the batch with a number, for a chunk of the right table
abbrev pair_of : ℕ → ℕ → EncryptedResultBatch
pair_of id chunk = record {
  batch_id = id;
  logical_row_count = pos 1;
  columns =
      record {
        column_name = b'q' ∷ b'.' ∷ age;
        logical_type = codes "INT64";
        string_position = 0;
        ciphertext_bytes = toy.serialize (pos chunk ∷ []);
        logical_size = toy.logical_size (pos chunk ∷ []);
      }
      ∷ [];
  selection_mask_bytes = toy.serialize (pos 1 ∷ []);
  has_mask = true;
}

abbrev pub pairs : List EncryptedResultBatch
pairs = pair_of 0 0 ∷ pair_of 1 1 ∷ pair_of 2 0 ∷ pair_of 3 1 ∷ []

execute_join-pairs : execute_join toy storage catalog 1 joined_package ≡ ok pairs
unfolding execute_join str_eq split_dot insert lookup
execute_join-pairs = refl

execute_join-ArePairs_example :
    (filter : Option toy.Expression) × (build_filter toy 1 joined_package ≡ ok filter)
    × ArePairs toy storage catalog joined_package false filter 0
        (all_pairs two_chunks two_chunks)
        pairs
unfolding uses_table
execute_join-ArePairs_example =
    execute_join-ArePairs toy storage catalog 1 joined_package pairs execute_join-pairs
