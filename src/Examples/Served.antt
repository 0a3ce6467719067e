-- ===== src/Examples/Served.antt =====
-- A request with a JOIN that the server answers.
use hega_proto.Base.{◌≡◌, refl, [], ◌∷◌, str_eq, split_dot, bare_name, qualifier_or}
use hega_proto.Base.Dict.{insert, lookup}
use hega_proto.Base.Outcome.{ok}
use hega_proto.Catalog.{has_table, has_column}
use hega_proto.Query.{QueryPackage, default_params}
use hega_proto.Server.{handler}
use hega_proto.Server.Admitted.{IsAdmissible, handler-IsAdmissible}
use hega_proto.Examples.Toy.{toy}
use hega_proto.Examples.Where.{age, catalog}
use hega_proto.Examples.Scan.{backend}
use hega_proto.Examples.Joined.{storage, joined_package, pairs}

abbrev request : QueryPackage
request = record joined_package {
  scan_columns = age ∷ [];
  fhe_params = record default_params { param_set_id = toy.param_set_id };
}

handler-pairs : handler toy backend storage catalog 1 request ≡ ok pairs
unfolding handler str_eq split_dot bare_name qualifier_or insert lookup has_table has_column
handler-pairs = refl

handler-IsAdmissible_example : IsAdmissible catalog (b'P' ∷ []) request
handler-IsAdmissible_example =
    handler-IsAdmissible toy backend storage catalog 1 request pairs handler-pairs
