-- ===== src/Server/Admitted.antt =====
-- What the server executes has passed its checks.
use hega_proto.Base.{ℕ, ◌≡◌, true, List, [], ◌∷◌, Str, All, ◌==◌, ==_iff, str_eq, str_eq_iff}
use hega_proto.Base.Outcome.{ok, >>=-eq-ok, guard->>-ok, rest-ok}
use hega_proto.Catalog.{Catalog, TableSchema, get_table, has_column}
use hega_proto.Engine.{Engine}
use hega_proto.Query.{QueryPackage}
use hega_proto.Query.Validator.{check_scan_columns, check_project_columns, validate}
use hega_proto.Decoder.{EncryptedResultBatch}
use hega_proto.Execution.Scan.{Backend}
use hega_proto.Execution.Join.{Storage}
use hega_proto.Server.{handler}

-- A package of version 2, for the server's parameters, of a table of the catalog and some of its
-- columns.
abbrev pub IsAdmissible : Catalog → Str → QueryPackage → Type 0
IsAdmissible catalog param_set pkg =
    (pkg.protocol_version ≡ 2)
    × (pkg.fhe_params.param_set_id ≡ param_set)
    × (schema : TableSchema) × (get_table catalog pkg.table_name ≡ ok schema)
    × All (λ c. has_column schema c ≡ true) pkg.scan_columns

check_scan_columns-All :
    (pkg : QueryPackage) (schema : TableSchema) (cs : List Str) {u : Unit {0}}
    → check_scan_columns pkg schema cs ≡ ok u
    → All (λ c. has_column schema c ≡ true) cs
unfolding check_scan_columns
check_scan_columns-All pkg schema [] returned = tt
check_scan_columns-All pkg schema (c ∷ cs) returned =
    let (known, rest) = guard->>-ok (has_column schema c) _ _ returned in
    (known, check_scan_columns-All pkg schema cs rest)

validate-IsAdmissible :
    (fuel : ℕ) (catalog : Catalog) (param_set : Str) (pkg : QueryPackage) {u : Unit {0}}
    → validate fuel catalog param_set pkg ≡ ok u
    → IsAdmissible catalog param_set pkg
unfolding validate
validate-IsAdmissible fuel catalog param_set pkg returned =
    let (version, after_version) = guard->>-ok (pkg.protocol_version == 2) _ _ returned in
    let (known, after_table) = guard->>-ok _ _ _ after_version in
    let (schema, found, after_schema) =
      >>=-eq-ok (get_table catalog pkg.table_name) _ after_table in
    let (u, scanned, after_scan) =
      >>=-eq-ok (check_scan_columns pkg schema pkg.scan_columns) _ after_schema in
    let after_project =
      rest-ok (check_project_columns catalog pkg schema pkg.project_columns) _ after_scan in
    let (same, after_params) =
      guard->>-ok (str_eq pkg.fhe_params.param_set_id param_set) _ _ after_project in
    (
      (==_iff pkg.protocol_version 2).0 version,
      (str_eq_iff pkg.fhe_params.param_set_id param_set).0 same,
      schema,
      found,
      check_scan_columns-All pkg schema pkg.scan_columns scanned,
    )

-- If the handler returns batches for a package, the package has protocol version 2 and the server's
-- parameter set, its table is in the catalog, and each column that it scans is one of that table.
pub handler-IsAdmissible :
    (e : Engine) (backend : Backend e) (storage : Storage e) (catalog : Catalog) (fuel : ℕ)
    (pkg : QueryPackage) (batches : List EncryptedResultBatch)
    → handler e backend storage catalog fuel pkg ≡ ok batches
    → IsAdmissible catalog e.param_set_id pkg
unfolding handler
handler-IsAdmissible e backend storage catalog fuel pkg batches returned =
    let (u, valid, executed) = >>=-eq-ok (validate fuel catalog e.param_set_id pkg) _ returned in
    validate-IsAdmissible fuel catalog e.param_set_id pkg valid
