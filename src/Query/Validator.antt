-- ===== src/Query/Validator.antt =====
-- query/query_validator.cpp: what the server checks of a package before it executes it.
pub mod Accepts
pub mod Refuses
pub mod Ends
use hega_proto.Base.{
  ℕ, zero, suc, ◌+◌, ◌-◌, Bool, true, false, not, ◌&&◌, ◌||◌, none, some, List, [], ◌∷◌, ◌++◌, Str,
  codes, str_eq, to_string, bare_name, qualifier_or, get_elem?, length, leb, ◌==◌, if◌then◌else◌,
}
use hega_proto.Base.Outcome.{Result, ok, err, validation_error, exhausted, ◌>>=◌, ◌>>◌, guard}
use hega_proto.Catalog.{
  Catalog, TableSchema, column, has_column, get_table, has_table, is_string_type, is_found,
}
use hega_proto.Query.{
  EncryptedLiteralEntry, PredNodeKind, PredNode, column_ref, literal_ref, equal, not_equal,
  greater_than, less_than, greater_equal, less_equal, and_, or_, not_, string_equal,
  string_not_equal, QueryPackage, to_u32, uint32_max, find_literal,
}

abbrev pub invalid {ℓ} : {A : Type ℓ} → Str → Result A
invalid message = err (validation_error message)

-- `pkg.hasJoin && alias == pkg.joinedTableAlias ? getTable(pkg.joinedTableName) : schema`
unfoldable pub target_table : Catalog → QueryPackage → TableSchema → Str → Result TableSchema
unfolding qualifier_or
target_table catalog pkg schema name =
    if pkg.has_join && str_eq (qualifier_or name pkg.table_alias) pkg.joined_table_alias
    then get_table catalog pkg.joined_table_name
    else ok schema

-- a column reference of the projection or of the predicate
unfoldable pub check_column : Catalog → QueryPackage → TableSchema → Str → Str → Result (Unit {0})
unfolding target_table bare_name
check_column catalog pkg schema name message = do
  t ← target_table catalog pkg schema name
  guard (has_column t (bare_name name)) (validation_error message)

unfoldable pub check_scan_columns : QueryPackage → TableSchema → List Str → Result (Unit {0})
check_scan_columns pkg schema [] = ok tt
check_scan_columns pkg schema (c ∷ cs) = do
  guard (has_column schema c) (
      validation_error
        (codes "Unknown scan column '" ++ c ++ codes "' in table '" ++ pkg.table_name ++ codes "'"))
  check_scan_columns pkg schema cs

unfoldable pub check_project_columns :
    Catalog → QueryPackage → TableSchema → List Str → Result (Unit {0})
unfolding check_column
check_project_columns catalog pkg schema [] = ok tt
check_project_columns catalog pkg schema (c ∷ cs) = do
  check_column catalog pkg schema c
      (codes "Unknown project column '" ++ c ++ codes "' in table '" ++ pkg.table_name ++ codes "'")
  check_project_columns catalog pkg schema cs

abbrev pub is_empty {ℓ} : {A : Type ℓ} → List A → Bool
is_empty [] = true
is_empty (_ ∷ _) = false

unfoldable pub check_literals : List EncryptedLiteralEntry → Result (Unit {0})
check_literals [] = ok tt
check_literals (l ∷ ls) = do
  guard (not (is_empty l.ciphertext_bytes)) (
      validation_error
        (codes "Encrypted literal " ++ to_string l.id ++ codes " has empty ciphertext"))
  check_literals ls

-- the search of the inner loop for one character's literal
unfoldable pub has_char_literal : ℕ → List EncryptedLiteralEntry → Bool
has_char_literal id [] = false
has_char_literal id (l ∷ ls) =
    (l.id == id && str_eq l.logical_type (codes "STRING_CHAR") && not (is_empty l.ciphertext_bytes))
    || has_char_literal id ls

-- the loop over the positions of a string predicate, from `i` on, with `rounds` left
unfoldable pub check_chars : ℕ → ℕ → PredNode → List EncryptedLiteralEntry → Result (Unit {0})
unfolding has_char_literal
check_chars zero i node literals = ok tt
check_chars (suc rounds) i node literals = do
  guard (has_char_literal (to_u32 (node.literal_id + i)) literals)
      (validation_error (codes "String predicate references missing literal"))
  check_chars rounds (i + 1) node literals

-- the cases `StringEqual` and `StringNotEqual`
unfoldable pub check_string_node : QueryPackage → TableSchema → PredNode → Result (Unit {0})
unfolding check_chars
check_string_node pkg schema node = do
  guard (not (is_empty node.column_name || node.string_width == 0))
      (validation_error (codes "String predicate is missing metadata"))
  c ← column schema node.column_name
  guard (is_string_type c.type && node.string_width == c.max_length)
      (validation_error (codes "Invalid string predicate column: " ++ node.column_name))
  check_chars node.string_width 0 node pkg.encrypted_literals

-- the case `LiteralRef`
unfoldable pub check_literal_ref : QueryPackage → PredNode → Result (Unit {0})
check_literal_ref pkg node =
    guard (is_found (find_literal node.literal_id pkg.encrypted_literals)) (
      validation_error
        (codes "Predicate references unknown literal id: " ++ to_string node.literal_id))

-- The three shapes of the switch in `validatePredTree`, given the recursive call.
abbrev pub check_binary : Str → PredNode → (ℕ → Result (Unit {0})) → Result (Unit {0})
check_binary message node visit = do
  guard (not (node.left == uint32_max || node.right == uint32_max)) (validation_error message)
  visit node.left
  visit node.right

abbrev pub check_unary : PredNode → (ℕ → Result (Unit {0})) → Result (Unit {0})
check_unary node visit = do
  guard (not (node.left == uint32_max))
      (validation_error (codes "NOT predicate node missing child"))
  visit node.left

unfoldable pub check_node :
    Catalog
    → QueryPackage
    → TableSchema
    → PredNodeKind
    → PredNode
    → (ℕ → Result (Unit {0}))
    → Result (Unit {0})
unfolding check_column check_literal_ref check_string_node
check_node catalog pkg schema column_ref node visit =
    check_column catalog pkg schema node.column_name
      (codes "Unknown column in predicate: " ++ node.column_name)
check_node catalog pkg schema literal_ref node visit = check_literal_ref pkg node
check_node catalog pkg schema string_equal node visit = check_string_node pkg schema node
check_node catalog pkg schema string_not_equal node visit = check_string_node pkg schema node
check_node catalog pkg schema and_ node visit =
    check_binary (codes "Boolean predicate node missing children") node visit
check_node catalog pkg schema or_ node visit =
    check_binary (codes "Boolean predicate node missing children") node visit
check_node catalog pkg schema not_ node visit = check_unary node visit
check_node catalog pkg schema _ node visit =
    check_binary (codes "Binary predicate node missing children") node visit

-- `QueryValidator::validatePredTree`. The source recurses with no bound; `exhausted` says that the
-- fuel, the depth of the recursion that is followed, ran out.
unfoldable pub validate_pred_tree : ℕ → Catalog → QueryPackage → TableSchema → ℕ → Result (Unit {0})
unfolding check_node
validate_pred_tree zero catalog pkg schema idx = err exhausted
validate_pred_tree (suc fuel) catalog pkg schema idx =
    let visit = validate_pred_tree fuel catalog pkg schema in
    elim (get_elem? pkg.predicate_nodes idx) [
      | none ↦ invalid (codes "Predicate node index out of range: " ++ to_string idx)
      | some node ↦ check_node catalog pkg schema node.kind node visit
    ]

-- `if (!pkg.predicateNodes.empty()) validatePredTree(root)`
unfoldable pub check_predicate : ℕ → Catalog → QueryPackage → TableSchema → Result (Unit {0})
unfolding validate_pred_tree
check_predicate fuel catalog pkg schema =
    if is_empty pkg.predicate_nodes
    then ok tt
    else validate_pred_tree fuel catalog pkg schema (to_u32 (length pkg.predicate_nodes - 1))

-- `QueryValidator::validate`; `server_param_set` is `serverCtx_.paramSetId()`.
unfoldable pub validate : ℕ → Catalog → Str → QueryPackage → Result (Unit {0})
unfolding check_scan_columns check_project_columns check_literals check_predicate
validate fuel catalog server_param_set pkg = do
  guard (pkg.protocol_version == 2)
      (validation_error (codes "Unsupported protocol version: " ++ to_string pkg.protocol_version))
  guard (has_table catalog pkg.table_name)
      (validation_error (codes "Unknown table: " ++ pkg.table_name))
  schema ← get_table catalog pkg.table_name
  check_scan_columns pkg schema pkg.scan_columns
  check_project_columns catalog pkg schema pkg.project_columns
  guard (str_eq pkg.fhe_params.param_set_id server_param_set) (
      validation_error (
        codes "FHE parameter set mismatch: client='"
        ++ pkg.fhe_params.param_set_id
        ++ codes "' server='"
        ++ server_param_set
        ++ codes "'"))
  check_literals pkg.encrypted_literals
  check_predicate fuel catalog pkg schema
