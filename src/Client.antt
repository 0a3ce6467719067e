-- ===== src/Client.antt =====
-- client/client_main.cpp: the loop over the lines of the terminal, the test for the end of a statement,
-- and the pipeline of one query. What is printed is a value, `Output`; measurements are left out. The
-- transport is the parameter `send`, and the ids of `makeQueryId`, which are random, are given.
pub mod Terminator
use hega_proto.Base.{
  ℕ, ◌+◌, Bool, true, false, not, ◌&&◌, ◌||◌, Option, none, some, List, [], ◌∷◌, ◌++◌, Str, codes,
  str_eq, is_space, ◌==◌, if◌then◌else◌,
}
use hega_proto.Base.Outcome.{
  Result, ok, err, Error, parse_error, semantic_error, validation_error, runtime_error, exhausted,
  ◌>>=◌,
}
use hega_proto.Ast.{SelectStatement}
use hega_proto.Catalog.{Catalog}
use hega_proto.Engine.{Engine}
use hega_proto.Parser.{parse}
use hega_proto.Semantic.{analyze}
use hega_proto.Planner.{PhysicalPlan, logical_plan, physical_plan}
use hega_proto.Query.{FheParamsMeta, default_params, QueryPackage}
use hega_proto.Query.Encryptor.{encrypt_query}
use hega_proto.Decoder.{EncryptedResultBatch, ResultRow, decode, apply_sort_and_limit}
use hega_proto.Transport.Protocol.{QueryResponse, what}

-- the loop of `hasStatementTerminator`: whether the text ends in a string, from `inString` on
unfoldable pub in_string : Bool → Str → Bool
in_string inside [] = inside
in_string inside (c ∷ []) = if not (c == b'\'') then inside else not inside
in_string inside (c ∷ d ∷ ds) =
    let next = in_string inside (d ∷ ds) in
    let escaped = in_string inside ds in
    let toggled = in_string (not inside) (d ∷ ds) in
    if not (c == b'\'') then next else if inside && (d == b'\'') then escaped else toggled

-- `sql.find(c) != std::string::npos`
unfoldable pub contains : ℕ → Str → Bool
contains c [] = false
contains c (d ∷ ds) = d == c || contains c ds

-- `hasStatementTerminator`
unfoldable pub has_statement_terminator : Str → Bool
unfolding in_string contains
has_statement_terminator sql = not (in_string false sql) && contains b';' sql

-- what a query or a line prints: a message behind "Error: ", or the rows under their columns
pub data Output : Type 0 where
  reported : Str → Output
  shown : List Str → List ResultRow → Output

-- a `try` block whose handler prints the message of an exception that it catches, and returns
abbrev pub reporting :
    {A : Type 0} → (Error → Option Str) → Result A → (A → Result Output) → Result Output
reporting caught (err thrown) next = elim (caught thrown) [
  | none ↦ err thrown
  | some message ↦ ok (reported message)
]
reporting caught (ok a) next = next a

-- `catch (ParseError& e)`
abbrev pub on_parse_error : Error → Option Str
on_parse_error (parse_error m) = some m
on_parse_error _ = none

-- `catch (SemanticError& e)`
abbrev pub on_semantic_error : Error → Option Str
on_semantic_error (semantic_error m) = some m
on_semantic_error _ = none

-- `catch (std::exception& e)`, around the transport
abbrev pub on_network_error : Error → Option Str
on_network_error exhausted = none
on_network_error thrown = some (codes "Network: " ++ what thrown)

-- the columns that are printed
abbrev pub display_columns : SelectStatement → PhysicalPlan → List Str
display_columns stmt plan = elim stmt.projections [ [] ↦ plan.project_columns | c ∷ cs ↦ c ∷ cs ]

module _ (e : Engine) (catalog : Catalog) where
  abbrev pub client_meta : FheParamsMeta
  client_meta = record default_params {
    param_set_id = e.param_set_id;
    slot_count = e.slot_count;
    key_id = codes "key-0";
  }

  -- the loop that decrypts the batches
  unfoldable pub decode_batches : List EncryptedResultBatch → Result (List ResultRow)
  unfolding decode
  decode_batches [] = ok []
  decode_batches (b ∷ bs) = do rows ← decode e b; more ← decode_batches bs; ok (rows ++ more)

  -- `executeQuery` behind the transport
  unfoldable pub show_response :
      SelectStatement → PhysicalPlan → QueryResponse × List EncryptedResultBatch → Result Output
  unfolding decode_batches apply_sort_and_limit
  show_response stmt plan (response, batches) =
      let rows : Result Output = (do
        all ← decode_batches batches
        ok (
            shown (display_columns stmt plan)
              (apply_sort_and_limit all stmt.order_by_columns stmt.limit_count))) in
      if response.success then rows else ok (reported (codes "Server: " ++ response.error_message))

  -- `executeQuery`
  unfoldable pub execute_query :
      (QueryPackage → Result (QueryResponse × List EncryptedResultBatch))
      → Str
      → Str
      → Result Output
  unfolding parse analyze logical_plan physical_plan encrypt_query show_response
  execute_query send query_id sql = reporting on_parse_error (parse sql) λ stmt.
      reporting on_semantic_error (analyze catalog stmt) λ schema. do
        plan ← (logical_plan stmt schema >>= physical_plan)
        package_ ← encrypt_query e stmt plan catalog client_meta
        reporting on_network_error (send (record package_ { query_id = query_id }))
            (show_response stmt plan)

-- the loop that takes the spaces from the end of a line
unfoldable pub strip : Str → Str
unfolding is_space
strip [] = []
strip (c ∷ cs) =
    let rest = strip cs in
    elim rest [ [] ↦ (if is_space c then [] else c ∷ []) | d ∷ ds ↦ c ∷ d ∷ ds ]

-- one round of the loop of `main`: the end, the text to go on with, or what was printed for a
-- statement, after which the text is empty
pub data Round : Type 0 where
  stopped : Round
  waiting : Str → Round
  answered : Output → Round

-- `sql += (sql.empty() ? "" : " ") + line`
abbrev pub extended : Str → Str → Str
extended [] line = line
extended (c ∷ cs) line = (c ∷ cs) ++ (b' ' ∷ line)

module _ (query : Str → Result Output) where
  unfoldable pub read_line : Str → Str → Result Round
  unfolding strip str_eq has_statement_terminator parse
  read_line sql line =
      let l = strip line in
      let text = extended sql l in
      let run : Result Round = (do
        out ← reporting on_parse_error (do stmt ← parse text; query text) (λ out. ok out)
        ok (answered out)) in
      if str_eq l (codes "exit") || str_eq l (codes "quit")
      then ok stopped
      else if str_eq l []
      then ok (waiting sql)
      else if has_statement_terminator text
      then run
      else ok (waiting text)
