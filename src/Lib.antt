-- ===== src/Lib.antt =====
-- Hega_Proto2: SELECT statements over encrypted tables. A client parses a statement, checks it
-- against the catalog, plans it, encrypts the literals of its WHERE clause and sends the package to a
-- server, which validates the package, evaluates the predicate on ciphertexts and returns encrypted
-- columns with an encrypted mask; the client decrypts them, sorts and limits the rows.
--
-- The files, the code they model, and how they interact:
--   Base       texts, lists, integers, exceptions as values (Base/Outcome) and maps (Base/Dict)
--   Ast        include/proto2/ast.h; Ast/Print: both `toSQL` of ast/ast.cpp
--   Catalog    include/proto2/catalog.h and catalog/catalog.cpp: `TableSchema`, `Catalog`
--   Engine     proto1, the FHE library that this repository calls, as a record of operations and a
--              record of laws; `ClientCryptoContext::encryptScalar` of crypto/crypto_context.cpp
--   Parser     parser/parser.cpp: statements; Parser/Lexer: `skipWS` to `expectChar`; Parser/Expr:
--              `parseExpr` and what it calls; its result is what Semantic is called with
--   Semantic   semantic/semantic.cpp: `analyze`, `validateExpr`, and `validateComparison` in
--              Semantic/Compare; its result is what Planner is called with
--   Planner    planner/planner.cpp: `LogicalPlanner::plan`, `PhysicalPlanner::plan`
--   Query      include/proto2/query_package.h; Query/Encryptor: query/query_encryptor.cpp, a plan and
--              a statement to a package; Query/Validator: query/query_validator.cpp, on the server
--   Execution  execution/query_executor.cpp: `buildExpression`, from the package's nodes to an
--              expression of proto1; Execution/Scan: `execute` for one table, over the stream of
--              batches of proto1's operators as a parameter; Execution/Join: `execute` for a JOIN,
--              over proto1's storage and evaluation as a parameter
--   Decoder    result/result_decoder.cpp and include/proto2/result.h: `decode`, `applySortAndLimit`
--   Serialization  query/query_package.cpp and result/result.cpp: packages and batches as bytes, over
--              the archives of cereal as a parameter
--   Transport  transport/transport.cpp: `sendFrame` and `recvFrame`, with their loops over `read` and
--              `write`; Transport/Protocol: `sendQuery` and `handleClient` over frames, with
--              Serialization for what is in them
--   Server     server/server_main.cpp: the handler of a request, Query/Validator before the whole of
--              `execute`
--   Client     client/client_main.cpp: the end of a statement, `executeQuery`, which calls all of the
--              client's parts in turn, and a round of the loop over the lines
--   Sql        the plaintext meaning of a WHERE clause, against which the encrypted one is stated
--   Examples   an engine that meets the laws, and a run of each theorem
--
-- State is explicit: the output parameters of `buildPredNode` are the record `Output`, exceptions are
-- values of `Result`, and `std::unordered_map` is an association list. Each exception class that is
-- thrown is a constructor of `Error`, with the source's message. The encryption is randomised: a
-- number that tells the calls apart is an argument of `encrypt`.
--
-- The parser's `src_` and `pos_` are the text that is left; the position in a message is the length of
-- the whole text less that of the rest. The digits of a literal accumulate in 64 bits that wrap, where
-- the source has signed overflow, which is undefined.
--
-- Fuel: `parse` gives a depth of eight calls for each character and eight more, which is enough.
-- `validatePredTree` and `buildExpression` recurse with no bound over indices that come from the
-- network, so `validate_pred_tree` and `build_expression` take the depth that is followed; where a
-- child stands before its parent, one more than the index of the root is enough. `combine` takes the
-- number of comparisons, which is enough; `read_bytes` the number of bytes, since each `read` gives
-- one or more. Indices and ids of the package are 32-bit numbers and wrap.
--
-- The engine's laws hold for numbers in [0, 128], over the columns that a batch has, and within the
-- multiplicative depth of the parameter set: a column that is lacking throws, and so the theorems on
-- evaluation are about clauses whose columns are scanned under the names they are written by, and say
-- where the depth is exceeded. What a connection has sent before an exception ends it is not kept.
--
-- Not modelled: the calls that open, accept and close sockets, the set-up of keys and data, the
-- arguments of the programs and the layout of what they print, which are input and output; metrics and
-- benchmarks, which hold no logic of the query. The overload of `QueryEncryptor::encrypt` that takes
-- one table schema is not modelled: the client calls the one with a catalog.
pub mod Base
pub mod Ast
pub mod Catalog
pub mod Engine
pub mod Planner
pub mod Query
pub mod Parser
pub mod Semantic
pub mod Sql
pub mod Serialization
pub mod Transport
pub mod Server
pub mod Execution
pub mod Decoder
pub mod Client
mod Examples
