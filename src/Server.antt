-- ===== src/Server.antt =====
-- server/server_main.cpp: the handler of a request, which checks a package before it executes it, and
-- the whole of `QueryExecutor::execute`, which it calls.
pub mod Admitted
use hega_proto.Base.{ℕ, List, Str, if◌then◌else◌}
use hega_proto.Base.Outcome.{Result, ok, ◌>>=◌, ◌>>◌}
use hega_proto.Catalog.{Catalog}
use hega_proto.Engine.{Engine}
use hega_proto.Query.{QueryPackage}
use hega_proto.Query.Validator.{validate}
use hega_proto.Decoder.{EncryptedResultBatch}
use hega_proto.Execution.Scan.{Backend, execute_scan}
use hega_proto.Execution.Join.{Storage, execute_join}
use hega_proto.Transport.Protocol.{QueryHandler}

module _ (e : Engine) (backend : Backend e) (storage : Storage e) (catalog : Catalog)
    (fuel : ℕ) where
  -- `QueryExecutor::execute`
  unfoldable pub execute : QueryPackage → Result (List EncryptedResultBatch)
  unfolding execute_join execute_scan
  execute pkg =
      if pkg.has_join
      then execute_join e storage catalog fuel pkg
      else execute_scan e fuel backend catalog pkg

  -- the `handler` of `main`
  unfoldable pub handler : QueryHandler
  unfolding validate execute
  handler pkg = do validate fuel catalog e.param_set_id pkg; execute pkg
