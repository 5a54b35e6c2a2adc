-- ===== src/Controllers/ApiTls/Status.antt =====
-- controllers/opensearch_controller_api_tls.go: `Configure`, `OnError`, `OnSuccess` and `Delete`,
-- in which the constants and secret names of the API layer stand.
use opensearch_operator.Common.{String}
use opensearch_operator.Api.Types.{Opensearch}
use opensearch_operator.Controllers.State.{Diff}
use opensearch_operator.Controllers.Conditions.{
  Meta, Report, api, configure, on_error, on_success, delete,
}

unfoldable pub api_configure : Meta → Report → Report
api_configure m = configure m api

unfoldable pub api_on_error : Meta → String → Report → Report
api_on_error m = on_error m api

unfoldable pub api_on_success : Meta → Opensearch → Diff → Report → Report
api_on_success m = on_success m api

unfoldable pub api_delete : (name : String) → Report → Report
api_delete = delete
