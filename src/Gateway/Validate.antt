-- ===== src/Gateway/Validate.antt =====
-- `validate` of scripts/gateway_integrations.py, over one function for each run of its checks.
pub mod PolicyChecks
pub mod NetworkChecks
pub mod FieldChecks
pub mod RouteChecks
use kong.Base.{[], ok, require, ◌>>=◌, ◌>>◌}
use kong.Gateway.Document.{Date, Document, Authority}
use kong.Gateway.Checks.{Check}
use PolicyChecks.{check_policy, check_upstream}
use NetworkChecks.{check_network_policy}
use FieldChecks.{check_authentication}
use RouteChecks.{check_routes}

unfoldable pub validate : Authority → Date → Document → Check
validate files today d = do
  check_policy files d
  check_upstream files d
  check_network_policy files d
  check_authentication files today d
  check_routes files d [] [] d.routes
  require (files.is_file d.runbook) "runbook_missing"
