-- ===== src/Checks/Signatures/BlockNames.antt =====
-- The names of blocks that findings use: `TS_NAME_BY_BLOCK`, `KIND_NAME` and the sets of blocks that the
-- policies on signatures look at, of tessercheck-py/tessercheck/domain/checks.py.
use tesser_build.Prelude.{Str, str, List, [], ◌∷◌, list_eq, nat_eq, Result, ok, raise, none, some}
use tesser_build.Prelude.Dict.{Dict, lookup}

unfoldable pub ts_names : Dict Str Str
ts_names =
    (str "request", str "ts.Request")
    ∷ (str "response", str "ts.Response")
    ∷ (str "port_request", str "ts.Request")
    ∷ (str "port_response", str "ts.Response")
    ∷ (str "relay_request", str "ts.Request")
    ∷ (str "relay_response", str "ts.Response")
    ∷ (str "spec", str "ts.Spec")
    ∷ (str "app_spec", str "ts.Spec")
    ∷ (str "component_spec", str "ts.Spec")
    ∷ []

unfoldable pub kind_names : Dict Str Str
kind_names =
    (str "aggregate", str "an aggregate")
    ∷ (str "entity", str "an entity")
    ∷ (str "valueobject", str "a value object")
    ∷ (str "outcome", str "an outcome")
    ∷ (str "spec", str "a spec")
    ∷ (str "service", str "a service")
    ∷ (str "mapper", str "a mapper")
    ∷ (str "actions", str "a class of actions")
    ∷ (str "orchestrator", str "an orchestrator")
    ∷ (str "actions_client", str "an application client")
    ∷ (str "relay", str "a relay")
    ∷ (str "relay_request", str "a relay request")
    ∷ (str "relay_response", str "a relay response")
    ∷ (str "snapshot", str "a snapshot")
    ∷ (str "port", str "a port")
    ∷ (str "store", str "a store")
    ∷ (str "deprecated_workflow", str "a deprecated workflow")
    ∷ (str "port_request", str "a port request DTO")
    ∷ (str "port_response", str "a port response DTO")
    ∷ (str "request", str "a request DTO")
    ∷ (str "response", str "a response DTO")
    ∷ (str "client", str "a client")
    ∷ (str "error", str "a context error")
    ∷ (str "repository", str "a repository adapter")
    ∷ (str "gateway", str "a gateway adapter")
    ∷ (str "handler", str "an inbound handler")
    ∷ (str "runner", str "a runner")
    ∷ (str "runtime", str "a runtime")
    ∷ (str "activity", str "an activity")
    ∷ (str "workflow", str "a workflow")
    ∷ (str "dispatcher", str "a dispatcher")
    ∷ (str "signal", str "a signal")
    ∷ (str "serde", str "a serde")
    ∷ (str "component", str "a component")
    ∷ (str "component_config", str "a component config")
    ∷ (str "component_spec", str "a component config spec")
    ∷ (str "app", str "an app")
    ∷ (str "loader", str "an app loader")
    ∷ (str "app_config", str "an app config")
    ∷ (str "app_spec", str "an app config spec")
    ∷ (str "config_repository", str "a config repository")
    ∷ (str "host", str "a host")
    ∷ (str "protocol_port", str "a protocol port")
    ∷ (str "protocol_record", str "a protocol record")
    ∷ (str "protocol_rejection", str "a protocol rejection")
    ∷ (str "protocol_request", str "a protocol request record")
    ∷ (str "protocol_response", str "a protocol response record")
    ∷ []

unfoldable pub spec_blocks : List Str
spec_blocks = str "spec" ∷ str "component_spec" ∷ str "app_spec" ∷ []

unfoldable pub spec_parameter : Str
spec_parameter = str "spec"

unfoldable pub domain_object_blocks : List Str
domain_object_blocks = str "aggregate" ∷ str "entity" ∷ str "valueobject" ∷ str "outcome" ∷ []

unfoldable pub relay_block : Str
relay_block = str "relay"

-- `d[k]`: a key that is missing raises an error with the key's `repr`.
unfoldable pub item_of : (Str → Str) → Dict Str Str → Str → Result Str
unfolding lookup
item_of repr d k = elim (lookup k d) [ none ↦ raise (repr k) | some v ↦ ok v ]
