-- ===== src/Matrix/Providers.antt =====
-- routing_matrix/providers.py: the registry of provider adapters.
pub mod Cache
use routing.Prelude.{String, ◌==◌, Option, none, some, [], if◌then◌else◌}
use routing.Prelude.Dict.{Dict, lookup, insert}
use routing.Prelude.Result.{Result, ok, err}
use routing.Prelude.Text.{strip}
use routing.Matrix.Model.{PyError, key_error}
use routing.Matrix.Tiers.{Environ, get_env}

-- The payload that an adapter returns.
pub record Dispatched : Type 0 where
  pub provider : String
  pub model_pointer : String
  pub status : String

-- An adapter may raise.
pub record ProviderAdapter : Type 0 where
  pub name : String
  pub dispatch : String → Result PyError Dispatched

unfoldable pub echo_provider : ProviderAdapter
echo_provider = record {
  name = "echo";
  dispatch = λ p. ok (record { provider = "echo"; model_pointer = p; status = "provisioned" });
}

-- A factory takes nothing, and is what a call of it gives: an adapter, or the exception that it raises.
abbrev pub ProviderFactory : Type 0
ProviderFactory = Result PyError ProviderAdapter

pub record ProviderRegistry : Type 0 where
  pub factories : Dict ProviderFactory
  pub instances : Dict ProviderAdapter

abbrev pub empty_registry : ProviderRegistry
empty_registry = record { factories = []; instances = [] }

unfoldable pub register : String → ProviderFactory → ProviderRegistry → ProviderRegistry
register name factory r = record r { factories = insert name factory r.factories }

-- The adapter of a name is made at the first request and kept; a factory that raises leaves nothing.
unfoldable pub create :
    String
    → ProviderRegistry
    → Option ProviderFactory
    → Result PyError ProviderAdapter × ProviderRegistry
create name r none = (err (key_error name), r)
create name r (some (err e)) = (err e, r)
create name r (some (ok adapter)) =
    (ok adapter, record r { instances = insert name adapter r.instances })

abbrev pub keep_or_create :
    String
    → ProviderRegistry
    → Option ProviderAdapter
    → Result PyError ProviderAdapter × ProviderRegistry
keep_or_create name r none = create name r (lookup name r.factories)
keep_or_create name r (some adapter) = (ok adapter, r)

unfoldable pub get : String → ProviderRegistry → Result PyError ProviderAdapter × ProviderRegistry
unfolding create
get name r = keep_or_create name r (lookup name r.instances)

abbrev pub dispatch_by : String → Result PyError ProviderAdapter → Result PyError Dispatched
dispatch_by pointer (ok adapter) = adapter.dispatch pointer
dispatch_by pointer (err e) = err e

unfoldable pub dispatch :
    String → String → ProviderRegistry → Result PyError Dispatched × ProviderRegistry
unfolding get
dispatch provider_name pointer r =
    let (found, r') = get provider_name r in (dispatch_by pointer found, r')

-- `REGISTRY` as the module leaves it.
abbrev pub default_registry : ProviderRegistry
default_registry = register "echo" (ok echo_provider) empty_registry

unfoldable pub default_provider : Environ → String
default_provider env =
    let name = strip (get_env env "RM_DEFAULT_PROVIDER" "echo") in
    if name == "" then "echo" else name

unfoldable pub parse_provider : Environ → Option String → String
unfolding default_provider
parse_provider env none = strip (default_provider env)
parse_provider env (some name) = strip (if name == "" then default_provider env else name)
