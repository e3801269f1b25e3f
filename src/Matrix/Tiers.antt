-- ===== src/Matrix/Tiers.antt =====
-- routing_matrix/tiers.py: the pointers of the tiers, read from the environment.
pub mod Pointers
use routing.Prelude.{String, ◌==◌, Option, none, some, List, [], ◌∷◌, if◌then◌else◌}
use routing.Prelude.Result.{Result, ok, err, ◌>>=◌}
use routing.Prelude.Text.{strip}
use routing.Matrix.Model.{Tier, standard, advanced, frontier, PyError, tier_config_error}

-- `os.environ`
abbrev pub Environ : Type 0
Environ = String → Option String

unfoldable pub tier_env_var : Tier → String
tier_env_var standard = "TIER_1_MODEL_POINTER"
tier_env_var advanced = "TIER_2_MODEL_POINTER"
tier_env_var frontier = "TIER_3_MODEL_POINTER"

-- `os.environ.get(name, default)`
abbrev pub get_env : Environ → String → String → String
get_env env name default = elim (env name) [ none ↦ default | some v ↦ v ]

unfoldable pub resolve_model_pointer : Environ → Tier → Result PyError String
unfolding tier_env_var
resolve_model_pointer env tier =
    let value = strip (get_env env (tier_env_var tier) "") in
    if value == "" then err (tier_config_error (tier_env_var tier) tier) else ok value

unfoldable pub all_pointers : Environ → Result PyError (List (Tier × String))
all_pointers env = do
  s ← resolve_model_pointer env standard
  a ← resolve_model_pointer env advanced
  f ← resolve_model_pointer env frontier
  ok ((standard, s) ∷ (advanced, a) ∷ (frontier, f) ∷ [])
