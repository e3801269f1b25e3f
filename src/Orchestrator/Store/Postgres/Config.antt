-- ===== src/Orchestrator/Store/Postgres/Config.antt =====
-- How a `PostgresAtomicStore` (orchestrator/postgres_store.py) is made: `__init__` and `from_env`. What
-- Python's `float` and `int` make of a text is an argument.
use routing.Prelude.{
  ℕ, zero, suc, String, ◌==◌, Bool, true, false, Option, none, some, if◌then◌else◌,
}
use routing.Prelude.Float.{Float}
use routing.Prelude.Result.{Result, ok, err, ◌>>=◌}
use routing.Matrix.Model.{PyError, value_error, import_error}
use routing.Matrix.Tiers.{Environ, get_env}
use routing.Orchestrator.Store.Tables.{StoreConfig}

-- Python's `int`.
pub data ℤ : Type 0 where
  pos negsuc : ℕ → ℤ

-- `float(text)` and `int(text)`.
pub record Parsers (F : Type 0) : Type 0 where
  pub float_of : String → Result PyError F
  pub int_of : String → Result PyError ℤ

-- The keyword arguments of `from_env` that are given.
pub record Overrides (F : Type 0) : Type 0 where
  pub degraded_threshold : Option F
  pub usage_window_seconds : Option F
  pub max_connections : Option ℤ

-- The arguments of `__init__`.
pub record Settings (F : Type 0) : Type 0 where
  pub dsn : String
  pub degraded_threshold : F
  pub usage_window_seconds : F
  pub max_connections : ℤ

-- What `__init__` keeps, the pool aside.
pub record PgStore (F : Type 0) : Type 0 where
  pub dsn : String
  pub config : StoreConfig F
  pub max_connections : ℕ

abbrev pub default_max_connections : ℤ
default_max_connections = pos 10

-- `_require_psycopg`, where `psycopg` is there or not.
unfoldable pub require_psycopg : Bool → Result PyError (Unit {0})
require_psycopg true = ok tt
require_psycopg false = err (import_error "psycopg")

-- The bound of the pool.
unfoldable pub checked_size : ℤ → Result PyError ℕ
checked_size (negsuc n) = err (value_error "max_connections must be >= 1")
checked_size (pos zero) = err (value_error "max_connections must be >= 1")
checked_size (pos (suc n)) = ok (suc n)

module _ {A : Type 0} where
  -- `overrides.get(name, os.environ.get(NAME, default))`, and its conversion.
  unfoldable pub choose :
      (String → Result PyError A) → Option A → Option String → A → Result PyError A
  choose parse (some given) in_env default = ok given
  choose parse none (some value) default = parse value
  choose parse none none default = ok default

-- `dsn or os.environ.get("DATABASE_URL", "")`
abbrev pub resolved_dsn : Environ → Option String → String
resolved_dsn env none = get_env env "DATABASE_URL" ""
resolved_dsn env (some dsn) = if dsn == "" then get_env env "DATABASE_URL" "" else dsn

module _ {F : Type 0} where
  -- `__init__` up to the pool.
  unfoldable pub init : Bool → Settings F → Result PyError (PgStore F)
  unfolding require_psycopg checked_size
  init has_psycopg s = do
    u ← require_psycopg has_psycopg
    size ← checked_size s.max_connections
    ok (record {
      dsn = s.dsn;
      config = record { threshold = s.degraded_threshold; window = s.usage_window_seconds };
      max_connections = size;
    })

module _ {F : Type 0} ⦃f : Float F⦄ where
  abbrev pub default_threshold : F
  default_threshold = f.dec 11

  abbrev pub default_window : F
  default_window = f.dec 36_000_000

module _ {F : Type 0} ⦃f : Float F⦄ (parse : Parsers F) (env : Environ) where
  unfoldable pub settings : String → Overrides F → Result PyError (Settings F)
  unfolding choose
  settings dsn given = do
    threshold ←
        choose parse.float_of given.degraded_threshold (env "STORE_DEGRADED_THRESHOLD")
          default_threshold
    window ←
        choose parse.float_of given.usage_window_seconds (env "STORE_USAGE_WINDOW_SECONDS")
          default_window
    size ←
        choose parse.int_of given.max_connections (env "STORE_PG_MAX_CONNECTIONS")
          default_max_connections
    ok (record {
      dsn = dsn;
      degraded_threshold = threshold;
      usage_window_seconds = window;
      max_connections = size;
    })

  unfoldable pub from_env : Bool → Option String → Overrides F → Result PyError (PgStore F)
  unfolding settings init
  from_env has_psycopg dsn given =
      let resolved = resolved_dsn env dsn in
      if resolved == ""
      then err (value_error "Postgres DSN required: pass dsn= or set DATABASE_URL")
      else (settings resolved given >>= init has_psycopg)
