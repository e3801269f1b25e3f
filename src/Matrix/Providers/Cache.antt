-- ===== src/Matrix/Providers/Cache.antt =====
-- The registry of routing_matrix/providers.py makes one adapter for each name.
use routing.Prelude.{◌≡◌, String, eq_refl, none, some, arith, Option-cases, inl, inr}
use routing.Prelude.Dict.{lookup, lookup-insert}
use routing.Prelude.Result.{ok, err}
use routing.Matrix.Model.{key_error}
use routing.Matrix.Providers.{
  ProviderAdapter, ProviderFactory, ProviderRegistry, register, create, get,
}

-- What `get` hands out is the adapter that it keeps.
kept_by_get :
    (name : String) (r r' : ProviderRegistry) (a : ProviderAdapter)
    → get name r ≡ (ok a, r')
    → lookup name r'.instances ≡ some a
unfolding get create
kept_by_get name r r' a h = elim (Option-cases (lookup name r.instances)) [
  | inl fresh ↦ elim (Option-cases (lookup name r.factories)) [
    | inl missing ↦ ground arith
    | inr (ok b, found) ↦ ground (arith, lookup-insert name name b r.instances, eq_refl name)
    | inr (err e, found) ↦ ground arith
  ]
  | inr (b, old) ↦ ground arith
]

-- An adapter that was handed out once is handed out ever after, also when another factory has been
-- registered under its name, and the registry stays as it is.
pub get_again :
    (name : String) (r r' : ProviderRegistry) (a : ProviderAdapter) (later : ProviderFactory)
    → get name r ≡ (ok a, r')
    → get name (register name later r') ≡ (ok a, register name later r')
unfolding register get create
get_again name r r' a later h = ground (arith, kept_by_get name r r' a h)

-- A name without an adapter and without a factory raises `KeyError`, and nothing changes; with a
-- factory and without an adapter, the factory's adapter is returned and kept.
pub get_first :
    (name : String) (r : ProviderRegistry)
    → lookup name r.instances ≡ none
    → (lookup name r.factories ≡ none → get name r ≡ (err (key_error name), r))
      × ((a : ProviderAdapter)
          → lookup name r.factories ≡ some (ok a)
          → ((get name r).0 ≡ ok a) × (lookup name (get name r).1.instances ≡ some a))
unfolding get create
get_first name r h =
    (λ e. ground arith, λ a e. ground (arith, lookup-insert name name a r.instances, eq_refl name))
