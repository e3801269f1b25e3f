-- ===== src/Orchestrator/Workflow/Exec.antt =====
-- Workflow code: it reads and changes a state, and may raise. What was changed before a raise stays
-- changed. An exception has a type name, a message, and maybe a cause.
use Prim.Native.String.{◌++◌ as append}
use routing.Prelude.{String, List, [], ◌∷◌}
use routing.Prelude.Result.{Result, ok, err}

pub data Exc : Type 0 where
  raised : String → String → Exc
  caused : String → String → Exc → Exc

-- The loop along the chain of causes.
unfoldable pub parts : Exc → List String
parts (raised name text) = append name (append ": " text) ∷ []
parts (caused name text cause) = append name (append ": " text) ∷ parts cause

abbrev pub Exec : Type 0 → Type 0 → Type 0
Exec S A = S → Result Exc A × S

module _ {S A : Type 0} where
  abbrev pub pure : A → Exec S A
  pure a s = (ok a, s)

  abbrev pub raise : Exc → Exec S A
  raise e s = (err e, s)

module _ {S A B : Type 0} where
  -- What is done with the outcome of the first part.
  unfoldable pub continue : (A → Exec S B) → Result Exc A × S → Result Exc B × S
  continue f (ok a, s) = f a s
  continue f (err e, s) = (err e, s)

  infixl 10 ◌>>=◌ ◌>>◌
  unfoldable pub ◌>>=◌ : Exec S A → (A → Exec S B) → Exec S B
  unfolding continue
  ◌>>=◌ m f s = continue f (m s)

  abbrev pub ◌>>◌ : Exec S A → Exec S B → Exec S B
  m >> k = m >>= λ _. k
