-- ===== src/Orchestrator/Workflow/Yields.antt =====
-- What a part of the workflow of orchestrator/workflow.py returns, from the states that have a
-- property that is kept.
pub mod Tripped
use mathlib.Core.Path.{subst}
use routing.Prelude.{◌≡◌, refl, sym, ap}
use routing.Prelude.Result.{Result, ok, err, ok_injective}
use routing.Matrix.Model.{PyError}
use routing.Orchestrator.Workflow.Exec.{Exc, Exec, pure, ◌>>=◌}
use routing.Orchestrator.Workflow.World.{Attempt, World, Runtime, Body, counted, activity}
use routing.Orchestrator.Workflow.Attempts.{>>=-ok, activity-ok}

-- From a state with the property, a result is one of the given kind, and the state has the property
-- again.
pub record Yields {S A : Type 0} (P : S → Type 0) (V : A → Type 0) (m : Exec S A) : Type 0 where
  pub at : (s s' : S) (a : A) → P s → m s ≡ (ok a, s') → P s' × V a

module _ {S A B : Type 0} {P : S → Type 0} {V : A → Type 0} {U : B → Type 0} where
  pub Yields-bind :
      (m : Exec S A) (g : A → Exec S B)
      → Yields P V m
      → ((a : A) → V a → Yields P U (g a))
      → Yields P U (m >>= g)
  Yields-bind m g ym yg = record {
    at = λ s s' b p e.
        let (a, t, e1, e2) = >>=-ok m g s s' b e in
        let (q, v) = ym.at s t a p e1 in (yg a v).at t s' b q e2;
  }

module _ {S A : Type 0} {P : S → Type 0} {V : A → Type 0} where
  pub Yields-pure : (a : A) → V a → Yields P V (pure a)
  Yields-pure a v = record {
    at = λ s s' b p e. (
      subst P (ap (λ q. q.1) e) p,
      subst V (ok_injective (ok b) a b (sym (ap (λ q. q.0) e)) refl) v,
    );
  }

module _ {F S A : Type 0} (rt : Runtime F S) (P : World F S → Type 0) (V : A → Type 0)
    (body : Body F S A) where
  -- An activity yields what an attempt of it does.
  pub activity-Yields :
      ((w : World F S) → P w → P (counted rt w))
      → ((a : Attempt F) (w : World F S) → P w → P (body a w).1)
      → ((a : Attempt F) (w w' : World F S) (v : A) → P w → body a w ≡ (ok v, w') → V v)
      → Yields P V (activity rt body)
  activity-Yields counts step value = record {
    at = λ w w' v p e.
        let (a, w0, p0, ran) = activity-ok rt P body counts step w w' v p e in
        (
          subst (λ (q : Result PyError A × World F S). P q.1) ran (step a w0 p0),
          value a w0 w' v p0 ran,
        );
  }
