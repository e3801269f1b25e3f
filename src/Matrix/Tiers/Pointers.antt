-- ===== src/Matrix/Tiers/Pointers.antt =====
-- What the pointers of routing_matrix/tiers.py are.
use routing.Prelude.{
  ◌≡◌, refl, sym, ◌≢◌, String, ◌==◌, eq_iff, false≢true, ◌∙◌, Option, some, List, [], ◌∷◌,
  Bool-cases, inl, inr,
}
use routing.Prelude.Result.{Result, ok, >>=-eq-ok}
use routing.Prelude.Text.{strip}
use routing.Prelude.Text.Strip.{strip_idem}
use routing.Matrix.Model.{Tier, standard, advanced, frontier}
use routing.Matrix.Tiers.{Environ, get_env, tier_env_var, resolve_model_pointer, all_pointers}

ok_injective : {A E : Type 0} {a b : A} → ◌≡◌ {A = Result E A} (ok a) (ok b) → a ≡ b
ok_injective h = cc

-- A resolved pointer is not empty, and has no space around it.
pub resolve_model_pointer-stripped :
    (env : Environ) (tier : Tier) (p : String)
    → resolve_model_pointer env tier ≡ ok p
    → (p ≢ "") × (strip p ≡ p)
unfolding resolve_model_pointer
resolve_model_pointer-stripped env tier p h =
    let raw = get_env env (tier_env_var tier) "" in
    elim (Bool-cases (strip raw == "")) [
      | inl blank ↦ absurd (cc (rw blank at h))
      | inr full ↦
          let same : strip raw ≡ p = ok_injective (rw full at h) in
          (
            λ e. false≢true (sym full ∙ (eq_iff (strip raw) "").1 (same ∙ e)),
            rw (← same) (strip_idem raw),
          )
    ]

-- The pointer of a tier in the dict that `all_pointers` returns.
abbrev pub pointer_in : Tier → List (Tier × String) → Option String
pointer_in t [] = Option.none
pointer_in standard ((standard, p) ∷ ps) = some p
pointer_in advanced ((advanced, p) ∷ ps) = some p
pointer_in frontier ((frontier, p) ∷ ps) = some p
pointer_in t (q ∷ ps) = pointer_in t ps

-- When `all_pointers` returns, it holds for each tier the pointer that resolving it gives.
pub all_pointers_complete :
    (env : Environ) (ps : List (Tier × String))
    → all_pointers env ≡ ok ps
    → (t : Tier) → (p : String) × (resolve_model_pointer env t ≡ ok p) × (pointer_in t ps ≡ some p)
unfolding all_pointers
all_pointers_complete env ps h t =
    let (s, hs, h1) = >>=-eq-ok (resolve_model_pointer env standard) _ h in
    let (a, ha, h2) = >>=-eq-ok (resolve_model_pointer env advanced) _ h1 in
    let (f, hf, h3) = >>=-eq-ok (resolve_model_pointer env frontier) _ h2 in
    rw (← ok_injective h3) (pick t s a f hs ha hf)
  where
    pick :
        (t : Tier) (s a f : String)
        → resolve_model_pointer env standard ≡ ok s
        → resolve_model_pointer env advanced ≡ ok a
        → resolve_model_pointer env frontier ≡ ok f
        → (p : String) × (resolve_model_pointer env t ≡ ok p)
          × (pointer_in t ((standard, s) ∷ (advanced, a) ∷ (frontier, f) ∷ []) ≡ some p)
    pick standard s a f hs ha hf = (s, hs, refl)
    pick advanced s a f hs ha hf = (a, ha, refl)
    pick frontier s a f hs ha hf = (f, hf, refl)
