-- ===== src/Orchestrator/Workflow/Lost.antt =====
-- An activity of orchestrator/workflow.py whose first attempt loses its result is run again, on what
-- the first attempt left.
use routing.Prelude.{ℕ, ◌+◌, ◌≡◌, refl, sym, ◌∙◌, ap, String, eq_refl}
use routing.Prelude.Float.{Float, IsFloat, AddsInOrder, nought, ◌≼◌}
use routing.Prelude.Result.{Result, ok, err}
use routing.Matrix.Model.{PyError}
use routing.Orchestrator.Store.Tables.{Database, StoreConfig, Reservation, prune, sum_account}
use routing.Orchestrator.Store.Sqlite.{prune_db, reserve, balance}
use routing.Orchestrator.Store.Sqlite.Reserve.{balance-reserve, reserve_lem}
use routing.Orchestrator.Store.Protocol.{sqlite}
use routing.Orchestrator.Workflow.Exec.{Exec}
use routing.Orchestrator.Workflow.World.{
  Fate, runs, stalls, breaks, loses_result, never_starts, World, Runtime, Body, counted, outcome,
  after, try_once, try_again, activity,
}
use routing.Orchestrator.Workflow.Activities.{log_info, reserve_usage}

module _ {F S A : Type 0} (rt : Runtime F S) where
  after_lost :
      (fate : Fate) (again : Exec (World F S) A) (q : Result PyError A × World F S) (w : World F S)
      → fate ≡ loses_result
      → after rt fate again (outcome rt fate q w) ≡ again q.1
  after_lost loses_result again (r, t) w h = refl
  after_lost runs again (r, t) w h = absurd (cc)
  after_lost stalls again q w h = absurd (cc)
  after_lost (breaks pe) again q w h = absurd (cc)
  after_lost never_starts again q w h = absurd (cc)

  after_ran :
      (fate : Fate) (again : Exec (World F S) A) (q : Result PyError A × World F S)
      (w w' : World F S) (v : A)
      → fate ≡ runs
      → q ≡ (ok v, w')
      → after rt fate again (outcome rt fate q w) ≡ (ok v, w')
  after_ran runs again (ok a, t) w w' v h e = cc
  after_ran runs again (err x, t) w w' v h e = absurd (cc)
  after_ran stalls again q w w' v h e = absurd (cc)
  after_ran (breaks pe) again q w w' v h e = absurd (cc)
  after_ran loses_result again q w w' v h e = absurd (cc)
  after_ran never_starts again q w w' v h e = absurd (cc)

  -- The second attempt starts where the first one ended.
  lost_then_ran :
      (body : Body F S A) (w w' : World F S) (v : A)
      → let w1 = (body (rt.attempts w.tick) (counted rt w)).1 in
        (rt.attempts w.tick).fate ≡ loses_result
        → (rt.attempts w1.tick).fate ≡ runs
        → body (rt.attempts w1.tick) (counted rt w1) ≡ (ok v, w')
        → activity rt body w ≡ (ok v, w')
  unfolding activity try_again try_once
  lost_then_ran body w w' v lost ran e =
      let a = rt.attempts w.tick in
      let q = body a (counted rt w) in
      let b = rt.attempts q.1.tick in
      after_lost a.fate (λ t. try_again rt 1 body t) q (counted rt w) lost
      ∙ after_ran b.fate (λ t. try_again rt 0 body t) (body b (counted rt q.1)) (counted rt q.1) w'
          v ran e

module _ {F : Type 0} ⦃f : Float F⦄ (laws : IsFloat F) (order : AddsInOrder F) (cfg : StoreConfig F)
    (window : nought ≼ cfg.window) where
  -- Two reservations at one time.
  reserve_twice :
      (a : String) (x now : F) (db : Database F)
      → (reserve cfg a x now (reserve cfg a x now db).1).0.balance
        ≡ f.add (f.add (sum_account a (prune cfg a now db.usage_charges)) x) x
  unfolding reserve balance prune_db
  reserve_twice a x now db = ap (λ s. f.add s x) (balance-reserve laws order cfg a x now db window)

  -- If the database adds the rows in order, nobody else acts meanwhile, the first attempt of `reserve_usage` loses its result and the
  -- second one runs, at the same time, then the activity returns a balance that has the projected cost
  -- twice, and that is what the account's rows sum up to.
  pub reserve_usage-twice :
      (rt : Runtime F (Database F)) (c a : String) (x : F) (w : World F (Database F))
      → ((n : ℕ) (v : World F (Database F)) → rt.others n v ≡ v)
      → rt.ops ≡ sqlite cfg
      → (rt.attempts w.tick).fate ≡ loses_result
      → (rt.attempts (w.tick + 1)).fate ≡ runs
      → (rt.attempts (w.tick + 1)).now ≡ (rt.attempts w.tick).now
      → (res : Reservation F) × (w' : World F (Database F)) × (activity rt
            (reserve_usage rt c a x)
            w
          ≡ (ok res, w'))
        × (res.balance
            ≡ f.add
                (f.add
                  (sum_account a (prune cfg a (rt.attempts w.tick).now w.store.usage_charges))
                  x)
                x)
        × (sum_account a w'.store.usage_charges ≡ res.balance)
  unfolding reserve_usage log_info
  reserve_usage-twice rt c a x w quiet same lost ran clock =
      let t = (rt.attempts w.tick).now in
      let w1 = (reserve_usage rt c a x (rt.attempts w.tick) (counted rt w)).1 in
      let q = reserve_usage rt c a x (rt.attempts (w.tick + 1)) (counted rt w1) in
      let once : w1.store ≡ (reserve cfg a x t w.store).1 =
        λ i. ((same i).reserve a x t ((quiet w.tick w i).store)).1 in
      let again : (rt.ops.reserve a x (rt.attempts (w.tick + 1)).now (counted rt w1).store)
          ≡ reserve cfg a x t (reserve cfg a x t w.store).1 =
        ap (λ v. rt.ops.reserve a x (rt.attempts (w.tick + 1)).now v.store) (quiet (w.tick + 1) w1)
        ∙ λ i. (same i).reserve a x (clock i) (once i) in
      let db = (reserve cfg a x t w.store).1 in
      (
        (rt.ops.reserve a x (rt.attempts (w.tick + 1)).now (counted rt w1).store).0,
        q.1,
        lost_then_ran rt (reserve_usage rt c a x) w q.1 _ lost ran refl,
        ap (λ p. p.0.balance) again ∙ reserve_twice a x t w.store,
        ap (λ p. sum_account a p.1.usage_charges) again
            ∙ own_sum db t
            ∙ sym (ap (λ p. p.0.balance) again),
      )
    where
      own_sum :
          (db : Database F) (t : F)
          → sum_account a (reserve cfg a x t db).1.usage_charges ≡ (reserve cfg a x t db).0.balance
      own_sum db t = rw eq_refl at (reserve_lem order cfg a x t db a).0
