-- ===== src/Orchestrator/Workflow/Bound.antt =====
-- The workflow of orchestrator/workflow.py makes a bounded number of attempts.
use routing.Prelude.{
  ℕ, zero, suc, ◌+◌, ◌≤◌, ◌≡◌, refl, String, Bool, Option, arith, inl, inr, Bool-cases,
}
use routing.Prelude.Float.{Float}
use routing.Prelude.Result.{Result, ok, err}
use routing.Matrix.Model.{PyError, Task, RoutingDecision, default_cost_model}
use routing.Matrix.Route.{route}
use routing.Matrix.Providers.{Dispatched, parse_provider, dispatch}
use routing.Orchestrator.Store.Tables.{Status}
use routing.Orchestrator.Workflow.Exec.{Exc, Exec, continue, ◌>>=◌}
use routing.Orchestrator.Workflow.World.{
  Fate, runs, stalls, breaks, loses_result, never_starts, Attempt, World, Runtime, Body, counted,
  outcome, after, try_once, try_again, activity, retries,
}
use routing.Orchestrator.Workflow.Activities.{
  is_dispatch, log_info, check_rate_limit, reserve_usage, circuit_breaker_effective, routed,
  route_task, settle_usage, circuit_breaker_record, hand_off, dispatch_task, mark_status,
}
use routing.Orchestrator.Workflow.Run.{
  RunArgs, TaskResult, finish_steps, steps, dead_letter, catch, run,
}

-- At most `k` attempts.
pub record Within {F S A : Type 0} (k : ℕ) (m : Exec (World F S) A) : Type 0 where
  pub at : (w : World F S) → (m w).1.tick ≤ w.tick + k

module _ {F S A B : Type 0} where
  continue-Within :
      (j k : ℕ) (f : A → Exec (World F S) B) (q : Result Exc A × World F S) (n : ℕ)
      → ((a : A) → Within k (f a))
      → q.1.tick ≤ n + j
      → (continue f q).1.tick ≤ n + (j + k)
  unfolding continue
  continue-Within j k f (ok a, s) n kf h = omega (arith, (kf a).at s)
  continue-Within j k f (err e, s) n kf h = omega arith

  Within-bind :
      (j k : ℕ) (m : Exec (World F S) A) (f : A → Exec (World F S) B)
      → Within j m
      → ((a : A) → Within k (f a))
      → Within (j + k) (m >>= f)
  unfolding ◌>>=◌
  Within-bind j k m f km kf = record { at = λ w. continue-Within j k f (m w) w.tick kf (km.at w) }

module _ {F S A : Type 0} (rt : Runtime F S) (body : Body F S A) where
  module _ (same : (a : Attempt F) (w : World F S) → (body a w).1.tick ≡ w.tick) where
    pub outcome-tick :
        (fate : Fate) (q : Result PyError A × World F S) (w : World F S)
        → q.1.tick ≡ w.tick
        → (outcome rt fate q w).1.tick ≡ w.tick
    outcome-tick runs (r, t) w h = h
    outcome-tick loses_result (r, t) w h = h
    outcome-tick stalls q w h = refl
    outcome-tick (breaks pe) q w h = refl
    outcome-tick never_starts q w h = refl

    try_once-tick : (a : Attempt F) (w : World F S) → (try_once rt a body w).1.tick ≡ w.tick
    unfolding try_once
    try_once-tick a w = outcome-tick a.fate (body a w) w (same a w)

    after-tick :
        (fate : Fate) (again : Exec (World F S) A) (q : Result Exc A × World F S) (n k : ℕ)
        → q.1.tick ≡ n + 1
        → ((w : World F S) → (again w).1.tick ≤ w.tick + k)
        → (after rt fate again q).1.tick ≤ n + suc k
    after-tick fate again (ok a, w) n k h l = omega arith
    after-tick runs again (err e, w) n k h l = omega (arith, l w)
    after-tick stalls again (err e, w) n k h l = omega (arith, l w)
    after-tick (breaks pe) again (err e, w) n k h l = omega (arith, l w)
    after-tick loses_result again (err e, w) n k h l = omega (arith, l w)
    after-tick never_starts again (err e, w) n k h l = omega arith

    try_again-tick : (n : ℕ) (w : World F S) → (try_again rt n body w).1.tick ≤ w.tick + suc n
    unfolding try_again
    try_again-tick zero w = omega (arith, try_once-tick (rt.attempts w.tick) (counted rt w))
    try_again-tick (suc n) w =
        let a = rt.attempts w.tick in
        after-tick a.fate (λ t. try_again rt n body t) (try_once rt a body (counted rt w)) w.tick
          (suc n) (try_once-tick a (counted rt w)) (try_again-tick n)

    activity-Within : Within 3 (activity rt body)
    unfolding activity
    activity-Within = record { at = try_again-tick retries }

module _ {F S : Type 0} ⦃f : Float F⦄ (rt : Runtime F S) where
  pub check_rate_limit-tick :
      (id : String) (a : Attempt F) (w : World F S) → (check_rate_limit rt id a w).1.tick ≡ w.tick
  unfolding check_rate_limit
  check_rate_limit-tick id a w = ground arith

  pub reserve_usage-tick :
      (c id : String) (x : F) (a : Attempt F) (w : World F S)
      → (reserve_usage rt c id x a w).1.tick ≡ w.tick
  unfolding reserve_usage log_info
  reserve_usage-tick c id x a w = refl

  pub effective-tick :
      (c : String) (b : Bool) (a : Attempt F) (w : World F S)
      → (circuit_breaker_effective rt c b a w).1.tick ≡ w.tick
  unfolding circuit_breaker_effective log_info
  effective-tick c b a w = ground arith

  routed-tick :
      (c : String) (r : Result PyError (RoutingDecision F)) (w : World F S)
      → (routed rt c r w).1.tick ≡ w.tick
  unfolding log_info
  routed-tick c (ok d) w = refl
  routed-tick c (err e) w = refl

  pub route_task-tick :
      (c : String) (t : Task) (b : Bool) (a : Attempt F) (w : World F S)
      → (route_task rt c t b a w).1.tick ≡ w.tick
  unfolding route_task
  route_task-tick c t b a w =
      let (r, log) = route rt.env default_cost_model t b w.route_log in
      routed-tick c r (record w { route_log = log })

  pub settle_usage-tick :
      (c id : String) (x y : F) (a : Attempt F) (w : World F S)
      → (settle_usage rt c id x y a w).1.tick ≡ w.tick
  unfolding settle_usage log_info
  settle_usage-tick c id x y a w = refl

  pub record-tick :
      (x : F) (a : Attempt F) (w : World F S) → (circuit_breaker_record rt x a w).1.tick ≡ w.tick
  unfolding circuit_breaker_record
  record-tick x a w = ground arith

  pub mark_status-tick :
      (c id : String) (st : Status) (e t p : Option String) (x : Option F) (a : Attempt F)
      (w : World F S)
      → (mark_status rt c id st e t p x a w).1.tick ≡ w.tick
  unfolding mark_status log_info
  mark_status-tick c id st e t p x a w = refl

  hand_off-tick :
      (c id acct : String) (d : RoutingDecision F) (t : Task) (p : String)
      (r : Result PyError Dispatched) (w : World F S)
      → (hand_off rt c id acct d t p r w).1.tick ≡ w.tick
  unfolding log_info
  hand_off-tick c id acct d t p (ok x) w = refl
  hand_off-tick c id acct d t p (err e) w = refl

  pub dispatch_task-tick :
      (c id acct : String) (name : Option String) (d : RoutingDecision F) (t : Task)
      (sim : Option String) (a : Attempt F) (w : World F S)
      → (dispatch_task rt c id acct name d t sim a w).1.tick ≡ w.tick
  unfolding dispatch_task
  dispatch_task-tick c id acct name d t sim a w =
      let p = parse_provider rt.env name in
      let (x, registry) = dispatch p d.model_pointer w.registry in
      elim (Bool-cases (is_dispatch sim)) [
        | inl fails ↦ rw fails refl
        | inr goes ↦ rw goes (hand_off-tick c id acct d t p x (record w { registry = registry }))
      ]

  module _ (args : RunArgs) where
    finish_steps-Within : (d : RoutingDecision F) → Within 6 (finish_steps rt args d)
    unfolding finish_steps
    finish_steps-Within d =
        Within-bind 3 3 _ _ (activity-Within rt _ (dispatch_task-tick _ _ _ _ d _ _)) λ out.
          Within-bind 3 0 _ _ (activity-Within rt _ (mark_status-tick _ _ _ _ _ _ _))
            λ done. record { at = λ w. omega arith }

    steps-Within : Within 27 (steps rt args)
    unfolding steps
    steps-Within = Within-bind 3 24 _ _ (activity-Within rt _ (mark_status-tick _ _ _ _ _ _ _)) λ u.
        Within-bind 3 21 _ _ (activity-Within rt _ (check_rate_limit-tick _)) λ allowed.
          Within-bind 3 18 _ _ (activity-Within rt _ (reserve_usage-tick _ _ _)) λ r.
            Within-bind 3 15 _ _ (activity-Within rt _ (effective-tick _ _)) λ b.
              Within-bind 3 12 _ _ (activity-Within rt _ (route_task-tick _ _ _)) λ d.
                Within-bind 3 9 _ _ (activity-Within rt _ (settle_usage-tick _ _ _ _)) λ x.
                  Within-bind 3 6 _ _ (activity-Within rt _ (record-tick _))
                    λ o. finish_steps-Within d

    dead_letter-Within : (e : Exc) → Within 3 (dead_letter rt args e)
    unfolding dead_letter
    dead_letter-Within e =
        Within-bind 3 0 _ _ (activity-Within rt _ (mark_status-tick _ _ _ _ _ _ _))
          λ u. record { at = λ w. omega arith }

    catch-tick :
        (q : Result Exc (TaskResult F) × World F S) → (catch rt args q).1.tick ≤ q.1.tick + 3
    unfolding catch
    catch-tick (ok r, w) = omega arith
    catch-tick (err e, w) = (dead_letter-Within e).at w

    -- A run makes at most 30 attempts of activities, whatever becomes of each: three for each of the
    -- nine activities of the body, and three to mark the task as failed.
    pub run_attempts : (w : World F S) → (run rt args w).1.tick ≤ w.tick + 30
    unfolding run
    run_attempts w = omega (arith, steps-Within.at w, catch-tick (steps rt args w))
