-- ===== src/Orchestrator/Workflow/Blind/Limiter.antt =====
-- The workflow of orchestrator/workflow.py does not heed the rate limiter.
use mathlib.Core.Path.{subst}
use routing.Prelude.{
  ◌≡◌, refl, sym, ◌∙◌, ap, String, Bool, true, Option, none, some, Option-cases, inl, inr,
  Bool-cases,
}
use routing.Prelude.Float.{Float}
use routing.Prelude.Result.{Result, ok, err, err_injective}
use routing.Matrix.Model.{PyError, Task, RoutingDecision, default_cost_model}
use routing.Matrix.Route.{route}
use routing.Matrix.Providers.{Dispatched, parse_provider, dispatch}
use routing.Orchestrator.RateLimit.{TokenBucketLimiter, allow}
use routing.Orchestrator.Store.Tables.{Status}
use routing.Orchestrator.Workflow.Exec.{Exc}
use routing.Orchestrator.Workflow.World.{Attempt, World, Runtime, Body, activity}
use routing.Orchestrator.Workflow.Activities.{
  is_dispatch, log_info, check_rate_limit, reserve_usage, circuit_breaker_effective, routed,
  route_task, settle_usage, circuit_breaker_record, hand_off, dispatch_task, mark_status,
}
use routing.Orchestrator.Workflow.Run.{
  RunArgs, TaskResult, finish_steps, steps, dead_letter, catch, run,
}
use routing.Orchestrator.Workflow.Blind.{
  seen, set_limiter, AreHeedless, Alike, Blind, Blind-bind, Blind-then, seen_id, Blind-pure,
  Blind-raise, activity-Blind, again-Alike,
}

module _ {F S : Type 0} ⦃f : Float F⦄ (rt : Runtime F S) (heedless : AreHeedless rt) where
  -- An activity that does not touch the limiter.
  plain :
      {A : Type 0} (body : Body F S A)
      → ((a : Attempt F) (w : World F S) (l : Option (TokenBucketLimiter F))
          → body a (set_limiter l w) ≡ ((body a w).0, set_limiter l (body a w).1))
      → Blind (λ x. x) (activity rt body)
  plain body same =
      activity-Blind (λ x. x) rt heedless body
        λ a w l. record {
          limiter = l;
          result_eq = ap (λ q. seen (λ x. x) q.0) (same a w l);
          state_eq = ap (λ q. q.1) (same a w l);
        }

  effective-Blind :
      (c : String) (b : Bool) → Blind (λ x. x) (activity rt (circuit_breaker_effective rt c b))
  unfolding circuit_breaker_effective log_info
  effective-Blind c b =
      plain (circuit_breaker_effective rt c b) λ a w l. elim (Option-cases w.circuit_breaker) [
        | inl e ↦ rw e refl
        | inr (x, e) ↦ rw e refl
      ]

  record-Blind : (x : F) → Blind (λ x. x) (activity rt (circuit_breaker_record rt x))
  unfolding circuit_breaker_record
  record-Blind x =
      plain (circuit_breaker_record rt x) λ a w l. elim (Option-cases w.circuit_breaker) [
        | inl e ↦ rw e refl
        | inr (b, e) ↦ rw e refl
      ]

  reserve-Blind : (c who : String) (x : F) → Blind (λ x. x) (activity rt (reserve_usage rt c who x))
  unfolding reserve_usage log_info
  reserve-Blind c who x = plain (reserve_usage rt c who x) (λ a w l. refl)

  settle-Blind :
      (c who : String) (x y : F) → Blind (λ x. x) (activity rt (settle_usage rt c who x y))
  unfolding settle_usage log_info
  settle-Blind c who x y = plain (settle_usage rt c who x y) (λ a w l. refl)

  mark-Blind :
      (c id : String) (st : Status) (e t p : Option String) (x : Option F)
      → Blind (λ x. x) (activity rt (mark_status rt c id st e t p x))
  unfolding mark_status log_info
  mark-Blind c id st e t p x = plain (mark_status rt c id st e t p x) (λ a w l. refl)

  routed-blind :
      (c : String) (r : Result PyError (RoutingDecision F)) (w : World F S)
      (l : Option (TokenBucketLimiter F))
      → routed rt c r (set_limiter l w) ≡ ((routed rt c r w).0, set_limiter l (routed rt c r w).1)
  unfolding log_info
  routed-blind c (ok d) w l = refl
  routed-blind c (err e) w l = refl

  route-Blind :
      (c : String) (t : Task) (b : Bool) → Blind (λ x. x) (activity rt (route_task rt c t b))
  unfolding route_task
  route-Blind c t b = plain (route_task rt c t b) λ a w l.
      let (r, log) = route rt.env default_cost_model t b w.route_log in
      routed-blind c r (record w { route_log = log }) l

  hand_off-blind :
      (c id who : String) (d : RoutingDecision F) (t : Task) (p : String)
      (r : Result PyError Dispatched) (w : World F S) (l : Option (TokenBucketLimiter F))
      → hand_off rt c id who d t p r (set_limiter l w)
        ≡ ((hand_off rt c id who d t p r w).0, set_limiter l (hand_off rt c id who d t p r w).1)
  unfolding log_info
  hand_off-blind c id who d t p (ok x) w l = refl
  hand_off-blind c id who d t p (err e) w l = refl

  dispatch-Blind :
      (c id who : String) (name : Option String) (d : RoutingDecision F) (t : Task)
      (sim : Option String)
      → Blind (λ x. x) (activity rt (dispatch_task rt c id who name d t sim))
  unfolding dispatch_task
  dispatch-Blind c id who name d t sim = plain (dispatch_task rt c id who name d t sim) λ a w l.
      let p = parse_provider rt.env name in
      let (x, registry) = dispatch p d.model_pointer w.registry in
      elim (Bool-cases (is_dispatch sim)) [
        | inl fails ↦ rw fails refl
        | inr goes ↦ rw goes (hand_off-blind c id who d t p x (record w { registry = registry }) l)
      ]

  check-shape :
      (who : String) (a : Attempt F) (w : World F S)
      → (b : Bool) × (l : Option (TokenBucketLimiter F)) × (check_rate_limit rt who a w
          ≡ (ok b, set_limiter l w))
  unfolding check_rate_limit
  check-shape who a w = elim (Option-cases w.rate_limiter) [
    | inl e ↦ (true, none, rw e refl)
    | inr (l, e) ↦ ((allow l who a.monotonic).0, some (allow l who a.monotonic).1, rw e refl)
  ]

  -- The answer of the limiter differs, and nothing else does.
  check-Blind : (who : String) → Blind (λ (b : Bool). tt) (activity rt (check_rate_limit rt who))
  check-Blind who =
      activity-Blind (λ b. tt) rt heedless (check_rate_limit rt who)
        λ a w l.
          let (b, m, e) = check-shape who a (set_limiter l w) in
          let (b', m', e') = check-shape who a w in
          record {
            limiter = m;
            result_eq =
                ap (λ q. seen (λ (x : Bool). tt) q.0) e
                ∙ sym (ap (λ q. seen (λ (x : Bool). tt) q.0) e');
            state_eq = ap (λ q. q.1) e ∙ sym (ap (λ q. set_limiter m q.1) e');
          }

  module _ (args : RunArgs) where
    finish_steps-Blind :
        (d : RoutingDecision F) → Blind (λ (x : TaskResult F). x) (finish_steps rt args d)
    unfolding finish_steps
    finish_steps-Blind d =
        Blind-then _ _ (dispatch-Blind _ _ _ _ d _ _)
          λ out. Blind-then _ _ (mark-Blind _ _ _ _ _ _ _) λ u. Blind-pure _

    steps-Blind : Blind (λ (x : TaskResult F). x) (steps rt args)
    unfolding steps
    steps-Blind = Blind-then _ _ (mark-Blind _ _ _ _ _ _ _) λ u.
        Blind-bind _ _ (check-Blind _) (λ a b e. refl)
          λ allowed. Blind-then _ _ (reserve-Blind _ _ _) λ r.
            Blind-then _ _ (effective-Blind _ _) λ b. Blind-then _ _ (route-Blind _ _ _) λ d.
              Blind-then _ _ (settle-Blind _ _ _ _)
                λ x. Blind-then _ _ (record-Blind _) λ o. finish_steps-Blind d

    dead_letter-Blind : (e : Exc) → Blind (λ (x : TaskResult F). x) (dead_letter rt args e)
    unfolding dead_letter
    dead_letter-Blind e = Blind-then _ _ (mark-Blind _ _ _ _ _ _ _) λ u. Blind-raise _

    catch-Alike :
        (p q : Result Exc (TaskResult F) × World F S)
        → Alike (λ x. x) p q
        → Alike (λ x. x) (catch rt args p) (catch rt args q)
    unfolding catch
    catch-Alike (ok a, s) (ok b, t) k = k
    catch-Alike (ok a, s) (err y, t) k = absurd (cc (k.result_eq))
    catch-Alike (err e, s) (ok b, t) k = absurd (cc (k.result_eq))
    catch-Alike (err e, s) (err y, t) k =
        let same : e ≡ y = err_injective {A = TaskResult F} (err e) e y refl k.result_eq in
        subst
          (λ x. Alike (λ (z : TaskResult F). z) (dead_letter rt args e s) (dead_letter rt args x t))
          same (again-Alike (dead_letter rt args e) s t (dead_letter-Blind e) k.limiter k.state_eq)

    -- A run does not heed the rate limiter: if what others do between its attempts does not depend on
    -- the limiter either, then from a state with any other limiter, also one that denies every call,
    -- or none, the run has the same result, and leaves the same state but for the limiter.
    pub run_unlimited :
        (w : World F S) (l : Option (TokenBucketLimiter F))
        → let (r, t) = run rt args (set_limiter l w) in
          let (r', t') = run rt args w in (r ≡ r') × (t ≡ set_limiter t.rate_limiter t')
    unfolding run
    run_unlimited w l =
        let k =
          catch-Alike (steps rt args (set_limiter l w)) (steps rt args w) (steps-Blind.at w l) in
        (
          sym (seen_id _) ∙ k.result_eq ∙ seen_id _,
          k.state_eq
              ∙ ap (λ m. set_limiter m (catch rt args (steps rt args w)).1)
                  (ap (λ s. s.rate_limiter) (sym k.state_eq)),
        )
