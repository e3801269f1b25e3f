-- ===== src/Orchestrator/Lifecycle/Submits.antt =====
-- What a submission of orchestrator/api.py does to the store is a sequence of actions: so submissions
-- may be interleaved with the runs of workflows.
use mathlib.Core.Path.{subst}
use routing.Prelude.{
  ◌≡◌, ◌≢◌, refl, sym, String, Bool, true, false, none, inl, inr, Option-cases, if◌then◌else◌,
}
use routing.Prelude.Float.{Float}
use routing.Prelude.Result.{Result, ok, err}
use routing.Matrix.Model.{PyError, rate_limit_exceeded}
use routing.Orchestrator.Workflow.World.{World, Runtime}
use routing.Orchestrator.Workflow.Others.{Actions, nothing, then_one, registers, creates}
use routing.Orchestrator.Api.{
  ApiState, Submission, resolve_account, start_workflow, launch, claim_or_launch, claim, admit,
  submit_for, submit,
}
use routing.Orchestrator.Api.Claims.{admit-store, claim_key}

module _ {F S : Type 0} ⦃f : Float F⦄ (rt : Runtime F S) (id : String) (w : World F S) where
  -- The store of one state is reached from that of another.
  abbrev Leads : S → S → Type 0
  Leads s t = Actions rt id (record w { store = s }) (record w { store = t })

  launch-store :
      (q : Submission F) (a : String) (s : ApiState F S)
      → (launch rt.ops q a s).1.store
        ≡ rt.ops.create_task q.new_task_id a q.idempotency_key q.new_correlation_id q.now s.store
  unfolding launch start_workflow
  launch-store q a s = elim (Option-cases q.client_error) [
    | inl taken ↦ rw taken refl
    | inr (e, refused) ↦ rw refused refl
  ]

  launch-Leads :
      (q : Submission F) (a : String) (s : ApiState F S) (t : S)
      → q.new_task_id ≢ id
      → Leads t s.store
      → Leads t (launch rt.ops q a s).1.store
  launch-Leads q a s t ne h = subst (Leads t) (sym (launch-store q a s)) (
      then_one h (
        creates q.new_task_id a q.idempotency_key q.new_correlation_id q.now
          (record w { store = s.store }) ne))

  claim_or_launch-Leads :
      (q : Submission F) (a : String) (p : (String × Bool) × S) (s : ApiState F S) (t : S)
      → q.new_task_id ≢ id
      → Leads t p.1
      → Leads t (claim_or_launch rt.ops q a p s).1.store
  claim_or_launch-Leads q a ((existing, true), store) s t ne h =
      launch-Leads q a (record s { store = store }) t ne h
  claim_or_launch-Leads q a ((existing, false), store) s t ne h = h

  claim_keyless :
      (q : Submission F) (a : String) (s : ApiState F S)
      → q.idempotency_key ≡ none
      → claim rt.ops q a s ≡ launch rt.ops q a s
  unfolding claim
  claim_keyless q a s e = rw e refl

  claim-Leads :
      (q : Submission F) (a : String) (s : ApiState F S)
      → q.new_task_id ≢ id
      → Leads s.store (claim rt.ops q a s).1.store
  claim-Leads q a s ne = elim (Option-cases q.idempotency_key) [
    | inl without ↦
        subst (λ x. Leads s.store x.1.store) (sym (claim_keyless q a s without))
          (launch-Leads q a s s.store ne nothing)
    | inr (key, given) ↦
        let p = rt.ops.register_idempotency key q.new_task_id s.store in
        subst (λ x. Leads s.store x.1.store) (sym (claim_key rt.ops q a key s given))
          (claim_or_launch-Leads q a p s s.store ne
            (then_one nothing (registers key q.new_task_id (record w { store = s.store }))))
  ]

  admitted-Leads :
      (q : Submission F) (a : String) (allowed : Bool) (s s' : ApiState F S)
      → q.new_task_id ≢ id
      → s'.store ≡ s.store
      → Leads s.store
          (if allowed then claim rt.ops q a s' else (err (rate_limit_exceeded a), s')).1.store
  admitted-Leads q a true s s' ne same =
      subst (λ x. Leads x (claim rt.ops q a s').1.store) same (claim-Leads q a s' ne)
  admitted-Leads q a false s s' ne same = subst (λ x. Leads x s'.store) same nothing

  submit_for-Leads :
      (q : Submission F) (r : Result PyError String) (s : ApiState F S)
      → q.new_task_id ≢ id
      → Leads s.store (submit_for rt.ops q r s).1.store
  unfolding submit_for
  submit_for-Leads q (err e) s ne = nothing
  submit_for-Leads q (ok a) s ne =
      let (allowed, s') = admit q a s in admitted-Leads q a allowed s s' ne (admit-store q a s).0

  -- What a submission that makes another task's id does to the store, however it ends, is a sequence
  -- of single actions, none of which is of the workflow of this task.
  pub submit-Actions :
      (q : Submission F) (s : ApiState F S)
      → q.new_task_id ≢ id
      → Leads s.store (submit rt.ops q s).1.store
  unfolding submit
  submit-Actions q s ne = submit_for-Leads q (resolve_account q.account_id) s ne
