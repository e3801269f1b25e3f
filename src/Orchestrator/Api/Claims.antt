-- ===== src/Orchestrator/Api/Claims.antt =====
-- What `submit` of orchestrator/api.py answers and starts, over any store that keeps the laws.
use routing.Prelude.{
  ◌≡◌, refl, ◌∙◌, ap, String, Bool, true, false, none, some, [], ◌∷◌, ◌++◌, arith,
}
use routing.Prelude.Float.{Float}
use routing.Prelude.Result.{ok, err}
use routing.Matrix.Model.{PyError}
use routing.Orchestrator.Store.Protocol.{Store}
use routing.Orchestrator.Store.Protocol.Laws.{IsStore}
use routing.Orchestrator.Workflow.Run.{RunArgs}
use routing.Orchestrator.Api.{
  ApiState, Submission, resolve_account, start_workflow, launch, claim_or_launch, claim, admit,
  submit_for, submit,
}

module _ {F S : Type 0} ⦃f : Float F⦄ where
  -- The limiter, if there is one, lets the submission through for an account.
  pub record IsAdmitted (q : Submission F) (a : String) (s : ApiState F S) : Type 0 where
    pub account : resolve_account q.account_id ≡ ok a
    pub admitted : (admit q a s).0 ≡ true

  pub admit-store :
      (q : Submission F) (a : String) (s : ApiState F S)
      → ((admit q a s).1.store ≡ s.store) × ((admit q a s).1.started ≡ s.started)
  admit-store q a s = ground arith

module _ {F S : Type 0} ⦃f : Float F⦄ (ops : Store F S) where
  submit_admitted :
      (q : Submission F) (a : String) (s : ApiState F S)
      → IsAdmitted q a s
      → submit ops q s ≡ claim ops q a (admit q a s).1
  unfolding submit submit_for
  submit_admitted q a s h = rw (h.account, h.admitted) refl

  pub claim_key :
      (q : Submission F) (a key : String) (s : ApiState F S)
      → q.idempotency_key ≡ some key
      → claim ops q a s
        ≡ claim_or_launch ops q a (ops.register_idempotency key q.new_task_id s.store) s
  unfolding claim
  claim_key q a key s k = rw k refl

module _ {F S : Type 0} ⦃f : Float F⦄ {ops : Store F S} (laws : IsStore F S ops) where
  open laws use {
    register-old, register-new, create-keys, create-owner, owner-get, no_owner-get, own-get,
  }

  claim_claimed :
      (q : Submission F) (a key owner : String) (s : ApiState F S)
      → q.idempotency_key ≡ some key
      → ops.get_idempotency key s.store ≡ some owner
      → claim ops q a s ≡ (ok owner, s)
  unfolding claim
  claim_claimed q a key owner s k h = rw (k, register-old key q.new_task_id owner s.store h) refl

  -- A submission that is let through with a key that is claimed answers the id that the key stands
  -- for, and neither changes the store nor starts a workflow.
  pub submit_claimed :
      (q : Submission F) (a key owner : String) (s : ApiState F S)
      → IsAdmitted q a s
      → q.idempotency_key ≡ some key
      → ops.get_idempotency key s.store ≡ some owner
      → let (r, s') = submit ops q s in
        (r ≡ ok owner) × (s'.store ≡ s.store) × (s'.started ≡ s.started)
  submit_claimed q a key owner s h k c =
      let same = admit-store q a s in
      let found = ap (ops.get_idempotency key) same.0 ∙ c in
      rw (submit_admitted ops q a s h, claim_claimed q a key owner (admit q a s).1 k found)
        (refl, same.0, same.1)

  launch_new :
      (q : Submission F) (a : String) (s : ApiState F S)
      → q.client_error ≡ none
      → let (r, s') = launch ops q a s in
        (r ≡ ok q.new_task_id)
        × (ops.task_owner q.new_task_id s'.store ≡ some a)
        × ((k : String) → ops.get_idempotency k s'.store ≡ ops.get_idempotency k s.store)
        × ((w : RunArgs) × (s'.started ≡ s.started ++ (w ∷ []))
            × (w.wf_id ≡ q.new_task_id)
            × (w.account_id ≡ a)
            × (w.task ≡ q.task))
  unfolding launch start_workflow
  launch_new q a s h = rw h (
    refl,
    create-owner q.new_task_id a q.idempotency_key q.new_correlation_id q.now s.store,
    create-keys q.new_task_id a q.idempotency_key q.new_correlation_id q.now s.store,
    (_, refl, refl, refl, refl),
  )

  launch_failed :
      (q : Submission F) (a : String) (s : ApiState F S) (e : PyError)
      → q.client_error ≡ some e
      → let (r, s') = launch ops q a s in
        (r ≡ err e)
        × ((k : String) → ops.get_idempotency k s'.store ≡ ops.get_idempotency k s.store)
        × (s'.started ≡ s.started)
        × (s'.rate_limiter ≡ s.rate_limiter)
  unfolding launch start_workflow
  launch_failed q a s e h = rw h (
    refl,
    create-keys q.new_task_id a q.idempotency_key q.new_correlation_id q.now s.store,
    refl,
    refl,
  )

  claim_or_launch_new :
      (q : Submission F) (a : String) (p : (String × Bool) × S) (s : ApiState F S)
      → p.0 ≡ (q.new_task_id, true)
      → claim_or_launch ops q a p s ≡ launch ops q a (record s { store = p.1 })
  claim_or_launch_new q a ((i, true), t) s h = refl
  claim_or_launch_new q a ((i, false), t) s h = absurd (cc)

  claim_new :
      (q : Submission F) (a key : String) (s : ApiState F S)
      → q.idempotency_key ≡ some key
      → ops.get_idempotency key s.store ≡ none
      → (t : S) × (claim ops q a s ≡ launch ops q a (record s { store = t }))
        × (ops.get_idempotency key t ≡ some q.new_task_id)
  claim_new q a key s k h =
      let (claimed, stands, same) = register-new key q.new_task_id s.store h in
      let p = ops.register_idempotency key q.new_task_id s.store in
      (p.1, claim_key ops q a key s k ∙ claim_or_launch_new q a p s claimed, stands)

  -- A submission that is let through with a key that is not claimed, and whose workflow Temporal
  -- takes, answers its own new id: the task is the account's, the key stands for it, and exactly one
  -- workflow was started, for that id, that account and that task.
  pub submit_new :
      (q : Submission F) (a key : String) (s : ApiState F S)
      → IsAdmitted q a s
      → q.idempotency_key ≡ some key
      → ops.get_idempotency key s.store ≡ none
      → q.client_error ≡ none
      → let (r, s') = submit ops q s in
        (r ≡ ok q.new_task_id)
        × (ops.task_owner q.new_task_id s'.store ≡ some a)
        × (ops.get_idempotency key s'.store ≡ some q.new_task_id)
        × ((w : RunArgs) × (s'.started ≡ s.started ++ (w ∷ []))
            × (w.wf_id ≡ q.new_task_id)
            × (w.account_id ≡ a)
            × (w.task ≡ q.task))
  submit_new q a key s h k c e =
      let s0 = (admit q a s).1 in
      let kept = admit-store q a s in
      let (t, same, stands) = claim_new q a key s0 k (ap (ops.get_idempotency key) kept.0 ∙ c) in
      let (r, own, keys, (w, started, i, j, m)) = launch_new q a (record s0 { store = t }) e in
      rw (submit_admitted ops q a s h, same)
        (r, own, keys key ∙ stands, (w, started ∙ ap (λ l. l ++ (w ∷ [])) kept.1, i, j, m))

  pub submit_failed :
      (q : Submission F) (a key : String) (s : ApiState F S) (e : PyError)
      → IsAdmitted q a s
      → q.idempotency_key ≡ some key
      → ops.get_idempotency key s.store ≡ none
      → q.client_error ≡ some e
      → let (r, s') = submit ops q s in
        (r ≡ err e)
        × (ops.get_idempotency key s'.store ≡ some q.new_task_id)
        × (s'.started ≡ s.started)
  submit_failed q a key s e h k c x =
      let s0 = (admit q a s).1 in
      let kept = admit-store q a s in
      let (t, same, stands) = claim_new q a key s0 k (ap (ops.get_idempotency key) kept.0 ∙ c) in
      let (r, keys, started, limiter) = launch_failed q a (record s0 { store = t }) e x in
      rw (submit_admitted ops q a s h, same) (r, keys key ∙ stands, started ∙ kept.1)

  -- If a submission is let through with a key that is not claimed, and Temporal refuses the workflow,
  -- `submit` raises that, with no workflow started; but the key stays claimed, so that the next
  -- submission with it that is let through, of any account, answers the id of the task that was never
  -- started, and starts none.
  pub submit_failed-retry :
      (q q2 : Submission F) (a b key : String) (s : ApiState F S) (e : PyError)
      → IsAdmitted q a s
      → q.idempotency_key ≡ some key
      → ops.get_idempotency key s.store ≡ none
      → q.client_error ≡ some e
      → q2.idempotency_key ≡ some key
      → IsAdmitted q2 b (submit ops q s).1
      → let (r, s') = submit ops q s in
        let (r2, s'') = submit ops q2 s' in
        (r ≡ err e) × (r2 ≡ ok q.new_task_id) × (s''.started ≡ s.started)
  submit_failed-retry q q2 a b key s e h k c x k2 h2 =
      let (r, stands, started) = submit_failed q a key s e h k c x in
      let (r2, store2, started2) =
        submit_claimed q2 b key q.new_task_id (submit ops q s).1 h2 k2 stands in
      (r, r2, started2 ∙ started)
