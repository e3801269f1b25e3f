-- ===== src/Orchestrator/Lifecycle/Again.antt =====
-- A key that is submitted again later (orchestrator/api.py), whatever happened in between.
use routing.Prelude.{◌≡◌, ◌∙◌, ap, inl, inr, String, none, some, Option-cases}
use routing.Prelude.Float.{Float}
use routing.Prelude.Result.{ok}
use routing.Orchestrator.Store.Protocol.Laws.{IsStore}
use routing.Orchestrator.Workflow.World.{World, Runtime}
use routing.Orchestrator.Workflow.Others.{Actions}
use routing.Orchestrator.Workflow.Others.Claims.{IsClaimed, Actions-IsClaimed}
use routing.Orchestrator.Api.{ApiState, Submission, submit}
use routing.Orchestrator.Api.Claims.{IsAdmitted, submit_claimed, submit_new, submit_failed}

module _ {F S : Type 0} ⦃f : Float F⦄ (rt : Runtime F S) (laws : IsStore F S rt.ops) where
  -- A submission that is let through leaves its key claimed.
  claimed_after :
      (q : Submission F) (a key : String) (s : ApiState F S)
      → IsAdmitted q a s
      → q.idempotency_key ≡ some key
      → rt.ops.get_idempotency key s.store ≡ none
      → rt.ops.get_idempotency key (submit rt.ops q s).1.store ≡ some q.new_task_id
  claimed_after q a key s h k c = elim (Option-cases q.client_error) [
    | inl taken ↦ (submit_new laws q a key s h k c taken).2
    | inr (e, refused) ↦ (submit_failed laws q a key s e h k c refused).1
  ]

  -- If a submission with a key that is not claimed was let through, whether or not Temporal took its
  -- workflow, and any other workflows and submissions acted in any way since then, then a later
  -- submission with the key that is let through, of any account, answers the id of the first one,
  -- changes nothing in the store, and starts no workflow.
  pub submit-again :
      (q q2 : Submission F) (a b key id : String) (s s2 : ApiState F S) (w w' : World F S)
      → IsAdmitted q a s
      → q.idempotency_key ≡ some key
      → rt.ops.get_idempotency key s.store ≡ none
      → w.store ≡ (submit rt.ops q s).1.store
      → Actions rt id w w'
      → s2.store ≡ w'.store
      → q2.idempotency_key ≡ some key
      → IsAdmitted q2 b s2
      → let (r, s3) = submit rt.ops q2 s2 in
        (r ≡ ok q.new_task_id) × (s3.store ≡ s2.store) × (s3.started ≡ s2.started)
  submit-again q q2 a b key id s s2 w w' h k c from between to k2 h2 =
      let stands = rt.ops.get_idempotency key in
      let first : IsClaimed rt laws id key q.new_task_id w.store =
        ap stands from ∙ claimed_after q a key s h k c in
      let later = Actions-IsClaimed rt laws id key q.new_task_id between first in
      submit_claimed laws q2 b key q.new_task_id s2 h2 k2 (ap stands to ∙ later)
