-- ===== src/Orchestrator/Api/Polls.antt =====
-- What `get_status` of orchestrator/api.py answers, over any store that keeps the laws.
use routing.Prelude.{
  ◌≡◌, ◌≢◌, refl, sym, ◌∙◌, ap, ◌⊎◌, inl, inr, String, ◌==◌, eq_iff, false, Option, none, some,
  arith, Option-cases, Bool-cases,
}
use routing.Prelude.Float.{Float}
use routing.Prelude.Result.{ok, err}
use routing.Matrix.Model.{task_not_found, tenant_isolation_violation}
use routing.Orchestrator.Store.Tables.{TaskRow}
use routing.Orchestrator.Store.Protocol.{Store}
use routing.Orchestrator.Store.Protocol.Laws.{IsStore}
use routing.Orchestrator.Api.{ApiState, Submission, resolve_account, submit, status_for, get_status}
use routing.Orchestrator.Api.Claims.{IsAdmitted, submit_claimed}

differs : (a b : String) → (a == b) ≡ false → a ≢ b
differs a b h e = ground (arith, eq_iff a b)

module _ {F S : Type 0} ⦃f : Float F⦄ {ops : Store F S} (laws : IsStore F S ops) where
  open laws use {owner-get, no_owner-get, own-get}

  get_status-owner :
      (id a : String) (who : Option String) (s : ApiState F S)
      → resolve_account who ≡ ok a
      → (ops.task_owner id s.store ≡ some a
          → (r : TaskRow F) × (get_status ops id who s ≡ ok r) × (r.account_id ≡ a))
        × ((b : String)
            → ops.task_owner id s.store ≡ some b
            → a ≢ b
            → get_status ops id who s ≡ err (tenant_isolation_violation id a))
        × (ops.task_owner id s.store ≡ none → get_status ops id who s ≡ err (task_not_found id a))
  unfolding get_status
  get_status-owner id a who s h = (
    λ mine.
        let (r, found, owned) = own-get id a s.store mine in
        (r, rw (h, found, status_for) refl, owned),
    λ b theirs other. rw (h, owner-get id a b s.store theirs other, theirs, status_for) refl,
    λ absent. rw (h, no_owner-get id a s.store absent, absent, status_for) refl,
  )

  -- A poll of an account answers the task's row if the account owns it, and then the row names the
  -- account; it raises `TenantIsolationViolation` if another account owns it, and `TaskNotFound`
  -- if there is no such task.
  pub get_status_cases :
      (id a : String) (who : Option String) (s : ApiState F S)
      → resolve_account who ≡ ok a
      → ((ops.task_owner id s.store ≡ some a)
          × ((r : TaskRow F) × (get_status ops id who s ≡ ok r) × (r.account_id ≡ a)))
        ⊎ (((b : String) × (ops.task_owner id s.store ≡ some b)
              × (a ≢ b)
              × (get_status ops id who s ≡ err (tenant_isolation_violation id a)))
            ⊎ ((ops.task_owner id s.store ≡ none)
                × (get_status ops id who s ≡ err (task_not_found id a))))
  get_status_cases id a who s h =
      let (mine, theirs, absent) = get_status-owner id a who s h in
      elim (Option-cases (ops.task_owner id s.store)) [
        | inl none_eq ↦ inr (inr (none_eq, absent none_eq))
        | inr (b, owned) ↦ elim (Bool-cases (a == b)) [
          | inl same ↦ let own = owned ∙ ap some (sym ((eq_iff a b).0 same)) in inl (own, mine own)
          | inr other ↦
              let ne : a ≢ b = differs a b other in inr (inl (b, owned, ne, theirs b owned ne))
        ]
      ]

  -- A key is not bound to an account: a submission of one account with a key that stands for a
  -- task of another one answers that task's id, and the account's poll of it raises
  -- `TenantIsolationViolation`.
  pub submit_claimed-other :
      (q : Submission F) (a b key id : String) (s : ApiState F S)
      → IsAdmitted q a s
      → q.idempotency_key ≡ some key
      → ops.get_idempotency key s.store ≡ some id
      → ops.task_owner id s.store ≡ some b
      → a ≢ b
      → let (r, s') = submit ops q s in
        (r ≡ ok id) × (get_status ops id q.account_id s' ≡ err (tenant_isolation_violation id a))
  submit_claimed-other q a b key id s h k c o d =
      let (r, store, started) = submit_claimed laws q a key id s h k c in
      (
        r,
        (get_status-owner id a q.account_id (submit ops q s).1 h.account).1 b
            (ap (ops.task_owner id) store ∙ o) d,
      )
