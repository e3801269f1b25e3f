-- ===== src/Orchestrator/Store/Protocol/Laws.antt =====
-- What clients of a store rely on: the workflow and the facade use a store through these laws.
use mathlib.Core.Option
use routing.Prelude.{◌≡◌, ◌≢◌, String, ◌==◌, true, false, Option, none, some, if◌then◌else◌}
use routing.Orchestrator.Store.Tables.{TaskRow, Status, with_status}
use routing.Orchestrator.Store.Protocol.{Store}

pub record IsStore (F S : Type 0) (ops : Store F S) : Type 0 where
  -- reads of tasks, after each write
  pub get-set_status :
      (id : String) (st : Status) (e t p : Option String) (c : Option F) (now : F) (s : S)
      (j a : String)
      → ops.get_task j a (ops.set_task_status id st e t p c now s) ≡ (
          if id == j
          then Option.map (with_status st e t p c now) (ops.get_task j a s)
          else ops.get_task j a s)
  pub get-reserve :
      (b : String) (cost now : F) (s : S) (j a : String)
      → ops.get_task j a (ops.reserve b cost now s).1 ≡ ops.get_task j a s
  pub get-settle :
      (b : String) (r x now : F) (s : S) (j a : String)
      → ops.get_task j a (ops.settle b r x now s).1 ≡ ops.get_task j a s
  pub get-register :
      (key id : String) (s : S) (j a : String)
      → ops.get_task j a (ops.register_idempotency key id s).1 ≡ ops.get_task j a s
  pub get-create :
      (id b : String) (key : Option String) (corr : String) (now : F) (s : S) (j a : String)
      → id ≢ j
      → ops.get_task j a (ops.create_task id b key corr now s) ≡ ops.get_task j a s
  -- what an account can read
  pub owner-get :
      (j a b : String) (s : S) → ops.task_owner j s ≡ some b → a ≢ b → ops.get_task j a s ≡ none
  pub no_owner-get : (j a : String) (s : S) → ops.task_owner j s ≡ none → ops.get_task j a s ≡ none
  pub own-get :
      (j a : String) (s : S)
      → ops.task_owner j s ≡ some a
      → (r : TaskRow F) × (ops.get_task j a s ≡ some r) × (r.account_id ≡ a)
  -- claims of keys
  pub register-old :
      (key id owner : String) (s : S)
      → ops.get_idempotency key s ≡ some owner
      → ops.register_idempotency key id s ≡ ((owner, false), s)
  pub register-new :
      (key id : String) (s : S)
      → ops.get_idempotency key s ≡ none
      → ((ops.register_idempotency key id s).0 ≡ (id, true))
        × (ops.get_idempotency key (ops.register_idempotency key id s).1 ≡ some id)
        × ((j : String)
            → ops.task_owner j (ops.register_idempotency key id s).1 ≡ ops.task_owner j s)
  pub create-keys :
      (id a : String) (key : Option String) (corr : String) (now : F) (s : S) (k : String)
      → ops.get_idempotency k (ops.create_task id a key corr now s) ≡ ops.get_idempotency k s
  pub create-owner :
      (id a : String) (key : Option String) (corr : String) (now : F) (s : S)
      → ops.task_owner id (ops.create_task id a key corr now s) ≡ some a
  -- what a key stands for, after each write
  pub keys-reserve :
      (b : String) (cost now : F) (s : S) (k : String)
      → ops.get_idempotency k (ops.reserve b cost now s).1 ≡ ops.get_idempotency k s
  pub keys-settle :
      (b : String) (r x now : F) (s : S) (k : String)
      → ops.get_idempotency k (ops.settle b r x now s).1 ≡ ops.get_idempotency k s
  pub keys-set_status :
      (id : String) (st : Status) (e t p : Option String) (c : Option F) (now : F) (s : S)
      (k : String)
      → ops.get_idempotency k (ops.set_task_status id st e t p c now s) ≡ ops.get_idempotency k s
  pub keys-register :
      (key id : String) (s : S) (k owner : String)
      → ops.get_idempotency k s ≡ some owner
      → ops.get_idempotency k (ops.register_idempotency key id s).1 ≡ some owner
