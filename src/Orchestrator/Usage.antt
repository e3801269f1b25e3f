-- ===== src/Orchestrator/Usage.antt =====
-- orchestrator/usage.py: the in-memory ledger of usage by account.
pub mod Counts
use routing.Prelude.{ℕ, ◌+◌, String, Option, none, some, []}
use routing.Prelude.Dict.{Dict, lookup, insert}
use routing.Prelude.Float.{Float, nought}

pub record AccountLedger (F : Type 0) : Type 0 where
  pub account_id : String
  pub total_cost : F
  pub call_count : ℕ
  pub tiers_used : Dict ℕ

pub record UsageSnapshot (F : Type 0) : Type 0 where
  pub account_id : String
  pub total_cost : F
  pub call_count : ℕ
  pub tiers_used : Dict ℕ

-- `UsageLedger._accounts`
abbrev pub UsageLedger : Type 0 → Type 0
UsageLedger F = Dict (AccountLedger F)

abbrev pub default_account : String
default_account = "default"

-- `d.get(k, 0)`
abbrev pub count_of : Option ℕ → ℕ
count_of none = 0
count_of (some n) = n

module _ {F : Type 0} where
  -- `AccountLedger.snapshot`
  unfoldable pub view : AccountLedger F → UsageSnapshot F
  view a = record {
    account_id = a.account_id;
    total_cost = a.total_cost;
    call_count = a.call_count;
    tiers_used = a.tiers_used;
  }

module _ {F : Type 0} ⦃f : Float F⦄ where
  unfoldable pub new_account : String → AccountLedger F
  new_account account_id = record {
    account_id = account_id;
    total_cost = nought;
    call_count = 0;
    tiers_used = [];
  }

  -- `AccountLedger.record`
  unfoldable pub charge : AccountLedger F → String → F → AccountLedger F
  unfolding lookup insert
  charge a tier cost = record a {
    total_cost = f.add a.total_cost cost;
    call_count = a.call_count + 1;
    tiers_used = insert tier (count_of (lookup tier a.tiers_used) + 1) a.tiers_used;
  }

  abbrev pub or_new : String → Option (AccountLedger F) → AccountLedger F
  or_new account_id none = new_account account_id
  or_new account_id (some a) = a

  -- `UsageLedger.account`: the account, made at its first use. The account is an object of the
  -- ledger, so that a change to it is a write to the ledger.
  unfoldable pub account : UsageLedger F → String → AccountLedger F × UsageLedger F
  unfolding new_account
  account l account_id = elim (lookup account_id l) [
    | some a ↦ (a, l)
    | none ↦ (new_account account_id, insert account_id (new_account account_id) l)
  ]

  -- `UsageLedger.record`
  unfoldable pub record_usage : UsageLedger F → String → String → F → UsageLedger F
  unfolding account charge
  record_usage l account_id tier cost =
      let (a, l') = account l account_id in insert account_id (charge a tier cost) l'

  -- `UsageLedger.snapshot`
  unfoldable pub snapshot : UsageLedger F → String → UsageSnapshot F
  unfolding view new_account
  snapshot l account_id = view (or_new account_id (lookup account_id l))
