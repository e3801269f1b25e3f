-- ===== src/Tests/Lives.antt =====
-- A run of the workflow of orchestrator/workflow.py over the SQLite store whose first two attempts
-- fail.
use routing.Prelude.{ℕ, zero, suc, ◌+◌, ◌⊎◌, true, none, ◌≡◌, refl, some, inl, inr}
use routing.Matrix.Model.{runtime_error}
use routing.Prelude.Dict.{lookup, insert}
use routing.Prelude.Float.{ticks}
use routing.Prelude.Result.{ok}
use routing.Prelude.Text.{strip}
use routing.Matrix.Providers.{parse_provider, register, echo_provider}
use routing.Orchestrator.Store.Tables.{Database, TaskRow, new_row}
use routing.Orchestrator.Store.Sqlite.{get_task}
use routing.Orchestrator.Store.Protocol.SqliteLaws.{sqlite-IsStore}
use routing.Orchestrator.Workflow.World.{
  Fate, runs, breaks, loses_result, World, Runtime, may_retry,
}
use routing.Orchestrator.Workflow.Activities.{reserve_usage}
use routing.Orchestrator.Workflow.Run.{TaskResult, run}
use routing.Orchestrator.Workflow.Others.{AreOthers, nothing, then_one, reserves}
use routing.Orchestrator.Workflow.Outcome.Ending.{IsCompleted}
use routing.Orchestrator.Workflow.Returns.{IsPatient}
use routing.Orchestrator.Workflow.Returns.Served.{Serves}
use routing.Orchestrator.Workflow.Returns.Live.{IsConfigured, run_returns}
use routing.Orchestrator.Workflow.Lost.{reserve_usage-twice}
use routing.Orchestrator.Store.Tables.{Reservation, sum_account, prune}
use routing.Orchestrator.Workflow.World.{activity}
use routing.Prelude.Float.{ticks-IsFloat, ticks-AddsInOrder}
use routing.Tests.Routes.{pointer}
use routing.Tests.Runs.{alone, cfg, rt, args, start, there}

-- The first attempt meets a locked database, and the second loses its result.
unfoldable pub fate_of : ℕ → Fate
fate_of zero = breaks (runtime_error "database is locked")
fate_of (suc zero) = loses_result
fate_of (suc (suc n)) = runs

abbrev pub flaky : Runtime ℕ (Database ℕ)
flaky = record rt { attempts = λ n. record { fate = fate_of n; now = 100; monotonic = 100 } }

pub flaky_others : AreOthers flaky "t1"
unfolding reserve_usage
flaky_others = record {
  at = λ n w.
      then_one nothing
        (reserves "c9" "bob" 5 (record { fate = runs; now = 100; monotonic = 100 }) w);
}

pub patient : IsPatient flaky
unfolding fate_of
patient = record { one_runs = third; taken = again }
  where
    third : (n : ℕ) → (fate_of n ≡ runs) ⊎ ((fate_of (n + 1) ≡ runs) ⊎ (fate_of (n + 2) ≡ runs))
    third zero = inr (inr refl)
    third (suc zero) = inr (inl refl)
    third (suc (suc n)) = inl refl

    again : (n : ℕ) → may_retry (fate_of n) ≡ true
    again zero = refl
    again (suc zero) = refl
    again (suc (suc n)) = refl

pub configured : IsConfigured flaky
configured t = ("gpt-x", pointer t)

pub served : Serves (parse_provider flaky.env (some "echo")) start.registry
unfolding parse_provider strip register lookup insert echo_provider
served = record {
  made = echo_provider;
  found = refl;
  answers = record { at = λ p. (_, refl) };
  cached = λ a h. absurd (cc);
}

run_returns_example :
    (res : TaskResult ℕ) × (w' : World ℕ (Database ℕ)) × (run flaky (args none) start
      ≡ (ok res, w'))
    × ((r : TaskRow ℕ) × (get_task "t1" "ada" w'.store ≡ some r) × IsCompleted res.decision r)
run_returns_example =
    run_returns flaky (args none) flaky_others patient configured refl (sqlite-IsStore cfg) start
      served (new_row "t1" "ada" none "c1" 90, there)

-- The first attempt loses its result, and all others run.
lost_of : ℕ → Fate
lost_of zero = loses_result
lost_of (suc n) = runs

abbrev lossy : Runtime ℕ (Database ℕ)
lossy = record alone { attempts = λ n. record { fate = lost_of n; now = 100; monotonic = 100 } }

reserve_usage-twice_example :
    (res : Reservation ℕ) × (w' : World ℕ (Database ℕ)) × (activity lossy
        (reserve_usage lossy "c1" "ada" 5)
        start
      ≡ (ok res, w'))
    × (res.balance ≡ 0 + 5 + 5)
    × (sum_account "ada" w'.store.usage_charges ≡ res.balance)
unfolding lost_of sum_account prune
reserve_usage-twice_example =
    reserve_usage-twice ticks-IsFloat ticks-AddsInOrder cfg refl lossy "c1" "ada" 5 start
      (λ n v. refl) refl refl refl refl
