-- ===== src/Orchestrator/Workflow/Others/Kept.antt =====
-- What the actions of others leave alone: the row of a task of another workflow, and claimed keys.
use routing.Prelude.{◌≡◌, refl, ◌∙◌, String}
use routing.Prelude.Float.{Float}
use routing.Orchestrator.Store.Protocol.Laws.{IsStore}
use routing.Orchestrator.Workflow.World.{World, Runtime}
use routing.Orchestrator.Workflow.Rows.{
  read, check_rate_limit-row, reserve_usage-row, effective-row, route_task-row, settle_usage-row,
  record-row, dispatch_task-row, mark_status-other,
}
use routing.Orchestrator.Workflow.Activities.{log_event, log_info}
use routing.Orchestrator.Workflow.Others.{
  Action, checks, reserves, consults, routes, settles, records, dispatches, marks, logs, registers,
  creates, counts, Actions, nothing, then_one,
}

module _ {F S : Type 0} ⦃f : Float F⦄ (rt : Runtime F S) (laws : IsStore F S rt.ops)
    (id acct : String) where
  Action-read :
      {w w' : World F S} → Action rt id w w' → read rt laws id acct w' ≡ read rt laws id acct w
  unfolding log_event log_info
  Action-read (checks who a w) = check_rate_limit-row rt laws id acct who a w
  Action-read (reserves c who x a w) = reserve_usage-row rt laws id acct c who x a w
  Action-read (consults c b a w) = effective-row rt laws id acct c b a w
  Action-read (routes c t b a w) = route_task-row rt laws id acct c t b a w
  Action-read (settles c who x y a w) = settle_usage-row rt laws id acct c who x y a w
  Action-read (records x a w) = record-row rt laws id acct x a w
  Action-read (dispatches c other who name d t sim a w) =
      dispatch_task-row rt laws id acct c other who name d t sim a w
  Action-read (marks c other st e t p x a w ne) =
      mark_status-other rt laws id acct c other st e t p x a w ne
  Action-read (logs c event payload a w) = refl
  Action-read (registers key other w) = laws.get-register key other w.store id acct
  Action-read (creates other b key c now w ne) =
      laws.get-create other b key c now w.store id acct ne
  Action-read (counts n w) = refl

  -- Nothing that others do changes what an account reads of the task.
  pub Actions-read :
      {w w' : World F S} → Actions rt id w w' → read rt laws id acct w' ≡ read rt laws id acct w
  Actions-read nothing = refl
  Actions-read (then_one before last) = Action-read last ∙ Actions-read before
