-- ===== src/Orchestrator/Workflow/Outcome.antt =====
-- How a run of the workflow of orchestrator/workflow.py ends, whatever becomes of its attempts and
-- whatever others do meanwhile, over any store that keeps the laws.
pub mod Ending
pub mod Failure
use routing.Prelude.{◌≡◌, String, Option}
use routing.Prelude.Float.{Float}
use routing.Orchestrator.Store.Tables.{Status}
use routing.Orchestrator.Store.Protocol.Laws.{IsStore}
use routing.Orchestrator.Workflow.World.{Attempt, World, Runtime, Body, counted, activity}
use routing.Orchestrator.Workflow.Activities.{mark_status}
use routing.Orchestrator.Workflow.Attempts.{Keeps, activity-Keeps}
use routing.Orchestrator.Workflow.Rows.{read, HasRow, HasRow-eq, mark_status-HasRow}
use routing.Orchestrator.Workflow.Others.{AreOthers}
use routing.Orchestrator.Workflow.Others.Kept.{Actions-read}

module _ {F S : Type 0} ⦃f : Float F⦄ (rt : Runtime F S) (laws : IsStore F S rt.ops)
    (id acct : String) (calm : AreOthers rt id) where
  abbrev Row : World F S → Type 0
  Row = HasRow rt laws id acct

  -- What others do before an attempt leaves the row.
  pub counted-HasRow : (w : World F S) → Row w → Row (counted rt w)
  counted-HasRow w =
      HasRow-eq rt laws id acct w (counted rt w) (Actions-read rt laws id acct (calm.at w.tick w))

  -- An activity that does not write task rows keeps the row.
  pub plain :
      {A : Type 0} (body : Body F S A)
      → ((a : Attempt F) (w : World F S)
          → read rt laws id acct (body a w).1 ≡ read rt laws id acct w)
      → Keeps Row (activity rt body)
  plain body same =
      activity-Keeps rt Row body counted-HasRow
        λ a w h. HasRow-eq rt laws id acct w (body a w).1 (same a w) h

  pub marks :
      (c : String) (st : Status) (e t p : Option String) (x : Option F)
      → Keeps Row (activity rt (mark_status rt c id st e t p x))
  marks c st e t p x =
      activity-Keeps rt Row (mark_status rt c id st e t p x) counted-HasRow
        λ a w h. mark_status-HasRow rt laws id acct c st e t p x a w h
