-- ===== src/Orchestrator/Workflow/Inputs.antt =====
-- `TaskInput` of orchestrator/workflow.py: the fields of a task in the form in which they travel to the
-- workflow and its activities.
use routing.Matrix.Model.{Task}

-- It has the fields of a task, and no others.
abbrev pub TaskInput : Type 0
TaskInput = Task

-- `TaskInput.to_task`
abbrev pub to_task : TaskInput → Task
to_task ti = record {
  prompt = ti.prompt;
  task_type = ti.task_type;
  escalate = ti.escalate;
  failure_context = ti.failure_context;
}

-- What `submit` of orchestrator/api.py makes of a task.
abbrev pub task_input : Task → TaskInput
task_input task = record {
  prompt = task.prompt;
  task_type = task.task_type;
  escalate = task.escalate;
  failure_context = task.failure_context;
}
