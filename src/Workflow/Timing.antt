-- ===== src/Workflow/Timing.antt =====
-- server/processes/models/workflow.py: the rule of Amazon EventBridge that starts a workflow on its
-- schedule. The answers of the service are a parameter, and its requests are recorded in order; the
-- API key that the rule's target uses is left out. The names of the rule and of its target are the
-- workflow's uuid.
mod Columns
pub mod Requests
pub mod Rules
unfoldable pub use Columns.*
use task_manager.Prelude.{
  ℕ, Bool, true, false, not, ◌&&◌, ◌||◌, Option, none, some, List, [], ◌∷◌, ◌++◌, ◌==◌,
  if◌then◌else◌, is_some, leb, Time,
}
use task_manager.Limits.{UsageLimits}

module _ (events : Events) where
  abbrev pub call : RunEnvironment → Request → Call
  call e r = record { environment = e.ident; request = r; answer = events.answer e.ident r }

  -- Requests one after the other, until one fails.
  abbrev pub send_all : RunEnvironment → List Request → List Call → Row → Row → Step
  send_all e [] calls w done = record { calls = calls; result = some done }
  send_all e (r ∷ rs) calls w done =
      let next = calls ++ (call e r ∷ []) in
      let rest = send_all e rs next w done in
      if is_success (events.answer e.ident r) then rest else record { calls = next; result = none }

  abbrev pub set_up : RunEnvironment → Row → Row
  set_up e w = record w {
    aws_scheduled_execution_rule_name = some w.uuid;
    aws_scheduled_event_rule_arn = some events.rule_arn;
    aws_event_target_rule_name = some w.uuid;
    aws_event_target_id = some w.uuid;
    scheduling_run_environment = some e;
  }

  abbrev pub set_up_schedule : RunEnvironment → List Call → Row → Schedule → Step
  set_up_schedule e calls w s =
      if not (is_valid s)
      then record { calls = calls; result = none }
      else if not e.has_aws_settings
      then record { calls = calls; result = none }
      else if not e.has_starter_settings
      then record { calls = calls; result = none }
      else send_all e (put_rule s w.enabled ∷ switch w.enabled ∷ put_targets ∷ []) calls w
          (set_up e w)

  -- The setup of a schedule, which an empty one is not.
  abbrev pub set_up_optional : RunEnvironment → List Call → Row → Option Schedule → Step
  set_up_optional e calls w none = record { calls = calls; result = none }
  set_up_optional e calls w (some s) = set_up_schedule e calls w s

  -- setup_scheduled_execution, after the calls so far
  unfoldable pub setup_scheduled_execution : RunEnvironment → List Call → Row → Step
  setup_scheduled_execution e calls w = set_up_optional e calls w w.schedule

  -- The removal of the rule, which goes on where the rule does not exist.
  abbrev pub remove_rule : RunEnvironment → List Call → Row → Step
  remove_rule e calls w =
      let next = calls ++ (call e delete_rule ∷ []) in
      let done = record w { aws_scheduled_event_rule_arn = none } in
      if not (is_some w.aws_scheduled_execution_rule_name)
      then record { calls = calls; result = some w }
      else if not e.has_aws_settings
      then record { calls = calls; result = none }
      else elim (events.answer e.ident delete_rule) [
        | success ↦ record { calls = next; result = some done }
        | resource_not_found ↦ record { calls = next; result = some done }
        | failure ↦ record { calls = next; result = none }
      ]

  -- teardown_scheduled_execution
  unfoldable pub teardown_scheduled_execution : RunEnvironment → List Call → Row → Step
  teardown_scheduled_execution e calls w =
      let next = calls ++ (call e remove_targets ∷ []) in
      if not (is_some w.aws_event_target_rule_name && is_some w.aws_event_target_id)
      then remove_rule e calls w
      else if not e.has_aws_settings
      then record { calls = calls; result = none }
      else elim (events.answer e.ident remove_targets) [
        | success ↦
            remove_rule e next
              (record w { aws_event_target_rule_name = none; aws_event_target_id = none })
        | resource_not_found ↦ remove_rule e next w
        | failure ↦ record { calls = next; result = none }
      ]

  -- The setup of the schedule in the effective run environment, after the calls so far.
  abbrev pub set_up_in : Option RunEnvironment → List Call → Row → Step
  set_up_in none calls w = record { calls = calls; result = none }
  set_up_in (some e) calls w = setup_scheduled_execution e calls w

  -- The setup after a teardown.
  abbrev pub then_set_up : Option RunEnvironment → List Call → Option Row → Step
  then_set_up effective calls none = record { calls = calls; result = none }
  then_set_up effective calls (some w) =
      if is_some w.schedule
      then set_up_in effective calls w
      else record { calls = calls; result = some w }

  -- The schedule is replaced by another one, or by none, where it is to be updated; `old_effective`
  -- is the run environment of the old schedule, and `moved` says that it is not that of the new
  -- one.
  abbrev pub replace : Time → Bool → Option RunEnvironment → Option RunEnvironment → Row → Step
  replace now moved none effective w =
      if is_some w.schedule
      then touch now (set_up_in effective [] w)
      else record { calls = []; result = some w }
  replace now moved (some e) effective w =
      if moved
      then (let torn = teardown_scheduled_execution e [] w in
          touch now (then_set_up effective torn.calls torn.result))
      else if is_some w.schedule
      then touch now (set_up_in effective [] w)
      else touch now (teardown_scheduled_execution e [] w)

  -- The handler's part for a Workflow that had a schedule.
  abbrev pub save_scheduled : Time → Row → Row → Step
  save_scheduled now old w =
      let effective = effective_of w in
      let old_effective = run_environment_for_scheduling false old in
      let moved = not (same_environment effective old_effective) in
      if not (same_optional w.schedule old.schedule)
        || (not (same_flag w.enabled old.enabled) || moved)
      then replace now moved old_effective effective w
      else record { calls = []; result = some w }

  abbrev pub save_unscheduled : Time → Row → Step
  save_unscheduled now w =
      if is_some w.schedule
      then touch now (set_up_in (effective_of w) [] w)
      else record { calls = []; result = some w }

  abbrev pub synchronize : Time → Option Row → Row → Step
  synchronize now none w = save_unscheduled now w
  synchronize now (some old) w =
      if is_some old.schedule then save_scheduled now old w else save_unscheduled now w

  -- pre_save_workflow, with the copy that was loaded
  unfoldable pub pre_save_workflow : UsageLimits → ℕ → Time → Option Row → Row → Step
  unfolding run_environment_for_scheduling setup_scheduled_execution teardown_scheduled_execution
  pre_save_workflow limits existing_count now old w =
      if not w.is_saved && exceeds limits.max_workflows existing_count
      then record { calls = []; result = none }
      else synchronize now (if w.is_saved then old else none) w

  -- pre_delete_workflow
  unfoldable pub pre_delete_workflow : Row → Step
  unfolding run_environment_for_scheduling teardown_scheduled_execution
  pre_delete_workflow w =
      if not (is_some w.schedule)
      then record { calls = []; result = some w }
      else elim (run_environment_for_scheduling false w) [
        | none ↦ record { calls = []; result = none }
        | some e ↦ teardown_scheduled_execution e [] w
      ]
