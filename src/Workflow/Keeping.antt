-- ===== src/Workflow/Keeping.antt =====
-- A property of the instance executions that starting a task instance, clearing `is_latest` and
-- launching a task keep, is kept by every method of a workflow execution.
use task_manager.Prelude.{
  ℕ, zero, suc, Bool, true, false, Option, none, some, List, [], ◌∷◌, if◌then◌else◌, ◌==◌, length,
}
use task_manager.Status.{
  Status, StopReason, running, same_status, is_in_progress, is_successful,
  workflow_execution_stopped,
}
use task_manager.Workflow.Types.{
  TaskInstance, StartCondition, all, any, count_at_least, ratio_at_least, Ratio,
}
use task_manager.Workflow.Transition.{Transition}
use task_manager.Workflow.Store.{
  TaskRun, InstanceRun, Db, demote, find_task_run, latest_runs, last, find_task_instance,
}
use task_manager.Workflow.Action.{
  State, Result, return, raise, Action, recover, try_except, and_then, ◌>>=◌, for_each,
}
use task_manager.Workflow.Rows.{Env, start_rows, is_triggered, reaches_ratio, set_db}
use task_manager.Workflow.Saving.{
  pre_save, save, stop_running, handle_stop_requested, move_to, check_if_complete, start,
  updated_status,
}
use task_manager.Workflow.Engine.{
  retry_if_unsuccessful, retry_run, retry_latest, handle_inbound, activate_instance, activate_all,
  evaluate_all, record_evaluation, handle_finished, evaluate_transition,
}

pub record Stable (env : Env) (P : List InstanceRun → Type 0) : Type 0 where
  pub started :
      (execution : ℕ) (wti : TaskInstance) (db : Db)
      → P db.instance_runs
      → P (start_rows execution wti db).instance_runs
  pub demoted : (p : InstanceRun → Bool) (runs : List InstanceRun) → P runs → P (demote p runs)
  pub launched : (i : ℕ) (db : Db) → P db.instance_runs → P (env.launch i db).1.instance_runs

module _ (P : List InstanceRun → Type 0) where
  -- The action keeps the property, also where it raises.
  abbrev pub Keeps : {A : Type 0} → Action A → Type 0
  Keeps m = (s : State) → P s.db.instance_runs → P (m s).1.db.instance_runs

  pub and_then-Keeps :
      {A B : Type 0} (r : Result A) (f : A → Action B)
      → ((a : A) → Keeps (f a))
      → Keeps (and_then r f)
  and_then-Keeps (return a) f h = h a
  and_then-Keeps (raise e) f h = λ s p. p

  pub bind-Keeps :
      {A B : Type 0} (m : Action A) (f : A → Action B)
      → Keeps m
      → ((a : A) → Keeps (f a))
      → Keeps (m >>= f)
  unfolding ◌>>=◌
  bind-Keeps m f hm hf s p = and_then-Keeps (m s).0 f hf (m s).1 (hm s p)

  pub recover-Keeps :
      {A : Type 0} (r : Result A) (handler : Action A) → Keeps handler → Keeps (recover r handler)
  recover-Keeps (return a) handler h s p = p
  recover-Keeps (raise e) handler h s p = h s p

  pub try_except-Keeps :
      {A : Type 0} (body handler : Action A)
      → Keeps body
      → Keeps handler
      → Keeps (try_except body handler)
  unfolding try_except
  try_except-Keeps body handler hb hh s p = recover-Keeps (body s).0 handler hh (body s).1 (hb s p)

  pub if-Keeps :
      {A : Type 0} (b : Bool) (m n : Action A) → Keeps m → Keeps n → Keeps (if b then m else n)
  if-Keeps true m n hm hn = hm
  if-Keeps false m n hm hn = hn

  pub for_each-Keeps :
      {A : Type 0} (f : A → Action (Unit {0})) (xs : List A)
      → ((x : A) → Keeps (f x))
      → Keeps (for_each f xs)
  unfolding for_each
  for_each-Keeps f [] h s p = p
  for_each-Keeps f (x ∷ xs) h s p =
      bind-Keeps (f x) (λ _. for_each f xs) (h x) (λ _. for_each-Keeps f xs h) s p

module _ (env : Env) (P : List InstanceRun → Type 0) (stable : Stable env P) where
  pub stop_running-Keeps : (reason : StopReason) → Keeps P (stop_running env reason)
  unfolding stop_running
  stop_running-Keeps reason s p = p

  handle_stop_requested-Keeps : Keeps P (handle_stop_requested env)
  unfolding handle_stop_requested
  handle_stop_requested-Keeps =
      bind-Keeps P _ _ (λ s p. p) (λ _. stop_running-Keeps workflow_execution_stopped)

  pub save-Keeps : Keeps P (save env)
  unfolding save
  save-Keeps =
      bind-Keeps P (pre_save env) _
        (λ s p. if-Keeps P _ _ _ handle_stop_requested-Keeps (λ s p. p) s p)
        (λ _. bind-Keeps P _ _ (λ s p. p) (λ _ s p. p))

  move_to-Keeps : (status : Status) → Keeps P (move_to env status)
  unfolding move_to
  move_to-Keeps status s p =
      if-Keeps P (same_status status s.self.status) _ _ (λ s p. p)
        (λ s p.
          if-Keeps P (is_in_progress status) _ _ (bind-Keeps P _ _ (λ s p. p) (λ _ s p. p))
            (bind-Keeps P _ _ (bind-Keeps P _ _ (λ s p. p) (λ _. save-Keeps)) (λ _ s p. p)) s p)
        s p

  pub check_if_complete-Keeps : (pending : Bool) → Keeps P (check_if_complete env pending)
  unfolding check_if_complete
  check_if_complete-Keeps pending s p = move_to-Keeps (updated_status env pending s) s p

  pub start-Keeps : (wti : TaskInstance) → Keeps P (start env wti)
  unfolding start
  start-Keeps wti s p =
      bind-Keeps P (set_db (start_rows s.self.ident wti)) _
        (λ s' p. stable.started s.self.ident wti s'.db p) (λ _ s' p. stable.launched _ s'.db p) s p

  module _ (finished : InstanceRun → Bool → Bool → Action (Unit {0}))
      (finished-Keeps : (r : InstanceRun) (a b : Bool) → Keeps P (finished r a b)) where
    retry_run-Keeps :
        (wti : TaskInstance) (r : InstanceRun) (t : Option TaskRun)
        → Keeps P (retry_run env finished wti r t)
    retry_run-Keeps wti r none = λ s p. p
    retry_run-Keeps wti r (some t) =
        if-Keeps P (is_in_progress t.status) _ _ (λ s p. p)
          (if-Keeps P (is_successful t.status) _ _ (finished-Keeps r false true) (start-Keeps wti))

    retry_latest-Keeps :
        (wti : TaskInstance) (r : Option InstanceRun) → Keeps P (retry_latest env finished wti r)
    retry_latest-Keeps wti none s p = start-Keeps wti s p
    retry_latest-Keeps wti (some r) s p =
        retry_run-Keeps wti r (find_task_run r.task_execution s.db.task_runs) s p

    pub retry_if_unsuccessful-Keeps :
        (wti : TaskInstance) → Keeps P (retry_if_unsuccessful env finished wti)
    unfolding retry_if_unsuccessful
    retry_if_unsuccessful-Keeps wti s p =
        retry_latest-Keeps wti (last (latest_runs s.self.ident wti.ident s.db.instance_runs)) s p

    reaches_ratio-Keeps : (n m : ℕ) (t : Option Ratio) → Keeps P (reaches_ratio n m t)
    reaches_ratio-Keeps n m none = λ s p. p
    reaches_ratio-Keeps n m (some t) = if-Keeps P (m == 0) _ _ (λ s p. p) (λ s p. p)

    is_triggered-Keeps :
        (c : StartCondition) (wti : TaskInstance) (xs ys : List ℕ)
        → Keeps P (is_triggered c wti xs ys)
    unfolding is_triggered
    is_triggered-Keeps any wti xs ys = λ s p. p
    is_triggered-Keeps count_at_least wti xs ys = λ s p. p
    is_triggered-Keeps all wti xs ys = λ s p. p
    is_triggered-Keeps ratio_at_least wti xs ys =
        reaches_ratio-Keeps (length xs) (length ys) wti.condition_ratio_threshold

    handle_inbound-Keeps :
        (wti : TaskInstance) (retry_mode : Bool)
        → Keeps P (handle_inbound env finished wti retry_mode)
    unfolding handle_inbound
    handle_inbound-Keeps wti retry_mode s p =
        if-Keeps P _ _ _ (λ s p. p)
          (bind-Keeps P _ _ (is_triggered-Keeps wti.start_transition_condition wti _ _)
            (λ triggered.
              if-Keeps P triggered _ _
                (if-Keeps P retry_mode _ _
                  (bind-Keeps P _ _ (retry_if_unsuccessful-Keeps wti) (λ _ s p. p))
                  (if-Keeps P _ _ _ (bind-Keeps P _ _ (start-Keeps wti) (λ _ s p. p)) (λ s p. p)))
                (λ s p. p)))
          s p

    activate_instance-Keeps :
        (wti : Option TaskInstance) (retry_mode : Bool)
        → Keeps P (activate_instance env finished wti retry_mode)
    activate_instance-Keeps none retry_mode = λ s p. p
    activate_instance-Keeps (some wti) retry_mode =
        bind-Keeps P _ _ (handle_inbound-Keeps wti retry_mode) (λ _ s p. p)

    activate_all-Keeps :
        (ts : List Transition) (retry_mode : Bool)
        → Keeps P (activate_all env finished ts retry_mode)
    unfolding activate_all
    activate_all-Keeps [] retry_mode s p = p
    activate_all-Keeps (t ∷ ts) retry_mode s p = activate_all-Keeps ts retry_mode _ (
        activate_instance-Keeps
          (find_task_instance t.to_workflow_task_instance env.workflow.task_instances) retry_mode s
          p)

  record_evaluation-Keeps :
      (r : InstanceRun) (t : Transition) (b : Option Bool) → Keeps P (record_evaluation env r t b)
  record_evaluation-Keeps r t none s p = p
  record_evaluation-Keeps r t (some b) s p = p

  evaluate_all-Keeps :
      (r : InstanceRun) (skipped : Bool) (ts : List Transition)
      → Keeps P (evaluate_all env r skipped ts)
  unfolding evaluate_all
  evaluate_all-Keeps r skipped [] s p = p
  evaluate_all-Keeps r skipped (t ∷ ts) s p =
      bind-Keeps P _ _
        (record_evaluation-Keeps r t
          (evaluate_transition env t skipped (find_task_run r.task_execution s.db.task_runs)))
        (λ a. bind-Keeps P _ _ (evaluate_all-Keeps r skipped ts) (λ _ s p. p)) s p

  -- Whatever the depth that is left, finishing an instance execution keeps the property.
  pub handle_finished-Keeps :
      (depth : ℕ) (r : InstanceRun) (skipped retry_mode : Bool)
      → Keeps P (handle_finished env depth r skipped retry_mode)
  unfolding handle_finished
  handle_finished-Keeps zero r skipped retry_mode s p = p
  handle_finished-Keeps (suc depth) r skipped retry_mode s p =
      if-Keeps P _ _ _ (λ s p. p)
        (try_except-Keeps P _ _
          (bind-Keeps P _ _ (evaluate_all-Keeps r skipped _) (λ activated.
            bind-Keeps P _ _ (check_if_complete-Keeps _) (λ _ s p.
              if-Keeps P (same_status s.self.status running) _ _
                (activate_all-Keeps (handle_finished env depth) (handle_finished-Keeps depth)
                  activated retry_mode)
                (λ s p. p) s p)))
          (bind-Keeps P _ _ (λ s p. p) (λ _. save-Keeps)))
        s p
