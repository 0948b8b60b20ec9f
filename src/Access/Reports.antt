-- ===== src/Access/Reports.antt =====
-- server/processes/serializers/task_execution_serializer.py: the access level that a report needs
-- which changes protected attributes of an execution.
use task_manager.Prelude.{
  ℕ, ◌≡◌, ◌≢◌, arith, refl, Bool, true, false, ◌&&◌, Option, some, or_else, Time, Bool-cases, inl,
  inr,
}
use task_manager.Status.{manually_started}
use task_manager.Access.{
  User, Request, Result, granted, not_authenticated, permission_denied, level,
  access_level_developer, ensure_group_access_level,
}
use task_manager.Access.Entitlement.{Entitled, ensure_group_access_level-Entitled}
use task_manager.Access.Disclosure.{is_granted}
use task_manager.Reporting.{
  Owner, Client, Protected, Row, Data, Response, saved, unprocessable, conflict, update_report,
}
use task_manager.Reporting as Reporting
use task_manager.Reporting.Transitions.{WhenSaved}
use task_manager.Reporting.Protection.{is_own, update_report-protects}

-- The call of ensure_group_access_level in protect_attributes raises no exception.
abbrev pub has_developer_access : Option ℕ → Option ℕ → Request → Bool
has_developer_access group run_environment request =
    is_granted
      (ensure_group_access_level group (level access_level_developer) run_environment true request)

granted_level : (r : Result ℕ) → is_granted r ≡ true → (n : ℕ) × (r ≡ granted n)
granted_level (granted n) h = (n, refl)
granted_level not_authenticated h = ground arith
granted_level permission_denied h = ground arith

saved_eq :
    (row after : Row) (a : Protected) (r : Response)
    → r ≡ saved after
    → WhenSaved (λ x. x.settings a ≡ row.settings a) r
    → after.settings a ≡ row.settings a
saved_eq row after a (saved x) e h = ground arith
saved_eq row after a unprocessable e h = ground arith
saved_eq row after a conflict e h = ground arith
saved_eq row after a Reporting.permission_denied e h = ground arith

denied-same :
    (task : Owner) (client : Client) (access : Bool) (now : Time) (row after : Row) (d : Data)
    (a : Protected)
    → (task.was_auto_created && task.passive) ≡ false
    → or_else d.status_given row.status ≡ manually_started
    → is_own a ≡ true
    → access ≡ false
    → update_report task client access now row d ≡ saved after
    → after.settings a ≡ row.settings a
denied-same task client true now row after d a ht hm own h he = ground arith
denied-same task client false now row after d a ht hm own h he =
    saved_eq row after a (update_report task client false now row d) he
      (update_report-protects task client now row d a ht hm own)

-- If a report by a user who is not a superuser changes an attribute that requires developer access,
-- other than the API's base URL and key, of an execution that is manually started and not yet
-- running and stays so, and its Task was not both auto-created and passive, then the user and the
-- API key, if the request has one, are entitled to developer access to the Task's group and run
-- environment.
pub update_report-Entitled :
    (task : Owner) (client : Client) (group : ℕ) (run_environment : Option ℕ) (request : Request)
    (user : User) (now : Time) (row after : Row) (d : Data) (a : Protected)
    → request.user ≡ some user
    → user.is_superuser ≡ false
    → (task.was_auto_created && task.passive) ≡ false
    → or_else d.status_given row.status ≡ manually_started
    → is_own a ≡ true
    → update_report task client
        (has_developer_access (some group) run_environment request)
        now
        row
        d
      ≡ saved after
    → after.settings a ≢ row.settings a
    → (n : ℕ) × Entitled user request.auth group access_level_developer run_environment true n
update_report-Entitled task client group run_environment request user now row after d a hu hs ht hm
      own he hc =
    elim (Bool-cases (has_developer_access (some group) run_environment request)) [
      | inl t ↦
          let g =
            granted_level
              (ensure_group_access_level (some group) (level access_level_developer) run_environment
                true request)
              t in
          (
            g.0,
            ensure_group_access_level-Entitled request user group g.0 (level access_level_developer)
                run_environment true hu hs g.1,
          )
      | inr f ↦
          elim (hc (
            denied-same task client (has_developer_access (some group) run_environment request) now
              row after d a ht hm own f he)) [ ]
    ]
