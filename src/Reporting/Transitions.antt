-- ===== src/Reporting/Transitions.antt =====
-- Which statuses and columns an execution has after a report.
use task_manager.Prelude.{
  ℕ, ◌≡◌, refl, sym, ◌∙◌, ◌⊎◌, Bool, true, false, not, ◌||◌, ◌&&◌, Option, none, some, arith,
  is_some, or_else, if◌then◌else◌, Time,
}
use task_manager.Status.{
  Status, running, failed, stopping, stopped, manually_started, aborted, same_status,
  is_in_progress,
}
use task_manager.Reporting.{
  Unmodifiable, finished_at, Row, Data, Response, saved, unprocessable, permission_denied,
  is_final_report, accept, drop_unmodifiable, merge_documents, Owner, Client, needs_developer,
  update_api_client_implicit_info, write, save_protected, continue_update, is_other_task,
  update_report,
}

-- The status that a report leads to, where it is not a conflict.
unfoldable pub moved : Status → Option Status → Option Status
moved stopping none = some stopped
moved running none = some running
moved manually_started none = some manually_started
moved existing none = none
moved stopping (some running) = some stopped
moved running (some running) = some running
moved manually_started (some running) = some running
moved existing (some running) = none
moved stopping (some failed) = some stopped
moved stopping (some aborted) = some stopped
moved existing (some request) =
    if not (is_final_report request)
      || is_in_progress existing
      || same_status existing stopping
      || same_status existing request
    then some request
    else none

-- The status of the execution that is saved.
abbrev pub saved_status : Response → Option Status
saved_status (saved row) = some row.status
saved_status _ = none

-- What holds of the execution that is saved, if one is.
abbrev pub WhenSaved : (Row → Type 0) → Response → Type 0
WhenSaved P (saved row) = P row
WhenSaved P _ = Unit

abbrev pub accepted_status : Row → Option Data → Option Status
accepted_status row none = none
accepted_status row (some d) = some (or_else d.status_given row.status)

accept-moved :
    (row : Row) (now : Time) (d : Data)
    → accepted_status row (accept row now d) ≡ moved row.status d.status_given
unfolding accept moved
accept-moved row now d = ground arith

save-status :
    (task : Owner) (client : Client) (row : Row) (d : Data)
    → saved_status (save_protected task client true row d)
      ≡ some (or_else d.status_given row.status)
save-status task client row d = ground arith

continue-status :
    (task : Owner) (client : Client) (row : Row) (o : Option Data)
    → saved_status (continue_update task client true row o) ≡ accepted_status row o
continue-status task client row none = refl
continue-status task client row (some d) =
    save-status task client row (merge_documents row (drop_unmodifiable row d))

-- A report for the execution's own task, by a user with developer access, saves the execution with
-- the status of the table `moved`, and saves nothing where the table has no status.
pub update_report-moved :
    (task : Owner) (client : Client) (now : Time) (row : Row) (d : Data)
    → is_other_task d.task_given row.task ≡ false
    → saved_status (update_report task client true now row d) ≡ moved row.status d.status_given
unfolding update_report
update_report-moved task client now row d h =
    rw h (continue-status task client row (accept row now d) ∙ accept-moved row now d)

when-saved :
    (P : Row → Type 0) (task : Owner) (client : Client) (access : Bool) (row : Row) (d : Data)
    → ((needs_developer task (some row) d && not access) ≡ false
        → P (write row (update_api_client_implicit_info client d)))
    → WhenSaved P (save_protected task client access row d)
when-saved P task client access row d h = go (needs_developer task (some row) d && not access) h
  where
    go :
        (b : Bool)
        → (b ≡ false → P (write row (update_api_client_implicit_info client d)))
        → WhenSaved P (
            if b
            then permission_denied
            else saved (write row (update_api_client_implicit_info client d)))
    go true h = tt
    go false h = h refl

-- What holds of every execution that the rest of `update` saves.
pub when-continued :
    (P : Row → Type 0) (task : Owner) (client : Client) (access : Bool) (row : Row)
    (o : Option Data)
    → ((d : Data)
        → o ≡ some d
        → (needs_developer task (some row) (merge_documents row (drop_unmodifiable row d))
            && not access)
          ≡ false
        → P (
            write row (
              update_api_client_implicit_info client
                (merge_documents row (drop_unmodifiable row d)))))
    → WhenSaved P (continue_update task client access row o)
when-continued P task client access row none h = tt
when-continued P task client access row (some d) h =
    when-saved P task client access row (merge_documents row (drop_unmodifiable row d))
      (λ e. h d refl e)

pub when-updated :
    (P : Row → Type 0) (task : Owner) (client : Client) (access : Bool) (now : Time) (row : Row)
    (d : Data)
    → WhenSaved P (continue_update task client access row (accept row now d))
    → WhenSaved P (update_report task client access now row d)
unfolding update_report
when-updated P task client access now row d h =
    when-same_task P (is_other_task d.task_given row.task)
      (continue_update task client access row (accept row now d)) h
  where
    when-same_task :
        (P : Row → Type 0) (b : Bool) (r : Response)
        → WhenSaved P r
        → WhenSaved P (if b then unprocessable else r)
    when-same_task P true r h = tt
    when-same_task P false r h = h

column-kept :
    (row : Row) (d : Data) (a : Unmodifiable) (v : ℕ)
    → row.columns a ≡ some v
    → (write row (drop_unmodifiable row d)).columns a ≡ some v
column-kept row d a v h = rw h refl

-- A column of UNMODIFIABLE_ATTRIBUTES that is set keeps its value, whatever the report holds.
pub update_report-columns :
    (task : Owner) (client : Client) (access : Bool) (now : Time) (row : Row) (d : Data)
    (a : Unmodifiable) (v : ℕ)
    → row.columns a ≡ some v
    → WhenSaved (λ after. after.columns a ≡ some v) (update_report task client access now row d)
update_report-columns task client access now row d a v h =
    when-updated (λ after. after.columns a ≡ some v) task client access now row d
      (when-continued (λ after. after.columns a ≡ some v) task client access row (accept row now d)
        (λ e _ _. column-kept row e a v h))

-- The data of a report that is accepted has an instant for `finished_at`, or the row has one.
finishes :
    (row : Row) (now : Time) (d e : Data) (s : Status)
    → d.status_given ≡ some s
    → is_final_report s ≡ true
    → (d.columns_given finished_at ≡ none)
      ⊎ ((t : ℕ) × (d.columns_given finished_at ≡ some (some t)))
    → accept row now d ≡ some e
    → is_some (
        or_else
          (if is_some (row.columns finished_at) then none else e.columns_given finished_at)
          (row.columns finished_at))
      ≡ true
unfolding accept
finishes row now d e s hs hf hc he = ground arith

-- An execution saved by a report of success, failure, time-out or abortion has an instant at which
-- it finished, unless the report says explicitly that it has none.
pub update_report-finished :
    (task : Owner) (client : Client) (access : Bool) (now : Time) (row : Row) (d : Data)
    (s : Status)
    → d.status_given ≡ some s
    → is_final_report s ≡ true
    → (d.columns_given finished_at ≡ none)
      ⊎ ((t : ℕ) × (d.columns_given finished_at ≡ some (some t)))
    → WhenSaved
        (λ after. is_some (after.columns finished_at) ≡ true)
        (update_report task client access now row d)
update_report-finished task client access now row d s hs hf hc =
    when-updated (λ after. is_some (after.columns finished_at) ≡ true) task client access now row d
      (when-continued (λ after. is_some (after.columns finished_at) ≡ true) task client access row
        (accept row now d) (λ e he _. finishes row now d e s hs hf hc he))

moved-running :
    (s : Status) (o : Option Status) → moved s o ≡ some running → is_in_progress s ≡ true
unfolding moved
moved-running s o h = ground arith

-- An execution that is running after a report by a user with developer access was in progress
-- before it: no report makes an execution run again.
pub update_report-running :
    (task : Owner) (client : Client) (now : Time) (row : Row) (d : Data)
    → is_other_task d.task_given row.task ≡ false
    → saved_status (update_report task client true now row d) ≡ some running
    → is_in_progress row.status ≡ true
update_report-running task client now row d h e =
    moved-running row.status d.status_given (sym (update_report-moved task client now row d h) ∙ e)
