-- ===== src/Reporting/Protection.antt =====
-- What a user without developer access cannot change.
use task_manager.Prelude.{
  ℕ, ◌≡◌, refl, sym, Bool, true, false, not, ◌||◌, ◌&&◌, Option, none, some, ==_iff, ap, arith,
  if◌then◌else◌, or_else, exists_in, Time,
}
use task_manager.Status.{manually_started}
use task_manager.Reporting.{
  Protected, api_base_url, api_key, protected_attributes, Row, Data, same_setting, is_changed,
  accept, drop_unmodifiable, merge_documents, Owner, effective_status, Client, needs_developer,
  is_manually_started, starts_with, proc_wrapper, update_api_client_implicit_info, set_client,
  write, update_report,
}
use task_manager.Reporting.Transitions.{WhenSaved, when-continued, when-updated}

eq_of_same_setting : (x y : Option ℕ) → same_setting x y ≡ true → x ≡ y
eq_of_same_setting none none h = refl
eq_of_same_setting none (some y) h = ground arith
eq_of_same_setting (some x) none h = ground arith
eq_of_same_setting (some x) (some y) h = ap some ((==_iff x y).0 h)

exists_in-listed :
    (f : Protected → Bool) (a : Protected) → exists_in f protected_attributes ≡ false → f a ≡ false
exists_in-listed f a h = ground arith

-- The attributes that update_api_client_implicit_info leaves alone.
abbrev pub is_own : Protected → Bool
is_own api_base_url = false
is_own api_key = false
is_own a = true

not_eq_false : (b : Bool) → not b ≡ false → b ≡ true
not_eq_false true h = refl
not_eq_false false h = ground arith

unchanged-same :
    (x : Option ℕ) (o : Option (Option ℕ))
    → (elim o [ none ↦ false | some v ↦ not (same_setting x v) ]) ≡ false
    → or_else o x ≡ x
unchanged-same x none h = refl
unchanged-same x (some v) h = sym (eq_of_same_setting x v (not_eq_false (same_setting x v) h))

-- The data keeps the settings, if protect_attributes asks for no access level.
unchanged-listed :
    (task : Owner) (row : Row) (d : Data)
    → (task.was_auto_created && task.passive) ≡ false
    → or_else d.status_given row.status ≡ manually_started
    → (needs_developer task (some row) d && true) ≡ false
    → exists_in (is_changed (some row) d) protected_attributes ≡ false
unfolding needs_developer
unchanged-listed task row d ht hs h =
    go (task.was_auto_created && task.passive) (is_manually_started (effective_status (some row) d))
      (exists_in (is_changed (some row) d) protected_attributes)
      (exists_in (starts_with proc_wrapper) d.environment_variables_overrides) ht (rw hs refl) h
  where
    go :
        (exempt manual x y : Bool)
        → exempt ≡ false
        → manual ≡ true
        → ((if exempt then false else if not manual then false else x || y) && true) ≡ false
        → x ≡ false
    go exempt manual x y he hm h = ground arith

set_client-other :
    (client : Client) (given : Protected → Option (Option ℕ)) (a : Protected)
    → is_own a ≡ true
    → set_client client given a ≡ given a
set_client-other client given a h = ground arith

accept-manually_started :
    (row : Row) (now : Time) (d e : Data)
    → or_else d.status_given row.status ≡ manually_started
    → accept row now d ≡ some e
    → or_else e.status_given row.status ≡ manually_started
unfolding accept
accept-manually_started row now d e h he = ground arith

own-unchanged :
    (client : Client) (row : Row) (d : Data) (a : Protected)
    → is_own a ≡ true
    → exists_in (is_changed (some row) d) protected_attributes ≡ false
    → (write row (update_api_client_implicit_info client d)).settings a ≡ row.settings a
own-unchanged client row d a own h = rw (set_client-other client d.settings_given a own) (
    unchanged-same (row.settings a) (d.settings_given a)
      (exists_in-listed (is_changed (some row) d) a h))

-- For an execution that is manually started and not yet running, and stays so, of a Task that was
-- not both auto-created and passive, a report by a user without developer access that saves the
-- execution leaves each attribute that requires developer access as it was, other than the API's
-- base URL and key, which the server sets.
pub update_report-protects :
    (task : Owner) (client : Client) (now : Time) (row : Row) (d : Data) (a : Protected)
    → (task.was_auto_created && task.passive) ≡ false
    → or_else d.status_given row.status ≡ manually_started
    → is_own a ≡ true
    → WhenSaved
        (λ after. after.settings a ≡ row.settings a)
        (update_report task client false now row d)
update_report-protects task client now row d a ht hs own =
    when-updated (λ after. after.settings a ≡ row.settings a) task client false now row d
      (when-continued (λ after. after.settings a ≡ row.settings a) task client false row
        (accept row now d)
        (λ e he h. own-unchanged client row (merge_documents row (drop_unmodifiable row e)) a own (
          unchanged-listed task row (merge_documents row (drop_unmodifiable row e)) ht
            (accept-manually_started row now d e hs he) h)))
