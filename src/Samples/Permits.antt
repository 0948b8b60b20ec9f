-- ===== src/Samples/Permits.antt =====
-- The theorems on access control at a request with an API key.
use task_manager.Prelude.{ℕ, ◌≡◌, refl, true, false, none, some, [], ◌∷◌, arith}
use task_manager.Status.{manually_started}
use task_manager.Access.{
  User, api_key, Request, level, access_level_developer, Object, has_object_permission,
  ensure_group_access_level,
}
use task_manager.Access.Entitlement.{Entitled, ensure_group_access_level-Entitled}
use task_manager.Access.Disclosure.{reveals, is_granted, has_object_permission-reveals}
use task_manager.Access.Reports.{update_report-Entitled}
use task_manager.Access.Settings.{find_by_uuid_or_name}
use task_manager.Access.Authorize.{Tables, Setting, Body, authorize}
use task_manager.Access.Authorize.Confinement.{Confined, authorize-IsConfined}
use task_manager.Reporting as Reporting
use task_manager.Reporting.{process_command}
use task_manager.Samples.Reports.{owner, client, row_with, report_with}

abbrev developer : User
developer = record {
  ident = 1;
  is_active = true;
  is_superuser = false;
  groups = 7 ∷ 8 ∷ [];
  group_access_levels = (7, 1000) ∷ (8, 50) ∷ [];
}

abbrev key_request : Request
key_request = record {
  user = some developer;
  auth = some (api_key (record { group = 7; run_environment = some 3; access_level = 500 }));
}

ensure_group_access_level-Entitled_example :
    Entitled developer key_request.auth 7 access_level_developer (some 3) true 500
unfolding ensure_group_access_level
ensure_group_access_level-Entitled_example =
    ensure_group_access_level-Entitled key_request developer 7 500 (level access_level_developer)
      (some 3) true refl refl refl

abbrev elsewhere : Object
elsewhere = record { group = some (some 8); run_environment = some 3 }

has_object_permission-reveals_example :
    reveals (has_object_permission (some 1) (some 500) false true elsewhere key_request)
    ≡ is_granted (ensure_group_access_level (some 8) (level 1) (some 3) true key_request)
has_object_permission-reveals_example =
    has_object_permission-reveals 1 500 false true elsewhere (some 8) key_request (omega arith) refl

abbrev tables : Tables
tables = record {
  groups = record { ident = 7; name = 70 } ∷ record { ident = 8; name = 80 } ∷ [];
  run_environments =
      record { ident = 3; uuid = 30; name = 300; group = some 7; run_environment = none } ∷ [];
  owner = λ e. some 7;
}

abbrev body : Body
body = record {
  group_dict = none;
  has_run_environment_key = true;
  run_environment_dict = some (none, some 300);
}

abbrev existing : Setting
existing = record { group = some 7; run_environment = none }

authorize-IsConfined_example :
    Confined tables access_level_developer developer key_request.auth (some existing) (7, some 3)
unfolding authorize find_by_uuid_or_name ensure_group_access_level
authorize-IsConfined_example =
    authorize-IsConfined tables access_level_developer key_request developer (some existing) body
      (7, some 3) refl refl refl

abbrev row_of : Reporting.Response → Reporting.Row
row_of (Reporting.saved row) = row
row_of _ = row_with manually_started

update_report-Entitled_example :
    (n : ℕ) × Entitled developer key_request.auth 7 access_level_developer (some 3) true n
unfolding ensure_group_access_level Reporting.update_report Reporting.accept
    Reporting.needs_developer
update_report-Entitled_example =
    update_report-Entitled owner client 7 (some 3) key_request developer 5000000
      (row_with manually_started)
      (row_of (
        Reporting.update_report owner client true 5000000 (row_with manually_started)
          (report_with none)))
      (report_with none) process_command refl refl refl refl refl refl (λ e. ground arith)
