-- ===== src/Access/Authorize.antt =====
-- server/processes/serializers/group_setting_serializer_mixin.py: the group and the run environment
-- with which a request creates or changes a setting.
pub mod Confinement
use task_manager.Prelude.{
  [], ℕ, Bool, true, false, not, ◌&&◌, Option, none, some, List, ◌==◌, if◌then◌else◌, is_some,
  first_some,
}
use task_manager.Access.{
  User, Auth, Request, Result, granted, not_authenticated, permission_denied, level, only_group,
  auth_group, ensure_group_access_level, extract_authenticated_run_environment, same_optional,
}
use task_manager.Access.Settings.{
  Found, found, missing, invalid, unprocessable, unauthorized, forbidden, Group, GroupDict,
  find_group_by_id_or_name, Entity, Scope, find_by_uuid_or_name,
}

-- The rows, with the group that owns a run environment.
pub record Tables : Type 0 where
  pub groups : List Group
  pub run_environments : List Entity
  pub owner : ℕ → Option ℕ

-- The existing setting: its group and its run environment.
pub record Setting : Type 0 where
  pub group : Option ℕ
  pub run_environment : Option ℕ

-- What the request's body says of the group, where that is neither None nor empty, and of the run
-- environment: whether it has the key, and a uuid or name under it.
pub record Body : Type 0 where
  pub group_dict : Option GroupDict
  pub has_run_environment_key : Bool
  pub run_environment_dict : Option (Option ℕ × Option ℕ)

abbrev pub groups_of : Option User → List ℕ
groups_of none = []
groups_of (some user) = user.groups

-- SerializerHelpers.get_request_group
abbrev pub get_request_group : Request → Option ℕ
get_request_group request =
    first_some (auth_group request.auth) (only_group (groups_of request.user))

abbrev pub ident_of : Option Group → Found (Option ℕ)
ident_of none = found none
ident_of (some g) = found (some g.ident)

abbrev pub then_ident : Found (Option Group) → Found (Option ℕ)
then_ident (found o) = ident_of o
then_ident missing = missing
then_ident invalid = invalid
then_ident unprocessable = unprocessable
then_ident unauthorized = unauthorized
then_ident forbidden = forbidden

abbrev pub chosen_group : Tables → Request → Option Setting → Option GroupDict → Found (Option ℕ)
chosen_group t request existing (some d) =
    then_ident (find_group_by_id_or_name false true (some d) t.groups)
chosen_group t request none none = found (get_request_group request)
chosen_group t request (some s) none = found s.group

abbrev pub environment_or_error : Found Entity → Found (Option ℕ)
environment_or_error (found e) = found (some e.ident)
environment_or_error missing = unprocessable
environment_or_error invalid = invalid
environment_or_error unprocessable = unprocessable
environment_or_error unauthorized = unauthorized
environment_or_error forbidden = forbidden

abbrev pub in_group : ℕ → Scope
in_group group = record {
  required_group = some group;
  required_run_environment = none;
  check_conflict = true;
  allowed_run_environment = none;
  allow_any_run_environment = none;
}

abbrev pub kept_environment : Option Setting → Option ℕ → Option ℕ
kept_environment none authenticated = authenticated
kept_environment (some s) authenticated = s.run_environment

abbrev pub chosen_environment : Tables → Option ℕ → Option Setting → ℕ → Body → Found (Option ℕ)
chosen_environment t authenticated existing group b = elim b.run_environment_dict [
  | some d ↦ environment_or_error (find_by_uuid_or_name (in_group group) d.0 d.1 t.run_environments)
  | none ↦
      found (if b.has_run_environment_key then none else kept_environment existing authenticated)
]

abbrev pub owner_of : Tables → Option ℕ → Option ℕ
owner_of t none = none
owner_of t (some e) = t.owner e

-- The level is granted, or the exception of ensure_group_access_level.
abbrev pub unless_denied : ℕ × Option ℕ → Result ℕ → Found (ℕ × Option ℕ)
unless_denied r (granted n) = found r
unless_denied r not_authenticated = unauthorized
unless_denied r permission_denied = forbidden

abbrev pub authorize_environment :
    Tables → ℕ → Request → ℕ → Found (Option ℕ) → Found (ℕ × Option ℕ)
authorize_environment t least request group (found environment) =
    let authenticated = extract_authenticated_run_environment request.auth in
    if is_some environment && is_some authenticated && not (same_optional authenticated environment)
    then unprocessable
    else if is_some environment && not (same_optional (owner_of t environment) (some group))
    then unprocessable
    else unless_denied (group, environment)
        (ensure_group_access_level (some group) (level least) environment true request)
authorize_environment t least request group missing = missing
authorize_environment t least request group invalid = invalid
authorize_environment t least request group unprocessable = unprocessable
authorize_environment t least request group unauthorized = unauthorized
authorize_environment t least request group forbidden = forbidden

abbrev pub has_other_group : Option Setting → ℕ → Bool
has_other_group none group = false
has_other_group (some s) group = is_some s.group && not (same_optional s.group (some group))

abbrev pub authorize_group :
    Tables → ℕ → Request → Option Setting → Body → Found (Option ℕ) → Found (ℕ × Option ℕ)
authorize_group t least request existing b (found none) = unprocessable
authorize_group t least request existing b (found (some group)) =
    if has_other_group existing group
    then unprocessable
    else authorize_environment t least request group
        (chosen_environment t (extract_authenticated_run_environment request.auth) existing group b)
authorize_group t least request existing b missing = missing
authorize_group t least request existing b invalid = invalid
authorize_group t least request existing b unprocessable = unprocessable
authorize_group t least request existing b unauthorized = unauthorized
authorize_group t least request existing b forbidden = forbidden

-- to_internal_value: the group and the run environment that the setting gets; `least` is
-- required_access_level_for_mutation
unfoldable pub authorize : Tables → ℕ → Request → Option Setting → Body → Found (ℕ × Option ℕ)
authorize t least request existing b =
    authorize_group t least request existing b (chosen_group t request existing b.group_dict)
