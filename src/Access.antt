-- ===== src/Access.antt =====
-- server/processes/common/request_helpers.py, permissions.py and models/user_group_access_level.py:
-- what a request may do with the objects of a group. Users, groups and run environments are their
-- ids; the authentication and the rows of the database are the fields of the records below.
pub mod Entitlement
pub mod Disclosure
pub mod Reports
pub mod Settings
pub mod Authorize
use task_manager.Prelude.{
  ℕ, min, Bool, true, false, not, ◌&&◌, Option, none, some, List, [], ◌∷◌, ◌==◌, ltb, length,
  if◌then◌else◌, is_some, is_truthy, or_else, first_some, exists_in,
}

pub record User : Type 0 where
  pub ident : ℕ
  pub is_active : Bool
  pub is_superuser : Bool
  pub groups : List ℕ
  -- The rows of UserGroupAccessLevel: a group and the level in it.
  pub group_access_levels : List (ℕ × ℕ)

-- SaasToken
pub record Token : Type 0 where
  pub group : ℕ
  pub run_environment : Option ℕ
  pub access_level : ℕ

-- `request.auth`: an API key, or the token of a session
pub data Auth : Type 0 where
  session : Auth
  api_key : Token → Auth

-- `request.user` where it is a User, and `request.auth`.
pub record Request : Type 0 where
  pub user : Option User
  pub auth : Option Auth

pub data Result {ℓ} (A : Type ℓ) : Type ℓ where
  granted : A → Result A
  not_authenticated permission_denied : Result A

abbrev pub access_level_observer : ℕ
access_level_observer = 1

abbrev pub access_level_task : ℕ
access_level_task = 50

abbrev pub access_level_developer : ℕ
access_level_developer = 500

abbrev pub access_level_admin : ℕ
access_level_admin = 1000

-- `.filter(group=group).first()`
abbrev pub first_level : ℕ → List (ℕ × ℕ) → Option ℕ
first_level group [] = none
first_level group (r ∷ rs) =
    let rest = first_level group rs in if r.0 == group then some (r.1) else rest

-- UserGroupAccessLevel.access_level_for_user_in_group
unfoldable pub access_level_for_user_in_group : User → ℕ → Option ℕ
access_level_for_user_in_group user group =
    let level = first_level group user.group_access_levels in
    if is_truthy level
    then level
    else if exists_in (λ g. g == group) user.groups
    then some access_level_observer
    else none

abbrev pub auth_group : Option Auth → Option ℕ
auth_group none = none
auth_group (some session) = none
auth_group (some (api_key t)) = some t.group

-- The group of a user who has one only.
abbrev pub only_group : List ℕ → Option ℕ
only_group [] = none
only_group (g ∷ []) = some g
only_group (g ∷ h ∷ gs) = none

abbrev pub default_group : Option User → Option ℕ
default_group none = none
default_group (some user) = if user.is_superuser then none else only_group user.groups

-- user_and_group_from_request
unfoldable pub user_and_group_from_request : Request → Option User × Option ℕ
user_and_group_from_request request =
    (request.user, first_some (auth_group request.auth) (default_group request.user))

abbrev pub required_user : Option User × Option ℕ → Result (User × Option ℕ)
required_user (none, group) = not_authenticated
required_user (some user, group) =
    if not user.is_active then permission_denied else granted (user, group)

-- required_user_and_group_from_request
unfoldable pub required_user_and_group_from_request : Request → Result (User × Option ℕ)
unfolding user_and_group_from_request
required_user_and_group_from_request request = required_user (user_and_group_from_request request)

-- extract_authenticated_run_environment
abbrev pub extract_authenticated_run_environment : Option Auth → Option ℕ
extract_authenticated_run_environment none = none
extract_authenticated_run_environment (some session) = none
extract_authenticated_run_environment (some (api_key t)) = t.run_environment

abbrev pub same_optional : Option ℕ → Option ℕ → Bool
same_optional none none = true
same_optional none (some b) = false
same_optional (some a) none = false
same_optional (some a) (some b) = a == b

-- `min_access_level`: left out (which is -1), None, or a level.
pub data Minimum : Type 0 where
  by_default nothing : Minimum
  level : ℕ → Minimum

abbrev pub min_level : Minimum → ℕ
min_level by_default = access_level_admin
min_level nothing = access_level_observer
min_level (level n) = n

-- `access_level or ACCESS_LEVEL_OBSERVER`
abbrev pub token_level : Token → ℕ
token_level t = if t.access_level == 0 then access_level_observer else t.access_level

-- The level that the API key leaves, of the user's level.
abbrev pub check_auth : Option Auth → ℕ → Option ℕ → Bool → ℕ → Result ℕ
check_auth none least run_environment allow_api_key own = granted own
check_auth (some session) least run_environment allow_api_key own = granted own
check_auth (some (api_key t)) least run_environment allow_api_key own =
    if not allow_api_key
    then permission_denied
    else if ltb (token_level t) least
    then permission_denied
    else if is_some t.run_environment && not (same_optional run_environment t.run_environment)
    then permission_denied
    else granted (min own (token_level t))

abbrev pub check_level : Option Auth → ℕ → Option ℕ → Bool → Option ℕ → Result ℕ
check_level auth least run_environment allow_api_key none = permission_denied
check_level auth least run_environment allow_api_key (some own) =
    if ltb own least
    then permission_denied
    else check_auth auth least run_environment allow_api_key own

abbrev pub check_group : User → Option Auth → Option ℕ → ℕ → Option ℕ → Bool → Option ℕ → Result ℕ
check_group user auth request_group least run_environment allow_api_key none = not_authenticated
check_group user auth request_group least run_environment allow_api_key (some group) =
    if is_some request_group && not (same_optional request_group (some group))
    then permission_denied
    else check_level auth least run_environment allow_api_key
        (access_level_for_user_in_group user group)

-- ensure_group_access_level of an active user
abbrev pub check_user :
    Option Auth → Option ℕ → Minimum → Option ℕ → Bool → Result (User × Option ℕ) → Result ℕ
check_user auth group least run_environment allow_api_key not_authenticated = not_authenticated
check_user auth group least run_environment allow_api_key permission_denied = permission_denied
check_user auth group least run_environment allow_api_key (granted (user, request_group)) =
    if user.is_superuser
    then granted access_level_admin
    else check_group user auth request_group (min_level least) run_environment allow_api_key
        (first_some group request_group)

-- ensure_group_access_level, which returns the level also with the user and the request's group
unfoldable pub ensure_group_access_level : Option ℕ → Minimum → Option ℕ → Bool → Request → Result ℕ
unfolding required_user_and_group_from_request access_level_for_user_in_group
ensure_group_access_level group least run_environment allow_api_key request =
    check_user request.auth group least run_environment allow_api_key
      (required_user_and_group_from_request request)

-- An object: its group where it has the attribute, and its run environment.
pub record Object : Type 0 where
  pub group : Option (Option ℕ)
  pub run_environment : Option ℕ

-- What the permission answers: True, False, or an error.
pub data Verdict : Type 0 where
  allowed forbidden not_found unauthenticated undetermined : Verdict

-- After a denial of the level `least` to a client who needs `read` to see the object.
abbrev pub after_denial : Option ℕ → Option ℕ → Result ℕ → Verdict
after_denial none least reading = forbidden
after_denial (some read) none reading = forbidden
after_denial (some read) (some least) reading =
    if ltb least read then forbidden else if read == least then not_found else elim reading [
      | granted own ↦ forbidden
      | not_authenticated ↦ unauthenticated
      | permission_denied ↦ not_found
    ]

abbrev pub minimum : Option ℕ → Minimum
minimum none = nothing
minimum (some n) = level n

abbrev pub decide_access : Option ℕ → Option ℕ → Result ℕ → Result ℕ → Verdict
decide_access read least (granted own) reading = allowed
decide_access read least not_authenticated reading = unauthenticated
decide_access read least permission_denied reading = after_denial read least reading

-- has_object_permission, with the levels that the view requires for reading and for mutation;
-- `safe` says that the request's method is one of the SAFE_METHODS
unfoldable pub has_object_permission :
    Option ℕ → Option ℕ → Bool → Bool → Object → Request → Verdict
unfolding ensure_group_access_level
has_object_permission read mutation safe allow_api_key o request = elim o.group [
  | none ↦ undetermined
  | some group ↦
      let least = if safe then read else mutation in
      decide_access read least
        (ensure_group_access_level group (minimum least) o.run_environment allow_api_key request)
        (ensure_group_access_level group (minimum read) o.run_environment allow_api_key request)
]
