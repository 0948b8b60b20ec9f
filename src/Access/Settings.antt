-- ===== src/Access/Settings.antt =====
-- server/processes/common/request_helpers.py, models/uuid_model.py and
-- serializers/group_setting_serializer_mixin.py: how a request names groups and other objects, and
-- which group and run environment a setting may be saved with. Names and uuids are numbers.
use task_manager.Prelude.{
  ℕ, Bool, true, false, not, ◌&&◌, Option, none, some, List, [], ◌∷◌, ◌==◌, if◌then◌else◌, is_some,
  first_some, or_else, select,
}
use task_manager.Access.{same_optional}

-- What a look-up gives, or the exception it raises.
pub data Found {ℓ} (A : Type ℓ) : Type ℓ where
  found : A → Found A
  missing invalid unprocessable unauthorized forbidden : Found A

-- A row of auth_group.
pub record Group : Type 0 where
  pub ident : ℕ
  pub name : ℕ

-- `{'id': ..., 'name': ...}`
pub record GroupDict : Type 0 where
  pub given_id : Option ℕ
  pub given_name : Option ℕ

abbrev pub first {ℓ} : {A : Type ℓ} → List A → Option A
first [] = none
first (x ∷ xs) = some x

abbrev pub is_named : Group → Option ℕ → Bool
is_named g none = true
is_named g (some n) = g.name == n

abbrev pub group_or_missing : Bool → Option Group → Found (Option Group)
group_or_missing raise_if_missing none = if raise_if_missing then unprocessable else found none
group_or_missing raise_if_missing (some g) = found (some g)

abbrev pub check_named : Bool → Bool → Option ℕ → Option Group → Found (Option Group)
check_named raise_if_missing check_conflict name none = group_or_missing raise_if_missing none
check_named raise_if_missing check_conflict name (some g) =
    if check_conflict && not (is_named g name) then invalid else found (some g)

-- find_group_by_id_or_name
unfoldable pub find_group_by_id_or_name :
    Bool → Bool → Option GroupDict → List Group → Found (Option Group)
find_group_by_id_or_name raise_if_missing check_conflict none groups =
    if raise_if_missing then invalid else found none
find_group_by_id_or_name raise_if_missing check_conflict (some d) groups = elim d.given_id [
  | some i ↦
      check_named raise_if_missing check_conflict d.given_name
        (first (select (λ (g : Group). g.ident == i) groups))
  | none ↦ elim d.given_name [
    | none ↦ invalid
    | some n ↦
        group_or_missing raise_if_missing (first (select (λ (g : Group). g.name == n) groups))
  ]
]

-- extract_filtered_group, with the groups that a user may filter by
unfoldable pub extract_filtered_group : Option ℕ → Bool → List Group → Option ℕ → Found (Option ℕ)
extract_filtered_group request_group required groups none =
    if required && not (is_some request_group) then invalid else found request_group
extract_filtered_group (some g) required groups (some i) =
    if not (g == i) then unprocessable else found (some g)
extract_filtered_group none required groups (some i) =
    elim (first (select (λ (g : Group). g.ident == i) groups)) [
      | none ↦ invalid
      | some g ↦ found (some g.ident)
    ]

-- A row that has a uuid; `run_environment` is None where its class has no such field.
pub record Entity : Type 0 where
  pub ident : ℕ
  pub uuid : ℕ
  pub name : ℕ
  pub group : Option ℕ
  pub run_environment : Option (Option ℕ)

-- `objects.get`
abbrev pub get_one : List Entity → Found Entity
get_one [] = missing
get_one (e ∷ []) = found e
get_one (e ∷ f ∷ es) = invalid

abbrev pub environment_of : Entity → Option ℕ
environment_of e = or_else e.run_environment none

-- The arguments of find_by_uuid_or_name_core.
pub record Scope : Type 0 where
  pub required_group : Option ℕ
  pub required_run_environment : Option ℕ
  pub check_conflict : Bool
  pub allowed_run_environment : Option ℕ
  pub allow_any_run_environment : Option Bool

abbrev pub allowed_environment : Scope → Option ℕ
allowed_environment s = first_some s.allowed_run_environment s.required_run_environment

abbrev pub allows_any : Scope → Bool
allows_any s = or_else s.allow_any_run_environment (not (is_some (allowed_environment s)))

-- The checks of the row that was found.
abbrev pub check_scope : Scope → Entity → Found Entity
check_scope s e =
    if is_some s.required_group && not (same_optional e.group s.required_group)
    then missing
    else if is_some s.required_run_environment
        && not (same_optional (environment_of e) s.required_run_environment)
    then missing
    else if not (allows_any s)
        && is_some (environment_of e)
        && not (same_optional (environment_of e) (allowed_environment s))
    then missing
    else found e

abbrev pub in_scope : Scope → Found Entity → Found Entity
in_scope s (found e) = check_scope s e
in_scope s error = error

abbrev pub has_other_name : Option ℕ → Entity → Bool
has_other_name none e = false
has_other_name (some n) e = not (e.name == n)

abbrev pub unless_renamed : Bool → Option ℕ → Found Entity → Found Entity
unless_renamed check_conflict name (found e) =
    if check_conflict && has_other_name name e then unprocessable else found e
unless_renamed check_conflict name error = error

-- find_by_uuid_or_name_core with `use_name`: the uuid and the name that are given, and the rows
unfoldable pub find_by_uuid_or_name : Scope → Option ℕ → Option ℕ → List Entity → Found Entity
find_by_uuid_or_name s (some u) name rows =
    in_scope s
      (unless_renamed s.check_conflict name (get_one (select (λ (e : Entity). e.uuid == u) rows)))
find_by_uuid_or_name s none none rows = invalid
find_by_uuid_or_name s none (some n) rows =
    in_scope s (
      get_one (select (λ (e : Entity). e.name == n && same_optional e.group s.required_group) rows))
