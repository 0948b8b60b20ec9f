-- ===== src/Access/Entitlement.antt =====
-- What a request is entitled to where the access level is granted.
use task_manager.Prelude.{
  ℕ, min, ◌≤◌, ◌≡◌, refl, ap, ◌⊎◌, inl, inr, Bool, true, false, not, ◌&&◌, Option, none, some,
  arith, ltb, if◌then◌else◌, is_some, first_some, ==_iff,
}
use task_manager.Access.{
  User, Auth, session, api_key, Request, Result, granted, permission_denied,
  access_level_for_user_in_group, auth_group, default_group, user_and_group_from_request,
  required_user_and_group_from_request, same_optional, Minimum, min_level, token_level, check_auth,
  check_level, check_group, check_user, ensure_group_access_level, access_level_admin,
}

-- An API key belongs to the group, has the level, and has no run environment or the object's.
pub WithinKey : Option Auth → ℕ → ℕ → Option ℕ → Bool → ℕ → ℕ → Type 0
WithinKey none group least run_environment allow_api_key own n = n ≡ own
WithinKey (some session) group least run_environment allow_api_key own n = n ≡ own
WithinKey (some (api_key t)) group least run_environment allow_api_key own n =
    (allow_api_key ≡ true)
    × (t.group ≡ group)
    × (least ≤ token_level t)
    × ((t.run_environment ≡ none) ⊎ (t.run_environment ≡ run_environment))
    × (n ≡ min own (token_level t))

pub record Entitled (user : User) (auth : Option Auth) (group least : ℕ)
    (run_environment : Option ℕ) (allow_api_key : Bool) (n : ℕ) : Type 0 where
  pub active : user.is_active ≡ true
  pub own : ℕ
  pub has_level : access_level_for_user_in_group user group ≡ some own
  pub enough : least ≤ own
  pub within_key : WithinKey auth group least run_environment allow_api_key own n

same_optional_eq : (x y : Option ℕ) → same_optional x y ≡ true → x ≡ y
same_optional_eq none none h = refl
same_optional_eq none (some b) h = ground arith
same_optional_eq (some a) none h = ground arith
same_optional_eq (some a) (some b) h = ap some ((==_iff a b).0 h)

pub run_environment-eq :
    (x y : Option ℕ) → (is_some x && not (same_optional y x)) ≡ false → (x ≡ none) ⊎ (x ≡ y)
run_environment-eq none y h = inl refl
run_environment-eq (some a) none h = ground arith
run_environment-eq (some a) (some b) h = inr (ap some (ground arith))

granted-checks :
    (allow elsewhere : Bool) (key least own n : ℕ)
    → (if not allow
        then permission_denied
        else if ltb key least
        then permission_denied
        else if elsewhere
        then permission_denied
        else granted (min own key))
      ≡ granted n
    → (allow ≡ true) × (least ≤ key) × (elsewhere ≡ false) × (n ≡ min own key)
granted-checks allow elsewhere key least own n h = ground arith

not_denied :
    (b : Bool) (r : Result ℕ) (n : ℕ)
    → (if b then permission_denied else r) ≡ granted n
    → (b ≡ false) × (r ≡ granted n)
not_denied b r n h = ground arith

not_taken :
    (b : Bool) (x r : Result ℕ) (n : ℕ)
    → b ≡ false
    → (if b then x else r) ≡ granted n
    → r ≡ granted n
not_taken b x r n hb h = ground arith

granted-eq : (m n : ℕ) → ◌≡◌ {A = Result ℕ} (granted m) (granted n) → n ≡ m
granted-eq m n h = ground arith

within-WithinKey :
    (auth : Option Auth) (o : Option ℕ) (group least own n : ℕ) (run_environment : Option ℕ)
    (allow : Bool)
    → (is_some (first_some (auth_group auth) o)
        && not (same_optional (first_some (auth_group auth) o) (some group)))
      ≡ false
    → check_auth auth least run_environment allow own ≡ granted n
    → WithinKey auth group least run_environment allow own n
unfolding WithinKey
within-WithinKey none o group least own n run_environment allow h e = granted-eq own n e
within-WithinKey (some session) o group least own n run_environment allow h e = granted-eq own n e
within-WithinKey (some (api_key t)) o group least own n run_environment allow h e =
    let c =
      granted-checks allow
        (is_some t.run_environment && not (same_optional run_environment t.run_environment))
        (token_level t) least own n e in
    (c.0, ground arith, c.1, run_environment-eq t.run_environment run_environment c.2, c.3)

level-Entitled :
    (user : User) (auth : Option Auth) (o level : Option ℕ) (group least n : ℕ)
    (run_environment : Option ℕ) (allow : Bool)
    → user.is_active ≡ true
    → access_level_for_user_in_group user group ≡ level
    → (is_some (first_some (auth_group auth) o)
        && not (same_optional (first_some (auth_group auth) o) (some group)))
      ≡ false
    → check_level auth least run_environment allow level ≡ granted n
    → Entitled user auth group least run_environment allow n
level-Entitled user auth o none group least n run_environment allow ha hl hg e = ground arith
level-Entitled user auth o (some own) group least n run_environment allow ha hl hg e =
    let c = not_denied (ltb own least) (check_auth auth least run_environment allow own) n e in
    record {
      active = ha;
      own = own;
      has_level = hl;
      enough = ground arith;
      within_key = within-WithinKey auth o group least own n run_environment allow hg c.1;
    }

group-Entitled :
    (user : User) (auth : Option Auth) (o : Option ℕ) (group least n : ℕ)
    (run_environment : Option ℕ) (allow : Bool)
    → user.is_active ≡ true
    → check_group user auth
        (first_some (auth_group auth) o)
        least
        run_environment
        allow
        (some group)
      ≡ granted n
    → Entitled user auth group least run_environment allow n
group-Entitled user auth o group least n run_environment allow ha e =
    let c =
      not_denied
        (is_some (first_some (auth_group auth) o)
          && not (same_optional (first_some (auth_group auth) o) (some group)))
        (check_level auth least run_environment allow (access_level_for_user_in_group user group)) n
        e in
    level-Entitled user auth o (access_level_for_user_in_group user group) group least n
      run_environment allow ha refl c.0 c.1

user-Entitled :
    (user : User) (auth : Option Auth) (group n : ℕ) (least : Minimum) (run_environment : Option ℕ)
    (allow active : Bool)
    → user.is_active ≡ active
    → user.is_superuser ≡ false
    → check_user auth (some group) least run_environment allow (
        if not active
        then permission_denied
        else granted (user, first_some (auth_group auth) (default_group (some user))))
      ≡ granted n
    → Entitled user auth group (min_level least) run_environment allow n
user-Entitled user auth group n least run_environment allow false ha hs e = ground arith
user-Entitled user auth group n least run_environment allow true ha hs e =
    group-Entitled user auth (default_group (some user)) group (min_level least) n run_environment
      allow ha (not_taken user.is_superuser (granted access_level_admin) _ n hs e)

-- A request of a user who is not a superuser is granted a level for a group only if the user is
-- active and has at least the required level in the group; and if it comes with an API key, only if
-- keys are allowed, and the key belongs to the group, has at least the required level and has no
-- run environment or that of the object. The level granted is the lower of the user's and the
-- key's.
pub ensure_group_access_level-Entitled :
    (request : Request) (user : User) (group n : ℕ) (least : Minimum) (run_environment : Option ℕ)
    (allow : Bool)
    → request.user ≡ some user
    → user.is_superuser ≡ false
    → ensure_group_access_level (some group) least run_environment allow request ≡ granted n
    → Entitled user request.auth group (min_level least) run_environment allow n
unfolding ensure_group_access_level required_user_and_group_from_request user_and_group_from_request
ensure_group_access_level-Entitled request user group n least run_environment allow hu hs e =
    user-Entitled user request.auth group n least run_environment allow user.is_active refl hs
      (rw hu at e)
