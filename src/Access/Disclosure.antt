-- ===== src/Access/Disclosure.antt =====
-- What the answer of the object permission tells of an object to clients who may not read it.
use task_manager.Prelude.{
  ℕ, ◌≤◌, ◌≡◌, refl, sym, Bool, true, false, Option, none, some, arith, first_some,
}
use task_manager.Access.{
  User, Auth, session, api_key, Request, Result, granted, not_authenticated, permission_denied,
  access_level_for_user_in_group, check_auth, level, check_level, check_group, check_user,
  ensure_group_access_level, required_user_and_group_from_request, Verdict, allowed, forbidden,
  not_found, unauthenticated, undetermined, decide_access, Object, has_object_permission,
}

abbrev pub is_granted {ℓ} : {A : Type ℓ} → Result A → Bool
is_granted (granted a) = true
is_granted not_authenticated = false
is_granted permission_denied = false

abbrev is_unauthenticated {ℓ} : {A : Type ℓ} → Result A → Bool
is_unauthenticated not_authenticated = true
is_unauthenticated (granted a) = false
is_unauthenticated permission_denied = false

-- The client learns that the object exists.
abbrev pub reveals : Verdict → Bool
reveals allowed = true
reveals forbidden = true
reveals not_found = false
reveals unauthenticated = false
reveals undetermined = false

-- A denial of the higher level leaves the lower one open, but not the other way round.
Weaker : Result ℕ → Result ℕ → Type 0
Weaker x y =
    (is_granted x ≡ true → is_granted y ≡ true)
    × (is_unauthenticated x ≡ true → is_granted y ≡ false)

module _ (read least : ℕ) (h : read ≤ least) (run_environment : Option ℕ) (allow : Bool) where
  check_auth-Weaker :
      (auth : Option Auth) (own : ℕ)
      → Weaker
          (check_auth auth least run_environment allow own)
          (check_auth auth read run_environment allow own)
  unfolding Weaker
  check_auth-Weaker none own = ground arith
  check_auth-Weaker (some session) own = ground arith
  check_auth-Weaker (some (api_key t)) own = ground arith

  check_level-Weaker :
      (auth : Option Auth) (own : Option ℕ)
      → Weaker
          (check_level auth least run_environment allow own)
          (check_level auth read run_environment allow own)
  unfolding Weaker
  check_level-Weaker auth none = ground arith
  check_level-Weaker auth (some own) = ground (arith, check_auth-Weaker auth own)

  check_group-Weaker :
      (user : User) (auth : Option Auth) (request_group group : Option ℕ)
      → Weaker
          (check_group user auth request_group least run_environment allow group)
          (check_group user auth request_group read run_environment allow group)
  unfolding Weaker
  check_group-Weaker user auth request_group none = ground arith
  check_group-Weaker user auth request_group (some group) =
      ground (arith, check_level-Weaker auth (access_level_for_user_in_group user group))

  check_user-Weaker :
      (auth : Option Auth) (group : Option ℕ) (r : Result (User × Option ℕ))
      → Weaker
          (check_user auth group (level least) run_environment allow r)
          (check_user auth group (level read) run_environment allow r)
  unfolding Weaker
  check_user-Weaker auth group not_authenticated = ground arith
  check_user-Weaker auth group permission_denied = ground arith
  check_user-Weaker auth group (granted (user, request_group)) =
      ground (arith, check_group-Weaker user auth request_group (first_some group request_group))

  -- A request that is granted a level for an object is granted each lower level for it.
  ensure_group_access_level-Weaker :
      (group : Option ℕ) (request : Request)
      → Weaker
          (ensure_group_access_level group (level least) run_environment allow request)
          (ensure_group_access_level group (level read) run_environment allow request)
  unfolding ensure_group_access_level
  ensure_group_access_level-Weaker group request =
      check_user-Weaker request.auth group (required_user_and_group_from_request request)

decide_access-reveals :
    (read least : ℕ) (x y : Result ℕ)
    → read ≤ least
    → Weaker x y
    → (read ≡ least → x ≡ y)
    → reveals (decide_access (some read) (some least) x y) ≡ is_granted y
unfolding Weaker
decide_access-reveals read least (granted a) y h w e = sym (w.0 refl)
decide_access-reveals read least not_authenticated y h w e = sym (w.1 refl)
decide_access-reveals read least permission_denied (granted b) h w e = ground arith
decide_access-reveals read least permission_denied not_authenticated h w e = ground arith
decide_access-reveals read least permission_denied permission_denied h w e = ground arith

-- Where the level for mutation is not below the level for reading, the object permission answers
-- True or False, which lets the client know that the object exists, exactly if the request is
-- granted the level for reading it, whether the request's method is safe or not.
pub has_object_permission-reveals :
    (read mutation : ℕ) (safe allow : Bool) (o : Object) (group : Option ℕ) (request : Request)
    → read ≤ mutation
    → o.group ≡ some group
    → reveals (has_object_permission (some read) (some mutation) safe allow o request)
      ≡ is_granted (ensure_group_access_level group (level read) o.run_environment allow request)
unfolding has_object_permission
has_object_permission-reveals read mutation true allow o group request h hg = rw hg (
    decide_access-reveals read read _ _ (omega arith)
      (ensure_group_access_level-Weaker read read (omega arith) o.run_environment allow group
        request)
      (λ e. refl))
has_object_permission-reveals read mutation false allow o group request h hg = rw hg (
    decide_access-reveals read mutation _ _ h
      (ensure_group_access_level-Weaker read mutation h o.run_environment allow group request)
      (λ e. rw e refl))
