-- ===== src/Access/Authorize/Confinement.antt =====
-- A request confines the settings that it saves to its group and run environment.
use task_manager.Prelude.{
  ℕ, ◌≡◌, ◌⊎◌, Bool, true, false, not, ◌&&◌, Option, none, some, if◌then◌else◌, is_some, arith, inl,
  inr, refl, ap, ◌∙◌, Option-cases,
}
use task_manager.Access.{
  User, Auth, Request, Result, granted, not_authenticated, permission_denied, level, same_optional,
}
use task_manager.Access.Entitlement.{Entitled, ensure_group_access_level-Entitled}
use task_manager.Access.Settings.{
  Found, found, missing, invalid, unprocessable, unauthorized, forbidden,
}
use task_manager.Access.Authorize.{
  Tables, Setting, Body, chosen_group, owner_of, unless_denied, authorize_environment,
  authorize_group, authorize, has_other_group,
}

refused :
    (b : Bool) (r : Found (ℕ × Option ℕ)) (a : ℕ × Option ℕ)
    → (if b then unprocessable else r) ≡ found a
    → (b ≡ false) × (r ≡ found a)
refused b r a h = ground arith

granted-found :
    (r : ℕ × Option ℕ) (a : ℕ × Option ℕ) (x : Result ℕ)
    → unless_denied r x ≡ found a
    → (r ≡ a) × ((n : ℕ) × (x ≡ granted n))
granted-found r a (granted n) h = (ground arith, (n, refl))
granted-found r a not_authenticated h = ground arith
granted-found r a permission_denied h = ground arith

-- What is known of the group and the run environment of a saved setting.
pub record Confined (t : Tables) (least : ℕ) (user : User) (auth : Option Auth)
    (existing : Option Setting) (a : ℕ × Option ℕ) : Type 0 where
  pub same_group : has_other_group existing a.0 ≡ false
  pub owned : (a.1 ≡ none) ⊎ (owner_of t a.1 ≡ some a.0)
  pub granted_level : ℕ
  pub entitled : Entitled user auth a.0 least a.1 true granted_level

run_environment-owner :
    (t : Tables) (e : Option ℕ) (group : ℕ)
    → (is_some e && not (same_optional (owner_of t e) (some group))) ≡ false
    → (e ≡ none) ⊎ (owner_of t e ≡ some group)
run_environment-owner t none group h = inl refl
run_environment-owner t (some x) group h = elim (Option-cases (t.owner x)) [
  | inl n ↦ ground arith
  | inr p ↦ inr (p.1 ∙ ap some (ground arith))
]

module _ (t : Tables) (least : ℕ) (request : Request) (user : User) (existing : Option Setting)
    (hu : request.user ≡ some user) (hs : user.is_superuser ≡ false) where
  environment-Confined :
      (group : ℕ) (e : Found (Option ℕ)) (a : ℕ × Option ℕ)
      → has_other_group existing group ≡ false
      → authorize_environment t least request group e ≡ found a
      → Confined t least user request.auth existing a
  environment-Confined group (found e) a hg h =
      let c = refused _ _ a h in
      let d = refused _ _ a c.1 in
      let g = granted-found (group, e) a _ d.1 in
      let confined : Confined t least user request.auth existing (group, e) = record {
        same_group = hg;
        owned = run_environment-owner t e group d.0;
        granted_level = g.1.0;
        entitled =
            ensure_group_access_level-Entitled request user group g.1.0 (level least) e true hu hs
              g.1.1;
      } in
      rw g.0 at confined
  environment-Confined group missing a hg h = ground arith
  environment-Confined group invalid a hg h = ground arith
  environment-Confined group unprocessable a hg h = ground arith
  environment-Confined group unauthorized a hg h = ground arith
  environment-Confined group forbidden a hg h = ground arith

  group-Confined :
      (b : Body) (g : Found (Option ℕ)) (a : ℕ × Option ℕ)
      → authorize_group t least request existing b g ≡ found a
      → Confined t least user request.auth existing a
  group-Confined b (found none) a h = ground arith
  group-Confined b (found (some group)) a h =
      let c = refused _ _ a h in environment-Confined group _ a c.0 c.1
  group-Confined b missing a h = ground arith
  group-Confined b invalid a h = ground arith
  group-Confined b unprocessable a h = ground arith
  group-Confined b unauthorized a h = ground arith
  group-Confined b forbidden a h = ground arith

-- Where a request of a user who is not a superuser is authorized to save a setting, the group is
-- that of the existing setting, if that has one; the run environment, if there is one, belongs to
-- the group; and the user, and the API key of the request if it has one, are entitled to the level
-- that is required for mutation in the group and the run environment.
pub authorize-IsConfined :
    (t : Tables) (least : ℕ) (request : Request) (user : User) (existing : Option Setting)
    (b : Body) (a : ℕ × Option ℕ)
    → request.user ≡ some user
    → user.is_superuser ≡ false
    → authorize t least request existing b ≡ found a
    → Confined t least user request.auth existing a
unfolding authorize
authorize-IsConfined t least request user existing b a hu hs h =
    group-Confined t least request user existing hu hs b
      (chosen_group t request existing b.group_dict) a h
