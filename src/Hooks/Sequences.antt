-- ===== src/Hooks/Sequences.antt =====
-- What a sequence of saves of one task execution leads to.
use task_manager.Prelude.{
  ℕ, ◌+◌, ◌≡◌, refl, ◌∙◌, Bool, true, false, not, ◌&&◌, Option, none, some, List, [], ◌∷◌, ◌++◌,
  arith, ap, and_parts, for_all, if◌then◌else◌, is_some, is_truthy, count_or_zero, Time, All,
}
use task_manager.Status.{is_in_progress}
use task_manager.Hooks.{
  Row, Heartbeats, Membership, Effect, create_status_change, set_latest, resolve_missing,
  resolve_heartbeat, update_postponed, handle_finished, was_in_progress, notifies, was_started,
  heartbeat_effects, status_effects, workflow_effects, finished_effects, is_settled,
  stopped_by_workflow, continues, post_save, post_effects, run, is_guarded,
}

abbrev pub is_creation : Effect → Bool
is_creation create_status_change = true
is_creation _ = false

-- The number of times that a status change event is asked for.
abbrev pub creations : List Effect → ℕ
creations [] = 0
creations (e ∷ es) = (if is_creation e then 1 else 0) + creations es

creations-append : (xs ys : List Effect) → creations (xs ++ ys) ≡ creations xs + creations ys
creations-append [] ys = omega arith
creations-append (x ∷ xs) ys = omega (arith, creations-append xs ys)

if_no_creations :
    (b : Bool) (xs ys : List Effect)
    → creations xs ≡ 0
    → creations ys ≡ 0
    → creations (if b then xs else ys) ≡ 0
if_no_creations true xs ys h k = h
if_no_creations false xs ys h k = k

creations-finished_effects : (m : Membership) (x : Row) → creations (finished_effects m x) ≡ 0
creations-finished_effects m x =
    if_no_creations (is_in_progress x.status) []
      (if stopped_by_workflow x.stop_reason
        then []
        else if continues m.workflow_status
        then handle_finished ∷ []
        else [])
      refl
      (if_no_creations (stopped_by_workflow x.stop_reason) []
        (if continues m.workflow_status then handle_finished ∷ [] else []) refl
        (if_no_creations (continues m.workflow_status) (handle_finished ∷ []) [] refl refl))

creations-workflow_effects :
    (m : Option Membership) (now : Time) (x : Row) → creations (workflow_effects m now x) ≡ 0
creations-workflow_effects none now x = refl
creations-workflow_effects (some m) now x = omega (arith, creations-finished_effects m x)

creations-status_effects :
    (loaded : Option Row) (m : Option Membership) (x : Row)
    → notifies m ≡ true
    → creations (status_effects loaded m x)
      ≡ (if was_in_progress loaded && not (is_in_progress x.status) then 1 else 0)
creations-status_effects loaded m x h =
    go (was_in_progress loaded) (not (is_in_progress x.status)) (notifies m) h
  where
    go :
        (a b c : Bool)
        → c ≡ true
        → creations (if a && b && c then update_postponed ∷ create_status_change ∷ [] else [])
          ≡ (if a && b then 1 else 0)
    go a b c h = ground arith

creations-heartbeat_effects :
    (task : Heartbeats) (unresolved : Bool) (now : Time) (x : Row)
    → creations (heartbeat_effects task unresolved now x) ≡ 0
creations-heartbeat_effects task unresolved now x =
    if_no_creations
      (is_truthy task.heartbeat_interval_seconds
        && is_settled (count_or_zero task.heartbeat_interval_seconds)
            task.max_heartbeat_lateness_before_alert_seconds (is_in_progress x.status) now
            x.last_heartbeat_at
        && unresolved)
      (resolve_heartbeat ∷ []) [] refl refl

creations-middle :
    (a b c d e : List Effect)
    → creations a ≡ 0
    → creations b ≡ 0
    → creations c ≡ 0
    → creations e ≡ 0
    → creations (a ++ (b ++ (c ++ (d ++ e)))) ≡ creations d
creations-middle a b c d e ha hb hc he = omega (
  arith,
  ha,
  hb,
  hc,
  he,
  creations-append a (b ++ (c ++ (d ++ e))),
  creations-append b (c ++ (d ++ e)),
  creations-append c (d ++ e),
  creations-append d e,
)

creations-post_effects :
    (task : Heartbeats) (m : Option Membership) (unresolved : Bool) (now : Time)
    (loaded : Option Row) (x : Row)
    → notifies m ≡ true
    → creations (post_effects task m unresolved now loaded x)
      ≡ (if was_in_progress loaded && not (is_in_progress x.status) then 1 else 0)
unfolding post_effects
creations-post_effects task m unresolved now loaded x h =
    creations-middle (if is_in_progress x.status then set_latest ∷ [] else [])
      (if is_some x.started_at && not (was_started loaded) then resolve_missing ∷ [] else [])
      (heartbeat_effects task unresolved now x) (status_effects loaded m x)
      (workflow_effects m now x)
      (if_no_creations (is_in_progress x.status) (set_latest ∷ []) [] refl refl)
      (if_no_creations (is_some x.started_at && not (was_started loaded)) (resolve_missing ∷ []) []
        refl refl)
      (creations-heartbeat_effects task unresolved now x) (creations-workflow_effects m now x)
    ∙ creations-status_effects loaded m x h

abbrev ended : Bool → Bool → ℕ
ended was live = if was && not live then 1 else 0

-- The effect does not end the handler.
abbrev pub returns : (Effect → Bool) → Effect → Bool
returns raises e = not (raises e && not (is_guarded e))

run-none :
    (raises : Effect → Bool) (es : List Effect) → creations es ≡ 0 → creations (run raises es) ≡ 0
unfolding run
run-none raises [] h = h
run-none raises (e ∷ es) h =
    go (raises e && not (is_guarded e)) (omega (arith, h)) (run-none raises es (omega (arith, h)))
  where
    go :
        (b : Bool)
        → creations (e ∷ []) ≡ 0
        → creations (run raises es) ≡ 0
        → creations (if b then e ∷ [] else e ∷ run raises es) ≡ 0
    go true k l = omega (arith, k)
    go false k l = omega (arith, k, l)

run-append :
    (raises : Effect → Bool) (xs ys : List Effect)
    → for_all (returns raises) xs ≡ true
    → run raises (xs ++ ys) ≡ xs ++ run raises ys
unfolding run
run-append raises [] ys h = refl
run-append raises (x ∷ xs) ys h =
    let c = and_parts (returns raises x) (for_all (returns raises) xs) h in
    go (raises x && not (is_guarded x)) c.0 ∙ ap (λ r. x ∷ r) (run-append raises xs ys c.1)
  where
    go :
        (b : Bool)
        → not b ≡ true
        → (if b then x ∷ [] else x ∷ run raises (xs ++ ys)) ≡ x ∷ run raises (xs ++ ys)
    go true k = ground arith
    go false k = refl

if-returns :
    (raises : Effect → Bool) (b : Bool) (e : Effect)
    → raises e ≡ false
    → for_all (returns raises) (if b then e ∷ [] else []) ≡ true
if-returns raises true e h = rw h refl
if-returns raises false e h = refl

status-returns :
    (raises : Effect → Bool) (b : Bool)
    → for_all (returns raises) (if b then update_postponed ∷ create_status_change ∷ [] else [])
      ≡ true
status-returns raises true = ground arith
status-returns raises false = refl

run-middle :
    (raises : Effect → Bool) (a b c d e : List Effect)
    → creations a ≡ 0
    → creations b ≡ 0
    → creations c ≡ 0
    → creations e ≡ 0
    → for_all (returns raises) a ≡ true
    → for_all (returns raises) b ≡ true
    → for_all (returns raises) c ≡ true
    → for_all (returns raises) d ≡ true
    → creations (run raises (a ++ (b ++ (c ++ (d ++ e))))) ≡ creations d
run-middle raises a b c d e ha hb hc he ra rb rc rd =
    rw
      (
        run-append raises a (b ++ (c ++ (d ++ e))) ra,
        run-append raises b (c ++ (d ++ e)) rb,
        run-append raises c (d ++ e) rc,
        run-append raises d e rd,
      )
      (creations-middle a b c d (run raises e) ha hb hc (run-none raises e he))

abbrev pub Resolves : (Effect → Bool) → Type 0
Resolves raises = (raises resolve_missing ≡ false) × (raises resolve_heartbeat ≡ false)

post_save-ending :
    (raises : Effect → Bool) (task : Heartbeats) (m : Option Membership) (unresolved : Bool)
    (now : Time) (loaded : Option Row) (x : Row)
    → notifies m ≡ true
    → is_in_progress x.status ≡ false
    → Resolves raises
    → creations (post_save raises task m unresolved now loaded x)
      ≡ (if was_in_progress loaded && not (is_in_progress x.status) then 1 else 0)
unfolding post_save
post_save-ending raises task m unresolved now loaded x h o r =
    run-middle raises (if is_in_progress x.status then set_latest ∷ [] else [])
      (if is_some x.started_at && not (was_started loaded) then resolve_missing ∷ [] else [])
      (heartbeat_effects task unresolved now x) (status_effects loaded m x)
      (workflow_effects m now x)
      (if_no_creations (is_in_progress x.status) (set_latest ∷ []) [] refl refl)
      (if_no_creations (is_some x.started_at && not (was_started loaded)) (resolve_missing ∷ []) []
        refl refl)
      (creations-heartbeat_effects task unresolved now x) (creations-workflow_effects m now x)
      (rw o refl) (if-returns raises _ resolve_missing r.0)
      (if-returns raises
        (is_truthy task.heartbeat_interval_seconds
          && is_settled (count_or_zero task.heartbeat_interval_seconds)
              task.max_heartbeat_lateness_before_alert_seconds (is_in_progress x.status) now
              x.last_heartbeat_at
          && unresolved)
        resolve_heartbeat r.1)
      (status-returns raises
        (was_in_progress loaded && not (is_in_progress x.status) && notifies m))
    ∙ creations-status_effects loaded m x h

post_save-none :
    (raises : Effect → Bool) (task : Heartbeats) (m : Option Membership) (unresolved : Bool)
    (now : Time) (loaded : Option Row) (x : Row)
    → notifies m ≡ true
    → ended (was_in_progress loaded) (is_in_progress x.status) ≡ 0
    → creations (post_save raises task m unresolved now loaded x) ≡ 0
unfolding post_save
post_save-none raises task m unresolved now loaded x h k =
    run-none raises (post_effects task m unresolved now loaded x)
      (creations-post_effects task m unresolved now loaded x h ∙ k)

-- A save of the one object of an execution: which effects raise an exception, whether a heartbeat
-- event is not yet resolved, the instant, and the row. The copy that is loaded is the row that was
-- saved last.
abbrev pub Save : Type 0
Save = (Effect → Bool) × Bool × Time × Row

pub save_all : Heartbeats → Option Membership → Option Row → List Save → List Effect
unfolding post_save
save_all task m loaded [] = []
save_all task m loaded ((raises, unresolved, now, x) ∷ saves) =
    post_save raises task m unresolved now loaded x ++ save_all task m (some x) saves

abbrev pub IsLive : Save → Type 0
IsLive s = is_in_progress s.3.status ≡ true

abbrev pub IsOver : Save → Type 0
IsOver s = is_in_progress s.3.status ≡ false

count-over : (was live : Bool) → was ≡ false → ended was live ≡ 0
count-over was live h = ground arith

count-live : (was live : Bool) → live ≡ true → ended was live ≡ 0
count-live was live h = ground arith

count-ending : (was live : Bool) → was ≡ true → live ≡ false → ended was live ≡ 1
count-ending was live h k = ground arith

over-creations :
    (task : Heartbeats) (m : Option Membership) (loaded : Option Row) (saves : List Save)
    → notifies m ≡ true
    → was_in_progress loaded ≡ false
    → All IsOver saves
    → creations (save_all task m loaded saves) ≡ 0
unfolding save_all
over-creations task m loaded [] h w k = refl
over-creations task m loaded ((raises, unresolved, now, x) ∷ saves) h w (o, k) = omega (
  arith,
  creations-append (post_save raises task m unresolved now loaded x)
      (save_all task m (some x) saves),
  post_save-none raises task m unresolved now loaded x h
      (count-over (was_in_progress loaded) (is_in_progress x.status) w),
  over-creations task m (some x) saves h o k,
)

-- However often an execution is saved while it is in progress and after that, exactly one status
-- change event is asked for, at the first save that finds it no longer in progress, if its
-- workflow, where it has one, uses the task's notification profiles, and if that save resolves the
-- events for missing executions and heartbeats without an exception. The other saves may raise any.
pub save_all-creations :
    (task : Heartbeats) (m : Option Membership) (loaded : Option Row) (before : List Save)
    (last : Save) (after : List Save)
    → notifies m ≡ true
    → was_in_progress loaded ≡ true
    → All IsLive before
    → IsOver last
    → Resolves last.0
    → All IsOver after
    → creations (save_all task m loaded (before ++ last ∷ after)) ≡ 1
unfolding save_all
save_all-creations task m loaded [] (raises, unresolved, now, x) after h w l o r k = omega (
  arith,
  creations-append (post_save raises task m unresolved now loaded x)
      (save_all task m (some x) after),
  post_save-ending raises task m unresolved now loaded x h o r
      ∙ count-ending (was_in_progress loaded) (is_in_progress x.status) w o,
  over-creations task m (some x) after h o k,
)
save_all-creations task m loaded ((raises, unresolved, now, x) ∷ before) last after h w (l, ls) o r
      k =
    omega (
      arith,
      creations-append (post_save raises task m unresolved now loaded x)
          (save_all task m (some x) (before ++ last ∷ after)),
      post_save-none raises task m unresolved now loaded x h
          (count-live (was_in_progress loaded) (is_in_progress x.status) l),
      save_all-creations task m (some x) before last after h l ls o r k,
    )
