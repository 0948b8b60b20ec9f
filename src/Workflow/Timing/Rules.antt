-- ===== src/Workflow/Timing/Rules.antt =====
-- The rule of Amazon EventBridge after a workflow has been saved.
use task_manager.Prelude.{
  ℕ, ◌≡◌, refl, sym, ap, ◌∙◌, Bool, true, false, not, ◌&&◌, ◌||◌, Option, none, some, List, [],
  ==_iff, arith, if◌then◌else◌, is_some, Time,
}
use task_manager.Limits.{UsageLimits}
use task_manager.Workflow.Timing.{
  Schedule, RunEnvironment, Row, Call, Events, Step, touch, touched, then_set_up, replace,
  effective_of, save_scheduled, save_unscheduled, synchronize, pre_save_workflow,
  run_environment_for_scheduling, same_optional, same_flag, same_environment, same_schedule,
  exceeds, teardown_scheduled_execution, set_up_in,
}
use task_manager.Workflow.Timing.Requests.{
  Rule, rule_after, EndsWith, EndsWith-unless, setup-EndsWith, KeepsResult, teardown-Keeps,
}

touched-some : (now : Time) (o : Option Row) → is_some (touched now o) ≡ is_some o
touched-some now none = refl
touched-some now (some w) = refl

touch-EndsWith :
    (e : ℕ) (before rule : Rule) (now : Time) (x : Step)
    → EndsWith e before x rule
    → EndsWith e before (touch now x) rule
touch-EndsWith e before rule now x f t = f (sym (touched-some now x.result) ∙ t)

EndsWith-of-eq :
    (e : ℕ) (before rule : Rule) (x y : Step)
    → x ≡ y
    → EndsWith e before y rule
    → EndsWith e before x rule
EndsWith-of-eq e before rule x y h f = rw (sym h) at f

set_up_in-EndsWith :
    (events : Events) (e : RunEnvironment) (o : Option RunEnvironment) (w : Row) (s : Schedule)
    (calls : List Call) (before : Rule)
    → o ≡ some e
    → w.schedule ≡ some s
    → EndsWith e.ident before (set_up_in events o calls w) (some (s, w.enabled))
set_up_in-EndsWith events e o w s calls before ho hs =
    EndsWith-of-eq e.ident before (some (s, w.enabled)) (set_up_in events o calls w)
      (set_up_in events (some e) calls w) (ap (λ x. set_up_in events x calls w) ho)
      (setup-EndsWith events e w s calls before hs)

scheduled : (o : Option Schedule) (s : Schedule) → o ≡ some s → is_some o ≡ true
scheduled o s h = rw h refl

taken : (b : Bool) {A : Type 0} (x y : A) → b ≡ true → (if b then x else y) ≡ x
taken true x y h = refl
taken false x y h = ground arith

then_set_up-EndsWith :
    (events : Events) (e : RunEnvironment) (o : Option RunEnvironment) (w : Row) (s : Schedule)
    (calls : List Call) (before : Rule) (r : Option Row)
    → o ≡ some e
    → w.schedule ≡ some s
    → KeepsResult w r
    → EndsWith e.ident before (then_set_up events o calls r) (some (s, w.enabled))
then_set_up-EndsWith events e o w s calls before none ho hs k t = ground arith
then_set_up-EndsWith events e o w s calls before (some v) ho hs k t =
    EndsWith-of-eq e.ident before (some (s, v.enabled)) (then_set_up events o calls (some v))
      (set_up_in events o calls v)
      (taken (is_some v.schedule) _ _ (scheduled v.schedule s (k.0 ∙ hs)))
      (set_up_in-EndsWith events e o v s calls before ho (k.0 ∙ hs)) t
    ∙ ap (λ b. some (s, b)) k.1

-- The rule that a Workflow with a schedule is to have.
abbrev pub rule_of : Row → Rule
rule_of w = elim w.schedule [ none ↦ none | some s ↦ some (s, w.enabled) ]

-- Each Workflow that had a schedule has its rule in its run environment for scheduling.
abbrev pub HasRule : (ℕ → Rule) → Row → Type 0
HasRule rules o =
    (f : RunEnvironment)
    → is_some o.schedule ≡ true
    → run_environment_for_scheduling false o ≡ some f
    → rules f.ident ≡ rule_of o

all_same :
    (a b c : Bool) → (not a || (not b || not c)) ≡ false → (a ≡ true) × (b ≡ true) × (c ≡ true)
all_same a b c h = ground arith

same_schedule_eq : (s t : Schedule) → same_schedule s t ≡ true → s ≡ t
same_schedule_eq s t h = ground arith

same_optional_eq : (x y : Option Schedule) → same_optional x y ≡ true → x ≡ y
same_optional_eq none none h = refl
same_optional_eq none (some t) h = ground arith
same_optional_eq (some s) none h = ground arith
same_optional_eq (some s) (some t) h = ap some (same_schedule_eq s t h)

same_flag_eq : (a b : Bool) → same_flag a b ≡ true → a ≡ b
same_flag_eq a b h = ground arith

same_environment-some :
    (e : RunEnvironment) (x y : Option RunEnvironment)
    → x ≡ some e
    → same_environment x y ≡ true
    → (f : RunEnvironment) × (y ≡ some f) × (f.ident ≡ e.ident)
same_environment-some e none y hx h = ground arith
same_environment-some e (some x) none hx h = ground arith
same_environment-some e (some x) (some f) hx h = (
  f,
  refl,
  sym ((==_iff x.ident f.ident).0 h)
      ∙ ap (λ (o : Option RunEnvironment). elim o [ none ↦ 0 | some r ↦ r.ident ]) hx,
)

rule_of-some :
    (o : Row) (s : Schedule) (b : Bool)
    → o.schedule ≡ some s
    → o.enabled ≡ b
    → rule_of o ≡ some (s, b)
rule_of-some o s b h k = rw (h, k) refl

module _ (events : Events) (now : Time) (w : Row) (s : Schedule) (e : RunEnvironment)
    (hs : w.schedule ≡ some s) (he : run_environment_for_scheduling true w ≡ some e) where
  effective : effective_of w ≡ some e
  effective = taken (is_some w.schedule) _ _ (scheduled w.schedule s hs) ∙ he

  set_up-EndsWith :
      (before : Rule)
      → EndsWith e.ident before
          (touch now (set_up_in events (effective_of w) [] w))
          (some (s, w.enabled))
  set_up-EndsWith before =
      touch-EndsWith e.ident before (some (s, w.enabled)) now
        (set_up_in events (effective_of w) [] w)
        (set_up_in-EndsWith events e (effective_of w) w s [] before effective hs)

  unscheduled-EndsWith :
      (before : Rule)
      → EndsWith e.ident before (save_unscheduled events now w) (some (s, w.enabled))
  unscheduled-EndsWith before =
      EndsWith-of-eq e.ident before (some (s, w.enabled)) (save_unscheduled events now w) _
        (taken (is_some w.schedule) _ _ (scheduled w.schedule s hs)) (set_up-EndsWith before)

  replace-EndsWith :
      (moved : Bool) (o : Option RunEnvironment) (before : Rule)
      → EndsWith e.ident before
          (replace events now moved o (effective_of w) w)
          (some (s, w.enabled))
  replace-EndsWith moved none before =
      EndsWith-of-eq e.ident before (some (s, w.enabled))
        (replace events now moved none (effective_of w) w) _
        (taken (is_some w.schedule) _ _ (scheduled w.schedule s hs)) (set_up-EndsWith before)
  replace-EndsWith true (some f) before =
      let torn = teardown_scheduled_execution events f [] w in
      touch-EndsWith e.ident before (some (s, w.enabled)) now
        (then_set_up events (effective_of w) torn.calls torn.result)
        (then_set_up-EndsWith events e (effective_of w) w s torn.calls before torn.result effective
          hs (teardown-Keeps events f [] w))
  replace-EndsWith false (some f) before =
      EndsWith-of-eq e.ident before (some (s, w.enabled))
        (replace events now false (some f) (effective_of w) w) _
        (taken (is_some w.schedule) _ _ (scheduled w.schedule s hs)) (set_up-EndsWith before)

  unchanged-rule :
      (rules : ℕ → Rule) (o : Row)
      → is_some o.schedule ≡ true
      → HasRule rules o
      → (not (same_optional w.schedule o.schedule)
          || (not (same_flag w.enabled o.enabled)
              || not (same_environment (effective_of w) (run_environment_for_scheduling false o))))
        ≡ false
      → rules e.ident ≡ some (s, w.enabled)
  unchanged-rule rules o ho hr h =
      let c = all_same _ _ _ h in
      let f =
        same_environment-some e (effective_of w) (run_environment_for_scheduling false o) effective
          c.2 in
      ap rules (sym f.2)
      ∙ hr f.0 ho f.1
      ∙ rule_of-some o s w.enabled (sym (same_optional_eq w.schedule o.schedule c.0) ∙ hs)
          (sym (same_flag_eq w.enabled o.enabled c.1))

  scheduled-EndsWith :
      (rules : ℕ → Rule) (o : Row)
      → is_some o.schedule ≡ true
      → HasRule rules o
      → EndsWith e.ident (rules e.ident) (save_scheduled events now o w) (some (s, w.enabled))
  unfolding rule_after
  scheduled-EndsWith rules o ho hr =
      go
        (not (same_optional w.schedule o.schedule)
          || (not (same_flag w.enabled o.enabled)
              || not (same_environment (effective_of w) (run_environment_for_scheduling false o))))
        (unchanged-rule rules o ho hr)
    where
      go :
          (b : Bool)
          → (b ≡ false → rules e.ident ≡ some (s, w.enabled))
          → EndsWith e.ident
              (rules e.ident)
              (if b
                then replace events now
                    (not
                      (same_environment (effective_of w) (run_environment_for_scheduling false o)))
                    (run_environment_for_scheduling false o)
                    (effective_of w)
                    w
                else record { calls = []; result = some w })
              (some (s, w.enabled))
      go true k t =
          replace-EndsWith
            (not (same_environment (effective_of w) (run_environment_for_scheduling false o)))
            (run_environment_for_scheduling false o) (rules e.ident) t
      go false k t = k refl

  synchronize-EndsWith :
      (rules : ℕ → Rule) (old : Option Row)
      → ((o : Row) → old ≡ some o → HasRule rules o)
      → EndsWith e.ident (rules e.ident) (synchronize events now old w) (some (s, w.enabled))
  synchronize-EndsWith rules none hr = unscheduled-EndsWith (rules e.ident)
  synchronize-EndsWith rules (some o) hr = go (is_some o.schedule) refl
    where
      go :
          (b : Bool)
          → is_some o.schedule ≡ b
          → EndsWith e.ident
              (rules e.ident)
              (if b then save_scheduled events now o w else save_unscheduled events now w)
              (some (s, w.enabled))
      go true h = scheduled-EndsWith rules o h (hr o refl)
      go false h = unscheduled-EndsWith (rules e.ident)

-- If a Workflow with a schedule is saved without an exception, then its run environment for
-- scheduling has the rule with its schedule, and the rule is enabled exactly if the Workflow is. If
-- the copy that was loaded had a schedule, the run environment for scheduling of that copy had the
-- rule with that; and a rule that EventBridge does not find does not exist.
pub pre_save_workflow-rule_after :
    (events : Events) (limits : UsageLimits) (existing_count : ℕ) (now : Time) (old : Option Row)
    (w : Row) (s : Schedule) (e : RunEnvironment) (rules : ℕ → Rule)
    → w.schedule ≡ some s
    → run_environment_for_scheduling true w ≡ some e
    → ((o : Row) → old ≡ some o → HasRule rules o)
    → is_some (pre_save_workflow events limits existing_count now old w).result ≡ true
    → rule_after e.ident
        (rules e.ident)
        (pre_save_workflow events limits existing_count now old w).calls
      ≡ some (s, w.enabled)
unfolding pre_save_workflow
pre_save_workflow-rule_after events limits existing_count now old w s e rules hs he hr =
    EndsWith-unless e.ident (rules e.ident) (some (s, w.enabled))
      (not w.is_saved && exceeds limits.max_workflows existing_count) _ _ refl
      (λ h.
        synchronize-EndsWith events now w s e hs he rules (if w.is_saved then old else none)
          (loaded w.is_saved))
  where
    loaded : (b : Bool) (o : Row) → (if b then old else none) ≡ some o → HasRule rules o
    loaded true o h = hr o h
    loaded false o h = ground arith
