-- ===== src/Workflow/Timing/Requests.antt =====
-- What the requests of a setup and of a teardown do to the rule of a run environment.
use task_manager.Prelude.{
  ℕ, ◌≡◌, refl, ap, ◌∙◌, Bool, true, false, not, ◌&&◌, Option, none, some, List, [], ◌∷◌, ◌++◌,
  ◌==◌, ==_iff, arith, if◌then◌else◌, is_some, Bool-cases, inl, inr,
}
use task_manager.Workflow.Timing.{
  Schedule, RunEnvironment, Row, Request, put_rule, enable_rule, disable_rule, put_targets,
  remove_targets, delete_rule, Answer, success, resource_not_found, failure, Call, Events, Step,
  call, send_all, set_up, switch, remove_rule, teardown_scheduled_execution, set_up_schedule,
  set_up_optional, setup_scheduled_execution, is_success, is_valid,
}

-- A rule: its schedule, and whether it is enabled.
abbrev pub Rule : Type 0
Rule = Option (Schedule × Bool)

abbrev pub enabled_as : Bool → Rule → Rule
enabled_as b none = none
enabled_as b (some r) = some (r.0, b)

-- What a request that succeeds does to the rule of its run environment; a rule that is not found
-- does not exist.
abbrev pub after_request : Request → Answer → Rule → Rule
after_request (put_rule s b) success rule = some (s, b)
after_request enable_rule success rule = enabled_as true rule
after_request disable_rule success rule = enabled_as false rule
after_request delete_rule success rule = none
after_request delete_rule resource_not_found rule = none
after_request r a rule = rule

-- The rule of a run environment after the calls.
unfoldable pub rule_after : ℕ → Rule → List Call → Rule
rule_after e rule [] = rule
rule_after e rule (c ∷ cs) =
    let here = rule_after e (after_request c.request c.answer rule) cs in
    let elsewhere = rule_after e rule cs in if c.environment == e then here else elsewhere

pub rule_after-append :
    (e : ℕ) (rule : Rule) (cs ds : List Call)
    → rule_after e rule (cs ++ ds) ≡ rule_after e (rule_after e rule cs) ds
unfolding rule_after
rule_after-append e rule [] ds = refl
rule_after-append e rule (c ∷ cs) ds = elim (Bool-cases (c.environment == e)) [
  | inl t ↦ rw t (rule_after-append e (after_request c.request c.answer rule) cs ds)
  | inr f ↦ rw f (rule_after-append e rule cs ds)
]

-- The step ends without an exception only if the rule of the run environment is the one given.
abbrev pub EndsWith : ℕ → Rule → Step → Rule → Type 0
EndsWith e before s rule = is_some s.result ≡ true → rule_after e before s.calls ≡ rule

pub after_switch :
    (s : Schedule) (b : Bool) → after_request (switch b) success (some (s, b)) ≡ some (s, b)
after_switch s true = refl
after_switch s false = refl

pub same_ident : (e : ℕ) → (e == e) ≡ true
same_ident e = (==_iff e e).1 refl

pub success_only : (a : Answer) → is_success a ≡ true → a ≡ success
success_only success h = refl
success_only resource_not_found h = ground arith
success_only failure h = ground arith

pub rule_after-last :
    (e : ℕ) (before : Rule) (cs : List Call) (r : Request) (a : Answer)
    → rule_after e before (cs ++ (record { environment = e; request = r; answer = a } ∷ []))
      ≡ after_request r a (rule_after e before cs)
unfolding rule_after
rule_after-last e before cs r a =
    rule_after-append e before cs (record { environment = e; request = r; answer = a } ∷ [])
    ∙ rw (same_ident e) refl

pub EndsWith-if :
    (e : ℕ) (before rule : Rule) (b : Bool) (x y : Step)
    → (b ≡ true → EndsWith e before x rule)
    → is_some y.result ≡ false
    → EndsWith e before (if b then x else y) rule
EndsWith-if e before rule true x y f g h = f refl h
EndsWith-if e before rule false x y f g h = ground arith

pub EndsWith-unless :
    (e : ℕ) (before rule : Rule) (b : Bool) (x y : Step)
    → is_some x.result ≡ false
    → (b ≡ false → EndsWith e before y rule)
    → EndsWith e before (if b then x else y) rule
EndsWith-unless e before rule true x y f g h = ground arith
EndsWith-unless e before rule false x y f g h = g refl h

module _ (events : Events) (e : RunEnvironment) (w : Row) (s : Schedule) where
  pub send_all-EndsWith :
      (calls : List Call) (before : Rule)
      → EndsWith e.ident before
          (send_all events e
            (put_rule s w.enabled ∷ switch w.enabled ∷ put_targets ∷ [])
            calls
            w
            (set_up events e w))
          (some (s, w.enabled))
  send_all-EndsWith calls before =
      let x = events.answer e.ident (put_rule s w.enabled) in
      let y = events.answer e.ident (switch w.enabled) in
      let z = events.answer e.ident put_targets in
      let one = calls ++ (call events e (put_rule s w.enabled) ∷ []) in
      let two = one ++ (call events e (switch w.enabled) ∷ []) in
      EndsWith-if e.ident before (some (s, w.enabled)) (is_success x) _ _
        (λ hx.
          EndsWith-if e.ident before (some (s, w.enabled)) (is_success y) _ _
            (λ hy.
              EndsWith-if e.ident before (some (s, w.enabled)) (is_success z) _ _
                (λ hz h.
                  rule_after-last e.ident before two put_targets z
                  ∙ ap (λ r. after_request put_targets z r)
                      (rule_after-last e.ident before one (switch w.enabled) y
                        ∙ ap (λ r. after_request (switch w.enabled) y r)
                            (rule_after-last e.ident before calls (put_rule s w.enabled) x))
                  ∙ rw (success_only x hx, success_only y hy) (after_switch s w.enabled))
                refl)
            refl)
        refl

  pub set_up_schedule-EndsWith :
      (calls : List Call) (before : Rule)
      → EndsWith e.ident before (set_up_schedule events e calls w s) (some (s, w.enabled))
  set_up_schedule-EndsWith calls before =
      EndsWith-unless e.ident before (some (s, w.enabled)) (not (is_valid s)) _ _ refl (λ a.
        EndsWith-unless e.ident before (some (s, w.enabled)) (not e.has_aws_settings) _ _ refl (λ b.
          EndsWith-unless e.ident before (some (s, w.enabled)) (not e.has_starter_settings) _ _ refl
            (λ c. send_all-EndsWith calls before)))

pub set_up_optional-EndsWith :
    (events : Events) (e : RunEnvironment) (w : Row) (s : Schedule) (o : Option Schedule)
    (calls : List Call) (before : Rule)
    → o ≡ some s
    → EndsWith e.ident before (set_up_optional events e calls w o) (some (s, w.enabled))
set_up_optional-EndsWith events e w s none calls before h t = ground arith
set_up_optional-EndsWith events e w s (some u) calls before h t =
    set_up_schedule-EndsWith events e w u calls before t
    ∙ ap (λ (o : Option Schedule). elim o [ none ↦ none | some x ↦ some (x, w.enabled) ]) h

pub setup-EndsWith :
    (events : Events) (e : RunEnvironment) (w : Row) (s : Schedule) (calls : List Call)
    (before : Rule)
    → w.schedule ≡ some s
    → EndsWith e.ident before (setup_scheduled_execution events e calls w) (some (s, w.enabled))
unfolding setup_scheduled_execution
setup-EndsWith events e w s calls before h =
    set_up_optional-EndsWith events e w s w.schedule calls before h

-- Unless it is an exception, the result has the schedule of the Workflow and is enabled if that is.
abbrev pub KeepsResult : Row → Option Row → Type 0
KeepsResult w none = Unit
KeepsResult w (some v) = (v.schedule ≡ w.schedule) × (v.enabled ≡ w.enabled)

abbrev pub Keeps : Row → Step → Type 0
Keeps w s = KeepsResult w s.result

pub Keeps-if :
    (w : Row) (b : Bool) (x y : Step) → Keeps w x → Keeps w y → Keeps w (if b then x else y)
Keeps-if w true x y f g = f
Keeps-if w false x y f g = g

pub Keeps-answer :
    (w : Row) (a : Answer) (x y z : Step)
    → Keeps w x
    → Keeps w y
    → Keeps w z
    → Keeps w (elim a [ success ↦ x | resource_not_found ↦ y | failure ↦ z ])
Keeps-answer w success x y z f g h = f
Keeps-answer w resource_not_found x y z f g h = g
Keeps-answer w failure x y z f g h = h

pub remove_rule-Keeps :
    (events : Events) (e : RunEnvironment) (calls : List Call) (w v : Row)
    → (v.schedule ≡ w.schedule) × (v.enabled ≡ w.enabled)
    → Keeps w (remove_rule events e calls v)
remove_rule-Keeps events e calls w v h =
    Keeps-if w (not (is_some v.aws_scheduled_execution_rule_name)) _ _ h (
      Keeps-if w (not e.has_aws_settings) _ _ tt
        (Keeps-answer w (events.answer e.ident delete_rule) _ _ _ h h tt))

pub teardown-Keeps :
    (events : Events) (e : RunEnvironment) (calls : List Call) (w : Row)
    → Keeps w (teardown_scheduled_execution events e calls w)
unfolding teardown_scheduled_execution
teardown-Keeps events e calls w =
    Keeps-if w (not (is_some w.aws_event_target_rule_name && is_some w.aws_event_target_id)) _ _
      (remove_rule-Keeps events e calls w w (refl, refl))
      (Keeps-if w (not e.has_aws_settings) _ _ tt (
        Keeps-answer w (events.answer e.ident remove_targets) _ _ _
          (remove_rule-Keeps events e _ w
            (record w { aws_event_target_rule_name = none; aws_event_target_id = none })
            (refl, refl))
          (remove_rule-Keeps events e _ w w (refl, refl)) tt))
