-- ===== src/Tasks/Agreement.antt =====
-- Whether a schedule exists in the run environment after the calls of an execution method.

use task_manager.Prelude.{
  ℕ, ◌≡◌, refl, ◌∙◌, sym, Bool, true, false, not, ◌&&◌, ◌||◌, Option, none, some, List, [], ◌∷◌,
  ◌++◌, if◌then◌else◌, is_some, arith, Bool-cases, Option-cases, inl, inr,
}
use task_manager.Tasks.{
  Task, managed_or, has_active_managed_scheduled_execution, setup_scheduled_execution,
  teardown_scheduled_execution, setup_service, teardown_service, Call, call, ExecutionMethod, Step,
  step, was_active, disable_scheduled, unmanaged, finish_scheduled, replace_scheduled,
}

-- Whether the schedule exists after a call, and after calls one after the other.
abbrev pub exists_after_call : Bool → Call → Bool
exists_after_call b c = elim c.operation [
  | setup_scheduled_execution ↦ if c.returned then true else b
  | teardown_scheduled_execution ↦ if c.returned then false else b
  | setup_service ↦ b
  | teardown_service ↦ b
]

unfoldable pub exists_after : Bool → List Call → Bool
exists_after b [] = b
exists_after b (c ∷ cs) = exists_after (exists_after_call b c) cs

-- The row, or the Task that is saved in its place, has an active managed schedule exactly if
-- the schedule exists.
unfoldable pub Agrees : Bool → Step → Type 0
Agrees b s =
    was_active (has_active_managed_scheduled_execution true)
      (elim s.result [ none ↦ s.row | some t ↦ some t ])
    ≡ exists_after b s.calls

pub exists_after-append :
    (b : Bool) (cs ds : List Call) → exists_after b (cs ++ ds) ≡ exists_after (exists_after b cs) ds
unfolding exists_after
exists_after-append b [] ds = refl
exists_after-append b (c ∷ cs) ds = exists_after-append (exists_after_call b c) cs ds

pub exists_after-last :
    (b : Bool) (cs : List Call) (c : Call)
    → exists_after b (cs ++ (c ∷ [])) ≡ exists_after_call (exists_after b cs) c
unfolding exists_after
exists_after-last b cs c = exists_after-append b cs (c ∷ [])

pub active_managed :
    (t : Task) (settings : Option ℕ)
    → has_active_managed_scheduled_execution false t ≡ true
    → has_active_managed_scheduled_execution true
        (record t { is_scheduling_managed = some true; scheduling_settings = settings })
      ≡ true
unfolding has_active_managed_scheduled_execution
active_managed t settings h =
    go t.enabled t.passive (is_some t.schedule) (managed_or t.is_scheduling_managed true) h
  where
    go : (a b c d : Bool) → (a && (not b && (c && d))) ≡ true → (a && (not b && (c && true))) ≡ true
    go a b c d h = ground arith

pub active_unmanaged :
    (t : Task) (settings : Option ℕ)
    → has_active_managed_scheduled_execution true (record t {
      is_scheduling_managed = unmanaged t.is_scheduling_managed;
      scheduling_settings = settings;
    })
      ≡ false
unfolding has_active_managed_scheduled_execution
active_unmanaged t settings = go t.enabled t.passive (is_some t.schedule) t.is_scheduling_managed
  where
    go :
        (a b c : Bool) (d : Option Bool)
        → (a && (not b && (c && managed_or (unmanaged d) false))) ≡ false
    go a b c none = ground arith
    go a b c (some d) = ground arith

unfoldable pub Agrees_of_eq : (b : Bool) (s t : Step) → s ≡ t → Agrees b t → Agrees b s
Agrees_of_eq b s t e h = rw (sym e) at h

module _ (method : Task → ExecutionMethod) (old : Option Task) (self : Task) where
  finish-setup :
      (force b : Bool) (calls : List Call) (torn : Option (Option ℕ))
      → has_active_managed_scheduled_execution false self ≡ true
      → was_active (has_active_managed_scheduled_execution true) (disable_scheduled torn old)
        ≡ exists_after b calls
      → Agrees b (finish_scheduled method old old true force self calls torn)
  unfolding Agrees
  finish-setup force b calls torn h r =
      elim (Option-cases ((method self).setup_scheduled self force)) [
        | inl n ↦
            Agrees_of_eq b (finish_scheduled method old old true force self calls torn)
              (step (calls ++ (call setup_scheduled_execution false ∷ []))
                (disable_scheduled torn old) none)
              (rw (n, finish_scheduled) refl)
              (r ∙ sym (exists_after-last b calls (call setup_scheduled_execution false)))
        | inr p ↦
            Agrees_of_eq b (finish_scheduled method old old true force self calls torn)
              (step (calls ++ (call setup_scheduled_execution true ∷ [])) old (
                some
                  (record self { is_scheduling_managed = some true; scheduling_settings = p.0 })))
              (rw (p.1, finish_scheduled) refl)
              (active_managed self p.0 h
                ∙ sym (exists_after-last b calls (call setup_scheduled_execution true)))
      ]

pub finish-teardown :
    (method : Task → ExecutionMethod) (o self : Task) (force b : Bool) (calls : List Call)
    (torn : Option (Option ℕ))
    → ((method o).teardown_scheduled o ≡ none
        → has_active_managed_scheduled_execution true o ≡ exists_after b calls)
    → Agrees b (finish_scheduled method (some o) (some o) false force self calls torn)
unfolding Agrees
finish-teardown method o self force b calls torn r =
    elim (Option-cases ((method o).teardown_scheduled o)) [
      | inl n ↦
          Agrees_of_eq b (finish_scheduled method (some o) (some o) false force self calls torn)
            (step (calls ++ (call teardown_scheduled_execution false ∷ [])) (some o) none)
            (rw (n, finish_scheduled) refl)
            (r n ∙ sym (exists_after-last b calls (call teardown_scheduled_execution false)))
      | inr p ↦
          Agrees_of_eq b (finish_scheduled method (some o) (some o) false force self calls torn)
            (step (calls ++ (call teardown_scheduled_execution true ∷ [])) (some o) (
              some (record self {
                is_scheduling_managed = unmanaged self.is_scheduling_managed;
                scheduling_settings = p.0;
              })))
            (rw (p.1, finish_scheduled) refl)
            (active_unmanaged self p.0
              ∙ sym (exists_after-last b calls (call teardown_scheduled_execution true)))
    ]

pub finish-new :
    (method : Task → ExecutionMethod) (self : Task) (force : Bool)
    → Agrees false (finish_scheduled method none none false force self [] none)
unfolding Agrees exists_after
finish-new method self force = active_unmanaged self self.scheduling_settings

pub replace-new :
    (method : Task → ExecutionMethod) (self : Task) (will force : Bool)
    → has_active_managed_scheduled_execution false self ≡ will
    → Agrees false (replace_scheduled method none none will force self)
unfolding exists_after
replace-new method self true force h = finish-setup method none self force false [] none h refl
replace-new method self false force h = finish-new method self force

-- A disabled Task has no active schedule.
pub disabled :
    (t : Task) (settings : Option ℕ)
    → has_active_managed_scheduled_execution true
        (record t { enabled = false; scheduling_settings = settings })
      ≡ false
unfolding has_active_managed_scheduled_execution
disabled t settings = refl

pub finish-after :
    (method : Task → ExecutionMethod) (o self : Task) (will force b : Bool) (settings : Option ℕ)
    → has_active_managed_scheduled_execution false self ≡ will
    → (method o).teardown_scheduled o ≡ some settings
    → Agrees b (
        finish_scheduled method
          (some o)
          (some o)
          will
          force
          self
          (call teardown_scheduled_execution true ∷ [])
          (some settings))
unfolding exists_after
finish-after method o self true force b settings h e =
    finish-setup method (some o) self force b (call teardown_scheduled_execution true ∷ [])
      (some settings) h (disabled o settings)
finish-after method o self false force b settings h e =
    finish-teardown method o self force b (call teardown_scheduled_execution true ∷ [])
      (some settings) (λ n. none_some (sym n ∙ e))
  where
    none_some : {A : Type 0} → ◌≡◌ {A = Option (Option ℕ)} none (some settings) → A
    none_some x = ground arith

pub finish-at_once :
    (method : Task → ExecutionMethod) (o self : Task) (will force b : Bool)
    → has_active_managed_scheduled_execution false self ≡ will
    → has_active_managed_scheduled_execution true o ≡ b
    → Agrees b (finish_scheduled method (some o) (some o) will force self [] none)
unfolding exists_after
finish-at_once method o self true force b h e =
    finish-setup method (some o) self force b [] none h e
finish-at_once method o self false force b h e =
    finish-teardown method o self force b [] none (λ n. e)

pub replace-old :
    (method : Task → ExecutionMethod) (o self : Task) (will force b : Bool)
    → has_active_managed_scheduled_execution false self ≡ will
    → has_active_managed_scheduled_execution true o ≡ b
    → Agrees b (replace_scheduled method (some o) (some o) will force self)
unfolding Agrees exists_after
replace-old method o self will force b h e =
    elim (Bool-cases ((force || not will) && has_active_managed_scheduled_execution true o)) [
      | inl t ↦ elim (Option-cases ((method o).teardown_scheduled o)) [
        | inl n ↦
            Agrees_of_eq b (replace_scheduled method (some o) (some o) will force self)
              (step (call teardown_scheduled_execution false ∷ []) (some o) none)
              (rw (t, n, replace_scheduled) refl) e
        | inr p ↦
            Agrees_of_eq b (replace_scheduled method (some o) (some o) will force self)
              (finish_scheduled method (some o) (some o) will force self
                (call teardown_scheduled_execution true ∷ []) (some p.0))
              (rw (t, p.1, replace_scheduled) refl)
              (finish-after method o self will force b p.0 h p.1)
      ]
      | inr f ↦
          Agrees_of_eq b (replace_scheduled method (some o) (some o) will force self)
            (finish_scheduled method (some o) (some o) will force self [] none)
            (rw (f, replace_scheduled) refl) (finish-at_once method o self will force b h e)
    ]
