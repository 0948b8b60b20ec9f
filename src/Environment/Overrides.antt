-- ===== src/Environment/Overrides.antt =====
-- Which value a variable has after the overrides of the Task and of the execution.
use Prim.Native.String.{String}
use text.Mathlib.Text.{◌==◌}
use text.Mathlib.TextEquality.{eq_iff}
use task_manager.Prelude.{
  ◌≡◌, refl, ◌∙◌, Bool, true, false, Option, none, some, List, [], ◌∷◌, arith, if◌then◌else◌,
  first_some, or_else,
}
use task_manager.Merge.{Json}
use task_manager.Environment.{
  Python, Env, lookup, set, pop, Task, Execution, wrapper_vars, override_text, set_some, set_all,
  change, apply_overrides, make_environment,
}

pub lookup-set :
    (k j v : String) (env : Env)
    → lookup j (set k v env) ≡ (if k == j then some v else lookup j env)
unfolding lookup set
lookup-set k j v [] = refl
lookup-set k j v ((i, w) ∷ env) =
    ground (arith, eq_iff k j, eq_iff i k, eq_iff i j, lookup-set k j v env)

lookup-pop :
    (k j : String) (env : Env) → lookup j (pop k env) ≡ (if k == j then none else lookup j env)
unfolding lookup pop
lookup-pop k j [] = ground arith
lookup-pop k j ((i, w) ∷ env) =
    ground (arith, eq_iff k j, eq_iff i k, eq_iff i j, lookup-pop k j env)

-- The value that the last assignment of a variable gives it.
abbrev pub last_value : String → List (String × Option String) → Option String
last_value k [] = none
last_value k ((j, v) ∷ vs) = first_some (last_value k vs) (if j == k then v else none)

-- What the overrides say of a variable: nothing, its removal, or its value.
abbrev pub override_of : Python → String → List (String × Json) → Option (Option String)
override_of py k [] = none
override_of py k ((j, v) ∷ vs) =
    first_some (override_of py k vs) (if j == k then some (override_text py v) else none)

lookup-set_some :
    (k j : String) (o : Option String) (env : Env)
    → lookup j (set_some k o env) ≡ first_some (if k == j then o else none) (lookup j env)
lookup-set_some k j none env = ground arith
lookup-set_some k j (some v) env = ground (arith, lookup-set k j v env)

lookup-change :
    (k j : String) (o : Option String) (env : Env)
    → lookup j (change k o env) ≡ or_else (if k == j then some o else none) (lookup j env)
lookup-change k j none env = ground (arith, lookup-pop k j env)
lookup-change k j (some v) env = ground (arith, lookup-set k j v env)

first_some_assoc :
    (x y z : Option String) → first_some x (first_some y z) ≡ first_some (first_some x y) z
first_some_assoc none y z = refl
first_some_assoc (some x) y z = refl

or_else-first_some :
    (x y : Option (Option String)) (z : Option String)
    → or_else x (or_else y z) ≡ or_else (first_some x y) z
or_else-first_some none y z = refl
or_else-first_some (some x) y z = refl

pub lookup-set_all :
    (k : String) (vs : List (String × Option String)) (env : Env)
    → lookup k (set_all vs env) ≡ first_some (last_value k vs) (lookup k env)
unfolding set_all
lookup-set_all k [] env = refl
lookup-set_all k ((j, v) ∷ vs) env =
    rw (lookup-set_all k vs (set_some j v env), lookup-set_some j k v env)
      (first_some_assoc (last_value k vs) (if j == k then v else none) (lookup k env))

lookup-apply_overrides :
    (py : Python) (k : String) (vs : List (String × Json)) (env : Env)
    → lookup k (apply_overrides py vs env) ≡ or_else (override_of py k vs) (lookup k env)
unfolding apply_overrides
lookup-apply_overrides py k [] env = refl
lookup-apply_overrides py k ((j, v) ∷ vs) env =
    rw
      (
        lookup-apply_overrides py k vs (change j (override_text py v) env),
        lookup-change j k (override_text py v) env,
      )
      (or_else-first_some (override_of py k vs) (if j == k then some (override_text py v) else none)
        (lookup k env))

first_some-none : (x : Option String) → first_some x none ≡ x
first_some-none none = refl
first_some-none (some x) = refl

lookup-base :
    (py : Python) (task : Task) (x : Execution) (wrapper : Bool)
    → (k : String)
    → lookup k (if wrapper then set_all (wrapper_vars py task x) [] else [])
      ≡ (if wrapper then last_value k (wrapper_vars py task x) else none)
unfolding lookup
lookup-base py task x true k =
    lookup-set_all k (wrapper_vars py task x) []
    ∙ first_some-none (last_value k (wrapper_vars py task x))
lookup-base py task x false k = refl

-- With the app's variables included, a variable has the value that the overrides of the execution
-- give it; where they do not name it, the value that the overrides of the Task give it; and where
-- these do not either, the value that was assigned last as a variable of the wrapper, if these are
-- included. An override that is None removes the variable.
pub lookup-make_environment :
    (py : Python) (task : Task) (x : Execution) (wrapper : Bool) (k : String)
    → lookup k (make_environment py task x wrapper true)
      ≡ or_else (override_of py k (or_else x.environment_variables_overrides [])) (
          or_else
            (override_of py k (or_else task.environment_variables_overrides []))
            (if wrapper then last_value k (wrapper_vars py task x) else none))
unfolding make_environment
lookup-make_environment py task x wrapper k =
    rw
      (
        lookup-apply_overrides py k (or_else x.environment_variables_overrides []) (
            apply_overrides py (or_else task.environment_variables_overrides [])
              (if wrapper then set_all (wrapper_vars py task x) [] else [])),
        lookup-apply_overrides py k (or_else task.environment_variables_overrides [])
            (if wrapper then set_all (wrapper_vars py task x) [] else []),
        lookup-base py task x wrapper k,
      )
      refl
