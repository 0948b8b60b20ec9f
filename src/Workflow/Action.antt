-- ===== src/Workflow/Action.antt =====
-- Methods of a workflow execution: they change the object `self` and the database, and may raise.
-- What was changed outlives an exception.
use task_manager.Prelude.{ℕ, Option, List, [], ◌∷◌}
use task_manager.Status.{Status}
use task_manager.Workflow.Store.{Db, WorkflowExecution}

-- What is told to other parts of the program.
pub data Notice : Type 0 where
  resolve_events : ℕ → Notice
  resolve_missing_scheduled : ℕ → Notice
  status_changed : ℕ → Status → Notice

-- `self`, its `_loaded_copy`, the database, and the notices so far.
pub record State : Type 0 where
  pub self : WorkflowExecution
  pub loaded : Option WorkflowExecution
  pub db : Db
  pub notices : List Notice

pub data Exception : Type 0 where
  unprocessable unsupported_rule zero_division launch_failed recursion_error key_error : Exception
  attribute_error : Exception

pub data Result (A : Type 0) : Type 0 where
  return : A → Result A
  raise : Exception → Result A

abbrev pub Action : Type 0 → Type 0
Action A = State → Result A × State

module _ {A : Type 0} where
  abbrev pub pure : A → Action A
  pure a s = (return a, s)

  abbrev pub throw : Exception → Action A
  throw e s = (raise e, s)

  abbrev pub recover : Result A → Action A → Action A
  recover (return a) handler s = (return a, s)
  recover (raise e) handler s = handler s

  -- `try: body` / `except Exception: handler`
  unfoldable pub try_except : Action A → Action A → Action A
  try_except body handler s = let (r, s') = body s in recover r handler s'

abbrev pub get : Action State
get s = (return s, s)

abbrev pub modify : (State → State) → Action (Unit {0})
modify f s = (return tt, f s)

module _ {A B : Type 0} where
  abbrev pub and_then : Result A → (A → Action B) → Action B
  and_then (return a) f = f a
  and_then (raise e) f = throw e

  -- Shut, so that a proof follows the blocks by rules; a test opens it.
  infixl 5 ◌>>=◌ ◌>>◌
  unfoldable pub ◌>>=◌ : Action A → (A → Action B) → Action B
  m >>= f = λ s. let (r, s') = m s in and_then r f s'

  abbrev pub ◌>>◌ : Action A → Action B → Action B
  m >> n = m >>= λ _. n

-- A call for each item, in order; an exception ends the loop.
unfoldable pub for_each {ℓ} : {A : Type ℓ} → (A → Action (Unit {0})) → List A → Action (Unit {0})
for_each f [] = pure tt
for_each f (x ∷ xs) = f x >> for_each f xs
