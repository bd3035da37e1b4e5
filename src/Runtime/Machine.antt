-- ===== src/Runtime/Machine.antt =====
-- src/orchestrator.js: `HooksRuntime`, over the context of its plugins. Loading a plugin and
-- disposing of the context are functions of that library.
use codex_hooks.Base.{ℕ, String, List, [], ◌∷◌, fault, Fault, Outcome, ok}
use codex_hooks.Base.Exec.{Exec, pure, raise, attempt, ◌>>◌}

-- `RUNTIME_STATES`
pub data RuntimeState : Type 0 where
  down starting ready draining : RuntimeState

unfoldable pub runtime_state_name : RuntimeState → String
runtime_state_name RuntimeState.down = "down"
runtime_state_name RuntimeState.starting = "starting"
runtime_state_name RuntimeState.ready = "ready"
runtime_state_name RuntimeState.draining = "draining"

-- `await this.context.plugin(…)`, `await this.context.fiber.dispose()` and the registry's size.
pub record Context (P D : Type 0) : Type 0 where
  pub load : P → D → Outcome (Unit {0}) × D
  pub dispose : D → Outcome (Unit {0}) × D
  pub size : D → ℕ

pub record Runtime (P D : Type 0) : Type 0 where
  pub plugins : List P
  pub state : RuntimeState
  pub rest : D

pub record RuntimeStatus : Type 0 where
  pub state : String
  pub cordis_plugins : ℕ

module _ {P D : Type 0} (context : Context P D) where
  unfoldable pub await : (D → Outcome (Unit {0}) × D) → Exec (Runtime P D) Unit
  await f r = let (o, d) = f r.rest in (o, record r { rest = d })

  unfoldable pub set_runtime : RuntimeState → Exec (Runtime P D) Unit
  set_runtime state r = (ok tt, record r { state = state })

  -- `this.status()`; its `valid_state` says that the state is one of `RUNTIME_STATES`, as it is by
  -- its type
  unfoldable pub runtime_status : Exec (Runtime P D) RuntimeStatus
  runtime_status r =
      (ok (record { state = runtime_state_name r.state; cordis_plugins = context.size r.rest }), r)

  unfoldable pub drain : Exec (Runtime P D) RuntimeStatus
  drain = do
    set_runtime RuntimeState.draining
    await context.dispose
    set_runtime RuntimeState.down
    runtime_status

  unfoldable pub stop_in : RuntimeState → Exec (Runtime P D) RuntimeStatus
  stop_in RuntimeState.down = runtime_status
  stop_in RuntimeState.draining = runtime_status
  stop_in RuntimeState.starting = drain
  stop_in RuntimeState.ready = drain

  unfoldable pub stop_runtime : Exec (Runtime P D) RuntimeStatus
  stop_runtime r = stop_in r.state r

  -- `for (const entry of this.plugins) …`
  unfoldable pub load_all : List P → Exec (Runtime P D) Unit
  load_all [] = pure tt
  load_all (plugin ∷ more) = do await (context.load plugin); load_all more

  -- The `try` block of `start`.
  unfoldable pub load_plugins : List P → Exec (Runtime P D) RuntimeStatus
  load_plugins plugins = do load_all plugins; set_runtime RuntimeState.ready; runtime_status

  -- The `catch` block of `start`: an error of `stop` takes the place of the first.
  unfoldable pub give_up : Fault → Exec (Runtime P D) RuntimeStatus
  give_up error = do stop_runtime; raise error

  unfoldable pub start_down : List P → Exec (Runtime P D) RuntimeStatus
  start_down plugins = do set_runtime RuntimeState.starting; attempt (load_plugins plugins) give_up

  unfoldable pub start_in : RuntimeState → List P → Exec (Runtime P D) RuntimeStatus
  start_in RuntimeState.ready plugins = runtime_status
  start_in RuntimeState.down plugins = start_down plugins
  start_in RuntimeState.starting plugins = raise (fault "runtime cannot start from starting")
  start_in RuntimeState.draining plugins = raise (fault "runtime cannot start from draining")

  unfoldable pub start_runtime : Exec (Runtime P D) RuntimeStatus
  start_runtime r = start_in r.state r.plugins r
