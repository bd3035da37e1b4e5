-- ===== src/Supervisor/Machine.antt =====
-- src/supervisor.js: the state of `HooksSupervisor` and its operations. The functions that it is
-- built with, and the children's own stops, work on a state of their own.
use codex_hooks.Base.{
  String, Bool, true, false, not, Option, some, none, [], ◌∷◌, concat, if◌then◌else◌, is_some,
  fault, Fault, Outcome, ok, throws,
}
use codex_hooks.Base.Exec.{Exec, pure, raise, attempt, on_outcome, ◌>>=◌, ◌>>◌}

-- `STATES`
pub data SupervisorState : Type 0 where
  down starting_codexapp codexapp_ready starting_hooksd ready degraded draining stopping stopped
        crashed restarting failed :
      SupervisorState

unfoldable pub supervisor_state_name : SupervisorState → String
supervisor_state_name SupervisorState.down = "down"
supervisor_state_name SupervisorState.starting_codexapp = "starting_codexapp"
supervisor_state_name SupervisorState.codexapp_ready = "codexapp_ready"
supervisor_state_name SupervisorState.starting_hooksd = "starting_hooksd"
supervisor_state_name SupervisorState.ready = "ready"
supervisor_state_name SupervisorState.degraded = "degraded"
supervisor_state_name SupervisorState.draining = "draining"
supervisor_state_name SupervisorState.stopping = "stopping"
supervisor_state_name SupervisorState.stopped = "stopped"
supervisor_state_name SupervisorState.crashed = "crashed"
supervisor_state_name SupervisorState.restarting = "restarting"
supervisor_state_name SupervisorState.failed = "failed"

-- A process that was started: `ready`, and its `stop`, where it has one.
pub record Child (D : Type 0) : Type 0 where
  pub ready : Bool
  pub stop : Option (D → Outcome (Unit {0}) × D)

-- The constructor's arguments, and `verifyCodexAppPort`.
pub record Starters (D : Type 0) : Type 0 where
  pub start_codexapp : D → Outcome (Option (Child D)) × D
  pub start_hooksd : Child D → D → Outcome (Option (Child D)) × D
  pub verify_port : Child D → D → Outcome (Unit {0}) × D

pub record Supervisor (D : Type 0) : Type 0 where
  pub codexapp : Option (Child D)
  pub hooksd : Option (Child D)
  pub state : SupervisorState
  pub rest : D

-- `new HooksSupervisor(…)`
abbrev pub fresh : {D : Type 0} → D → Supervisor D
fresh d = record { codexapp = none; hooksd = none; state = SupervisorState.down; rest = d }

pub record SupervisorStatus : Type 0 where
  pub state : String
  pub codexapp : Bool
  pub hooksd : Bool

abbrev pub is_down : SupervisorState → Bool
is_down SupervisorState.down = true
is_down _ = false

abbrev pub is_startable : SupervisorState → Bool
is_startable SupervisorState.down = true
is_startable SupervisorState.stopped = true
is_startable SupervisorState.crashed = true
is_startable SupervisorState.restarting = true
is_startable _ = false

abbrev pub is_ended : SupervisorState → Bool
is_ended SupervisorState.down = true
is_ended SupervisorState.stopped = true
is_ended _ = false

abbrev pub may_crash : SupervisorState → Bool
may_crash SupervisorState.ready = true
may_crash SupervisorState.degraded = true
may_crash SupervisorState.stopping = true
may_crash _ = false

abbrev pub is_ready : SupervisorState → Bool
is_ready SupervisorState.ready = true
is_ready _ = false

abbrev pub is_degraded : SupervisorState → Bool
is_degraded SupervisorState.degraded = true
is_degraded _ = false

module _ {D : Type 0} where
  -- `await f()`
  unfoldable pub call : {A : Type 0} → (D → Outcome A × D) → Exec (Supervisor D) A
  call f s = let (r, d) = f s.rest in (r, record s { rest = d })

  unfoldable pub set_state : SupervisorState → Exec (Supervisor D) Unit
  set_state state s = (ok tt, record s { state = state })

  unfoldable pub set_codexapp : Option (Child D) → Exec (Supervisor D) Unit
  set_codexapp child s = (ok tt, record s { codexapp = child })

  unfoldable pub set_hooksd : Option (Child D) → Exec (Supervisor D) Unit
  set_hooksd child s = (ok tt, record s { hooksd = child })

  -- `this.status()`; its `valid_state` says that the state is one of `STATES`, as it is by its type
  unfoldable pub status : Exec (Supervisor D) SupervisorStatus
  status s = (
    ok (record {
      state = supervisor_state_name s.state;
      codexapp = is_some s.codexapp;
      hooksd = is_some s.hooksd;
    }),
    s,
  )

  -- `child?.stop`
  abbrev pub stop_of : Option (Child D) → Option (D → Outcome (Unit {0}) × D)
  stop_of none = none
  stop_of (some child) = child.stop

  -- A `try` block of `stopChildren`: the child is dropped when its stop returns, and kept when it
  -- throws.
  unfoldable pub drop_after :
      Exec (Supervisor D) Unit → Outcome (Unit {0}) → Exec (Supervisor D) (Option Fault)
  drop_after drop (ok u) = do drop; pure none
  drop_after drop (throws e) = pure (some e)

  unfoldable pub stop_child :
      Exec (Supervisor D) Unit
      → Option (D → Outcome (Unit {0}) × D)
      → Exec (Supervisor D) (Option Fault)
  stop_child drop none = do drop; pure none
  stop_child drop (some stop) = on_outcome (call stop) (drop_after drop)

  -- `if (firstError) throw firstError`
  unfoldable pub raise_first : Option Fault → Option Fault → Exec (Supervisor D) Unit
  raise_first (some e) second = raise e
  raise_first none (some e) = raise e
  raise_first none none = pure tt

  unfoldable pub stop_both : Option (Child D) → Option (Child D) → Exec (Supervisor D) Unit
  stop_both hooksd codexapp = do
    first ← stop_child (set_hooksd none) (stop_of hooksd)
    second ← stop_child (set_codexapp none) (stop_of codexapp)
    raise_first first second

  unfoldable pub stop_children : Exec (Supervisor D) Unit
  stop_children s = stop_both s.hooksd s.codexapp s

  -- `if (!child?.ready) throw …`
  unfoldable pub require_ready : Option (Child D) → String → Exec (Supervisor D) (Child D)
  require_ready none message = raise (fault message)
  require_ready (some child) message = if child.ready then pure child else raise (fault message)

  -- The error of an operation that the state does not allow.
  unfoldable pub refuse : String → SupervisorState → Exec (Supervisor D) SupervisorStatus
  refuse what state = raise (fault (concat (what ∷ supervisor_state_name state ∷ [])))

  -- How `stop` ends, by what became of the children.
  unfoldable pub end_stop : Outcome (Unit {0}) → Exec (Supervisor D) SupervisorStatus
  end_stop (ok u) = do set_state SupervisorState.stopped; status
  end_stop (throws e) = do set_state SupervisorState.failed; raise e

  unfoldable pub stop_from : SupervisorState → Exec (Supervisor D) SupervisorStatus
  stop_from state = if is_ended state then status else do
    set_state SupervisorState.draining
    set_state SupervisorState.stopping
    on_outcome stop_children end_stop

  unfoldable pub stop : Exec (Supervisor D) SupervisorStatus
  stop s = stop_from s.state s

  -- `this.state = to` where the state allows it
  unfoldable pub move_if :
      (SupervisorState → Bool)
      → String
      → SupervisorState
      → SupervisorState
      → Exec (Supervisor D) SupervisorStatus
  move_if allowed what to state =
      if allowed state then (do set_state to; status) else refuse what state

  unfoldable pub mark_degraded : Exec (Supervisor D) SupervisorStatus
  mark_degraded s =
      move_if is_ready "supervisor cannot degrade from " SupervisorState.degraded s.state s

  unfoldable pub restore : Exec (Supervisor D) SupervisorStatus
  restore s = move_if is_degraded "supervisor cannot restore from " SupervisorState.ready s.state s

  unfoldable pub mark_crashed : Exec (Supervisor D) SupervisorStatus
  mark_crashed s =
      move_if may_crash "supervisor cannot mark crashed from " SupervisorState.crashed s.state s

  -- The end of the `try` block of `start`, for what `startHooksd` returned.
  unfoldable pub take_daemon : Option (Child D) → Exec (Supervisor D) SupervisorStatus
  take_daemon daemon = do
    set_hooksd daemon
    require_ready daemon "hooksd did not become ready"
    set_state SupervisorState.ready
    status

  -- The `catch` block of `start`; the error of a failed cleanup is left out.
  unfoldable pub fail_start : Fault → Exec (Supervisor D) SupervisorStatus
  fail_start error = do
    set_state SupervisorState.failed
    attempt stop_children (λ e. pure tt)
    raise error

module _ {D : Type 0} (starters : Starters D) where
  unfoldable pub start_daemon : Child D → Exec (Supervisor D) SupervisorStatus
  start_daemon app = do
    call (starters.verify_port app)
    set_state SupervisorState.codexapp_ready
    set_state SupervisorState.starting_hooksd
    daemon ← call (starters.start_hooksd app)
    take_daemon daemon

  unfoldable pub take_codexapp : Option (Child D) → Exec (Supervisor D) SupervisorStatus
  take_codexapp found = do
    set_codexapp found
    app ← require_ready found "codexapp did not become ready"
    start_daemon app

  -- The `try` block of `start`.
  unfoldable pub bring_up : Bool → Exec (Supervisor D) SupervisorStatus
  bring_up recovering = do
    if recovering then stop_children else pure tt
    found ← call starters.start_codexapp
    take_codexapp found

  unfoldable pub start_from : SupervisorState → Exec (Supervisor D) SupervisorStatus
  start_from state =
      if is_ready state
      then status
      else if is_startable state
      then (do
        set_state (
            if is_down state then SupervisorState.starting_codexapp else SupervisorState.restarting)
        attempt (bring_up (not (is_down state))) fail_start)
      else refuse "supervisor cannot start from " state

  unfoldable pub start : Exec (Supervisor D) SupervisorStatus
  start s = start_from s.state s
