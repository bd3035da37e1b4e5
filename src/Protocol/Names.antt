-- ===== src/Protocol/Names.antt =====
-- The closed vocabularies of src/protocol.js: a data type for each frozen list, the string of each
-- member, and the test `LIST.includes(text)`, which yields the member.
use codex_hooks.Base.{String, Option, none, some, List, [], ◌∷◌, ◌==◌, if◌then◌else◌}

-- The member of the list that is spelled `text`.
unfoldable pub find_named {ℓ} : {A : Type ℓ} → (A → String) → List A → String → Option A
find_named name [] text = none
find_named name (a ∷ more) text = if name a == text then some a else find_named name more text

-- HOOK_EVENTS
pub data HookName : Type 0 where
  session_start subagent_start user_prompt_submit pre_tool_use permission_request post_tool_use
        pre_compact post_compact subagent_stop stop interrupt session_end :
      HookName

unfoldable pub hook_name : HookName → String
hook_name HookName.session_start = "SessionStart"
hook_name HookName.subagent_start = "SubagentStart"
hook_name HookName.user_prompt_submit = "UserPromptSubmit"
hook_name HookName.pre_tool_use = "PreToolUse"
hook_name HookName.permission_request = "PermissionRequest"
hook_name HookName.post_tool_use = "PostToolUse"
hook_name HookName.pre_compact = "PreCompact"
hook_name HookName.post_compact = "PostCompact"
hook_name HookName.subagent_stop = "SubagentStop"
hook_name HookName.stop = "Stop"
hook_name HookName.interrupt = "Interrupt"
hook_name HookName.session_end = "SessionEnd"

abbrev pub hook_names : List HookName
hook_names =
    HookName.session_start ∷ HookName.subagent_start ∷ HookName.user_prompt_submit
    ∷ HookName.pre_tool_use ∷ HookName.permission_request ∷ HookName.post_tool_use
    ∷ HookName.pre_compact ∷ HookName.post_compact ∷ HookName.subagent_stop ∷ HookName.stop
    ∷ HookName.interrupt ∷ HookName.session_end ∷ []

-- HOOK_KINDS
pub data HookKind : Type 0 where
  input tool_call update_goal stop lifecycle : HookKind

unfoldable pub kind_name : HookKind → String
kind_name HookKind.input = "input"
kind_name HookKind.tool_call = "tool-call"
kind_name HookKind.update_goal = "update-goal"
kind_name HookKind.stop = "stop"
kind_name HookKind.lifecycle = "lifecycle"

abbrev pub hook_kinds : List HookKind
hook_kinds =
    HookKind.input ∷ HookKind.tool_call ∷ HookKind.update_goal ∷ HookKind.stop ∷ HookKind.lifecycle
    ∷ []

-- SESSION_STATES
pub data SessionState : Type 0 where
  idle working interrupted waiting_for_input stopping stopped starting disconnected failed unknown :
      SessionState

unfoldable pub session_state_name : SessionState → String
session_state_name SessionState.idle = "idle"
session_state_name SessionState.working = "working"
session_state_name SessionState.interrupted = "interrupted"
session_state_name SessionState.waiting_for_input = "waiting_for_input"
session_state_name SessionState.stopping = "stopping"
session_state_name SessionState.stopped = "stopped"
session_state_name SessionState.starting = "starting"
session_state_name SessionState.disconnected = "disconnected"
session_state_name SessionState.failed = "failed"
session_state_name SessionState.unknown = "unknown"

abbrev pub session_states : List SessionState
session_states =
    SessionState.idle ∷ SessionState.working ∷ SessionState.interrupted
    ∷ SessionState.waiting_for_input ∷ SessionState.stopping ∷ SessionState.stopped
    ∷ SessionState.starting ∷ SessionState.disconnected ∷ SessionState.failed ∷ SessionState.unknown
    ∷ []

-- SEND_MODES
pub data SendMode : Type 0 where
  idle_only working_allowed : SendMode

unfoldable pub send_mode_name : SendMode → String
send_mode_name SendMode.idle_only = "idle_only"
send_mode_name SendMode.working_allowed = "working_allowed"

abbrev pub send_modes : List SendMode
send_modes = SendMode.idle_only ∷ SendMode.working_allowed ∷ []

-- BUSY_POLICIES
pub data BusyPolicy : Type 0 where
  defer skip : BusyPolicy

unfoldable pub busy_policy_name : BusyPolicy → String
busy_policy_name BusyPolicy.defer = "defer"
busy_policy_name BusyPolicy.skip = "skip"

abbrev pub busy_policies : List BusyPolicy
busy_policies = BusyPolicy.defer ∷ BusyPolicy.skip ∷ []

-- SEND_OPERATIONS
pub data SendOperation : Type 0 where
  queue steer interrupt : SendOperation

unfoldable pub operation_name : SendOperation → String
operation_name SendOperation.queue = "queue"
operation_name SendOperation.steer = "steer"
operation_name SendOperation.interrupt = "interrupt"

abbrev pub send_operations : List SendOperation
send_operations = SendOperation.queue ∷ SendOperation.steer ∷ SendOperation.interrupt ∷ []

-- MESSAGE_SOURCES
pub data MessageSource : Type 0 where
  stopless update_goal timer longhorizon operator : MessageSource

unfoldable pub source_name : MessageSource → String
source_name MessageSource.stopless = "stopless"
source_name MessageSource.update_goal = "update-goal"
source_name MessageSource.timer = "timer"
source_name MessageSource.longhorizon = "longhorizon"
source_name MessageSource.operator = "operator"

abbrev pub message_sources : List MessageSource
message_sources =
    MessageSource.stopless ∷ MessageSource.update_goal ∷ MessageSource.timer
    ∷ MessageSource.longhorizon ∷ MessageSource.operator ∷ []

-- DELIVERY_STATES
pub data DeliveryState : Type 0 where
  created suppressed queued deferred emitted sending accepted sent delivered executed replied read
        consumed acknowledged failed unknown_delivery retryable deduplicated expired cancelled :
      DeliveryState

unfoldable pub delivery_state_name : DeliveryState → String
delivery_state_name DeliveryState.created = "created"
delivery_state_name DeliveryState.suppressed = "suppressed"
delivery_state_name DeliveryState.queued = "queued"
delivery_state_name DeliveryState.deferred = "deferred"
delivery_state_name DeliveryState.emitted = "emitted"
delivery_state_name DeliveryState.sending = "sending"
delivery_state_name DeliveryState.accepted = "accepted"
delivery_state_name DeliveryState.sent = "sent"
delivery_state_name DeliveryState.delivered = "delivered"
delivery_state_name DeliveryState.executed = "executed"
delivery_state_name DeliveryState.replied = "replied"
delivery_state_name DeliveryState.read = "read"
delivery_state_name DeliveryState.consumed = "consumed"
delivery_state_name DeliveryState.acknowledged = "acknowledged"
delivery_state_name DeliveryState.failed = "failed"
delivery_state_name DeliveryState.unknown_delivery = "unknown_delivery"
delivery_state_name DeliveryState.retryable = "retryable"
delivery_state_name DeliveryState.deduplicated = "deduplicated"
delivery_state_name DeliveryState.expired = "expired"
delivery_state_name DeliveryState.cancelled = "cancelled"

abbrev pub delivery_states : List DeliveryState
delivery_states =
    DeliveryState.created ∷ DeliveryState.suppressed ∷ DeliveryState.queued ∷ DeliveryState.deferred
    ∷ DeliveryState.emitted ∷ DeliveryState.sending ∷ DeliveryState.accepted ∷ DeliveryState.sent
    ∷ DeliveryState.delivered ∷ DeliveryState.executed ∷ DeliveryState.replied ∷ DeliveryState.read
    ∷ DeliveryState.consumed ∷ DeliveryState.acknowledged ∷ DeliveryState.failed
    ∷ DeliveryState.unknown_delivery ∷ DeliveryState.retryable ∷ DeliveryState.deduplicated
    ∷ DeliveryState.expired ∷ DeliveryState.cancelled ∷ []

-- SCHEDULE_ACTIONS
pub data ScheduleAction : Type 0 where
  notify subagent wait : ScheduleAction

unfoldable pub action_name : ScheduleAction → String
action_name ScheduleAction.notify = "notify"
action_name ScheduleAction.subagent = "subagent"
action_name ScheduleAction.wait = "wait"

abbrev pub schedule_actions : List ScheduleAction
schedule_actions = ScheduleAction.notify ∷ ScheduleAction.subagent ∷ ScheduleAction.wait ∷ []

-- SCHEDULE_MODES
pub data ScheduleMode : Type 0 where
  once interval : ScheduleMode

unfoldable pub schedule_mode_name : ScheduleMode → String
schedule_mode_name ScheduleMode.once = "once"
schedule_mode_name ScheduleMode.interval = "interval"

abbrev pub schedule_modes : List ScheduleMode
schedule_modes = ScheduleMode.once ∷ ScheduleMode.interval ∷ []
