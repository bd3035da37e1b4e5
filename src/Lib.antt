-- ===== src/Lib.antt =====
-- The RouteCodex hooks daemon (package codex-hooks): hook events of a coding session come in, the
-- daemon decides whether a message may go to a session of the native app, hands it over at most
-- once, and keeps what became of it. A timer hands scheduled messages to the same daemon.
--
-- The parts, and the files that model them (paths of the repository, names of its functions):
-- * src/protocol.js, the vocabulary and the normalisers: Protocol/Value (JSON values and what the
--   normalisers do with them), Protocol/Names (the frozen lists, as data types with their
--   spellings), Protocol/Normalize (normalizeTarget, normalizeSessionObservation,
--   normalizeIntent), Protocol/Hooks (normalizeHookEvent, classifyHook, eventKey).
-- * src/decision.js, normalizePolicyDecision and projectStopDecision: Decision.
-- * src/daemon.js, HooksDaemon over its store: Daemon/Record and Daemon/World (the stored
--   records, MemoryStateStore and the port), Daemon/Receipts, Daemon/Identity and
--   Daemon/EvidenceRules (the helpers at the end of the file), Daemon/Send (send and
--   #recordDeliveryEvidence), Daemon/Dispatch (dispatch and dispatchOnce), Daemon/Hook
--   (handleHook, processHook), Daemon/Resume (flushPending, resumePendingIntent), Daemon/Recovery
--   (recoverOutbox, reconcileDeliveryEvidence, reconcileNextDelivery), Daemon/Forward (the
--   methods that pass a request on).
-- * src/timer.js, TimerOperator: Timer/Schedule and Timer/World (a schedule, the operator's state
--   and the functions it is built with), Timer/Occurrence (isDue, claimOccurrence,
--   finishOccurrence), Timer/Requests and Timer/Actions (dispatchNotify, dispatchSubagent),
--   Timer/Tick (tick), Timer/Clock (ManualClock).
-- * src/goal-review.js, reports and claims: GoalReview/Report (parseReviewerReport),
--   GoalReview/Evaluate (evaluateReviewerReport), GoalReview/Feedback (feedbackBody),
--   GoalReview/Prompt (buildReviewerPrompt), GoalReview/Desk and GoalReview/Claim (the controls,
--   onStop and claimReview of GoalReviewRunner).
-- * src/control.js, FrameworkControlPlane: Control/Store (the controls of the store and what the
--   control plane is built with), Control/Operators (query, setOperator, bindSession,
--   unbindSession, resolveSessionTarget, syncOperatorState), Control/Upsert and Control/Add
--   (upsertSchedule, addSchedule, addWait), Control/Schedules (removeSchedule, pauseSchedule,
--   resumeSchedule, stopSchedule), Control/Patch (normalizeSchedulePatch), Control/Apply and
--   Control/Update (updateSchedule), Control/Registration and Control/Subagents
--   (registerSubagent, createSubagent, stopSubagent), Control/LongHorizon (registerLongHorizon),
--   Control/Switch (setLongHorizonEnabled), Control/Liveness (reconcileLongHorizon,
--   stopLongHorizon, removeLongHorizon), Control/Mutate (mutate). A schedule is the record of
--   Timer/Schedule, so that what the control plane stores is what the timer reads.
-- * src/supervisor.js, HooksSupervisor: Supervisor/Machine.
-- * src/orchestrator.js, HooksRuntime: Runtime/Machine (start, stop, status).
-- * src/persistence.js, JsonStateStore: Persistence/Store.
-- * src/endpoint.js, addresses of this machine: Config/Endpoint (normalizeLoopbackEndpoint,
--   normalizeLoopbackHost).
-- * src/config.js, the checks of a configuration: Config/Validate (assertObject, assertKeys,
--   assertString and the checks of the runtime's and the CodexApp's part), Config/Daemon
--   (validateProcessSpec, validateSupervisorConfig, validateDaemonConfig, loadDaemonConfig).
-- The other files of these folders and of Control, Daemon, Timer, GoalReview, Decision and
-- Protocol hold proofs, and those named Tests or ClaimTests concrete runs. Base holds what all
-- share: the methods that may throw (Base/Exec), relations that they keep (Base/Exec/Moves), what
-- holds when they return (Base/Exec/Ends), and dictionaries.
--
-- How the code is read. A method is a function from a state to a result or a fault and a new
-- state; what it wrote before a throw stays written. An await of a function that is handed in
-- runs that function: calls run one after the other, so that the daemon's three maps of calls in
-- flight, which only serve calls that overlap, are left out. In the timer the functions handed in
-- may change the stored schedules, as other calls may while a tick awaits them. clone is the
-- identity, since a model has no sharing; where the timer's copy of the schedules and the stored
-- ones differ, both are in the state. Should the stored schedules vanish during a tick, the
-- source reads its own copy in their place and marks that one; the model marks the stored ones
-- only. World carries one list that the program does not keep, the messages handed over so far,
-- for statements about sends.
--
-- The control plane reads a control as a copy too, and writes the copy back: what others write
-- while it awaits the App Server in between is lost, in the model as in the code. The fields that
-- only the goal review writes to a long-horizon record stand in one value. Its errors carry a
-- code and a text; the extra fields of an error are left out.
--
-- What is a parameter: JSON.parse, the digest of a prompt, the port to the native app, the clock,
-- the intent factory, Date.parse and the text of a date, localeCompare, JSON.stringify, the file
-- system of the file store, new URL, the context of the runtime's plugins, the functions that
-- start the supervisor's processes and verifyCodexAppPort, and the stops of those processes. A
-- time is a natural number of milliseconds from 1970 on; a date outside that range does not
-- parse. Numbers of JSON values are natural or kept by their text. The one loop on fuel prints a
-- number's digits, with more fuel than digits.
--
-- What is not modelled: the run of a goal review, the servers, the command line, the native port,
-- the entry points and the installation, which are input and output around these parts or are
-- still to come; and normalizePluginEntry of src/orchestrator.js, which tests what a JavaScript
-- value can be called with. The daemon is modelled over MemoryStateStore; the file store's
-- readers and writers have the same names and the same arguments.
pub mod Base
pub mod Protocol
pub mod Decision
pub mod Daemon
pub mod Timer
pub mod Control
pub mod Supervisor
pub mod Config
pub mod Runtime
pub mod Persistence
pub mod GoalReview
