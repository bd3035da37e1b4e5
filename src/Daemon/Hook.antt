-- ===== src/Daemon/Hook.antt =====
-- src/daemon.js: `handleHook`, `processHook`, `recordInterrupt` and `dispatchIntent`, for calls
-- that run one after the other.
use codex_hooks.Base.{String, Bool, true, false, Option, some, [], ◌∷◌, ok, if◌then◌else◌, concat}
use codex_hooks.Base.Exec.{Exec, pure, lift, on_option, ◌>>=◌, ◌>>◌}
use codex_hooks.Base.Dict.{put}
use codex_hooks.Protocol.Value.{
  Value, null, str, obj, Fields, end, get, set_field, truthy, or_value,
}
use codex_hooks.Protocol.Names.{HookKind, HookName, kind_name, hook_name}
use codex_hooks.Protocol.Normalize.{normalize_intent}
use codex_hooks.Protocol.Hooks.{keyed_event, HookEvent, interrupt_suppression_key}
use codex_hooks.Daemon.Record.{Decision, HookResult, Suppression, result}
use codex_hooks.Daemon.World.{Port, World, ask, get_event, put_event, now}
use codex_hooks.Daemon.Dispatch.{dispatch}

-- `hookKind === "stop" && event.stop_hook_active`
unfoldable pub is_guarded : HookKind → HookEvent → Bool
is_guarded HookKind.stop event = event.stop_hook_active
is_guarded _ event = false

-- `hookKind === "lifecycle" && event.hook_event_name === "Interrupt"`
unfoldable pub is_interrupt_event : HookKind → HookName → Bool
is_interrupt_event HookKind.lifecycle HookName.interrupt = true
is_interrupt_event _ _ = false

-- The fields that the spread of a generated intent takes over; that of anything but an object has
-- none that `normalizeIntent` reads.
abbrev pub spread : Value → Fields
spread (obj fs) = fs
spread _ = end

-- `{ ...generated, event_key: generated.event_key || key }`
unfoldable pub with_event_key : Value → String → Value
with_event_key generated key =
    obj (set_field "event_key" (or_value (get generated "event_key") (str key)) (spread generated))

module _ {E : Type 0} (port : Port E) where
  abbrev pub put_suppression : String → Suppression → Exec (World E) (Unit {0})
  put_suppression key s w = (
    ok tt,
    record w { store = record w.store { stop_suppression = put key s w.store.stop_suppression } },
  )

  -- `this.recordInterrupt(event)`
  unfoldable pub record_interrupt : HookEvent → Exec (World E) (Unit {0})
  record_interrupt event = do
    at ← now port
    put_suppression (interrupt_suppression_key event.session_id event.turn_id) (record {
      session_id = event.session_id;
      turn_id = event.turn_id;
      hook_event_name = hook_name event.hook_event_name;
      reason = event.reason;
      source = event.source;
      observed_at = at;
    })

  -- `rawIntent || (this.intentFactory ? await this.intentFactory(event, hookKind) : null)`
  unfoldable pub generate_intent : HookEvent → HookKind → Value → Exec (World E) Value
  generate_intent event kind given =
      if truthy given
      then pure given
      else on_option port.intent_factory (pure null) (λ factory. ask (factory event kind))

  -- The end of `processHook`: the result is stored under the event's key.
  unfoldable pub conclude : String → HookResult → Exec (World E) HookResult
  conclude key r = do put_event key r; pure r

  unfoldable pub process_intent : HookEvent → HookKind → String → Value → Exec (World E) HookResult
  process_intent event kind key generated =
      let name = hook_name event.hook_event_name in
      if truthy generated
      then (do
        intent ← lift (normalize_intent port.parse_date (with_event_key generated key))
        r ← dispatch port name (kind_name kind) intent
        conclude key r)
      else conclude key (result name (kind_name kind) Decision.observed)

  -- `this.processHook(event, hookKind, key, rawIntent)`
  unfoldable pub process_hook : HookEvent → HookKind → String → Value → Exec (World E) HookResult
  process_hook event kind key given =
      if is_guarded kind event
      then conclude key
          (record (result (hook_name event.hook_event_name) (kind_name kind) Decision.guarded) {
            guard = some "stop_hook_active";
          })
      else do
        (if is_interrupt_event kind event.hook_event_name then record_interrupt event else pure tt)
        generated ← generate_intent event kind given
        process_intent event kind key generated

  unfoldable pub handle_event : HookEvent → HookKind → String → Value → Exec (World E) HookResult
  handle_event event kind key given = do
    previous ← get_event key
    on_option previous (process_hook event kind key given)
        (λ r. pure (record r { idempotent = true }))

  -- `this.handleHook(rawEvent, { intent, kind })`
  unfoldable pub handle_hook : Value → Value → Option String → Exec (World E) HookResult
  handle_hook raw given kind = do
    (event, hook_kind, key) ← lift (keyed_event raw kind)
    handle_event event hook_kind key given

  -- `this.dispatchIntent(rawIntent, { kind })`
  unfoldable pub dispatch_intent : Value → String → Exec (World E) HookResult
  dispatch_intent raw kind = do
    intent ← lift (normalize_intent port.parse_date raw)
    dispatch port (concat ("daemon:" ∷ kind ∷ [])) kind intent
