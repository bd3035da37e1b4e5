-- ===== src/Daemon/Replay.antt =====
-- A hook event that is delivered again: its recorded result is returned and nothing else happens.
use codex_hooks.Base.{
  Fault, arith, inl, false, inr, ap, Option, ◌∙◌, true, if◌then◌else◌, Outcome, Bool, String, ◌≡◌,
  refl, ok, throws, none, some, Option-cases, Outcome-cases,
}
use codex_hooks.Base.Exec.{continue, Exec, ◌>>=◌}
use codex_hooks.Daemon.World.{primitives, Port, World}
use codex_hooks.Daemon.Hook.{handle_hook, process_hook, process_intent, handle_event, conclude}
use codex_hooks.Daemon.Record.{HookResult}
use codex_hooks.Protocol.Hooks.{keyed_event, HookEvent}
use codex_hooks.Base.Dict.{lookup, lookup-put_self}
use codex_hooks.Protocol.Value.{Value}
use codex_hooks.Protocol.Names.{HookKind}

module _ {E : Type 0} (port : Port E) where
  -- Where the method returns, its result is the one stored under the key.
  record Stores (key : String) (m : Exec (World E) HookResult) : Type 0 where
    at : (w : World E) (r : HookResult) → (m w).0 ≡ ok r → lookup key (m w).1.store.events ≡ some r

  Stores-conclude : (key : String) (r : HookResult) → Stores key (conclude port key r)
  unfolding conclude primitives
  Stores-conclude key r = record {
    at = λ w r' e. lookup-put_self key r w.store.events ∙ ap some (ground arith);
  }

  Stores-bind :
      {A : Type 0} (key : String) (m : Exec (World E) A) (f : A → Exec (World E) HookResult)
      → ((a : A) → Stores key (f a))
      → Stores key (m >>= f)
  unfolding ◌>>=◌
  Stores-bind {A} key m f kf = record { at = λ w r e. go r (m w).0 (m w).1 e }
    where
      go :
          (r : HookResult) (o : Outcome A) (w : World E)
          → (continue f o w).0 ≡ ok r
          → lookup key (continue f o w).1.store.events ≡ some r
      go r (ok a) w e = (kf a).at w r e
      go r (throws fault) w e = cc

  Stores-if :
      (key : String) (b : Bool) (m n : Exec (World E) HookResult)
      → Stores key m
      → Stores key n
      → Stores key (if b then m else n)
  Stores-if key true m n km kn = km
  Stores-if key false m n km kn = kn

  ruleset stores_rules = (Stores-conclude, Stores-bind, Stores-if)

  process_intent-Stores :
      (event : HookEvent) (kind : HookKind) (key : String) (generated : Value)
      → Stores key (process_intent port event kind key generated)
  unfolding process_intent
  process_intent-Stores event kind key generated = search stores_rules depth 8

  process_hook-Stores :
      (event : HookEvent) (kind : HookKind) (key : String) (given : Value)
      → Stores key (process_hook port event kind key given)
  unfolding process_hook
  process_hook-Stores event kind key given = search (stores_rules, process_intent-Stores) depth 8

  handle_event-known :
      (event : HookEvent) (kind : HookKind) (key : String) (given : Value) (w : World E)
      {r : HookResult}
      → lookup key w.store.events ≡ some r
      → handle_event port event kind key given w ≡ (ok (record r { idempotent = true }), w)
  unfolding handle_event primitives
  handle_event-known event kind key given w found = rw found refl

  handle_event-unknown :
      (event : HookEvent) (kind : HookKind) (key : String) (given : Value) (w : World E)
      → lookup key w.store.events ≡ none
      → handle_event port event kind key given w ≡ process_hook port event kind key given w
  unfolding handle_event primitives
  handle_event-unknown event kind key given w e = rw e refl

  handle_event_twice :
      (event : HookEvent) (kind : HookKind) (key : String) (given later : Value) (w : World E)
      (r : HookResult)
      → (handle_event port event kind key given w).0 ≡ ok r
      → handle_event port event kind key later (handle_event port event kind key given w).1
        ≡ (ok (record r { idempotent = true }), (handle_event port event kind key given w).1)
  handle_event_twice event kind key given later w r done =
      elim (Option-cases (lookup key w.store.events)) [
        | inr (stored, e) ↦
            let first = handle_event-known event kind key given w e in
            let same : record stored { idempotent = true } ≡ r = ground (arith, first) in
            rw first (rw (← same) (handle_event-known event kind key later w e))
        | inl e ↦
            let first = handle_event-unknown event kind key given w e in
            rw first (
              handle_event-known event kind key later _
                ((process_hook-Stores event kind key given).at w r (rw first at done)))
      ]

  handle_hook-ok :
      (raw given : Value) (kind : Option String) (w : World E) {event : HookEvent}
      {hook_kind : HookKind} {key : String}
      → keyed_event raw kind ≡ ok (event, hook_kind, key)
      → handle_hook port raw given kind w ≡ handle_event port event hook_kind key given w
  unfolding handle_hook ◌>>=◌
  handle_hook-ok raw given kind w e = rw e refl

  handle_hook-throws :
      (raw given : Value) (kind : Option String) (w : World E) {fault : Fault}
      → keyed_event raw kind ≡ throws fault
      → handle_hook port raw given kind w ≡ (throws fault, w)
  unfolding handle_hook ◌>>=◌
  handle_hook-throws raw given kind w e = rw e refl

  -- Once an event has been handled, a second delivery of it, with whatever intent, returns the
  -- recorded result marked as idempotent, and changes nothing.
  pub handle_hook_twice :
      (raw given later : Value) (kind : Option String) (w : World E) (r : HookResult)
      → (handle_hook port raw given kind w).0 ≡ ok r
      → handle_hook port raw later kind (handle_hook port raw given kind w).1
        ≡ (ok (record r { idempotent = true }), (handle_hook port raw given kind w).1)
  handle_hook_twice raw given later kind w r done = elim (Outcome-cases (keyed_event raw kind)) [
    | inr (fault, e) ↦ let clash = rw (handle_hook-throws raw given kind w e) at done in cc
    | inl ((event, hook_kind, key), e) ↦
        let first = handle_hook-ok raw given kind w e in
        rw
          (first, handle_hook-ok raw later kind (handle_event port event hook_kind key given w).1 e)
          (handle_event_twice event hook_kind key given later w r (rw first at done))
  ]
