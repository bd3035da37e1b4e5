-- ===== src/Daemon/Once.antt =====
-- An intent id is used once: what `dispatch` does with an id that the store already knows.
use codex_hooks.Base.{
  throws, Option-cases, ok, none, inr, inl, Outcome-cases, some, eq_refl, Outcome, Option, String,
  Bool, true, false, ◌≡◌, refl,
}
use codex_hooks.Protocol.Normalize.{normalize_session_observation, Intent}
use codex_hooks.Daemon.Record.{IntentRecord, Decision}
use codex_hooks.Daemon.World.{primitives, Port, World}
use codex_hooks.Daemon.Settled.{
  fail_intent-IsStored, has_failed, is_unknown, was_deferred, was_delivered, was_accepted, IsStored,
  IsSettled,
}
use codex_hooks.Daemon.Dispatch.{
  is_past, ask_status, is_expired, dispatch, observed, expire, dispatch_once,
}
use codex_hooks.Daemon.Gate.{refuse, hold, gate-Follows, pass, Follows, Verdict}
use codex_hooks.Daemon.Identity.{assert_same_intent, same_target, same_optional, same_intent}
use codex_hooks.Protocol.Names.{DeliveryState}
use codex_hooks.Base.Dict.{lookup-put_self, lookup}
use codex_hooks.Protocol.Value.{Value}

-- The store knows the intent, whatever has become of it.
pub record IsKnown {E : Type 0} (intent : Intent) (w : World E) : Type 0 where
  pub kept_as : IntentRecord
  pub found : lookup intent.intent_id w.store.intents ≡ some kept_as
  pub same : kept_as.intent ≡ intent

module _ {E : Type 0} (intent : Intent) (w : World E) where
  IsStored-IsKnown :
      {state : DeliveryState} {decision : Decision}
      → IsStored intent state decision w
      → IsKnown intent w
  IsStored-IsKnown s = record { kept_as = _; found = s.found; same = refl }

  IsSettled-IsKnown : IsSettled intent w → IsKnown intent w
  IsSettled-IsKnown (was_accepted s) = IsStored-IsKnown s
  IsSettled-IsKnown (was_delivered s) = IsStored-IsKnown s
  IsSettled-IsKnown (was_deferred s) = IsStored-IsKnown s
  IsSettled-IsKnown (is_unknown s) = IsStored-IsKnown s
  IsSettled-IsKnown (has_failed s) = IsStored-IsKnown s

Follows-IsKnown :
    {E : Type 0} (port : Port E) (intent : Intent) (w w' : World E) (v : Verdict)
    → Follows port intent w w' v
    → IsKnown intent w'
Follows-IsKnown port intent w w' pass f = IsSettled-IsKnown intent w' f.1
Follows-IsKnown port intent w w' hold f = IsStored-IsKnown intent w' f.1
Follows-IsKnown port intent w w' refuse f = IsStored-IsKnown intent w' f.1

same_optional_self : (o : Option String) → same_optional o o ≡ true
same_optional_self none = refl
same_optional_self (some s) = eq_refl s

same_intent_self : (intent : Intent) → same_intent intent intent ≡ true
unfolding same_intent same_target
same_intent_self intent = simp (eq_refl, same_optional_self)

module _ {E : Type 0} (port : Port E) (intent : Intent) where
  pub is_expired-ok : (w : World E) → (past : Bool) × ((is_expired port intent w).0 ≡ ok past)
  unfolding is_expired primitives
  is_expired-ok w = elim (Option-cases intent.expires_at) [
    | inl e ↦ (false, rw e refl)
    | inr (at, e) ↦ (is_past port.parse_date at (port.clock w.outside).0, rw e refl)
  ]

module _ {E : Type 0} (port : Port E) (event kind : String) (intent : Intent) where
  expire-IsKnown : (w : World E) → IsKnown intent (expire port event kind intent w).1
  unfolding expire primitives
  expire-IsKnown w = record {
    kept_as = _;
    found = lookup-put_self intent.intent_id _ w.store.intents;
    same = refl;
  }

  observed-IsKnown :
      (status : Outcome Value) (w : World E)
      → IsKnown intent (observed port event kind intent status w).1
  unfolding observed
  observed-IsKnown (ok status) w =
      Follows-IsKnown port intent w _ _
        (gate-Follows port event kind intent (normalize_session_observation status) w)
  observed-IsKnown (throws error) w =
      IsStored-IsKnown intent _ (fail_intent-IsStored port intent event kind _ _ _ w)

  dispatch_once-IsKnown : (w : World E) → IsKnown intent (dispatch_once port event kind intent w).1
  unfolding dispatch_once ask_status primitives
  dispatch_once-IsKnown w = let (past, e) = is_expired-ok port intent w in go past e
    where
      go :
          (past : Bool)
          → (is_expired port intent w).0 ≡ ok past
          → IsKnown intent (dispatch_once port event kind intent w).1
      go true e = rw (e, dispatch_once) (expire-IsKnown _)
      go false e = rw (e, dispatch_once) (observed-IsKnown _ _)

  -- A dispatch of an id that the store knows changes nothing and asks nothing.
  pub dispatch-known :
      (w : World E) {r : IntentRecord}
      → lookup intent.intent_id w.store.intents ≡ some r
      → (dispatch port event kind intent w).1 ≡ w
  unfolding dispatch primitives
  dispatch-known w {r} found = elim (Outcome-cases (assert_same_intent r.intent intent)) [
    | inl (passed, e) ↦ rw (found, e) refl
    | inr (fault, e) ↦ rw (found, e) refl
  ]

  pub dispatch-unknown :
      (w : World E)
      → lookup intent.intent_id w.store.intents ≡ none
      → dispatch port event kind intent w ≡ dispatch_once port event kind intent w
  unfolding dispatch primitives
  dispatch-unknown w e = rw e refl

  -- After a dispatch the same dispatch changes nothing any more and hands nothing over, whatever
  -- the session's state, the native answer or the failures of the first one.
  pub dispatch_twice :
      (w : World E)
      → (dispatch port event kind intent (dispatch port event kind intent w).1).1
        ≡ (dispatch port event kind intent w).1
  dispatch_twice w = elim (Option-cases (lookup intent.intent_id w.store.intents)) [
    | inr (r, e) ↦ rw (dispatch-known w e) (dispatch-known w e)
    | inl e ↦
        let known : IsKnown intent (dispatch port event kind intent w).1 =
          rw (dispatch-unknown w e) (dispatch_once-IsKnown w) in
        dispatch-known _ known.found
  ]
