-- ===== src/Daemon/Cleared.antt =====
-- When `dispatch` hands a message over at all.
use codex_hooks.Base.{
  ap, ◌∙◌, inl, inr, Option-cases, Outcome, ◌⊎◌, String, Bool, true, false, ◌≡◌, refl, ◌++◌, ok,
  throws, none,
}
use codex_hooks.Base.Exec.{◌>>=◌}
use codex_hooks.Daemon.Dispatch.{is_expired, ask_status, observed, dispatch, dispatch_once}
use codex_hooks.Protocol.Normalize.{normalize_session_observation, Intent}
use codex_hooks.Daemon.World.{Port, World}
use codex_hooks.Daemon.Gate.{gate-Follows, verdict, Follows, Verdict, pass, hold, refuse}
use codex_hooks.Base.Dict.{lookup}
use codex_hooks.Protocol.Value.{Value}
use codex_hooks.Daemon.Silent.{Silent-IsFrame, Silent, handed_over}
use codex_hooks.Daemon.Once.{is_expired-ok, dispatch-unknown, dispatch-known}
use codex_hooks.Daemon.Frame.{expire-Moves, is_expired-Moves, fail_intent-Moves}

-- Why a dispatch that led from `w` to `w'` handed its message over: the id was new, the session
-- answered, the answer passed the table, and the message went out once.
pub record IsCleared {E : Type 0} (port : Port E) (intent : Intent) (w w' : World E) : Type 0 where
  pub fresh_id : lookup intent.intent_id w.store.intents ≡ none
  pub asked : E
  pub status : Value
  pub answered : (port.session_status intent.target asked).0 ≡ ok status
  pub passed : verdict intent (normalize_session_observation status) ≡ pass
  pub handed : w'.calls ≡ w.calls ++ handed_over port intent intent.intent_id

module _ {E : Type 0} (port : Port E) (event kind : String) (intent : Intent) where
  Follows-split :
      (v : Verdict) (w w' : World E)
      → Follows port intent w w' v
      → (w'.calls ≡ w.calls)
        ⊎ ((v ≡ pass) × (w'.calls ≡ w.calls ++ handed_over port intent intent.intent_id))
  Follows-split pass w w' f = inr (refl, f.0)
  Follows-split hold w w' f = inl f.0
  Follows-split refuse w w' f = inl f.0

  -- What the answer `status` of the session leads to; `w` is the world that asked.
  observed-calls :
      (status : Outcome Value) (w : World E)
      → ((observed port event kind intent status w).1.calls ≡ w.calls)
        ⊎ ((v : Value) × (status ≡ ok v)
            × (verdict intent (normalize_session_observation v) ≡ pass)
            × ((observed port event kind intent status w).1.calls
                ≡ w.calls ++ handed_over port intent intent.intent_id))
  unfolding observed
  observed-calls (ok v) w =
      elim (Follows-split _ w _
        (gate-Follows port event kind intent (normalize_session_observation v) w)) [
          | inl e ↦ inl e
          | inr (passed, e) ↦ inr (v, refl, passed, e)
        ]
  observed-calls (throws error) w =
      inl
        ((fail_intent-Moves port intent Silent (Silent-IsFrame port intent) event kind _ _ _).at
          w).same

  dispatch_once-calls :
      (w : World E)
      → lookup intent.intent_id w.store.intents ≡ none
      → ((dispatch_once port event kind intent w).1.calls ≡ w.calls)
        ⊎ IsCleared port intent w (dispatch_once port event kind intent w).1
  unfolding dispatch_once ask_status ◌>>=◌
  dispatch_once-calls w unknown = let (past, e) = is_expired-ok port intent w in go past e
    where
      asking : World E
      asking = (is_expired port intent w).1

      same : asking.calls ≡ w.calls
      same = ((is_expired-Moves port intent Silent (Silent-IsFrame port intent)).at w).same

      go :
          (past : Bool)
          → (is_expired port intent w).0 ≡ ok past
          → ((dispatch_once port event kind intent w).1.calls ≡ w.calls)
            ⊎ IsCleared port intent w (dispatch_once port event kind intent w).1
      go true e = inl (
          rw (e, dispatch_once)
            (((expire-Moves port intent Silent (Silent-IsFrame port intent) event kind).at
                asking).same
              ∙ same))
      go false e =
          rw (e, dispatch_once)
            (elim (observed-calls (port.session_status intent.target asking.outside).0
              (record asking { outside = (port.session_status intent.target asking.outside).1 })) [
                | inl silent ↦ inl (silent ∙ same)
                | inr (v, answered, passed, handed) ↦ inr (record {
                  fresh_id = unknown;
                  asked = asking.outside;
                  status = v;
                  answered = answered;
                  passed = passed;
                  handed = handed ∙ ap (λ cs. cs ++ handed_over port intent intent.intent_id) same;
                })
              ])

  -- A dispatch hands its message over at most once, and then only for an id that the store did not
  -- know, when the session's answer passes the documented table.
  pub dispatch-IsCleared :
      (w : World E)
      → ((dispatch port event kind intent w).1.calls ≡ w.calls)
        ⊎ IsCleared port intent w (dispatch port event kind intent w).1
  dispatch-IsCleared w = elim (Option-cases (lookup intent.intent_id w.store.intents)) [
    | inr (r, e) ↦ inl (rw (dispatch-known port event kind intent w e) refl)
    | inl e ↦ rw (dispatch-unknown port event kind intent w e) (dispatch_once-calls w e)
  ]
