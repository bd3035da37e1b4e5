-- ===== src/Daemon/Reachable.antt =====
-- Sequences of the daemon's operations, and what holds in every world that they reach.
use codex_hooks.Base.{String, Option}
use codex_hooks.Protocol.Value.{Value}
use codex_hooks.Protocol.Normalize.{Target}
use codex_hooks.Daemon.World.{World, Port}
use codex_hooks.Daemon.Hook.{handle_hook, dispatch_intent}
use codex_hooks.Daemon.Resume.{flush_pending}
use codex_hooks.Daemon.Recovery.{recover_outbox, reconcile_delivery_evidence}

module _ {E : Type 0} (port : Port E) where
  -- One operation of the daemon, called from outside.
  pub data Step : World E → World E → Type 0 where
    hook :
        (raw given : Value) (kind : Option String) (w : World E)
        → Step w (handle_hook port raw given kind w).1
    dispatching :
        (raw : Value) (kind : String) (w : World E) → Step w (dispatch_intent port raw kind w).1
    flushing : (target : Target) (w : World E) → Step w (flush_pending port target w).1
    recovering : (w : World E) → Step w (recover_outbox port w).1
    reconciling :
        (intent_id : String) (w : World E) → Step w (reconcile_delivery_evidence port intent_id w).1

  -- The worlds that some sequence of operations leads to.
  pub data Reaches (start : World E) : World E → Type 0 where
    here : Reaches start start
    next : {w w' : World E} → Reaches start w → Step w w' → Reaches start w'
