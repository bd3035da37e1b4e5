-- ===== src/Daemon/Forward.antt =====
-- src/daemon.js: the methods that pass a request on to the port, if it has the capability.
use codex_hooks.Base.{Option, Outcome, Fault, coded}
use codex_hooks.Base.Exec.{Exec, raise, on_option}
use codex_hooks.Protocol.Value.{Value}
use codex_hooks.Protocol.Normalize.{Target}
use codex_hooks.Daemon.World.{Port, World, EvidenceRequest, ask}

-- The methods of the port that work on subagents; each may be missing.
pub record Subagents (E : Type 0) : Type 0 where
  pub create_subagent : Option (Value → E → Outcome Value × E)
  pub interrupt_turn : Option (Value → E → Outcome Value × E)
  pub read_subagent_result : Option (Value → E → Outcome Value × E)

module _ {E : Type 0} where
  -- The request goes to the capability, or the error names what is missing.
  abbrev pub forward :
      {R : Type 0} → Option (R → E → Outcome Value × E) → Fault → R → Exec (World E) Value
  forward capability missing request = on_option capability (raise missing) (λ f. ask (f request))

  -- `this.createSubagent(request)`
  unfoldable pub create_subagent : Subagents E → Value → Exec (World E) Value
  create_subagent app =
      forward app.create_subagent
        (coded "subagent_capability_missing" "codexapp does not provide subagent creation")

  -- `this.interruptSubagent(request)`
  unfoldable pub interrupt_subagent : Subagents E → Value → Exec (World E) Value
  interrupt_subagent app =
      forward app.interrupt_turn (
        coded "subagent_interrupt_capability_missing" "codexapp does not provide turn interruption")

  -- `this.readSubagentResult(request)`
  unfoldable pub read_subagent_result : Subagents E → Value → Exec (World E) Value
  read_subagent_result app = forward app.read_subagent_result (
      coded "read_subagent_result_capability_missing"
        "codexapp does not provide subagent result reads")

  -- `this.deliveryEvidence(request)`
  unfoldable pub delivery_evidence : Port E → EvidenceRequest → Exec (World E) Value
  delivery_evidence port =
      forward port.delivery_evidence
        (coded "delivery_evidence_unavailable" "codexapp does not provide delivery evidence")

  -- `this.sessionStatus(target)`
  unfoldable pub session_status : Port E → Target → Exec (World E) Value
  session_status port target = ask (port.session_status target)
