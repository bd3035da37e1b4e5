-- ===== src/Control/Bindings.antt =====
-- What a binding of a session is read back as.
use codex_hooks.Base.{[], or_else, String, ◌≡◌, refl, ok, ◌==◌, if◌then◌else◌, Bool-cases, inl, inr}
use codex_hooks.Base.Exec.{◌>>=◌}
use codex_hooks.Base.Exec.Ends.{Returned, Returned-lift, Returned-subst}
use codex_hooks.Base.Dict.{lookup-put}
use codex_hooks.Protocol.Value.{Value, get, is_true}
use codex_hooks.Protocol.Normalize.{Target, assert_non_empty, normalize_target}
use codex_hooks.Control.Store.{read_clock, put_bindings, bindings_of, ControlState, Host, Binding}
use codex_hooks.Control.Operators.{require_free, bind_to, bind_session, bound_target}

-- What an alias stands for after a binding: the new target for its own alias, and what it stood for
-- before for every other.
pub record Resolves {D : Type 0} (t : ControlState D) (b : Binding) (t' : ControlState D)
    : Type 0 where
  pub at :
      (alias : String)
      → (bound_target alias t').0
        ≡ (if b.alias == alias then ok b.target else (bound_target alias t).0)

module _ {D : Type 0} (host : Host D) where
  bind_to-Resolves :
      (name : String) (target : Target) (t : ControlState D)
      → Returned (Resolves t) (bind_to host name target (or_else t.controls.session_bindings []) t)
  unfolding bind_to bindings_of put_bindings read_clock bound_target ◌>>=◌
  bind_to-Resolves name target t = record {
    at = λ alias. elim (Bool-cases (name == alias)) [
      | inl e ↦ simp (lookup-put, e) refl
      | inr e ↦ simp (lookup-put, e) refl
    ];
  }

  bind_session-Resolves :
      (request : Value) (t : ControlState D) → Returned (Resolves t) (bind_session host request t)
  unfolding bind_session bindings_of ◌>>=◌
  bind_session-Resolves request t =
      Returned-lift (Resolves t) (assert_non_empty (get request "alias") "alias") _ t (λ name a.
        Returned-lift (Resolves t) (normalize_target (get request "target")) _ t (λ target b.
          Returned-lift (Resolves t)
            (require_free name target (is_true (get request "replace"))
              (or_else t.controls.session_bindings []))
            _ t (λ u free. bind_to-Resolves name target t)))

  -- A binding that `session.bind` stores is what its alias stands for from then on, and every other
  -- alias stands for what it stood for before.
  pub bind_session-resolve :
      (request : Value) (t : ControlState D) (b : Binding) (t' : ControlState D)
      → bind_session host request t ≡ (ok b, t')
      → Resolves t b t'
  bind_session-resolve request t b t' returned =
      Returned-subst (Resolves t) _ b t' (bind_session-Resolves request t) returned
