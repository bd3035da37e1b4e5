-- ===== src/Control/Final.antt =====
-- A long-horizon record that is stopped or removed has come to its end.
use codex_hooks.Base.{
  require, String, Bool, true, ◌≡◌, refl, some, ok, throws, ◌==◌, Bool-cases, inl, inr, [], ◌∷◌,
  Outcome, Fault, member, arith, or_else,
}
use codex_hooks.Base.Exec.{Exec, lift, ◌>>=◌}
use codex_hooks.Base.Dict.{Dict, lookup}
use codex_hooks.Protocol.Value.{Value, get}
use codex_hooks.Protocol.Normalize.{assert_non_empty}
use codex_hooks.Control.Store.{ControlState, Host, LongHorizon, horizons_of}
use codex_hooks.Control.LongHorizon.{register_long_horizon}
use codex_hooks.Control.Switch.{set_long_horizon_enabled, switch_record, assert_not_retired}

-- The method threw, and the state is what it was.
abbrev pub IsRefused : {S A : Type 0} → S → Outcome A × S → Type 0
IsRefused s r = (e : Fault) × (r ≡ (throws e, s))

-- A call that may throw changes no state.
keep-lift :
    {S A B : Type 0} (r : Outcome A) (f : A → Exec S B) (s : S)
    → ((a : A) → (f a s).1 ≡ s)
    → ((lift r >>= f) s).1 ≡ s
unfolding ◌>>=◌
keep-lift (ok a) f s kf = kf a
keep-lift (throws e) f s kf = refl

module _ {D : Type 0} (host : Host D) where
  switch_record-IsRefused :
      (id : String) (enabled : Bool) (r : LongHorizon) (records : Dict LongHorizon)
      (t : ControlState D)
      → member r.state ("stopped" ∷ "removed" ∷ []) ≡ true
      → IsRefused t (switch_record host id enabled r records t)
  unfolding switch_record assert_not_retired ◌>>=◌
  switch_record-IsRefused id enabled r records t retired =
      elim (Bool-cases (r.state == "removed")) [
        | inl removed ↦ rw removed (_, refl)
        | inr other ↦
            let stopped : (r.state == "stopped") ≡ true = ground arith in
            rw (other, stopped) (_, refl)
      ]

  register-keeps :
      (request : Value) (id : String) (r : LongHorizon) (t : ControlState D)
      → assert_non_empty (get request "id") "id" ≡ ok id
      → lookup id (or_else t.controls.longhorizon []) ≡ some r
      → (register_long_horizon host request t).1 ≡ t
  unfolding register_long_horizon horizons_of ◌>>=◌
  register-keeps request id r t named found = rw named (
      keep-lift (assert_non_empty (get request "mode") "mode") _ t (λ mode.
        keep-lift (require (member mode ("periodic" ∷ "goal" ∷ [])) _) _ t
          (λ u. rw found (keep-lift (require (r.mode == mode) _) _ t (λ v. refl)))))

  set-IsRefused :
      (request : Value) (enabled : Bool) (id : String) (r : LongHorizon) (t : ControlState D)
      → assert_non_empty (get request "id") "id" ≡ ok id
      → lookup id (or_else t.controls.longhorizon []) ≡ some r
      → member r.state ("stopped" ∷ "removed" ∷ []) ≡ true
      → IsRefused t (set_long_horizon_enabled host request enabled t)
  unfolding set_long_horizon_enabled horizons_of ◌>>=◌
  set-IsRefused request enabled id r t named found retired =
      rw (named, found) (switch_record-IsRefused id enabled r _ t retired)

  -- For a stored long-horizon record that is stopped or removed, an activation and a pause throw and
  -- change nothing, and a registration under its id changes nothing either: nothing brings it back.
  pub retired_horizon-IsFinal :
      (request : Value) (id : String) (r : LongHorizon) (t : ControlState D)
      → assert_non_empty (get request "id") "id" ≡ ok id
      → lookup id (or_else t.controls.longhorizon []) ≡ some r
      → member r.state ("stopped" ∷ "removed" ∷ []) ≡ true
      → ((enabled : Bool) → IsRefused t (set_long_horizon_enabled host request enabled t))
        × ((register_long_horizon host request t).1 ≡ t)
  retired_horizon-IsFinal request id r t named found retired = (
    λ enabled. set-IsRefused request enabled id r t named found retired,
    register-keeps request id r t named found,
  )
