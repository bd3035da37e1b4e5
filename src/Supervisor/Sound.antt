-- ===== src/Supervisor/Sound.antt =====
-- What the supervisor's state says of its children.
use codex_hooks.Base.{String, Bool, true, ◌≡◌, Option, some, none, Bool-cases, inl, inr}
use codex_hooks.Base.Exec.{Exec, ◌>>=◌}
use codex_hooks.Supervisor.Machine.{
  status, set_state, refuse, may_crash, move_if, restore, mark_crashed, mark_degraded, is_ready,
  is_degraded, SupervisorState, Child, Supervisor,
}

-- A child that was started and is ready.
abbrev pub IsUp : {D : Type 0} → Option (Child D) → Type 0
IsUp none = ⊥
IsUp (some child) = child.ready ≡ true

-- A supervisor that serves has both children, and one that is down or stopped has none.
abbrev pub Fits : {D : Type 0} → SupervisorState → Option (Child D) → Option (Child D) → Type 0
Fits SupervisorState.ready codexapp hooksd = IsUp codexapp × IsUp hooksd
Fits SupervisorState.degraded codexapp hooksd = IsUp codexapp × IsUp hooksd
Fits SupervisorState.down codexapp hooksd = (codexapp ≡ none) × (hooksd ≡ none)
Fits SupervisorState.stopped codexapp hooksd = (codexapp ≡ none) × (hooksd ≡ none)
Fits state codexapp hooksd = Unit

pub record IsSound {D : Type 0} (s : Supervisor D) : Type 0 where
  pub fits : Fits s.state s.codexapp s.hooksd

module _ {D : Type 0} where
  -- The method leaves a sound state where it starts from one, whether it returns or throws.
  pub record KeepsSound {A : Type 0} (m : Exec (Supervisor D) A) : Type 0 where
    pub at : (s : Supervisor D) → IsSound s → IsSound (m s).1

  pub move-KeepsSound :
      (allowed : SupervisorState → Bool) (what : String) (to : SupervisorState) (s : Supervisor D)
      → (allowed s.state ≡ true → Fits to s.codexapp s.hooksd)
      → IsSound s
      → IsSound (move_if allowed what to s.state s).1
  unfolding move_if refuse set_state status ◌>>=◌
  move-KeepsSound allowed what to s fit sound = elim (Bool-cases (allowed s.state)) [
    | inl e ↦ rw e (record { fits = fit e })
    | inr e ↦ rw e sound
  ]

  pub ready-Fits :
      (state : SupervisorState) (c h : Option (Child D))
      → is_ready state ≡ true
      → Fits state c h
      → IsUp c × IsUp h
  ready-Fits SupervisorState.ready c h e fits = fits
  ready-Fits state c h e fits = cc

  pub degraded-Fits :
      (state : SupervisorState) (c h : Option (Child D))
      → is_degraded state ≡ true
      → Fits state c h
      → IsUp c × IsUp h
  degraded-Fits SupervisorState.degraded c h e fits = fits
  degraded-Fits state c h e fits = cc

  pub mark_degraded-KeepsSound : KeepsSound (mark_degraded {D = D})
  unfolding mark_degraded
  mark_degraded-KeepsSound = record {
    at = λ s sound.
        move-KeepsSound is_ready _ SupervisorState.degraded s
          (λ e. ready-Fits s.state s.codexapp s.hooksd e sound.fits) sound;
  }

  pub restore-KeepsSound : KeepsSound (restore {D = D})
  unfolding restore
  restore-KeepsSound = record {
    at = λ s sound.
        move-KeepsSound is_degraded _ SupervisorState.ready s
          (λ e. degraded-Fits s.state s.codexapp s.hooksd e sound.fits) sound;
  }

  pub mark_crashed-KeepsSound : KeepsSound (mark_crashed {D = D})
  unfolding mark_crashed
  mark_crashed-KeepsSound = record {
    at = λ s sound. move-KeepsSound may_crash _ SupervisorState.crashed s (λ e. tt) sound;
  }
