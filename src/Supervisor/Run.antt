-- ===== src/Supervisor/Run.antt =====
-- Sequences of the supervisor's operations.
use codex_hooks.Base.{refl, List, [], ◌∷◌}
use codex_hooks.Base.Exec.{Exec}
use codex_hooks.Supervisor.Machine.{
  fresh, start, SupervisorStatus, stop, restore, mark_crashed, mark_degraded, Starters, Supervisor,
}
use codex_hooks.Supervisor.Sound.{
  mark_crashed-KeepsSound, restore-KeepsSound, mark_degraded-KeepsSound, IsSound, KeepsSound,
}
use codex_hooks.Supervisor.Kept.{stop-KeepsSound, start-KeepsSound}

-- The operations, by name.
pub data Operation : Type 0 where
  starts stops degrades restores crashes : Operation

module _ {D : Type 0} (starters : Starters D) where
  unfoldable pub perform : Operation → Exec (Supervisor D) SupervisorStatus
  perform Operation.starts = start starters
  perform Operation.stops = stop
  perform Operation.degrades = mark_degraded
  perform Operation.restores = restore
  perform Operation.crashes = mark_crashed

  -- The operations one after the other, whatever each answers.
  unfoldable pub perform_all : List Operation → Supervisor D → Supervisor D
  perform_all [] s = s
  perform_all (o ∷ more) s = perform_all more (perform o s).1

  perform-KeepsSound : (o : Operation) → KeepsSound (perform o)
  unfolding perform
  perform-KeepsSound Operation.starts = start-KeepsSound starters
  perform-KeepsSound Operation.stops = stop-KeepsSound
  perform-KeepsSound Operation.degrades = mark_degraded-KeepsSound
  perform-KeepsSound Operation.restores = restore-KeepsSound
  perform-KeepsSound Operation.crashes = mark_crashed-KeepsSound

  perform_all-KeepsSound :
      (os : List Operation) (s : Supervisor D) → IsSound s → IsSound (perform_all os s)
  unfolding perform_all
  perform_all-KeepsSound [] s sound = sound
  perform_all-KeepsSound (o ∷ more) s sound =
      perform_all-KeepsSound more (perform o s).1 ((perform-KeepsSound o).at s sound)

  -- Whatever operations run on a new supervisor, in whatever order, and whatever the children answer
  -- or throw: it is ready or degraded only with both children there and ready, and down or stopped
  -- only with none.
  pub perform_all-IsSound : (os : List Operation) (d : D) → IsSound (perform_all os (fresh d))
  perform_all-IsSound os d = perform_all-KeepsSound os (fresh d) (record { fits = (refl, refl) })
