-- ===== src/Supervisor/Tests.antt =====
-- The supervisor on children that start at once and stop without an error.
use codex_hooks.Base.{true, some, [], ◌∷◌, ok}
use codex_hooks.Supervisor.Machine.{fresh, Child, Starters}
use codex_hooks.Supervisor.Sound.{
  IsSound, IsSound, IsSound, IsSound, IsSound, IsSound, IsSound, IsSound, IsSound, IsSound, IsSound,
}
use codex_hooks.Supervisor.Run.{perform_all-IsSound, Operation, perform_all}

abbrev child : Child Unit
child = record { ready = true; stop = some (λ d. (ok tt, d)) }

abbrev starters : Starters Unit
starters = record {
  start_codexapp = λ d. (ok (some child), d);
  start_hooksd = λ app d. (ok (some child), d);
  verify_port = λ app d. (ok tt, d);
}

perform_all-IsSound_example :
    IsSound (
      perform_all starters
        (Operation.starts ∷ Operation.degrades ∷ Operation.stops ∷ [])
        (fresh tt))
perform_all-IsSound_example =
    perform_all-IsSound starters (Operation.starts ∷ Operation.degrades ∷ Operation.stops ∷ []) tt
