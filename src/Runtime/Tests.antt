-- ===== src/Runtime/Tests.antt =====
-- The runtime with one plugin that fails to load.
use codex_hooks.Base.{ℕ, true, false, refl, [], ◌∷◌, ok, throws, fault}
use codex_hooks.Runtime.Machine.{Context, Runtime, RuntimeState}
use codex_hooks.Runtime.Rest.{turns-IsAtRest, turns, IsAtRest}

abbrev context : Context ℕ Unit
context = record {
  load = λ n d. (throws (fault "no such plugin"), d);
  dispose = λ d. (ok tt, d);
  size = λ d. 0;
}

abbrev runtime : Runtime ℕ Unit
runtime = record { plugins = 1 ∷ []; state = RuntimeState.down; rest = tt }

turns-IsAtRest_example : IsAtRest (turns context (true ∷ false ∷ true ∷ []) runtime).state
turns-IsAtRest_example = turns-IsAtRest context (λ d. refl) (true ∷ false ∷ true ∷ []) runtime tt
