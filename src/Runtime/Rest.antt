-- ===== src/Runtime/Rest.antt =====
-- Between its operations the runtime is down or ready.
use codex_hooks.Base.{
  ◌∙◌, Bool, true, false, ◌≡◌, refl, sym, List, [], ◌∷◌, Outcome, ok, throws, Fault,
}
use codex_hooks.Base.Exec.{continue, Exec, attempt, recover, ◌>>=◌}
use codex_hooks.Runtime.Machine.{
  RuntimeState, Context, Runtime, RuntimeStatus, await, set_runtime, runtime_status, drain, stop_in,
  stop_runtime, load_all, load_plugins, give_up, start_down, start_in, start_runtime,
}
use codex_hooks.Base.Exec.Moves.{Moves-bind, Moves-pure, Moves, IsPreorder}

-- A call that always returns.
abbrev pub Returns : {D : Type 0} → (D → Outcome (Unit {0}) × D) → Type 0
Returns {D = D} f = (d : D) → (f d).0 ≡ ok tt

-- Down or ready.
abbrev pub IsAtRest : RuntimeState → Type 0
IsAtRest RuntimeState.down = Unit
IsAtRest RuntimeState.ready = Unit
IsAtRest state = ⊥

module _ {P D : Type 0} (context : Context P D) where
  -- A start (true) or a stop (false), and several of them.
  unfoldable pub turn : Bool → Exec (Runtime P D) RuntimeStatus
  turn true = start_runtime context
  turn false = stop_runtime context

  unfoldable pub turns : List Bool → Runtime P D → Runtime P D
  turns [] r = r
  turns (b ∷ more) r = turns more (turn b r).1

module _ {P D : Type 0} (context : Context P D) (disposes : Returns context.dispose) where
  drain-down : (r : Runtime P D) → (drain context r).1.state ≡ RuntimeState.down
  unfolding drain await set_runtime runtime_status ◌>>=◌
  drain-down r = rw (disposes r.rest) refl

  abbrev SameState : Runtime P D → Runtime P D → Type 0
  SameState r t = r.state ≡ t.state

  state-IsPreorder : IsPreorder SameState
  state-IsPreorder = record { reflexive = λ s. refl; transitive = λ s t u p q. p ∙ q }

  await-SameState : (f : D → Outcome (Unit {0}) × D) → Moves SameState (await context f)
  unfolding await
  await-SameState f = record { at = λ r. refl }

  load_all-SameState : (plugins : List P) → Moves SameState (load_all context plugins)
  unfolding load_all
  load_all-SameState [] = Moves-pure state-IsPreorder tt
  load_all-SameState (plugin ∷ more) =
      Moves-bind state-IsPreorder (await context (context.load plugin)) _
        (await-SameState (context.load plugin)) (λ u. load_all-SameState more)

  give_up-down :
      (e : Fault) (t : Runtime P D)
      → t.state ≡ RuntimeState.starting
      → (give_up context e t).1.state ≡ RuntimeState.down
  unfolding give_up stop_runtime stop_in drain await set_runtime runtime_status ◌>>=◌
  give_up-down e t starting = rw (starting, disposes t.rest) refl

  -- Loading ends ready, or throws in the state that it started from.
  tried-IsAtRest :
      (o : Outcome Unit × Runtime P D)
      → o.1.state ≡ RuntimeState.starting
      → IsAtRest
          (recover
            (give_up context)
            (continue
              (λ u. set_runtime context RuntimeState.ready >>= λ v. runtime_status context)
              o.0
              o.1).0
            (continue
              (λ u. set_runtime context RuntimeState.ready >>= λ v. runtime_status context)
              o.0
              o.1).1).1.state
  unfolding set_runtime runtime_status ◌>>=◌
  tried-IsAtRest (ok u, t) starting = tt
  tried-IsAtRest (throws e, t) starting = rw (give_up-down e t starting) tt

  start_down-IsAtRest :
      (plugins : List P) (r : Runtime P D) → IsAtRest (start_down context plugins r).1.state
  unfolding start_down load_plugins set_runtime attempt ◌>>=◌
  start_down-IsAtRest plugins r =
      tried-IsAtRest (load_all context plugins (record r { state = RuntimeState.starting }))
        (sym ((load_all-SameState plugins).at (record r { state = RuntimeState.starting })))

  start_in-IsAtRest :
      (state : RuntimeState) (r : Runtime P D)
      → r.state ≡ state
      → IsAtRest state
      → IsAtRest (start_in context state r.plugins r).1.state
  unfolding start_in runtime_status
  start_in-IsAtRest RuntimeState.ready r e rest = rw e tt
  start_in-IsAtRest RuntimeState.down r e rest = start_down-IsAtRest r.plugins r
  start_in-IsAtRest RuntimeState.starting r e rest = elim rest [ ]
  start_in-IsAtRest RuntimeState.draining r e rest = elim rest [ ]

  stop_in-IsAtRest :
      (state : RuntimeState) (r : Runtime P D)
      → r.state ≡ state
      → IsAtRest state
      → IsAtRest (stop_in context state r).1.state
  unfolding stop_in runtime_status
  stop_in-IsAtRest RuntimeState.down r e rest = rw e tt
  stop_in-IsAtRest RuntimeState.ready r e rest = rw (drain-down r) tt
  stop_in-IsAtRest RuntimeState.starting r e rest = elim rest [ ]
  stop_in-IsAtRest RuntimeState.draining r e rest = elim rest [ ]

  turn-IsAtRest :
      (b : Bool) (r : Runtime P D) → IsAtRest r.state → IsAtRest (turn context b r).1.state
  unfolding turn start_runtime stop_runtime
  turn-IsAtRest true r rest = start_in-IsAtRest r.state r refl rest
  turn-IsAtRest false r rest = stop_in-IsAtRest r.state r refl rest

  -- Where the disposal of the context returns, whatever the plugins do when they are loaded, a runtime
  -- that is down or ready is so after any starts and stops: none leaves it starting or draining.
  pub turns-IsAtRest :
      (bs : List Bool) (r : Runtime P D) → IsAtRest r.state → IsAtRest (turns context bs r).state
  unfolding turns
  turns-IsAtRest [] r rest = rest
  turns-IsAtRest (b ∷ more) r rest =
      turns-IsAtRest more (turn context b r).1 (turn-IsAtRest b r rest)
