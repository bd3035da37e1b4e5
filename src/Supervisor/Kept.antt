-- ===== src/Supervisor/Kept.antt =====
-- `start` and `stop` keep the supervisor's state true to its children.
use codex_hooks.Base.{
  subst, if◌then◌else◌, Outcome-cases, Bool, not, ◌≡◌, refl, sym, Option, some, none, Outcome, ok,
  throws, Bool-cases, inl, inr,
}
use codex_hooks.Base.Exec.{pure, attempt, recover, ◌>>=◌}
use codex_hooks.Base.Exec.Ends.{Ends-bind, Ends, Returned}
use codex_hooks.Supervisor.Machine.{
  is_down, is_startable, start_from, start, bring_up, take_codexapp, SupervisorStatus,
  require_ready, take_daemon, fail_start, start_daemon, call, is_ended, set_codexapp, set_hooksd,
  stop_from, stop, stop_children, end_stop, status, set_state, refuse, is_ready, SupervisorState,
  Child, Starters, Supervisor,
}
use codex_hooks.Supervisor.Children.{fail_start-state, stop_children-IsEmpty, IsEmpty}
use codex_hooks.Supervisor.Sound.{Fits, IsSound, IsUp, KeepsSound}

module _ {D : Type 0} where
  pub end_stop-IsSound :
      (r : Outcome (Unit {0}) × Supervisor D)
      → Returned (λ u. IsEmpty) r
      → IsSound (end_stop r.0 r.1).1
  unfolding end_stop set_state status ◌>>=◌
  end_stop-IsSound (ok u, t) empty = record { fits = empty }
  end_stop-IsSound (throws e, t) empty = record { fits = tt }

  -- The state in which `stop` stops the children.
  abbrev stopping : Supervisor D → Supervisor D
  stopping s = record s { state = SupervisorState.stopping }

  pub stop-KeepsSound : KeepsSound (stop {D = D})
  unfolding stop stop_from set_state status ◌>>=◌
  stop-KeepsSound = record {
    at = λ s sound. elim (Bool-cases (is_ended s.state)) [
      | inl e ↦ rw e sound
      | inr e ↦
          rw e (end_stop-IsSound (stop_children (stopping s)) (stop_children-IsEmpty (stopping s)))
    ];
  }

  -- Both children are up once the daemon is taken over.
  pub take_daemon-IsSound :
      (daemon : Option (Child D)) (t : Supervisor D)
      → IsUp t.codexapp
      → Returned (λ st. IsSound) (take_daemon daemon t)
  unfolding take_daemon require_ready set_hooksd set_state status ◌>>=◌
  take_daemon-IsSound none t up = tt
  take_daemon-IsSound (some child) t up = elim (Bool-cases child.ready) [
    | inl e ↦ rw e (record { fits = (up, refl) })
    | inr e ↦ rw e tt
  ]

  pub failed-IsSound : (s : Supervisor D) → s.state ≡ SupervisorState.failed → IsSound s
  failed-IsSound s e = record { fits = subst (λ st. Fits st s.codexapp s.hooksd) (sym e) tt }

module _ {D : Type 0} (starters : Starters D) where
  pub start_daemon-IsSound :
      (app : Child D) (t : Supervisor D)
      → IsUp t.codexapp
      → Returned (λ st. IsSound) (start_daemon starters app t)
  unfolding start_daemon call set_state ◌>>=◌
  start_daemon-IsSound app t up = elim (Outcome-cases (starters.verify_port app t.rest).0) [
    | inl (u, e) ↦
        elim (Outcome-cases (starters.start_hooksd app (starters.verify_port app t.rest).1).0) [
          | inl (daemon, f) ↦ rw (e, f) (take_daemon-IsSound daemon _ up)
          | inr (x, f) ↦ rw (e, f) tt
        ]
    | inr (x, e) ↦ rw e tt
  ]

  pub take_codexapp-IsSound :
      (found : Option (Child D)) (t : Supervisor D)
      → Returned (λ st. IsSound) (take_codexapp starters found t)
  unfolding take_codexapp require_ready set_codexapp ◌>>=◌
  take_codexapp-IsSound none t = tt
  take_codexapp-IsSound (some app) t = elim (Bool-cases app.ready) [
    | inl e ↦ simp e (start_daemon-IsSound app (record t { codexapp = some app }) e)
    | inr e ↦ simp e tt
  ]

  pub bring_up-IsSound : (recovering : Bool) → Ends (λ st. IsSound) (bring_up starters recovering)
  unfolding bring_up
  bring_up-IsSound recovering = Ends-bind (if recovering then stop_children else pure tt) _ (λ u.
      Ends-bind (call starters.start_codexapp) _
        (λ found. record { at = take_codexapp-IsSound found }))

  -- A start that is tried ends well or in the state `failed`.
  pub tried-IsSound :
      (r : Outcome SupervisorStatus × Supervisor D)
      → Returned (λ st. IsSound) r
      → IsSound (recover fail_start r.0 r.1).1
  tried-IsSound (ok st, t) sound = sound
  tried-IsSound (throws e, t) sound = failed-IsSound _ (fail_start-state e t)

  pub start-KeepsSound : KeepsSound (start starters)
  unfolding start start_from refuse set_state status attempt ◌>>=◌
  start-KeepsSound = record {
    at = λ s sound. elim (Bool-cases (is_ready s.state)) [
      | inl e ↦ rw e sound
      | inr e ↦ elim (Bool-cases (is_startable s.state)) [
        | inl f ↦ rw (e, f) (tried-IsSound _ ((bring_up-IsSound (not (is_down s.state))).at _))
        | inr f ↦ rw (e, f) sound
      ]
    ];
  }
