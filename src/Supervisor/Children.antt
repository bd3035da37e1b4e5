-- ===== src/Supervisor/Children.antt =====
-- The stop of the supervisor's children: what it leaves of them and of the state.
use codex_hooks.Base.{
  Outcome-cases, ◌≡◌, refl, sym, ◌∙◌, Option, some, none, Outcome, ok, throws, Fault, inl, inr,
}
use codex_hooks.Base.Exec.{Exec, pure, raise, attempt, ◌>>=◌}
use codex_hooks.Base.Exec.Ends.{Returned, Returned-bind}
use codex_hooks.Supervisor.Machine.{
  SupervisorStatus, fail_start, stop_of, call, set_codexapp, set_hooksd, drop_after, stop_both,
  raise_first, stop, stop_children, stop_child, set_state, SupervisorState, Child, Supervisor,
}
use codex_hooks.Base.Exec.Moves.{
  Moves-raise, Moves-bind, Moves-pure, Moves-attempt, Moves-outcome, Moves, moves_rules, IsPreorder,
}

module _ {D : Type 0} where
  -- The children's stops that returned leave no child.
  abbrev pub IsEmpty : Supervisor D → Type 0
  IsEmpty s = (s.codexapp ≡ none) × (s.hooksd ≡ none)

  pub stop_hooksd-drops :
      (stop : Option (D → Outcome (Unit {0}) × D)) (s : Supervisor D)
      → Returned (λ e t. e ≡ none → t.hooksd ≡ none) (stop_child (set_hooksd none) stop s)
  unfolding stop_child drop_after set_hooksd call ◌>>=◌
  stop_hooksd-drops none s = λ e. refl
  stop_hooksd-drops (some stop) s = elim (Outcome-cases (stop s.rest).0) [
    | inl (u, e) ↦ rw e (λ none_failed. refl)
    | inr (x, e) ↦ rw e (λ none_failed. cc)
  ]

  pub stop_codexapp-drops :
      (stop : Option (D → Outcome (Unit {0}) × D)) (s : Supervisor D)
      → Returned
          (λ e t. (e ≡ none → t.codexapp ≡ none) × (t.hooksd ≡ s.hooksd))
          (stop_child (set_codexapp none) stop s)
  unfolding stop_child drop_after set_codexapp call ◌>>=◌
  stop_codexapp-drops none s = (λ e. refl, refl)
  stop_codexapp-drops (some stop) s = elim (Outcome-cases (stop s.rest).0) [
    | inl (u, e) ↦ rw e (λ none_failed. refl, refl)
    | inr (x, e) ↦ rw e (λ none_failed. cc, refl)
  ]

  pub raise_first-IsEmpty :
      (first second : Option Fault) (t : Supervisor D)
      → (first ≡ none → t.hooksd ≡ none)
      → (second ≡ none → t.codexapp ≡ none)
      → Returned (λ u. IsEmpty) (raise_first first second t)
  unfolding raise_first ◌>>=◌
  raise_first-IsEmpty (some e) second t h c = tt
  raise_first-IsEmpty none (some e) t h c = tt
  raise_first-IsEmpty none none t h c = (c refl, h refl)

  pub stop_children-IsEmpty : (s : Supervisor D) → Returned (λ u. IsEmpty) (stop_children s)
  unfolding stop_children stop_both
  stop_children-IsEmpty s =
      Returned-bind (λ e t. e ≡ none → t.hooksd ≡ none) (λ u. IsEmpty)
        (stop_child (set_hooksd none) (stop_of s.hooksd)) _ s
        (stop_hooksd-drops (stop_of s.hooksd) s)
        (λ first t h.
          Returned-bind (λ e u. (e ≡ none → u.codexapp ≡ none) × (u.hooksd ≡ t.hooksd))
            (λ u. IsEmpty) (stop_child (set_codexapp none) (stop_of s.codexapp)) _ t
            (stop_codexapp-drops (stop_of s.codexapp) t)
            (λ second u k. raise_first-IsEmpty first second u (λ e. k.1 ∙ h e) k.0))

  -- Only these write the state of the supervisor.
  abbrev pub SameState : Supervisor D → Supervisor D → Type 0
  SameState s t = s.state ≡ t.state

  state-IsPreorder : IsPreorder SameState
  state-IsPreorder = record { reflexive = λ s. refl; transitive = λ s t u p q. p ∙ q }

  pub call-SameState : {A : Type 0} (f : D → Outcome A × D) → Moves SameState (call f)
  unfolding call
  call-SameState f = record { at = λ s. refl }

  pub set_hooksd-SameState : (c : Option (Child D)) → Moves SameState (set_hooksd c)
  unfolding set_hooksd
  set_hooksd-SameState c = record { at = λ s. refl }

  pub set_codexapp-SameState : (c : Option (Child D)) → Moves SameState (set_codexapp c)
  unfolding set_codexapp
  set_codexapp-SameState c = record { at = λ s. refl }

  ruleset state_rules =
      (moves_rules, state-IsPreorder, call-SameState, set_hooksd-SameState, set_codexapp-SameState)

  pub drop_after-SameState :
      (drop : Exec (Supervisor D) Unit) (r : Outcome (Unit {0}))
      → Moves SameState drop
      → Moves SameState (drop_after drop r)
  unfolding drop_after
  drop_after-SameState drop (ok u) keeps = search (state_rules, keeps)
  drop_after-SameState drop (throws e) keeps = search state_rules

  pub stop_child-SameState :
      (drop : Exec (Supervisor D) Unit) (o : Option (D → Outcome (Unit {0}) × D))
      → Moves SameState drop
      → Moves SameState (stop_child drop o)
  unfolding stop_child
  stop_child-SameState drop none keeps = search (state_rules, keeps)
  stop_child-SameState drop (some stop) keeps =
      Moves-outcome state-IsPreorder (call stop) _ (call-SameState stop)
        (λ r. drop_after-SameState drop r keeps)

  pub raise_first-SameState :
      (first second : Option Fault) → Moves SameState (raise_first {D = D} first second)
  unfolding raise_first
  raise_first-SameState (some e) second = search state_rules
  raise_first-SameState none (some e) = search state_rules
  raise_first-SameState none none = search state_rules

  pub stop_both-SameState : (h c : Option (Child D)) → Moves SameState (stop_both h c)
  unfolding stop_both
  stop_both-SameState h c =
      search (state_rules, stop_child-SameState, raise_first-SameState) depth 16

  pub stop_children-SameState : Moves SameState (stop_children {D = D})
  unfolding stop_children
  stop_children-SameState = record { at = λ s. (stop_both-SameState s.hooksd s.codexapp).at s }

  pub fail_start-state :
      (e : Fault) (s : Supervisor D) → (fail_start e s).1.state ≡ SupervisorState.failed
  unfolding fail_start set_state ◌>>=◌
  fail_start-state e s = sym (
      (Moves-bind state-IsPreorder (attempt stop_children (λ x. pure tt))
          (λ u. raise {A = SupervisorStatus} e)
          (Moves-attempt state-IsPreorder stop_children _ stop_children-SameState
            (λ x. Moves-pure state-IsPreorder tt))
          (λ u. Moves-raise state-IsPreorder e)).at
        (record s { state = SupervisorState.failed }))
