-- ===== src/Control/Reconciled.antt =====
-- `reconcileLongHorizon` serves every active goal.
use codex_hooks.Base.{
  ◌&&◌, String, true, false, not, ◌≡◌, refl, sym, ◌∙◌, ap, Option, some, none, ok, throws, ◌==◌,
  Bool-cases, inl, inr, or_else, List, [], ◌∷◌, Outcome, All, require,
}
use codex_hooks.Base.Exec.{◌>>=◌}
use codex_hooks.Base.Exec.Moves.{Moves-bind, Moves-pure, IsPreorder, Moves, moves_rules}
use codex_hooks.Base.Exec.Ends.{
  Returned-with, Returned-bind, Returned, Returned-lift, Returned-option, Returned-same,
  Returned-subst,
}
use codex_hooks.Base.Dict.{values, Dict, lookup}
use codex_hooks.Timer.Schedule.{Schedule, or_text}
use codex_hooks.Control.Store.{
  horizons_of, iso_of, put_schedules, bindings_of, operators_of, schedules_of, put_operators,
  put_horizons, ControlState, Host, LongHorizon, read_clock,
}
use codex_hooks.Control.Liveness.{
  on_report, Kept, Reconciled, is_live, is_active_goal, served_by, base_id, renew, renew_generation,
  reconcile_goal, reconcile_one, reconcile_all, store_reconciled, reconcile_long_horizon,
}
use codex_hooks.Control.Calls.{stored}
use codex_hooks.Control.Retired.{IsEntry}
use codex_hooks.Control.Served.{IsLive, StaysLive, IsRenewed, renew-IsRenewed, same_stored}
use codex_hooks.Control.Transitions.{read_clock-Same}
use codex_hooks.Control.Operators.{bound_target, resolve_session_target, sync_operator_state}
use codex_hooks.Control.Add.{upsert_schedule, store_schedule}
use codex_hooks.Control.LongHorizon.{delayed}

-- An active goal's liveness schedule is stored and live.
abbrev pub IsServed : Dict Schedule → LongHorizon → Type 0
IsServed d r = is_active_goal r ≡ true → IsEntry IsLive (lookup r.liveness_schedule_id d)

no_report :
    (o : Option Reconciled) (more : List Reconciled)
    → on_report o more ≡ []
    → (o ≡ none) × (more ≡ [])
no_report none more e = (refl, e)
no_report (some r) more e = cc

module _ {D : Type 0} (host : Host D) where
  -- What the loop makes of the record `r`, from schedules in which those of `d` that live are live.
  record IsKept (d : Dict Schedule) (r : LongHorizon) (k : Kept) (t : ControlState D) : Type 0 where
    grows : StaysLive d (stored t)
    served : IsServed (stored t) k.horizon
    silent : k.report ≡ none → is_active_goal r ≡ false

  renew_generation-IsRenewed :
      (id : String) (r : LongHorizon) (d : Dict Schedule) (t : ControlState D)
      → stored t ≡ d
      → Returned (IsRenewed host d) (renew_generation host id r t)
  unfolding renew_generation
  renew_generation-IsRenewed id r d t same =
      Returned-same (IsRenewed host d) stored (read_clock host.now) _ t
        (same_stored host (read_clock-Same host.now) t)
        (λ now t₁ e. renew-IsRenewed host id _ r d t₁ (e ∙ same))

  reconcile_goal-IsRenewed :
      (snapshot : Dict Schedule) (id : String) (r : LongHorizon) (t : ControlState D)
      → StaysLive snapshot (stored t)
      → Returned (IsRenewed host (stored t)) (reconcile_goal host snapshot id r t)
  unfolding reconcile_goal served_by ◌>>=◌
  reconcile_goal-IsRenewed snapshot id r t grew =
      let existing_id = or_text r.liveness_schedule_id (base_id id) in
      Returned-option (IsRenewed host (stored t)) (lookup existing_id snapshot) _ _ t
        (λ e. renew-IsRenewed host id existing_id r (stored t) t refl)
        (λ s e. elim (Bool-cases (is_live s)) [
          | inl live ↦
              rw live
                (record { grows = λ j h. h; served = grew existing_id (rw e live); reports = refl })
          | inr gone ↦ rw gone (renew_generation-IsRenewed id r (stored t) t refl)
        ])

  renewed-IsKept :
      (d : Dict Schedule) (r : LongHorizon) (k : Kept) (t : ControlState D)
      → IsRenewed host d k t
      → IsKept d r k t
  renewed-IsKept d r k t renewed = record {
    grows = renewed.grows;
    served = λ active. renewed.served;
    silent = λ e. let clash : false ≡ true = rw e at renewed.reports in cc;
  }

  Returned-IsKept :
      (d : Dict Schedule) (r : LongHorizon) (x : Outcome Kept × ControlState D)
      → Returned (IsRenewed host d) x
      → Returned (IsKept d r) x
  Returned-IsKept d r (ok k, t) h = renewed-IsKept d r k t h
  Returned-IsKept d r (throws e, t) h = tt

  reconcile_one-IsKept :
      (snapshot : Dict Schedule) (id : String) (r : LongHorizon) (t : ControlState D)
      → StaysLive snapshot (stored t)
      → Returned (IsKept (stored t) r) (reconcile_one host snapshot id r t)
  unfolding reconcile_one ◌>>=◌
  reconcile_one-IsKept snapshot id r t grew = elim (Bool-cases (is_active_goal r)) [
    | inl active ↦ rw active (
        Returned-lift (IsKept (stored t) r)
          (require (not (r.goal_file == "") && not (r.session == "")) _) _ t
          (λ u e. Returned-IsKept (stored t) r _ (reconcile_goal-IsRenewed snapshot id r t grew)))
    | inr idle ↦ rw idle (record {
      grows = λ j h. h;
      served = λ active. let clash : false ≡ true = sym idle ∙ active in cc;
      silent = λ e. idle;
    })
  ]

  -- Every record is served, and where nothing is reported no record is an active goal.
  record IsLoop (d : Dict Schedule) (records : Dict LongHorizon)
      (done : Dict LongHorizon × List Reconciled) (t : ControlState D) : Type 0 where
    grows : StaysLive d (stored t)
    served : All (IsServed (stored t)) (values done.0)
    silent : done.1 ≡ [] → All (λ r. is_active_goal r ≡ false) (values records)

  IsServed-grows :
      (d d' : Dict Schedule) (r : LongHorizon) → StaysLive d d' → IsServed d r → IsServed d' r
  IsServed-grows d d' r grows served active = grows r.liveness_schedule_id (served active)

  reconcile_all-IsLoop :
      (snapshot : Dict Schedule) (records : Dict LongHorizon) (t : ControlState D)
      → StaysLive snapshot (stored t)
      → Returned (IsLoop (stored t) records) (reconcile_all host snapshot records t)
  unfolding reconcile_all ◌>>=◌
  reconcile_all-IsLoop snapshot [] t grew = record {
    grows = λ j h. h;
    served = tt;
    silent = λ e. tt;
  }
  reconcile_all-IsLoop snapshot ((id, r) ∷ more) t grew =
      Returned-bind (IsKept (stored t) r) (IsLoop (stored t) ((id, r) ∷ more))
        (reconcile_one host snapshot id r) _ t (reconcile_one-IsKept snapshot id r t grew)
        (λ kept t₁ first.
          Returned-bind (IsLoop (stored t₁) more) (IsLoop (stored t) ((id, r) ∷ more))
            (reconcile_all host snapshot more) _ t₁
            (reconcile_all-IsLoop snapshot more t₁ (λ j h. first.grows j (grew j h)))
            (λ rest t₂ second. record {
              grows = λ j h. second.grows j (first.grows j h);
              served = (
                IsServed-grows (stored t₁) (stored t₂) kept.horizon second.grows first.served,
                second.served,
              );
              silent = λ e.
                  let (quiet, rest_quiet) = no_report kept.report rest.1 e in
                  (first.silent quiet, second.silent rest_quiet);
            }))

  -- Every active goal of the stored records is served.
  pub record AllServed (t : ControlState D) : Type 0 where
    pub at : All (IsServed (stored t)) (values (or_else t.controls.longhorizon []))

  idle-IsServed :
      (d : Dict Schedule) (records : Dict LongHorizon)
      → All (λ r. is_active_goal r ≡ false) (values records)
      → All (IsServed d) (values records)
  idle-IsServed d [] h = tt
  idle-IsServed d ((id, r) ∷ more) (idle, rest) =
      ((λ active. let clash : false ≡ true = sym idle ∙ active in cc), idle-IsServed d more rest)

  store_reconciled-AllServed :
      (records : Dict LongHorizon) (done : Dict LongHorizon × List Reconciled) (d : Dict Schedule)
      (t : ControlState D)
      → or_else t.controls.longhorizon [] ≡ records
      → IsLoop d records done t
      → Returned (λ r. AllServed) (store_reconciled host done.0 done.1 t)
  unfolding store_reconciled sync_operator_state put_horizons put_operators schedules_of
      operators_of ◌>>=◌
  store_reconciled-AllServed records (kept, []) d t same loop = record {
    at = rw same (idle-IsServed (stored t) records (loop.silent refl));
  }
  store_reconciled-AllServed records (kept, r ∷ more) d t same loop = record { at = loop.served }

  -- The loop writes no record.
  abbrev SameHorizons : ControlState D → ControlState D → Type 0
  SameHorizons s t = s.controls.longhorizon ≡ t.controls.longhorizon

  horizons-IsPreorder : IsPreorder SameHorizons
  horizons-IsPreorder = record { reflexive = λ s. refl; transitive = λ s t u p q. p ∙ q }

  clock-SameHorizons : (clock : D → String × D) → Moves SameHorizons (read_clock clock)
  unfolding read_clock
  clock-SameHorizons clock = record { at = λ t. refl }

  bindings-SameHorizons : Moves SameHorizons (bindings_of {D = D})
  unfolding bindings_of
  bindings-SameHorizons = record { at = λ t. refl }

  store-SameHorizons : (s : Schedule) → Moves SameHorizons (store_schedule host s)
  unfolding store_schedule schedules_of put_schedules ◌>>=◌
  store-SameHorizons s = record { at = λ t. refl }

  ruleset horizon_rules = (
    moves_rules, horizons-IsPreorder, clock-SameHorizons, bindings-SameHorizons, store-SameHorizons,
  )

  renew-SameHorizons :
      (id schedule_id : String) (r : LongHorizon) → Moves SameHorizons (renew host id schedule_id r)
  unfolding renew resolve_session_target bound_target delayed iso_of upsert_schedule
  renew-SameHorizons id schedule_id r = search horizon_rules depth 20

  reconcile_one-SameHorizons :
      (snapshot : Dict Schedule) (id : String) (r : LongHorizon)
      → Moves SameHorizons (reconcile_one host snapshot id r)
  unfolding reconcile_one reconcile_goal renew_generation
  reconcile_one-SameHorizons snapshot id r = search (horizon_rules, renew-SameHorizons) depth 20

  reconcile_all-SameHorizons :
      (snapshot : Dict Schedule) (records : Dict LongHorizon)
      → Moves SameHorizons (reconcile_all host snapshot records)
  unfolding reconcile_all
  reconcile_all-SameHorizons snapshot [] = Moves-pure horizons-IsPreorder _
  reconcile_all-SameHorizons snapshot ((id, r) ∷ more) =
      Moves-bind horizons-IsPreorder _ _ (reconcile_one-SameHorizons snapshot id r) (λ kept.
        Moves-bind horizons-IsPreorder _ _ (reconcile_all-SameHorizons snapshot more)
          (λ rest. Moves-pure horizons-IsPreorder _))

  reconcile-AllServed :
      (t : ControlState D) → Returned (λ reports. AllServed) (reconcile_long_horizon host t)
  unfolding reconcile_long_horizon horizons_of schedules_of ◌>>=◌
  reconcile-AllServed t =
      let records = or_else t.controls.longhorizon [] in
      let loop = reconcile_all host (stored t) records in
      Returned-bind (λ done t₁. IsLoop (stored t) records done t₁ × SameHorizons t t₁)
        (λ reports. AllServed) loop _ t
        (Returned-with (IsLoop (stored t) records) (SameHorizons t) (loop t)
          (reconcile_all-IsLoop (stored t) records t (λ j h. h))
          ((reconcile_all-SameHorizons (stored t) records).at t))
        (λ done t₁ h.
          store_reconciled-AllServed records done (stored t) t₁ (sym (ap (λ o. or_else o []) h.1))
            h.0)

  -- Where `reconcileLongHorizon` returns, the liveness schedule of every active goal of the stored
  -- records is stored, switched on, recurring, of the source longhorizon and in no state that is
  -- terminal for the timer.
  pub reconcile_long_horizon-AllServed :
      (t t' : ControlState D) (reports : List Reconciled)
      → reconcile_long_horizon host t ≡ (ok reports, t')
      → AllServed t'
  reconcile_long_horizon-AllServed t t' reports returned =
      Returned-subst (λ r. AllServed) _ reports t' (reconcile-AllServed t) returned
