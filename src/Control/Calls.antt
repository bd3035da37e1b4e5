-- ===== src/Control/Calls.antt =====
-- Methods of the control plane that read the stored schedules once and then write one of them: what
-- they do to the schedules, from the state in which they read them.
use codex_hooks.Base.{
  String, Bool, true, false, ◌≡◌, refl, subst, sym, ap, ◌∙◌, some, [], or_else, Fault, Outcome, ok,
  throws, require, Option-cases, inl, inr,
}
use codex_hooks.Base.Exec.{Exec, lift, continue, ◌>>=◌}
use codex_hooks.Base.Exec.Moves.{IsPreorder, Moves}
use codex_hooks.Base.Dict.{Dict, lookup, put}
use codex_hooks.Timer.Schedule.{Schedule}
use codex_hooks.Control.Store.{put_schedules, ControlState, schedules_of}
use codex_hooks.Control.Schedules.{require_schedule, replace_schedule}

-- The schedules that a state stores.
abbrev pub stored : {D : Type 0} → ControlState D → Dict Schedule
stored t = or_else t.controls.schedules []

-- A method that changes no control.
abbrev pub SameControls : {D : Type 0} → ControlState D → ControlState D → Type 0
SameControls s t = s.controls ≡ t.controls

pub SameControls-IsPreorder : {D : Type 0} → IsPreorder (SameControls {D = D})
SameControls-IsPreorder = record { reflexive = λ s. refl; transitive = λ s t u p q. p ∙ q }

module _ {D : Type 0} (R : Dict Schedule → Dict Schedule → Type 0) where
  -- The relation, on the stored schedules.
  abbrev pub OnSchedules : ControlState D → ControlState D → Type 0
  OnSchedules s t = R (stored s) (stored t)

  -- From any state with the schedules `d`, the method goes to schedules that `R` allows.
  pub record From {A : Type 0} (d : Dict Schedule) (m : Exec (ControlState D) A) : Type 0 where
    pub at : (t : ControlState D) → stored t ≡ d → R d (stored (m t).1)

module _ {D : Type 0} {R : Dict Schedule → Dict Schedule → Type 0}
    (reflexive : (d : Dict Schedule) → R d d) where
  From-same :
      {A : Type 0} (d : Dict Schedule) (m : Exec (ControlState D) A)
      → Moves SameControls m
      → From R d m
  From-same d m keeps = record {
    at = λ t e.
        let same : d ≡ stored (m t).1 = sym e ∙ ap (λ c. or_else c.schedules []) (keeps.at t) in
        subst (R d) same (reflexive d);
  }

  From-continue :
      {A B : Type 0} (d : Dict Schedule) (f : A → Exec (ControlState D) B) (r : Outcome A)
      (t : ControlState D)
      → stored t ≡ d
      → ((a : A) → From R d (f a))
      → R d (stored (continue f r t).1)
  From-continue d f (ok a) t e kf = (kf a).at t e
  From-continue d f (throws x) t e kf = subst (R d) (sym e) (reflexive d)

  pub From-bind :
      {A B : Type 0} (d : Dict Schedule) (m : Exec (ControlState D) A)
      (f : A → Exec (ControlState D) B)
      → Moves SameControls m
      → ((a : A) → From R d (f a))
      → From R d (m >>= f)
  unfolding ◌>>=◌
  From-bind d m f keeps kf = record {
    at = λ t e.
        let (r, t') = m t in
        From-continue d f r t' (sym (ap (λ c. or_else c.schedules []) (keeps.at t)) ∙ e) kf;
  }

  pub From-require :
      {B : Type 0} (d : Dict Schedule) (b : Bool) (x : Fault) (f : Unit → Exec (ControlState D) B)
      → (b ≡ true → From R d (f tt))
      → From R d (lift (require b x) >>= f)
  unfolding ◌>>=◌
  From-require d true x f kf = kf refl
  From-require d false x f kf = record { at = λ t e. subst (R d) (sym e) (reflexive d) }

  pub From-found :
      {B : Type 0} (d : Dict Schedule) (id : String) (f : Schedule → Exec (ControlState D) B)
      → ((s : Schedule) → lookup id d ≡ some s → From R d (f s))
      → From R d (require_schedule d id >>= f)
  unfolding ◌>>=◌ require_schedule
  From-found d id f kf = elim (Option-cases (lookup id d)) [
    | inl e ↦ rw e (record { at = λ t same. subst (R d) (sym same) (reflexive d) })
    | inr (s, e) ↦ rw e (kf s e)
  ]

  pub From-replace :
      (d : Dict Schedule) (id : String) (s : Schedule)
      → R d (put id s d)
      → From {D = D} R d (replace_schedule id s d)
  unfolding ◌>>=◌ replace_schedule put_schedules
  From-replace d id s step = record { at = λ t e. step }

  pub Moves-From :
      {B : Type 0} (f : Dict Schedule → Exec (ControlState D) B)
      → ((d : Dict Schedule) → From R d (f d))
      → Moves (OnSchedules R) (schedules_of >>= f)
  unfolding ◌>>=◌ schedules_of
  Moves-From f kf = record { at = λ t. (kf (stored t)).at t refl }
