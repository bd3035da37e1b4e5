-- ===== src/Control/Atomic.antt =====
-- An operation that throws before it writes: what it leaves of the controls.
use codex_hooks.Base.{
  Bool, true, false, refl, ◌∙◌, Option, some, none, ok, throws, Outcome, Fault, if◌then◌else◌,
}
use codex_hooks.Base.Exec.{Exec, pure, raise, on_option, continue, ◌>>=◌}
use codex_hooks.Base.Exec.Moves.{Moves}
use codex_hooks.Control.Store.{ControlState}
use codex_hooks.Control.Calls.{SameControls}

-- `Q` of the state, if the method threw.
abbrev pub Thrown : {S A : Type 0} → (S → Type 0) → Outcome A × S → Type 0
Thrown Q (ok a, s) = Unit
Thrown Q (throws e, s) = Q s

abbrev pub IsReturned : {S A : Type 0} → Outcome A × S → Type 0
IsReturned (ok a, s) = Unit
IsReturned (throws e, s) = ⊥

module _ {D : Type 0} where
  -- Where the method throws, the controls are what they were.
  pub record IsAtomic {A : Type 0} (m : Exec (ControlState D) A) : Type 0 where
    pub at : (t : ControlState D) → Thrown (SameControls t) (m t)

  -- A method that never throws.
  pub record IsTotal {A : Type 0} (m : Exec (ControlState D) A) : Type 0 where
    pub at : (t : ControlState D) → IsReturned (m t)

module _ {D A : Type 0} where
  Thrown-same :
      (t : ControlState D) (r : Outcome A × ControlState D)
      → SameControls t r.1
      → Thrown (SameControls t) r
  Thrown-same t (ok a, s) h = tt
  Thrown-same t (throws e, s) h = h

  pub IsAtomic-same : (m : Exec (ControlState D) A) → Moves SameControls m → IsAtomic m
  IsAtomic-same m keeps = record { at = λ t. Thrown-same t (m t) (keeps.at t) }

  returned-Thrown :
      (t : ControlState D) (r : Outcome A × ControlState D)
      → IsReturned r
      → Thrown (SameControls t) r
  returned-Thrown t (ok a, s) h = tt
  returned-Thrown t (throws e, s) h = elim h [ ]

  pub IsAtomic-total : (m : Exec (ControlState D) A) → IsTotal m → IsAtomic m
  IsAtomic-total m total = record { at = λ t. returned-Thrown t (m t) (total.at t) }

  pub IsTotal-pure : (a : A) → IsTotal (pure {S = ControlState D} a)
  unfolding ◌>>=◌
  IsTotal-pure a = record { at = λ t. tt }

  pub IsAtomic-if :
      (b : Bool) (m n : Exec (ControlState D) A)
      → IsAtomic m
      → IsAtomic n
      → IsAtomic (if b then m else n)
  IsAtomic-if true m n km kn = km
  IsAtomic-if false m n km kn = kn

  pub IsAtomic-raise : (e : Fault) → IsAtomic (raise {S = ControlState D} {A = A} e)
  unfolding ◌>>=◌
  IsAtomic-raise e = record { at = λ t. refl }

module _ {D A B : Type 0} where
  first-same :
      (f : A → Exec (ControlState D) B) (r : Outcome A) (t s : ControlState D)
      → SameControls t s
      → ((a : A) → IsAtomic (f a))
      → Thrown (SameControls t) (continue f r s)
  first-same f (ok a) t s same kf = after t s (f a s) same ((kf a).at s)
    where
      after :
          (x y : ControlState D) (r : Outcome B × ControlState D)
          → SameControls x y
          → Thrown (SameControls y) r
          → Thrown (SameControls x) r
      after x y (ok b, z) h k = tt
      after x y (throws e, z) h k = h ∙ k
  first-same f (throws e) t s same kf = same

  -- First what writes nothing.
  pub IsAtomic-bind :
      (m : Exec (ControlState D) A) (f : A → Exec (ControlState D) B)
      → Moves SameControls m
      → ((a : A) → IsAtomic (f a))
      → IsAtomic (m >>= f)
  unfolding ◌>>=◌
  IsAtomic-bind m f keeps kf = record {
    at = λ t. let (r, s) = m t in first-same f r t s (keeps.at t) kf;
  }

  last-total :
      (f : A → Exec (ControlState D) B) (t : ControlState D) (x : Outcome A × ControlState D)
      → Thrown (SameControls t) x
      → ((a : A) → IsTotal (f a))
      → Thrown (SameControls t) (continue f x.0 x.1)
  last-total f t (ok a, s) h kf = returned-Thrown t (f a s) ((kf a).at s)
  last-total f t (throws e, s) h kf = h

  -- Last what never throws.
  pub IsAtomic-then :
      (m : Exec (ControlState D) A) (f : A → Exec (ControlState D) B)
      → IsAtomic m
      → ((a : A) → IsTotal (f a))
      → IsAtomic (m >>= f)
  unfolding ◌>>=◌
  IsAtomic-then m f km kf = record { at = λ t. last-total f t (m t) (km.at t) kf }

  pub IsAtomic-option :
      (o : Option A) (m : Exec (ControlState D) B) (f : A → Exec (ControlState D) B)
      → IsAtomic m
      → ((a : A) → IsAtomic (f a))
      → IsAtomic (on_option o m f)
  unfolding on_option
  IsAtomic-option none m f km kf = km
  IsAtomic-option (some a) m f km kf = kf a
