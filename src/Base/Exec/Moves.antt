-- ===== src/Base/Exec/Moves.antt =====
-- Relations between the state before a method and the state after it, whether it returns or
-- throws, with one rule for each way to build a method.
use mathlib.Core.Bool.{Bool, true, false}
use mathlib.Core.Option.{Option, none, some}
use codex_hooks.Base.Tests.{if◌then◌else◌}
use codex_hooks.Base.Throwing.{Fault, Outcome, ok, throws}
use codex_hooks.Base.Exec.{
  Exec, pure, raise, lift, attempt, recover, continue, on_option, on_outcome, ◌>>=◌,
}

pub record IsPreorder {ℓ} {S : Type ℓ} (R : S → S → Type ℓ) : Type ℓ where
  pub reflexive : (s : S) → R s s
  pub transitive : (s t u : S) → R s t → R t u → R s u

pub record Moves {ℓ} {S A : Type ℓ} (R : S → S → Type ℓ) (m : Exec S A) : Type ℓ where
  pub at : (s : S) → R s (m s).1

module _ {ℓ} {S A : Type ℓ} {R : S → S → Type ℓ} where
  pub Moves-pure : IsPreorder R → (a : A) → Moves R (pure a)
  unfolding pure
  Moves-pure p a = record { at = p.reflexive }

  pub Moves-raise : IsPreorder R → (e : Fault) → Moves R (raise {A = A} e)
  unfolding raise
  Moves-raise p e = record { at = p.reflexive }

  pub Moves-lift : IsPreorder R → (r : Outcome A) → Moves R (lift r)
  unfolding lift
  Moves-lift p r = record { at = p.reflexive }

  pub Moves-if : (b : Bool) (m n : Exec S A) → Moves R m → Moves R n → Moves R (if b then m else n)
  Moves-if true m n km kn = km
  Moves-if false m n km kn = kn

  Moves-recover :
      (h : Fault → Exec S A) (r : Outcome A) (s t : S)
      → IsPreorder R
      → R s t
      → ((e : Fault) → Moves R (h e))
      → R s (recover h r t).1
  Moves-recover h (ok a) s t p st kh = st
  Moves-recover h (throws e) s t p st kh = p.transitive s t (h e t).1 st ((kh e).at t)

  pub Moves-attempt :
      IsPreorder R
      → (m : Exec S A) (h : Fault → Exec S A) → Moves R m
      → ((e : Fault) → Moves R (h e))
      → Moves R (attempt m h)
  unfolding attempt
  Moves-attempt p m h km kh = record {
    at = λ s. let (r, t) = m s in Moves-recover h r s t p (km.at s) kh;
  }

module _ {ℓ} {S A B : Type ℓ} {R : S → S → Type ℓ} where
  Moves-continue :
      (f : A → Exec S B) (r : Outcome A) (s t : S)
      → IsPreorder R
      → R s t
      → ((a : A) → Moves R (f a))
      → R s (continue f r t).1
  Moves-continue f (ok a) s t p st kf = p.transitive s t (f a t).1 st ((kf a).at t)
  Moves-continue f (throws e) s t p st kf = st

  pub Moves-bind :
      IsPreorder R
      → (m : Exec S A) (f : A → Exec S B) → Moves R m
      → ((a : A) → Moves R (f a))
      → Moves R (m >>= f)
  unfolding ◌>>=◌
  Moves-bind p m f km kf = record {
    at = λ s. let (r, t) = m s in Moves-continue f r s t p (km.at s) kf;
  }

  pub Moves-option :
      (o : Option A) (m : Exec S B) (f : A → Exec S B)
      → Moves R m
      → ((a : A) → Moves R (f a))
      → Moves R (on_option o m f)
  unfolding on_option
  Moves-option none m f km kf = km
  Moves-option (some a) m f km kf = kf a

module _ {ℓ} {S A B : Type ℓ} {R : S → S → Type ℓ} where
  Moves-outcome_from :
      (f : Outcome A → Exec S B) (r : Outcome A × S) (s : S)
      → IsPreorder R
      → R s r.1
      → ((o : Outcome A) → Moves R (f o))
      → R s (f r.0 r.1).1
  Moves-outcome_from f (o, t) s p st kf = p.transitive s t (f o t).1 st ((kf o).at t)

  pub Moves-outcome :
      IsPreorder R
      → (m : Exec S A) (f : Outcome A → Exec S B) → Moves R m
      → ((o : Outcome A) → Moves R (f o))
      → Moves R (on_outcome m f)
  unfolding on_outcome
  Moves-outcome p m f km kf = record { at = λ s. Moves-outcome_from f (m s) s p (km.at s) kf }

pub ruleset moves_rules =
    (Moves-pure, Moves-raise, Moves-lift, Moves-if, Moves-attempt, Moves-bind, Moves-option)
