-- ===== src/Base/Exec/Ends.antt =====
-- What holds whenever a method returns: of the value it returns and of the state it leaves.
use mathlib.Core.Path.{◌≡◌, refl, subst}
use mathlib.Core.Bool.{Bool, true, false}
use mathlib.Core.Option.{Option, none, some}
use codex_hooks.Base.Tests.{if◌then◌else◌}
use codex_hooks.Base.Throwing.{Fault, Outcome, ok, throws}
use codex_hooks.Base.Exec.{
  lift, Exec, pure, raise, lift, attempt, recover, continue, on_option, ◌>>=◌,
}
use codex_hooks.Base.{subst, ◌≡◌}

-- `Q` of the result and the state, if the method returned.
abbrev pub Returned {ℓ} : {S A : Type ℓ} → (A → S → Type ℓ) → Outcome A × S → Type ℓ
Returned Q (ok a, s) = Q a s
Returned Q (throws e, s) = Unit

pub record Ends {ℓ} {S A : Type ℓ} (Q : A → S → Type ℓ) (m : Exec S A) : Type ℓ where
  pub at : (s : S) → Returned Q (m s)

module _ {ℓ} {S A : Type ℓ} {Q : A → S → Type ℓ} where
  pub Ends-pure : (a : A) → ((s : S) → Q a s) → Ends Q (pure a)
  unfolding pure
  Ends-pure a h = record { at = h }

  pub Ends-raise : (e : Fault) → Ends Q (raise e)
  unfolding raise
  Ends-raise e = record { at = λ s. tt }

  pub Ends-if : (b : Bool) (m n : Exec S A) → Ends Q m → Ends Q n → Ends Q (if b then m else n)
  Ends-if true m n km kn = km
  Ends-if false m n km kn = kn

  Ends-recover :
      (h : Fault → Exec S A) (r : Outcome A × S)
      → Returned Q r
      → ((e : Fault) → Ends Q (h e))
      → Returned Q (recover h r.0 r.1)
  Ends-recover h (ok a, t) st kh = st
  Ends-recover h (throws e, t) st kh = (kh e).at t

  pub Ends-attempt :
      (m : Exec S A) (h : Fault → Exec S A)
      → Ends Q m
      → ((e : Fault) → Ends Q (h e))
      → Ends Q (attempt m h)
  unfolding attempt
  Ends-attempt m h km kh = record { at = λ s. Ends-recover h (m s) (km.at s) kh }

module _ {ℓ} {S A B : Type ℓ} where
  -- What the first step returns with, the second starts from.
  Ends-continue_from :
      (P : A → S → Type ℓ) (Q : B → S → Type ℓ) (f : A → Exec S B) (r : Outcome A × S)
      → Returned P r
      → ((a : A) (s : S) → P a s → Returned Q (f a s))
      → Returned Q (continue f r.0 r.1)
  Ends-continue_from P Q f (ok a, t) h kf = kf a t h
  Ends-continue_from P Q f (throws e, t) h kf = tt

module _ {ℓ} {S A B : Type ℓ} {Q : B → S → Type ℓ} where
  Ends-continue :
      (f : A → Exec S B) (r : Outcome A × S)
      → ((a : A) → Ends Q (f a))
      → Returned Q (continue f r.0 r.1)
  Ends-continue f (ok a, t) kf = (kf a).at t
  Ends-continue f (throws e, t) kf = tt

  -- Only the last step counts.
  pub Ends-bind : (m : Exec S A) (f : A → Exec S B) → ((a : A) → Ends Q (f a)) → Ends Q (m >>= f)
  unfolding ◌>>=◌
  Ends-bind m f kf = record { at = λ s. Ends-continue f (m s) kf }

  pub Ends-bind_from :
      (P : A → S → Type ℓ) (m : Exec S A) (f : A → Exec S B)
      → Ends P m
      → ((a : A) (s : S) → P a s → Returned Q (f a s))
      → Ends Q (m >>= f)
  unfolding ◌>>=◌
  Ends-bind_from P m f km kf = record { at = λ s. Ends-continue_from P Q f (m s) (km.at s) kf }

  pub Ends-option :
      (o : Option A) (m : Exec S B) (f : A → Exec S B)
      → Ends Q m
      → ((a : A) → Ends Q (f a))
      → Ends Q (on_option o m f)
  unfolding on_option
  Ends-option none m f km kf = km
  Ends-option (some a) m f km kf = kf a

pub ruleset ends_rules = (Ends-raise, Ends-if, Ends-bind, Ends-option, Ends-attempt)

-- The same from one state, for a method that starts with a call that may throw.
module _ {ℓ} {S A B : Type ℓ} (Q : B → S → Type ℓ) where
  pub Returned-lift :
      (r : Outcome A) (f : A → Exec S B) (s : S)
      → ((a : A) → r ≡ ok a → Returned Q (f a s))
      → Returned Q ((lift r >>= f) s)
  unfolding ◌>>=◌
  Returned-lift (ok a) f s kf = kf a refl
  Returned-lift (throws e) f s kf = tt

  pub Returned-option :
      (o : Option A) (m : Exec S B) (f : A → Exec S B) (s : S)
      → (o ≡ none → Returned Q (m s))
      → ((a : A) → o ≡ some a → Returned Q (f a s))
      → Returned Q (on_option o m f s)
  unfolding on_option
  Returned-option none m f s km kf = km refl
  Returned-option (some a) m f s km kf = kf a refl

pub Returned-subst {ℓ} :
    {S A : Type ℓ} (Q : A → S → Type ℓ) (r : Outcome A × S) (a : A) (s : S)
    → Returned Q r
    → r ≡ (ok a, s)
    → Q a s
Returned-subst Q r a s h e = subst (Returned Q) e h

-- From one state, a method that leaves `view` of the state as it is, and then another.
module _ {ℓ} {S A B V : Type ℓ} (Q : B → S → Type ℓ) (view : S → V) where
  Returned-continue :
      (f : A → Exec S B) (r : Outcome A) (t : S)
      → ((a : A) → Returned Q (f a t))
      → Returned Q (continue f r t)
  Returned-continue f (ok a) t kf = kf a
  Returned-continue f (throws e) t kf = tt

  pub Returned-same :
      (m : Exec S A) (f : A → Exec S B) (s : S)
      → view (m s).1 ≡ view s
      → ((a : A) (t : S) → view t ≡ view s → Returned Q (f a t))
      → Returned Q ((m >>= f) s)
  unfolding ◌>>=◌
  Returned-same m f s same kf = let (r, t) = m s in Returned-continue f r t (λ a. kf a t same)

-- From one state: what the first step returns with, the second starts from.
module _ {ℓ} {S A B : Type ℓ} (P : A → S → Type ℓ) (Q : B → S → Type ℓ) where
  pub Returned-bind :
      (m : Exec S A) (f : A → Exec S B) (s : S)
      → Returned P (m s)
      → ((a : A) (t : S) → P a t → Returned Q (f a t))
      → Returned Q ((m >>= f) s)
  unfolding ◌>>=◌
  Returned-bind m f s h kf = Ends-continue_from P Q f (m s) h kf

-- What holds of the state, whether the method returned or threw, holds where it returned.
pub Returned-with {ℓ} :
    {S A : Type ℓ} (P : A → S → Type ℓ) (R : S → Type ℓ) (r : Outcome A × S)
    → Returned P r
    → R r.1
    → Returned (λ a s. P a s × R s) r
Returned-with P R (ok a, s) h k = (h, k)
Returned-with P R (throws e, s) h k = tt
