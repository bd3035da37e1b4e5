-- ===== src/Base/Exec.antt =====
-- A method that changes a state and may throw. What it wrote before the throw stays written.
pub mod Moves
pub mod Ends
use mathlib.Core.Option.{Option, none, some}
use codex_hooks.Base.Throwing.{Fault, Outcome, ok, throws}

abbrev pub Exec {ℓ} : Type ℓ → Type ℓ → Type ℓ
Exec S A = S → Outcome A × S

module _ {ℓ} {S A : Type ℓ} where
  pub pure : A → Exec S A
  pure a s = (ok a, s)

  pub raise : Fault → Exec S A
  raise e s = (throws e, s)

  pub lift : Outcome A → Exec S A
  lift r s = (r, s)

  -- the handler of a `try` block: it starts from the state that the throw left
  abbrev pub recover : (Fault → Exec S A) → Outcome A → S → Outcome A × S
  recover h (ok a) s = (ok a, s)
  recover h (throws e) s = h e s

  -- `try { m } catch (error) { h(error) }`
  unfoldable pub attempt : Exec S A → (Fault → Exec S A) → Exec S A
  attempt m h s = let (r, s') = m s in recover h r s'

module _ {ℓ} {S A B : Type ℓ} where
  abbrev pub continue : (A → Exec S B) → Outcome A → S → Outcome B × S
  continue f (ok a) s = f a s
  continue f (throws e) s = (throws e, s)

  infixl 5 ◌>>=◌ ◌>>◌
  -- a test for null: `m` without a value, `f` with it
  unfoldable pub on_option : Option A → Exec S B → (A → Exec S B) → Exec S B
  on_option none m f = m
  on_option (some a) m f = f a

  -- a method whose throw is caught too: `f` has what it returned or threw
  unfoldable pub on_outcome : Exec S A → (Outcome A → Exec S B) → Exec S B
  on_outcome m f s = let (r, s') = m s in f r s'

  -- opening this opens the methods above
  unfoldable pub ◌>>=◌ : Exec S A → (A → Exec S B) → Exec S B
  unfolding pure raise lift attempt on_option on_outcome
  ◌>>=◌ m f s = let (r, s') = m s in continue f r s'

  abbrev pub ◌>>◌ : Exec S A → Exec S B → Exec S B
  m >> n = m >>= λ _. n
