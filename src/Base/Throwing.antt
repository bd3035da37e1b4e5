-- ===== src/Base/Throwing.antt =====
-- A call that may throw: JavaScript's `Error`, with the `code` and `uncertain` properties that
-- the program sets and reads.
use Prim.Native.String.{String}
use mathlib.Core.Bool.{Bool, true, false}
use mathlib.Core.Option.{Option, none, some}
use mathlib.Core.Logic.{◌⊎◌, inl, inr}
use codex_hooks.Base.Tests.{if◌then◌else◌}
use mathlib.Core.Path.{◌≡◌, refl, subst}

pub record Fault : Type 0 where
  pub code : Option String
  pub message : String
  pub uncertain : Bool

pub data Outcome {ℓ} (A : Type ℓ) : Type ℓ where
  ok : A → Outcome A
  throws : Fault → Outcome A

-- `new Error(message)`
abbrev pub fault : String → Fault
fault message = record { code = none; message = message; uncertain = false }

-- `Object.assign(new Error(message), { code })`
abbrev pub coded : String → String → Fault
coded code message = record { code = some code; message = message; uncertain = false }

infixl 5 ◌>>=◌ ◌>>◌
abbrev pub ◌>>=◌ {ℓ κ} : {A : Type ℓ} {B : Type κ} → Outcome A → (A → Outcome B) → Outcome B
ok a >>= f = f a
throws e >>= f = throws e

abbrev pub ◌>>◌ {ℓ} : {B : Type ℓ} → Outcome (Unit {0}) → Outcome B → Outcome B
m >> k = m >>= λ _. k

-- `if (!test) throw …`
abbrev pub require : Bool → Fault → Outcome (Unit {0})
require true e = ok tt
require false e = throws e

-- A chain that returned: what its first call returned, and what the rest made of it.
pub >>=-ok {κ ℓ} :
    {B : Type κ} {A : Type ℓ} (first : Outcome A) {rest : A → Outcome B} (b : B)
    → (first >>= rest) ≡ ok b
    → (a : A) × (rest a ≡ ok b) × (first ≡ ok a)
>>=-ok (ok a) b returned = (a, returned, refl)
>>=-ok (throws e) b returned = cc

-- To split on the outcome of a call and keep the equation.
pub Outcome-cases {ℓ} :
    {A : Type ℓ} (r : Outcome A) → ((a : A) × (r ≡ ok a)) ⊎ ((e : Fault) × (r ≡ throws e))
Outcome-cases (ok a) = inl (a, refl)
Outcome-cases (throws e) = inr (e, refl)

-- What holds of a result that is the same as another.
abbrev pub Holds {ℓ κ} : {A : Type ℓ} → (A → Type κ) → Outcome A → Type κ
Holds P (ok a) = P a
Holds P (throws e) = Unit

pub ok-subst {ℓ κ} : {A : Type ℓ} (P : A → Type κ) {a b : A} → ok a ≡ ok b → P a → P b
ok-subst P e p = subst (Holds P) e p

-- `P` holds of what a call returns, if it returns.
pub record Gives {ℓ κ} {A : Type ℓ} (P : A → Type κ) (m : Outcome A) : Type κ where
  pub holds : Holds P m

module _ {ℓ κ} {A : Type ℓ} {P : A → Type κ} where
  pub Gives-ok : {a : A} → P a → Gives P (ok a)
  Gives-ok p = record { holds = p }

  pub Gives-eq : (m : Outcome A) {a : A} → Gives P m → m ≡ ok a → P a
  Gives-eq (ok b) g e = ok-subst P e g.holds
  Gives-eq (throws f) g e = cc

pub Gives-any {ℓ κ μ} :
    {A : Type ℓ} {B : Type κ} {P : B → Type μ} (m : Outcome A) {f : A → Outcome B}
    → ((a : A) → Gives P (f a))
    → Gives P (m >>= f)
Gives-any (ok a) kf = kf a
Gives-any (throws e) kf = record { holds = tt }

pub Gives-bind {ℓ κ μ ν} :
    {A : Type ℓ} {B : Type κ} {P : B → Type μ} {Q : A → Type ν} (m : Outcome A) {f : A → Outcome B}
    → Gives Q m
    → ((a : A) → Q a → Gives P (f a))
    → Gives P (m >>= f)
Gives-bind (ok a) g kf = kf a g.holds
Gives-bind (throws e) g kf = record { holds = tt }

pub Gives-if {ℓ κ} :
    {A : Type ℓ} {P : A → Type κ} (b : Bool) (m n : Outcome A)
    → Gives P m
    → Gives P n
    → Gives P (if b then m else n)
Gives-if true m n km kn = km
Gives-if false m n km kn = kn

pub Gives-require : (b : Bool) (e : Fault) → Gives (λ u. b ≡ true) (require b e)
Gives-require true e = record { holds = refl }
Gives-require false e = record { holds = tt }
