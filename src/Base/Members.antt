-- ===== src/Base/Members.antt =====
-- `Array.prototype.includes` on texts.
use Prim.Native.String.{String}
use mathlib.Core.Path.{◌≡◌, sym, subst}
use mathlib.Core.Logic.{inl, inr}
use mathlib.Core.Bool.{Bool, true, false, ◌||◌}
use mathlib.Core.List.{List, [], ◌∷◌}
use text.Mathlib.Text.{◌==◌}
use text.Mathlib.TextEquality.{eq_iff}
use codex_hooks.Base.Tests.{Bool-cases}
use codex_hooks.Base.Lists.{All}

abbrev pub member : String → List String → Bool
member s [] = false
member s (t ∷ ts) = s == t || member s ts

-- What holds of every element holds of a member.
pub member-All {ℓ} :
    (P : String → Type ℓ) (s : String) (xs : List String) → All P xs → member s xs ≡ true → P s
member-All P s [] all e = cc
member-All P s (x ∷ xs) (px, rest) e = elim (Bool-cases (s == x)) [
  | inl same ↦ subst P (sym ((eq_iff s x).0 same)) px
  | inr other ↦ member-All P s xs rest (rw other at e)
]
