-- ===== src/Base/Texts.antt =====
-- The text operations of JavaScript that the program uses.
use Prim.Native.Nat.{ℕ}
use Prim.Native.Char.{code}
use Prim.Native.String.{String, [], ◌∷◌}
use Prim.Native.String as Native
use mathlib.Core.Bool.{Bool, true, false, ◌&&◌, ◌||◌}
use mathlib.Core.Option.{Option, none, some}
use mathlib.Core.List as Lists
use mathlib.Core.List.{List}
use text.Mathlib.Text.{◌==◌}
use codex_hooks.Base.Tests.{leb, eqb, if◌then◌else◌}

-- White space as `String.prototype.trim` removes it.
abbrev pub is_space : ℕ → Bool
is_space c =
    leb 9 c && leb c 13
    || eqb c 32
    || eqb c 160
    || eqb c 0x1680
    || leb 0x2000 c && leb c 0x200a
    || eqb c 0x2028
    || eqb c 0x2029
    || eqb c 0x202f
    || eqb c 0x205f
    || eqb c 0x3000
    || eqb c 0xfeff

-- `value.trim() === ""`
abbrev pub is_blank : String → Bool
is_blank [] = true
is_blank (c ∷ s) = is_space (code c) && is_blank s

-- A template literal, as the list of its parts.
abbrev pub concat : List String → String
concat Lists.[] = ""
concat (Lists.◌∷◌ s ss) = Native.◌++◌ s (concat ss)

abbrev pub join : String → List String → String
join sep Lists.[] = ""
join sep (Lists.◌∷◌ s Lists.[]) = s
join sep (Lists.◌∷◌ s (Lists.◌∷◌ t ts)) =
    Native.◌++◌ s (Native.◌++◌ sep (join sep (Lists.◌∷◌ t ts)))

-- `text.slice(prefix.length)` where `text.startsWith(prefix)`
abbrev pub strip_prefix : String → String → Option String
strip_prefix [] s = some s
strip_prefix (c ∷ p) [] = none
strip_prefix (c ∷ p) (d ∷ s) = if eqb (code c) (code d) then strip_prefix p s else none

abbrev pub has_prefix : String → String → Bool
has_prefix p s = elim (strip_prefix p s) [ none ↦ false | some r ↦ true ]

abbrev pub has_suffix : String → String → Bool
has_suffix p [] = p == ""
has_suffix p (c ∷ s) = p == (c ∷ s) || has_suffix p s

abbrev pub includes : String → String → Bool
includes p [] = p == ""
includes p (c ∷ s) = has_prefix p (c ∷ s) || includes p s
