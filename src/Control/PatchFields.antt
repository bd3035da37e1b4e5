-- ===== src/Control/PatchFields.antt =====
-- What the fields of a schedule.update request are checked for.
use codex_hooks.Base.{
  Option-cases, ℕ, String, Bool, true, false, ◌≡◌, refl, sym, ◌∙◌, ap, Option, some, none, ◌==◌,
  List, [], ◌∷◌, Bool-cases, inl, inr, arith, is_some, eq_iff, Gives, Gives-any, Gives-bind,
  Gives-ok, Gives-require, Outcome, or_else,
}
use codex_hooks.Protocol.Value.{Value, is_true, str, is_nullish, or_given}
use codex_hooks.Protocol.Names.{
  ScheduleAction, ScheduleMode, action_name, schedule_mode_name, find_named,
}
use codex_hooks.Protocol.Normalize.{assert_non_empty, member_of}
use codex_hooks.Control.Upsert.{positive_of}
use codex_hooks.Control.Patch.{
  named, if_given, text_value, number_value, flag_value, when_given, given_interval, checked_at,
  checked_flag,
}
use codex_hooks.Control.Apply.{patched_name, patched_option}
use codex_hooks.Control.Valid.{IsPositive, IsAllowed, IsChecked, IsConcurrent}

-- The value that a name was read from.
abbrev pub IsNamed : {A : Type 0} → (A → String) → Value → A → Type 0
IsNamed name v a = v ≡ str (name a)

find_named-name :
    {A : Type 0} (name : A → String) (xs : List A) (text : String) (a : A)
    → find_named name xs text ≡ some a
    → text ≡ name a
unfolding find_named
find_named-name name [] text a e = cc
find_named-name name (x ∷ xs) text a e = elim (Bool-cases (name x == text)) [
  | inl same ↦
      let found : some x ≡ some a = rw same at e in
      let own : x ≡ a = cc in sym ((eq_iff (name x) text).0 same) ∙ ap name own
  | inr other ↦ find_named-name name xs text a (rw other at e)
]

pub named-Gives :
    {A : Type 0} (name : A → String) (xs : List A) (what : String) (v : Value)
    → Gives (IsNamed name v) (named name xs what v)
unfolding named member_of
named-Gives name xs what (str s) = elim (Option-cases (find_named name xs s)) [
  | inl e ↦ rw (e, member_of) (record { holds = tt })
  | inr (a, e) ↦ rw (e, member_of) (record { holds = ap str (find_named-name name xs s a e) })
]
named-Gives name xs what v = record { holds = tt }

-- The name of a field after the patch is the one that was checked.
pub kept_name :
    {A : Type 0} (name : A → String) (given : Value) (a : A) (old default : String)
    → (old == "") ≡ false
    → IsNamed name (or_given given (or_given (text_value old) (str default))) a
    → patched_name name (when_given given a) old ≡ name a
kept_name name given a old default filled is_named = elim (Bool-cases (is_nullish given)) [
  | inl e ↦ let read : str old ≡ str (name a) = rw (e, filled) at is_named in rw e cc
  | inr e ↦ rw e refl
]

pub action_filled : (a : ScheduleAction) → (action_name a == "") ≡ false
unfolding action_name
action_filled ScheduleAction.notify = refl
action_filled ScheduleAction.subagent = refl
action_filled ScheduleAction.wait = refl

pub mode_filled : (m : ScheduleMode) → (schedule_mode_name m == "") ≡ false
unfolding schedule_mode_name
mode_filled ScheduleMode.once = refl
mode_filled ScheduleMode.interval = refl

-- A field after the patch: the checked one, or the old one where none is given.
pub if_given-Gives :
    {A : Type 0} {Q : A → Type 0} (v : Value) (m : Outcome A) (old : A)
    → Gives Q m
    → (is_nullish v ≡ true → Q old)
    → Gives (λ o. Q (or_else o old)) (if_given v m)
unfolding if_given
if_given-Gives v m old g keeps = elim (Bool-cases (is_nullish v)) [
  | inl e ↦ rw e (Gives-ok (keeps e))
  | inr e ↦ rw e (Gives-bind m g (λ a h. Gives-ok h))
]

abbrev Parses : (String → Option ℕ) → String → Type 0
Parses parse_date at = is_some (parse_date at) ≡ true

pub checked_at-Gives :
    (parse_date : String → Option ℕ) (v : Value)
    → Gives (Parses parse_date) (checked_at parse_date v)
unfolding checked_at
checked_at-Gives parse_date v =
    Gives-any (assert_non_empty v "at")
      (λ at. Gives-bind _ (Gives-require (is_some (parse_date at)) _) (λ u parses. Gives-ok parses))

-- The permission after the patch is the one that was checked.
pub flag-Gives :
    (v : Value) (old : Option Bool)
    → Gives
        (λ o. is_true (or_given v (flag_value old)) ≡ true → patched_option o old ≡ some true)
        (if_given v (checked_flag v))
unfolding if_given checked_flag
flag-Gives Value.undefined none = Gives-ok (λ e. cc)
flag-Gives Value.undefined (some b) = Gives-ok (λ e. ap some e)
flag-Gives Value.null none = Gives-ok (λ e. cc)
flag-Gives Value.null (some b) = Gives-ok (λ e. ap some e)
flag-Gives (Value.bool b) old = Gives-ok (λ e. ap some e)
flag-Gives v old = record { holds = tt }

pub permission_after :
    (action : ScheduleAction) (mode : ScheduleMode) (v : Value) (o old : Option Bool)
    → (is_true (or_given v (flag_value old)) ≡ true → patched_option o old ≡ some true)
    → IsConcurrent action mode (is_true (or_given v (flag_value old)))
    → IsAllowed action mode (patched_option o old)
permission_after ScheduleAction.subagent ScheduleMode.interval v o old h k = h k
permission_after ScheduleAction.subagent ScheduleMode.once v o old h k = tt
permission_after ScheduleAction.notify mode v o old h k = tt
permission_after ScheduleAction.wait mode v o old h k = tt

-- A recurring schedule has a positive interval; another may still have one.
abbrev pub IsRecurring : ScheduleMode → Option ℕ → Type 0
IsRecurring ScheduleMode.once i = Unit
IsRecurring ScheduleMode.interval i = IsPositive i

kept_interval : (m : ℕ) (o : Option ℕ) → positive_of (number_value o) ≡ some m → IsPositive o
unfolding positive_of
kept_interval m none e = cc
kept_interval m (some k) e = ground arith

-- The interval after the patch is the one that was checked.
pub interval_after :
    (mode : ScheduleMode) (v : Value) (i old : Option ℕ)
    → IsChecked mode (or_given v (number_value old)) i
    → IsRecurring mode (patched_option (given_interval v i) old)
unfolding positive_of
interval_after ScheduleMode.once v i old h = tt
interval_after ScheduleMode.interval v none old (positive, e) = elim positive [ ]
interval_after ScheduleMode.interval v (some n) old (positive, e) =
    elim (Bool-cases (is_nullish v)) [
      | inl c ↦ rw c (kept_interval n old (rw c at e))
      | inr c ↦ rw c positive
    ]

-- A name tells the member.
pub action_name-injective : (a b : ScheduleAction) → action_name a ≡ action_name b → a ≡ b
unfolding action_name
action_name-injective ScheduleAction.notify ScheduleAction.notify e = refl
action_name-injective ScheduleAction.subagent ScheduleAction.subagent e = refl
action_name-injective ScheduleAction.wait ScheduleAction.wait e = refl
action_name-injective a b e = cc
