-- ===== src/Timer/Advance.antt =====
-- The time of an interval's next occurrence: `missed` and `next_time` of the model.
use codex_hooks.Base.{
  subst, ℕ, suc, ◌+◌, ◌*◌, ◌-◌, ◌/◌, ◌%◌, ◌≤◌, ◌<◌, ◌≡◌, refl, some, leb, eqb, Bool-cases, inl, inr,
  arith, leb→le, leb→lt,
}
use native.Mathlib.Nat.{mul-le-mul_right, div-add-mod', mod-lt}
use codex_hooks.Timer.Occurrence.{missed, next_time}

-- `next` is the time that an interval takes up again when `base` has been served at `now`.
pub record IsNext (base now interval next : ℕ) : Type 0 where
  pub turns : ℕ
  pub turns_pos : 1 ≤ turns
  pub on_grid : next ≡ base + turns * interval
  pub after_now : now < next
  -- the times that are passed over were due already
  pub is_first : (j : ℕ) → 1 ≤ j → j < turns → base + j * interval ≤ now

-- A quotient and a remainder in the place of the division.
grid-IsNext :
    (base now interval q r : ℕ)
    → base ≤ now
    → now ≡ base + (q * interval + r)
    → r < interval
    → IsNext base now interval (base + suc q * interval)
grid-IsNext base now interval q r start e small = record {
  turns = suc q;
  turns_pos = omega arith;
  on_grid = refl;
  after_now = omega arith;
  is_first = λ j pos below.
      let within : j ≤ q = omega arith in
      let le : j * interval ≤ q * interval = mul-le-mul_right interval within in omega arith;
}

missed-IsNext :
    (base now interval : ℕ)
    → 0 < interval
    → IsNext base now interval (base + missed base now interval * interval)
unfolding missed
missed-IsNext base now interval pos = elim (Bool-cases (leb base now)) [
  | inl e ↦
      let start = leb→le base now e in
      let shared = div-add-mod' (now - base) interval in
      let whole =
        grid-IsNext base now interval ((now - base) / interval) ((now - base) % interval) start
          (omega arith) (mod-lt (now - base) pos) in
      rw e (subst (λ m. IsNext base now interval (base + m * interval)) (omega arith) whole)
  | inr e ↦
      let ahead = leb→lt base now e in
      rw e (record {
        turns = 1;
        turns_pos = omega arith;
        on_grid = refl;
        after_now = omega arith;
        is_first = λ j low high. omega arith;
      })
]

-- The next time of an interval, if one is computed, is on the interval's grid from `base`, is
-- after `now`, and every time of the grid that it passes over was due by `now`; the interval is
-- not 0.
pub next_time-IsNext :
    (base now interval next : ℕ)
    → next_time (some base) (some now) (some interval) ≡ some next
    → (0 < interval) × IsNext base now interval next
unfolding next_time
next_time-IsNext base now interval next e = elim (Bool-cases (eqb interval 0)) [
  | inl z ↦ let clash = rw z at e in cc
  | inr p ↦
      let pos : 0 < interval = ground arith in
      let same : some (base + missed base now interval * interval) ≡ some next = rw p at e in
      let at_next : base + missed base now interval * interval ≡ next = cc in
      (pos, rw (← at_next) (missed-IsNext base now interval pos))
]
