-- ===== src/Room/Waiting.antt =====
-- Ticks of Room::tick in gameplay/Room/Room.cpp that wait for something, on a clock that goes on.
use samurai_kirby_server.Prelude.{
  ℕ, zero, suc, ◌+◌, ◌*◌, ◌≤◌, ◌<◌, ◌≡◌, sym, ap, ◌∙◌, subst, ◌⊎◌, inl, inr, int_bound, arith,
}
use Prim.Native.Nat.{suc-le-suc}
use native.Mathlib.Nat.{add-zero, suc-add, zero-add, mul-le-mul_right, le_trans, lt_of_le_of_lt}
use samurai_kirby_server.Environment.{nanoseconds}
use samurai_kirby_server.Room.State.{RoomWorld}
use samurai_kirby_server.Room.Ticks.{tick}
use samurai_kirby_server.Room.Steady.{IsSteady, passed, long_passed}

-- The world at the x-th reading of the clock.
abbrev pub at_reading : ℕ → RoomWorld → RoomWorld
at_reading x w = record w { env = record w.env { readings = x } }

unfoldable pub ticks : ℕ → RoomWorld → RoomWorld
ticks zero w = w
ticks (suc n) w = ticks n (tick w).1

suc_moves : (r i : ℕ) → r + suc i ≡ suc r + i
suc_moves r i = omega arith

-- Ticks that either do something, or only read the clock.
module _ (Done : RoomWorld → Type 0) (w : RoomWorld) where
  abbrev pub Goes : ℕ → Type 0
  Goes x = Done (tick (at_reading x w)).1 ⊎ ((tick (at_reading x w)).1 ≡ at_reading (suc x) w)

  -- If the k-th tick must do something, that or one ahead of it does.
  pub until :
      (k r : ℕ)
      → ((i : ℕ) → i < k → Goes (r + i))
      → Done (tick (at_reading (r + k) w)).1
      → (n : ℕ) × (n ≤ k) × Done (ticks (suc n) (at_reading r w))
  unfolding ticks
  until zero r goes done =
      (0, omega arith, subst (λ x. Done (tick (at_reading x w)).1) (add-zero r) done)
  until (suc k) r goes done = elim (subst Goes (add-zero r) (goes 0 (omega arith))) [
    | inl now ↦ (0, omega arith, now)
    | inr e ↦
        let (n, few, q) =
          until k (suc r) (λ i lt. subst Goes (suc_moves r i) (goes (suc i) (omega arith)))
            (subst (λ x. Done (tick (at_reading x w)).1) (suc_moves r k) done) in
        (suc n, omega arith, subst (λ v. Done (ticks (suc n) v)) (sym e) q)
  ]

pub ticks-add : (j k : ℕ) (w : RoomWorld) → ticks (j + k) w ≡ ticks k (ticks j w)
unfolding ticks
ticks-add zero k w = ap (λ n. ticks n w) (zero-add k)
ticks-add (suc j) k w = ap (λ n. ticks n w) (suc-add j k) ∙ ticks-add j k (tick w).1

late_or_early : (a b : ℕ) → (a ≤ b) ⊎ (b < a)
late_or_early a b = omega arith

fits_earlier : (i k step e bound : ℕ) → i ≤ k → e ≤ suc i * step → suc k * step < bound → e < bound
fits_earlier i k step e bound few near small =
    lt_of_le_of_lt (le_trans near (mul-le-mul_right step (suc-le-suc few))) small

-- A world in which a tick only reads the clock until `n` seconds after the reading `r`, and then does
-- `Done`.
module _ (m step r n : ℕ) (w : RoomWorld) (steady : IsSteady w.env.clock m step)
    (next : w.env.readings ≡ suc r) (small : suc (n * m) * step < int_bound * nanoseconds)
    (Done : RoomWorld → Type 0)
    (early : (x e : ℕ)
      → n < int_bound
      → w.env.clock x ≡ w.env.clock r + e
      → e < n * nanoseconds
      → (tick (at_reading x w)).1 ≡ at_reading (suc x) w)
    (late : (x e : ℕ)
      → w.env.clock x ≡ w.env.clock r + e
      → e < int_bound * nanoseconds
      → n * nanoseconds ≤ e
      → Done (tick (at_reading x w)).1) where
  at : (i : ℕ) → w.env.readings + i ≡ suc r + i
  at i = ap (λ x. x + i) next

  few_seconds : n < int_bound
  few_seconds =
      let x = w.env.readings + n * m in
      let (e, shown, near) = passed w.env.clock m step steady r x (n * m) (at (n * m)) in
      let long = long_passed w.env.clock m step steady r x n e (at (n * m)) shown in omega arith

  goes : (i : ℕ) → i < n * m → Goes Done w (w.env.readings + i)
  goes i lt =
      let x = w.env.readings + i in
      let (e, shown, near) = passed w.env.clock m step steady r x i (at i) in
      let fits = fits_earlier i (n * m) step e (int_bound * nanoseconds) (omega arith) near small in
      elim (late_or_early (n * nanoseconds) e) [
        | inl past ↦ inl (late x e shown fits past)
        | inr yet ↦ inr (early x e few_seconds shown yet)
      ]

  -- It is done after as many ticks as the readings of `n` seconds and one more, or before.
  pub waits_out : (k : ℕ) × (k ≤ n * m) × Done (ticks (suc k) w)
  waits_out =
      let x = w.env.readings + n * m in
      let (e, shown, near) = passed w.env.clock m step steady r x (n * m) (at (n * m)) in
      until Done w (n * m) w.env.readings goes (
        late x e shown
          (fits_earlier (n * m) (n * m) step e (int_bound * nanoseconds) (omega arith) near small)
          (long_passed w.env.clock m step steady r x n e (at (n * m)) shown))
