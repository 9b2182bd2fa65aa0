-- ===== src/Room/Steady.antt =====
-- A clock that goes on: what its readings show after a number of seconds.
use samurai_kirby_server.Prelude.{sym, ℕ, zero, suc, ◌+◌, ◌-◌, ◌*◌, ◌≤◌, ◌≡◌, subst, arith}
use native.Mathlib.Nat.{add-zero, add-suc, le_refl, le_trans}
use samurai_kirby_server.Environment.{nanoseconds}

-- A reading is never before the one ahead of it, and at most `step` after it; and `m` readings take a
-- second or more.
pub record IsSteady (clock : ℕ → ℕ) (m step : ℕ) : Type 0 where
  pub forward : (i : ℕ) → clock i ≤ clock (suc i)
  pub gradual : (i : ℕ) → clock (suc i) ≤ clock i + step
  pub second : (i : ℕ) → clock i + nanoseconds ≤ clock (i + m)

none_more : (r m : ℕ) → r ≡ r + zero * m
none_more r m = omega arith

no_more : (a s : ℕ) → a ≤ a + zero * s
no_more a s = omega arith

no_less : (a s : ℕ) → a + zero * s ≤ a
no_less a s = omega arith

reading_after : (r x i : ℕ) → x ≡ suc r + i → r + suc i ≡ x
reading_after r x i at = omega arith

reading_next : (r i x : ℕ) → x ≡ suc r + i → suc (r + i) ≡ x
reading_next r i x at = omega arith

-- One more reading, and one more second.
later_reading : (a b c s n : ℕ) → a ≤ b + s → b ≤ c + n * s → a ≤ c + suc n * s
later_reading a b c s n x y = grind arith

later_second : (a b c s n : ℕ) → a + s ≤ b → c + n * s ≤ a → c + suc n * s ≤ b
later_second a b c s n x y = grind arith

one_more : (n m r : ℕ) → r + n * m + m ≡ r + suc n * m
one_more n m r = grind arith

module _ (clock : ℕ → ℕ) (m step : ℕ) (h : IsSteady clock m step) where
  pub not_before : (r i : ℕ) → clock r ≤ clock (r + i)
  not_before r zero = subst (λ x. clock r ≤ clock x) (sym (add-zero r)) (le_refl (clock r))
  not_before r (suc i) =
      subst (λ x. clock r ≤ clock x) (sym (add-suc r i))
        (le_trans (not_before r i) (h.forward (r + i)))

  pub not_far : (r i : ℕ) → clock (r + i) ≤ clock r + i * step
  not_far r zero =
      subst (λ x. clock x ≤ clock r + zero * step) (sym (add-zero r)) (no_more (clock r) step)
  not_far r (suc i) =
      subst (λ x. clock x ≤ clock r + suc i * step) (sym (add-suc r i))
        (later_reading (clock (suc (r + i))) (clock (r + i)) (clock r) step i (h.gradual (r + i))
          (not_far r i))

  pub seconds_pass : (r n : ℕ) → clock r + n * nanoseconds ≤ clock (r + n * m)
  seconds_pass r zero =
      subst (λ x. clock r + zero * nanoseconds ≤ clock x) (none_more r m)
        (no_less (clock r) nanoseconds)
  seconds_pass r (suc n) =
      subst (λ x. clock r + suc n * nanoseconds ≤ clock x) (one_more n m r)
        (later_second (clock (r + n * m)) (clock (r + n * m + m)) (clock r) nanoseconds n
          (h.second (r + n * m)) (seconds_pass r n))

  -- What the i-th reading after the next one shows, against the reading r.
  pub passed : (r x i : ℕ) → x ≡ suc r + i → (e : ℕ) × (clock x ≡ clock r + e) × (e ≤ suc i * step)
  passed r x i at =
      let after = subst (λ y. clock r ≤ clock y) (reading_after r x i at) (not_before r (suc i)) in
      let near =
        subst (λ y. clock y ≤ clock r + suc i * step) (reading_after r x i at)
          (not_far r (suc i)) in
      (clock x - clock r, omega arith, omega arith)

  -- By the reading that `n` seconds take, they have passed.
  pub long_passed : (r x n e : ℕ) → x ≡ suc r + n * m → clock x ≡ clock r + e → n * nanoseconds ≤ e
  long_passed r x n e at shown =
      let now =
        subst (λ y. clock (r + n * m) ≤ clock y) (reading_next r (n * m) x at)
          (h.forward (r + n * m)) in
      let long = seconds_pass r n in omega arith
