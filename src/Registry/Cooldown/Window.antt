-- ===== src/Registry/Cooldown/Window.antt =====
-- The window of proxy/interceptors/cooldown.go: when a version leaves it, and how the three results
-- of `cooldownIsWithinWindow` fit together.
use pmg.Prelude.{ℕ, ◌+◌, ◌*◌, ◌≤◌, ◌<◌, ◌≡◌, ◌↔◌, true, false, arith}
use pmg.Registry.Cooldown.{day, max_duration, days_since, is_within_window, within}

-- For a window of at least a day, and no longer than the greatest duration, a version is inside
-- exactly until that many days after its publication; with a window of no days it never is.
pub within_iff :
    (now published days : ℕ)
    → days * day ≤ max_duration
    → (within now published days ≡ true) ↔ ((0 < days) × (now < published + days * day))
unfolding is_within_window days_since
within_iff now published days h = (λ e. ground arith, λ (p, q). ground arith)

-- The three results fit together: inside the window the days since publication and the days that
-- remain add up to the window and some remain, outside it none remain. Once a version has left the
-- window it never returns to it.
pub is_within_window_results :
    (now later published days : ℕ)
    → now ≤ later
    → let (inside, elapsed, remaining) = is_within_window now published days in
      (inside ≡ true → (elapsed + remaining ≡ days) × (0 < remaining))
      × (inside ≡ false → (remaining ≡ 0) × (days ≤ elapsed))
      × (inside ≡ false → within later published days ≡ false)
unfolding is_within_window days_since
is_within_window_results now later published days h =
    (λ e. ground arith, λ e. ground arith, λ e. ground arith)
