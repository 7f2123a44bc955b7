-- ===== src/Tests/Retrying.antt =====
-- The retry loop with a backoff of doubling durations, and an operation that succeeds in the end.
use semaphore_xds.Prelude.{true, ℕ, zero, suc, ◌*◌, ◌≡◌, refl, none, some, [], ◌∷◌}
use semaphore_xds.Backoff.{Backoffs, WatchOperation, retry_watch}
use semaphore_xds.Backoff.Stops.{SucceedsAfter, retry_watch-returns, after_rounds}

abbrev doubling : Backoffs
doubling = record {
  Backoff = ℕ × ℕ;
  make = λ jitter min max. (min, min);
  reset = λ b. (b.0, b.0);
  duration = λ b. (b.1, (b.0, b.1 * 2));
}

-- The world counts the failures that are left.
abbrev failing : WatchOperation ℕ
failing zero = (none, 0)
failing (suc n) = (some "failed", n)

retry_watch-returns_example :
    retry_watch doubling failing 5 2
    ≡ after_rounds doubling failing 2 5
        (doubling.reset (doubling.make true 2000000000 60000000000))
        0
retry_watch-returns_example = retry_watch-returns doubling failing 2 5 2 0 (
    SucceedsAfter.after_failure 2 1 0 "failed" 1 refl
      (SucceedsAfter.after_failure 1 0 0 "failed" 0 refl (SucceedsAfter.at_once 0 0 refl)))

sleeps :
    retry_watch doubling failing 5 2
    ≡ some (2000000000 ∷ 4000000000 ∷ [], (2000000000, 8000000000), 0)
unfolding retry_watch
sleeps = refl
