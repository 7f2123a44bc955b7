-- ===== src/Backoff/Stops.antt =====
-- When the retry loop returns, and what it has slept by then.
use semaphore_xds.Prelude.{
  false, true, inr, inl, Bool-cases, if◌then◌else◌, ltb, ℕ, zero, suc, String, ◌≡◌, refl, ap,
  Option, none, some, List, [], ◌∷◌, arith,
}
use semaphore_xds.Backoff.{Backoffs, WatchOperation, Returned, retry_loop, retry_watch}

ltb-zero : (n : ℕ) → ltb n 0 ≡ false
ltb-zero n = ground arith

ltb-zero-suc : (n : ℕ) → ltb 0 (suc n) ≡ true
ltb-zero-suc n = ground arith

ltb-suc-suc : (m n : ℕ) → ltb (suc m) (suc n) ≡ ltb m n
ltb-suc-suc m n = ground arith

module _ {World : Type 0} (op : WatchOperation World) where
  -- The operation fails `n` times in a row and then succeeds, with the last world at the end.
  pub data SucceedsAfter : ℕ → World → World → Type 0 where
    at_once : (world last : World) → op world ≡ (none, last) → SucceedsAfter 0 world last
    after_failure :
        (world world' last : World) (error : String) (n : ℕ)
        → op world ≡ (some error, world')
        → SucceedsAfter n world' last
        → SucceedsAfter (suc n) world last

module _ (bs : Backoffs) where
  -- The next `n` durations of a backoff, and the backoff after them.
  abbrev pub durations : ℕ → bs.Backoff → List ℕ
  durations zero b = []
  durations (suc n) b = (bs.duration b).0 ∷ durations n (bs.duration b).1

  abbrev pub backoff_after : ℕ → bs.Backoff → bs.Backoff
  backoff_after zero b = b
  backoff_after (suc n) b = backoff_after n (bs.duration b).1

module _ (bs : Backoffs) {World : Type 0} (op : WatchOperation World) where
  -- what the loop has come to after so many rounds
  abbrev pub after_rounds : ℕ → ℕ → bs.Backoff → World → Option (Returned bs World)
  after_rounds n rounds b last =
      if ltb n rounds then some (durations bs n b, backoff_after bs n b, last) else none

  retry_loop-after_rounds :
      (rounds : ℕ) (b : bs.Backoff) {n : ℕ} {world last : World}
      → SucceedsAfter op n world last
      → retry_loop bs op rounds b world ≡ after_rounds n rounds b last
  unfolding retry_loop
  retry_loop-after_rounds zero b {n} s = rw (ltb-zero n) refl
  retry_loop-after_rounds (suc rounds) b (at_once world last e) =
      rw (e, retry_loop, ltb-zero-suc rounds)
        (ap (λ (r : Option String × World). some ([], b, r.1)) e)
  retry_loop-after_rounds (suc rounds) b (after_failure world world' last error n e s) =
      rw
        (
          e,
          retry_loop,
          ap (λ (r : Option String × World). r.1) e,
          retry_loop-after_rounds rounds (bs.duration b).1 s,
          ltb-suc-suc n rounds,
        )
        (elim (Bool-cases (ltb n rounds)) [ inl h ↦ rw h refl | inr h ↦ rw h refl ])

  -- Where the watch operation fails n times in a row and then succeeds, RetryWatch returns in the
  -- round after the n failures and in no earlier one; by then it has slept exactly n times, for the
  -- first n durations of a backoff between 2 seconds and 1 minute that was reset before, in order,
  -- and the world is the one that the operation leaves.
  pub retry_watch-returns :
      (n rounds : ℕ) (world last : World)
      → SucceedsAfter op n world last
      → retry_watch bs op rounds world
        ≡ after_rounds n rounds (bs.reset (bs.make true 2000000000 60000000000)) last
  unfolding retry_watch
  retry_watch-returns n rounds world last s =
      retry_loop-after_rounds rounds (bs.reset (bs.make true 2000000000 60000000000)) s
