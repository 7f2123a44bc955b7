-- ===== src/Backoff.antt =====
-- The retry loop of backoff/retry.go. backoff/backoff.go is a copy of github.com/jpillora/backoff,
-- so that its type is a parameter.
pub mod Stops
use semaphore_xds.Prelude.{ℕ, zero, suc, String, Bool, true, Option, none, some, List, [], ◌∷◌}
use mathlib.Core.Option

-- Backoff, with a time.Duration as its nanoseconds. Its state has the random source of the jitter.
pub record Backoffs : Type 1 where
  pub Backoff : Type 0
  -- &Backoff{Jitter: …, Min: …, Max: …}
  pub make : Bool → ℕ → ℕ → Backoff
  pub reset : Backoff → Backoff
  -- Duration()
  pub duration : Backoff → ℕ × Backoff

-- watchOperation, with the world that it changes; `none` is the nil error.
abbrev pub WatchOperation : Type 0 → Type 0
WatchOperation World = World → Option String × World

abbrev pub default_backoff_jitter : Bool
default_backoff_jitter = true

abbrev pub default_backoff_min : ℕ
default_backoff_min = 2000000000

abbrev pub default_backoff_max : ℕ
default_backoff_max = 60000000000

-- What a loop that returns leaves: the durations of its sleeps, in order, the backoff and the world.
abbrev pub Returned : Backoffs → Type 0 → Type 0
Returned bs World = List ℕ × bs.Backoff × World

module _ (bs : Backoffs) {World : Type 0} (op : WatchOperation World) where
  -- at most so many rounds of the loop; `none` where it has not returned by then
  unfoldable pub retry_loop : ℕ → bs.Backoff → World → Option (Returned bs World)
  retry_loop zero b world = none
  retry_loop (suc rounds) b world =
      let (error, world') = op world in
      let (d, b') = bs.duration b in
      let rest : Option (Returned bs World) = retry_loop rounds b' world' in
      elim error [
        | none ↦ some ([], b, world')
        | some e ↦ Option.map (λ (r : Returned bs World). (d ∷ r.0, r.1, r.2)) rest
      ]

  unfoldable pub retry_with_backoff : ℕ → bs.Backoff → World → Option (Returned bs World)
  unfolding retry_loop
  retry_with_backoff rounds b world = retry_loop rounds (bs.reset b) world

  unfoldable pub retry_watch : ℕ → World → Option (Returned bs World)
  unfolding retry_with_backoff
  retry_watch rounds world =
      retry_with_backoff rounds
        (bs.make default_backoff_jitter default_backoff_min default_backoff_max) world
