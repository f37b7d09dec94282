-- ===== src/Logging/Init/Laws.antt =====
-- That the log is initialised at most once.
use safe_client_libs.Shared.{◌≡◌, ◌≢◌, refl}
use safe_client_libs.Logging.Init.{
  InitEnd, Once, ok, err, panic, fresh, done, poisoned, init_once_guard, after_init,
}

module _ {N : Type 0} where
  after_init-ne-fresh : (r : InitEnd (Unit {0}) × N) → (after_init r).1.0 ≢ fresh
  after_init-ne-fresh (ok a, n) = λ e. cc e
  after_init-ne-fresh (err x, n) = λ e. cc e
  after_init-ne-fresh (panic, n) = λ e. cc e

  once_done :
      (init_fn : N → InitEnd (Unit {0}) × N) (o : Once) (n : N)
      → o ≢ fresh
      → ((init_once_guard init_fn (o, n)).1 ≡ (o, n)) × ((init_once_guard init_fn (o, n)).0 ≢ ok tt)
  unfolding init_once_guard
  once_done init_fn fresh n h = absurd (h refl)
  once_done init_fn done n h = (refl, λ e. cc e)
  once_done init_fn poisoned n h = (refl, λ e. cc e)

  -- After a first initialisation, whatever came of it, no second one succeeds, and none has any
  -- effect.
  pub init_once_guard_again :
      (first second : N → InitEnd (Unit {0}) × N) (start : Once × N)
      → let (_, s) = init_once_guard first start in
        ((init_once_guard second s).1 ≡ s) × ((init_once_guard second s).0 ≢ ok tt)
  unfolding init_once_guard
  init_once_guard_again first second (fresh, n) =
      once_done second (after_init (first n)).1.0 (after_init (first n)).1.1
        (after_init-ne-fresh (first n))
  init_once_guard_again first second (done, n) = once_done second done n (λ e. cc e)
  init_once_guard_again first second (poisoned, n) = once_done second poisoned n (λ e. cc e)
