-- ===== src/Logging/Locks.antt =====
-- utils/logging/logging.c: the logger's mutex.
use qnx_virtio.Common.{ℕ, ◌≡◌, List, Option, none, some, true, false, is_ok, arith}
use qnx_virtio.Logging.{LogSystem, LoggingCtx, logging_init, logging_shutdown}

module _ {W : Type 0} (sys : LogSystem W) where
  open sys use {Mutex, mutex_lock, held, held-lock, held-unlock}

  -- A call of `logging_init` leaves a free mutex free on every path: with no identifier, with a
  -- mutex that cannot be taken, with a logger that is there already, and whether the registration
  -- fails or not. So does `logging_shutdown` if the mutex can be taken.
  pub mutex-released :
      (ident : Option (List ℕ)) (flags : ℕ) (ctx : LoggingCtx Mutex) (w : W)
      → held ctx.mutex ≡ false
      → (held (logging_init sys ident flags ctx w).1.mutex ≡ false)
        × (is_ok (mutex_lock ctx.mutex).0 ≡ true
            → held (logging_shutdown sys ctx w).0.mutex ≡ false)
  unfolding logging_init logging_shutdown
  mutex-released none flags ctx w h = (h, λ t. ground (arith, held-unlock ctx.mutex))
  mutex-released (some ident) flags ctx w h = (
    ground (arith, held-lock ctx.mutex, held-unlock ctx.mutex),
    λ t. ground (arith, held-unlock ctx.mutex),
  )
