-- ===== src/Spinlock.antt =====
-- The spinlocks of <pthread.h>, which the program calls and does not implement: the calls as
-- functions of the lock word, with the documented effect on who holds the lock.
use qnx_virtio.Common.{◌≡◌, Bool, true, false, Errno, is_ok}

pub record Spinlock : Type 1 where
  pub Lock : Type 0
  pub spin_init : Lock → Errno × Lock
  pub spin_destroy : Lock → Errno × Lock
  pub spin_lock : Lock → Errno × Lock
  pub spin_unlock : Lock → Errno × Lock
  pub held : Lock → Bool
  -- A lock that could be initialised is free.
  pub held-init : (l : Lock) → is_ok (spin_init l).0 ≡ true → held (spin_init l).1 ≡ false
  -- An attempt that reports an error does not change who holds the lock.
  pub held-lock : (l : Lock) → is_ok (spin_lock l).0 ≡ false → held (spin_lock l).1 ≡ held l
  -- The holder's release leaves the lock free.
  pub held-unlock :
      (l : Lock) → is_ok (spin_lock l).0 ≡ true → held (spin_unlock (spin_lock l).1).1 ≡ false
