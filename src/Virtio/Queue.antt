-- ===== src/Virtio/Queue.antt =====
-- src/virtio/virtio.c: `virtio_create_queue`. Its resets run on fuel, so does it.
use qnx_virtio.Common.{
  ℕ, Bool, true, Option, none, some, Errno, eok, einval, enodev, is_ok, ok, err, if◌then◌else◌,
  ◌==◌, ◌&&◌, min,
}
use qnx_virtio.Os.{Os}
use qnx_virtio.Virtq.{Virtq}
use qnx_virtio.Virtq.Create
use qnx_virtio.Virtio.{Device, max_queue_size, set_queue_size, set_queue_addr}
use qnx_virtio.Virtio.Reset.{Delay, reset_queue}

-- What the call leaves behind: its code, what it has written to `*vq`, and the interrupt of the
-- service thread, if it has started one.
pub record Outcome (L T W : Type 0) : Type 0 where
  pub rc : Errno
  pub vq : Option (Virtq L)
  pub dev : Option (Device L T)
  pub world : W
  pub thread : Option ℕ

-- What the local variables `queue_size` and `queue_reset` hold before they are set.
pub record Uninit : Type 0 where
  pub queue_size : ℕ
  pub queue_reset : ℕ

module _ (os : Os) {T : Type 0} (delay : Delay T) where
  open os use {spin, World}

  abbrev pub Created : Type 0
  Created = Outcome spin.Lock T World

  abbrev outcome : Errno → Option (Virtq spin.Lock) → Option (Device spin.Lock T) → World → Created
  outcome rc vq dev w = record { rc = rc; vq = vq; dev = dev; world = w; thread = none }

  -- The address, and the thread that waits for the interrupt.
  unfoldable pub start_queue :
      (irq : ℕ) → Option (Virtq spin.Lock) → Option (Device spin.Lock T) → World → Created
  unfolding set_queue_addr
  start_queue irq vq none w = outcome einval vq none w
  start_queue irq vq (some dev) w =
      let (rc, dev') = set_queue_addr dev vq in
      if is_ok rc
      then record { rc = eok; vq = vq; dev = some dev'; world = w; thread = some irq }
      else outcome rc vq (some dev') w

  -- The size that the device is told is the argument `size`, not the size of the queue.
  unfoldable pub size_queue :
      (index size irq : ℕ)
      → Option (Virtq spin.Lock)
      → Option (Device spin.Lock T)
      → World
      → Created
  unfolding set_queue_size
  size_queue index size irq vq dev w =
      let (rc, dev') = set_queue_size spin dev index size in
      if is_ok rc then start_queue irq vq dev' w else outcome rc vq dev' w

  unfoldable pub configure_queue :
      (fuel : ℕ)
      → Uninit
      → (index size irq : ℕ) → Option (Virtq spin.Lock)
      → Option (Device spin.Lock T)
      → World
      → Option Created
  unfolding reset_queue
  configure_queue fuel u index size irq vq dev w =
      elim (reset_queue spin delay fuel u.queue_reset dev index) as (λ _. Option Created) [
        | none ↦ none
        | some (rc, dev') ↦
            some (if is_ok rc then size_queue index size irq vq dev' w else outcome rc vq dev' w)
      ]

  -- `queue_size = size == 0 ? queue_size : min(size, queue_size)`
  unfoldable pub chosen_size : (size max : ℕ) → ℕ
  chosen_size size max = if size == 0 then max else min size max

  -- `virtio_create_queue` after its check of the pointers. A failed `virtio_max_queue_size` is
  -- ignored.
  unfoldable pub create_queue_on :
      (fuel : ℕ) → Uninit → Device spin.Lock T → (index size irq : ℕ) → World → Option Created
  unfolding max_queue_size chosen_size
  create_queue_on fuel u dev index size irq w =
      let (read, dev') = max_queue_size spin (some dev) index true in
      let max = elim read as (λ _. ℕ) [ ok n ↦ n | err _ ↦ u.queue_size ] in
      let queue_size = chosen_size size max in
      if queue_size == 0
      then some (outcome enodev none dev' w)
      else (let (rc, vq, w') = Create.create os queue_size dev.leagcy true w in
          if is_ok rc
          then configure_queue fuel u index size irq vq dev' w'
          else some (outcome rc vq dev' w'))

  -- `callback` and `out` say whether those pointers are not null.
  unfoldable pub create_queue :
      (fuel : ℕ)
      → Uninit
      → Option (Device spin.Lock T)
      → (index size irq : ℕ) → (callback out : Bool) → World
      → Option Created
  create_queue fuel u none index size irq callback out w = some (outcome einval none none w)
  create_queue fuel u (some dev) index size irq callback out w =
      if callback && out
      then create_queue_on fuel u dev index size irq w
      else some (outcome einval none (some dev) w)
