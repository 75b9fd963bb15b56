-- ===== src/Virtio/Reset.antt =====
-- src/virtio/virtio.c: the resets, which poll the device until it is done or the time is over. The
-- loops run on fuel, and `none` means that it ran out.
use qnx_virtio.Common.{
  ℕ, zero, suc, ◌-◌, true, Option, none, some, Errno, eok, einval, etimedout, is_ok, ok, err,
  if◌then◌else◌, ◌==◌, ◌&&◌, not, ltb, min,
}
use qnx_virtio.Spinlock.{Spinlock}
use qnx_virtio.Virtio.{Device, get_device_status, set_queue_reset, get_queue_reset, call}

-- `delay(ms)` of <unistd.h>: time passes for the device, and the milliseconds not slept come back.
abbrev pub Delay : Type 0 → Type 0
Delay T = ℕ → T → ℕ × T

module _ (s : Spinlock) {T : Type 0} (delay : Delay T) where
  open s use {Lock}

  -- `while (remaining_poll_interval_ms > 0) remaining_poll_interval_ms = delay(…);`
  unfoldable pub pause : (fuel remaining : ℕ) → T → Option T
  pause zero remaining t = if ltb 0 remaining then none else some t
  pause (suc fuel) remaining t =
      let (remaining', t') = delay remaining t in
      let rest = pause fuel remaining' t' in if ltb 0 remaining then rest else some t

  -- The outer loop of `virtio_reset_device`, from the status that was read last. The inner loop has
  -- as much fuel as it has milliseconds to sleep.
  unfoldable pub poll_device :
      (fuel status remaining : ℕ) → Device Lock T → Option (Errno × Device Lock T)
  unfolding pause get_device_status
  poll_device zero status remaining dev = none
  poll_device (suc fuel) status remaining dev =
      let interval = dev.device_reset_poll_interval_ms in
      let next = λ (t : T).
        (let (read, dev') = get_device_status (record dev { priv = t }) in
          elim read as (λ _. Option (Errno × Device Lock T)) [
            | err rc ↦ some (rc, dev')
            | ok status' ↦ poll_device fuel status' (remaining - min remaining interval) dev'
          ]) in
      let round = elim (pause interval interval dev.priv) as (λ _. Option (Errno × Device Lock T)) [
        | none ↦ none
        | some t ↦ next t
      ] in
      if not (status == 0) && ltb 0 remaining
      then round
      else some (if status == 0 then eok else etimedout, dev)

  unfoldable pub reset_device : (fuel : ℕ) → Device Lock T → Option (Errno × Device Lock T)
  unfolding poll_device get_device_status
  reset_device fuel dev =
      let (rc, dev1) = call dev dev.ops.reset_device in
      if is_ok rc
      then (let (read, dev2) = get_device_status dev1 in
          elim read as (λ _. Option (Errno × Device Lock T)) [
            | err rc' ↦ some (rc', dev2)
            | ok status ↦ poll_device fuel status dev.device_reset_timeout_ms dev2
          ])
      else some (rc, dev1)

  -- The loop of `virtio_reset_queue`. It sleeps by the interval of the device's reset, and counts by
  -- that of the queue's.
  unfoldable pub poll_queue :
      (fuel index queue_reset remaining : ℕ)
      → Device Lock T
      → Option (Errno × Option (Device Lock T))
  unfolding pause get_queue_reset
  poll_queue zero index queue_reset remaining dev = none
  poll_queue (suc fuel) index queue_reset remaining dev =
      let interval = dev.device_reset_poll_interval_ms in
      let left = remaining - min remaining dev.queue_reset_poll_interval_ms in
      let next = λ (t : T).
        (let (read, dev') = get_queue_reset s (some (record dev { priv = t })) index true in
          elim read as (λ _. Option (Errno × Option (Device Lock T))) [
            | err rc ↦ some (rc, dev')
            | ok value ↦ elim dev' as (λ _. Option (Errno × Option (Device Lock T))) [
              | none ↦ some (einval, none)
              | some d ↦ poll_queue fuel index value left d
            ]
          ]) in
      let round =
        elim (pause interval interval dev.priv) as (λ _. Option (Errno × Option (Device Lock T))) [
          | none ↦ none
          | some t ↦ next t
        ] in
      if not (queue_reset == 0) && ltb 0 remaining
      then round
      else some (if queue_reset == 0 then eok else etimedout, some dev)

  -- `uninit` is what the local variable `queue_reset` holds: the source does not set it before the
  -- loop reads it.
  unfoldable pub reset_queue :
      (fuel uninit : ℕ)
      → Option (Device Lock T)
      → (index : ℕ) → Option (Errno × Option (Device Lock T))
  unfolding poll_queue set_queue_reset
  reset_queue fuel uninit none index = some (einval, none)
  reset_queue fuel uninit (some dev) index =
      let (rc, dev') = set_queue_reset s (some dev) index in
      if is_ok rc
      then (elim dev' as (λ _. Option (Errno × Option (Device Lock T))) [
        | none ↦ some (einval, none)
        | some d ↦ poll_queue fuel index uninit dev.queue_reset_timeout_ms d
      ])
      else some (rc, dev')
