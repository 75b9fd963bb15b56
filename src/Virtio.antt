-- ===== src/Virtio.antt =====
-- src/virtio/virtio.h and src/virtio/virtio.c: a device whatever its transport. `T` is the state of
-- the transport: its private data and the hardware behind it. The operations of the transport are
-- functions in the device, as in the source. An absent device is a null pointer.
pub mod Reset
pub mod Queue
pub mod Laws
pub mod Polling
pub mod Keeps
pub mod Kept
pub mod Service
mod Tests
use qnx_virtio.Common.{
  ℕ, Bool, Option, none, some, List, Errno, eok, einval, is_ok, Result, ok, err, if◌then◌else◌,
  bit_or,
}
use qnx_virtio.Spinlock.{Spinlock}
use qnx_virtio.Virtq.{Virtq}

-- `struct virtio_ops`, but for `virtq_callback`, which runs the interrupt's work. `set_queue_addr`
-- is given the device's `leagcy`, and `read_device_config` stores words of 32 bits. An output pointer of a call from this layer is never null.
pub record Ops (L T : Type 0) : Type 0 where
  pub read_device_features : (count : ℕ) → T → Result (List ℕ) × T
  pub write_driver_features : List ℕ → T → Errno × T
  pub set_device_status : ℕ → T → Errno × T
  pub get_device_status : T → Result ℕ × T
  pub reset_device : T → Errno × T
  pub read_device_config : (len offset : ℕ) → T → Result (List ℕ) × T
  pub set_queue_addr : (leagcy : Bool) → Option (Virtq L) → T → Errno × T
  pub select_queue : ℕ → T → Errno × T
  pub notify_queue : ℕ → T → Errno × T
  pub enable_queue : Bool → T → Errno × T
  pub set_queue_reset : T → Errno × T
  pub get_queue_reset : T → Result ℕ × T
  pub max_queue_size : T → Result ℕ × T
  pub set_queue_size : ℕ → T → Errno × T

-- `struct virtio_device`
pub record Device (L T : Type 0) : Type 0 where
  pub lock : L
  pub leagcy : Bool
  pub ops : Ops L T
  pub device_reset_timeout_ms : ℕ
  pub device_reset_poll_interval_ms : ℕ
  pub queue_reset_timeout_ms : ℕ
  pub queue_reset_poll_interval_ms : ℕ
  pub irq : ℕ
  pub priv : T

-- `VIRTIO_DEVICE_STATUS_…`
abbrev pub status_acknowledge : ℕ
status_acknowledge = 1

abbrev pub status_driver : ℕ
status_driver = 2

abbrev pub status_driver_ok : ℕ
status_driver_ok = 4

abbrev pub status_features_ok : ℕ
status_features_ok = 8

-- A call of one of the device's operations.
abbrev pub call : {L T : Type 0} {A : Type 0} → Device L T → (T → A × T) → A × Device L T
call dev op = let (a, t) = op dev.priv in (a, record dev { priv = t })

module _ {L T : Type 0} where
  unfoldable pub read_device_features : Device L T → (count : ℕ) → Result (List ℕ) × Device L T
  read_device_features dev count = call dev (dev.ops.read_device_features count)

  unfoldable pub write_driver_features : Device L T → List ℕ → Errno × Device L T
  write_driver_features dev features = call dev (dev.ops.write_driver_features features)

  unfoldable pub set_device_status : Device L T → ℕ → Errno × Device L T
  set_device_status dev status = call dev (dev.ops.set_device_status status)

  unfoldable pub get_device_status : Device L T → Result ℕ × Device L T
  get_device_status dev = call dev dev.ops.get_device_status

  unfoldable pub read_device_config : Device L T → (len offset : ℕ) → Result (List ℕ) × Device L T
  read_device_config dev len offset = call dev (dev.ops.read_device_config len offset)

  unfoldable pub select_queue : Device L T → ℕ → Errno × Device L T
  select_queue dev index = call dev (dev.ops.select_queue index)

  unfoldable pub set_queue_addr : Device L T → Option (Virtq L) → Errno × Device L T
  set_queue_addr dev vq = call dev (dev.ops.set_queue_addr dev.leagcy vq)

-- The check of the device pointer.
abbrev pub on_device :
    {D : Type 0} {A : Type 0} → Option D → (refused : A) → (D → A × D) → A × Option D
on_device none refused f = (refused, none)
on_device (some dev) refused f = let (a, dev') = f dev in (a, some dev')

module _ (s : Spinlock) {T : Type 0} where
  open s use {Lock, spin_lock, spin_unlock}

  -- The body that the calls on one queue share: take the lock, select the queue, do the operation,
  -- release the lock at the label `unlock`. `failed` is what such a call makes of an error code.
  unfoldable pub on_queue :
      {A : Type 0}
      → (failed : Errno → A) → Device Lock T
      → (index : ℕ) → (T → A × T)
      → A × Device Lock T
  unfolding select_queue
  on_queue failed dev index op =
      let (rc, l) = spin_lock dev.lock in
      let locked = record dev { lock = l } in
      if is_ok rc
      then (let (rc', selected) = select_queue locked index in
          let (a, dev') = if is_ok rc' then call selected op else (failed rc', selected) in
          (a, record dev' { lock = (spin_unlock dev'.lock).1 }))
      else (failed rc, locked)

  unfoldable pub set_queue_reset :
      Option (Device Lock T) → (index : ℕ) → Errno × Option (Device Lock T)
  unfolding on_queue
  set_queue_reset dev index =
      on_device dev einval λ d. on_queue (λ rc. rc) d index d.ops.set_queue_reset

  unfoldable pub get_queue_reset :
      Option (Device Lock T) → (index : ℕ) → (out : Bool) → Result ℕ × Option (Device Lock T)
  unfolding on_queue
  get_queue_reset dev index out =
      if out
      then (on_device dev (err einval) λ d. on_queue err d index d.ops.get_queue_reset)
      else (err einval, dev)

  unfoldable pub notify_queue :
      Option (Device Lock T) → (index : ℕ) → Errno × Option (Device Lock T)
  unfolding on_queue
  notify_queue dev index =
      on_device dev einval λ d. on_queue (λ rc. rc) d index (d.ops.notify_queue index)

  unfoldable pub enable_queue :
      Option (Device Lock T) → (index : ℕ) → (enable : Bool) → Errno × Option (Device Lock T)
  unfolding on_queue
  enable_queue dev index enable =
      on_device dev einval λ d. on_queue (λ rc. rc) d index (d.ops.enable_queue enable)

  unfoldable pub max_queue_size :
      Option (Device Lock T) → (index : ℕ) → (out : Bool) → Result ℕ × Option (Device Lock T)
  unfolding on_queue
  max_queue_size dev index out =
      if out
      then (on_device dev (err einval) λ d. on_queue err d index d.ops.max_queue_size)
      else (err einval, dev)

  unfoldable pub set_queue_size :
      Option (Device Lock T) → (index size : ℕ) → Errno × Option (Device Lock T)
  unfolding on_queue
  set_queue_size dev index size =
      on_device dev einval λ d. on_queue (λ rc. rc) d index (d.ops.set_queue_size size)

  -- `virtio_add_device_status` with the lock held.
  add_status_locked : Device Lock T → (status : ℕ) → Errno × Device Lock T
  unfolding get_device_status set_device_status
  add_status_locked dev status =
      let (current, dev') = get_device_status dev in
      elim current [
        | err rc ↦ (rc, dev')
        | ok current_status ↦ set_device_status dev' (bit_or current_status status)
      ]

  unfoldable pub add_device_status :
      Option (Device Lock T) → (status : ℕ) → Errno × Option (Device Lock T)
  unfolding add_status_locked
  add_device_status dev status = on_device dev einval λ d.
      (let (rc, l) = spin_lock d.lock in
        let locked = record d { lock = l } in
        if is_ok rc
        then (let (rc', d') = add_status_locked locked status in
            (rc', record d' { lock = (spin_unlock d'.lock).1 }))
        else (rc, locked))

  -- `block` says whether `calloc` grants the structure, which it fills with zeros: the lock word and
  -- the private data are then `blank` and `priv`. A failed `pthread_spin_init` is only logged: the
  -- device is handed out with its code.
  unfoldable pub init :
      (out block : Bool)
      → (blank : Lock) → (ops : Ops Lock T) → (priv : T) → (errno : Errno)
      → Errno × Option (Device Lock T)
  init out block blank ops priv errno =
      if out
      then (if block
          then (let (rc, l) = s.spin_init blank in
              (
                rc,
                some (record {
                  lock = l;
                  leagcy = Bool.false;
                  ops = ops;
                  device_reset_timeout_ms = 500;
                  device_reset_poll_interval_ms = 10;
                  queue_reset_timeout_ms = 500;
                  queue_reset_poll_interval_ms = 10;
                  irq = 0;
                  priv = priv;
                }),
              ))
          else (errno, none))
      else (einval, none)

  -- On success the device is freed: nothing is left.
  unfoldable pub destroy : Option (Device Lock T) → Errno × Option (Device Lock T)
  destroy none = (einval, none)
  destroy (some dev) =
      let (rc, l) = s.spin_destroy dev.lock in
      if is_ok rc then (eok, none) else (rc, some (record dev { lock = l }))
