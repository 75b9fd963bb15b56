-- ===== src/Virtio/Laws.antt =====
-- The calls on one queue and on the device status: the lock, the selected queue, the status bits.
use qnx_virtio.Common.{
  ℕ, ◌^◌, ◌<◌, ◌≡◌, Bool, Option, none, some, false, Errno, eok, is_ok, is_ok→eq, ok, arith,
  if◌then◌else◌, ◌==◌, ◌&&◌, bit_or, u8,
}
use qnx_virtio.Spinlock.{Spinlock}
use qnx_virtio.Virtio.{Ops, Device, on_queue, add_device_status, enable_queue}

-- The lock word of a device that may be gone.
abbrev pub lock_of : {L T : Type 0} → Option (Device L T) → L → L
lock_of none l = l
lock_of (some dev) l = dev.lock

abbrev pub priv_of : {L T : Type 0} → Option (Device L T) → T → T
priv_of none t = t
priv_of (some dev) t = dev.priv

-- A transport whose device has a status register, as the VirtIO specification describes it.
pub record StatusRegister {L T : Type 0} (ops : Ops L T) : Type 0 where
  pub status : T → ℕ
  pub get-status : (t : T) → (ops.get_device_status t).0 ≡ ok (status t)
  pub get-same : (t : T) → status (ops.get_device_status t).1 ≡ status t
  pub set-rc : (n : ℕ) (t : T) → (ops.set_device_status n t).0 ≡ eok
  pub set-status : (n : ℕ) (t : T) → status (ops.set_device_status n t).1 ≡ u8 n

-- A transport whose device keeps an enable flag for each queue and writes that of the queue selected
-- last, as the VirtIO specification describes it.
pub record QueueRegisters {L T : Type 0} (ops : Ops L T) : Type 0 where
  pub selected : T → ℕ
  pub enabled : ℕ → T → Bool
  pub select-rc : (i : ℕ) (t : T) → (ops.select_queue i t).0 ≡ eok
  pub select-selected : (i : ℕ) (t : T) → i < 2 ^ 16 → selected (ops.select_queue i t).1 ≡ i
  pub select-enabled : (i j : ℕ) (t : T) → enabled j (ops.select_queue i t).1 ≡ enabled j t
  pub enable-enabled :
      (b : Bool) (j : ℕ) (t : T)
      → enabled j (ops.enable_queue b t).1 ≡ (if selected t == j then b else enabled j t)

module _ (s : Spinlock) {T : Type 0} where
  open s use {Lock, spin_lock, spin_unlock, held, held-lock, held-unlock}

  -- The body shared by the calls on one queue, and `virtio_add_device_status`, leave a free lock
  -- free, whether the lock, the selection or the operation fails or not.
  pub device_lock-released :
      {A : Type 0} (failed : Errno → A) (dev : Device Lock T) (index status : ℕ) (op : T → A × T)
      → held dev.lock ≡ false
      → (held (on_queue s failed dev index op).1.lock ≡ false)
        × (held (lock_of (add_device_status s (some dev) status).1 dev.lock) ≡ false)
  unfolding on_queue add_device_status
  device_lock-released failed dev index status op h = (
    ground (arith, held-lock dev.lock, held-unlock dev.lock),
    ground (arith, held-lock dev.lock, held-unlock dev.lock),
  )

  -- On a transport with a status register, `virtio_add_device_status` returns the lock's code, and
  -- leaves in the register the lowest byte of its bits and the new ones together; if the lock
  -- cannot be taken, it leaves the register as it was.
  pub add_device_status-or :
      (dev : Device Lock T) (bits : ℕ) (r : StatusRegister dev.ops)
      → let (rc, dev') = add_device_status s (some dev) bits in
        (rc ≡ (spin_lock dev.lock).0)
        × (r.status (priv_of dev' dev.priv) ≡ (
            if is_ok (spin_lock dev.lock).0
            then u8 (bit_or (r.status dev.priv) bits)
            else r.status dev.priv))
  unfolding add_device_status
  add_device_status-or dev bits r = ground (
    arith,
    is_ok→eq (spin_lock dev.lock).0,
    r.get-status dev.priv,
    r.get-same dev.priv,
    r.set-rc (bit_or (r.status dev.priv) bits) (dev.ops.get_device_status dev.priv).1,
    r.set-status (bit_or (r.status dev.priv) bits) (dev.ops.get_device_status dev.priv).1,
  )

  -- On a transport with an enable flag for each queue, `virtio_enable_queue` with an index of 16 bits
  -- sets that of the queue that it is given and of no other; if the lock cannot be taken, it sets
  -- none.
  pub enable_queue-enabled :
      (dev : Device Lock T) (i j : ℕ) (b : Bool) (r : QueueRegisters dev.ops)
      → i < 2 ^ 16
      → r.enabled j (priv_of (enable_queue s (some dev) i b).1 dev.priv)
        ≡ (if is_ok (spin_lock dev.lock).0 && (i == j) then b else r.enabled j dev.priv)
  unfolding enable_queue
  enable_queue-enabled dev i j b r small = ground (
    arith,
    r.select-rc i dev.priv,
    r.select-selected i dev.priv,
    r.select-enabled i j dev.priv,
    r.enable-enabled b j (dev.ops.select_queue i dev.priv).1,
  )
