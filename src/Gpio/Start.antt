-- ===== src/Gpio/Start.antt =====
-- src/gpio/gpio.c: `virtio_gpio_init`. The transport's own initialisation is an argument, so this is
-- the call for MMIO and for PCI. The reset and the creation of the queue run on fuel, so does it.
use qnx_virtio.Common.{
  ℕ, Bool, true, Option, none, some, List, [], Errno, einval, is_ok, Result, ok, err, if◌then◌else◌,
  get_or, u16, u32,
}
use qnx_virtio.Os.{Os}
use qnx_virtio.Virtq.{Virtq}
use qnx_virtio.Virtio.{
  Device, read_device_config, add_device_status, enable_queue, destroy, status_acknowledge,
  status_driver, status_driver_ok, status_features_ok,
}
use qnx_virtio.Virtio.Reset.{Delay, reset_device}
use qnx_virtio.Virtio.Queue.{Outcome, Uninit, create_queue}
use qnx_virtio.Gpio.{Memory}
use qnx_virtio.Gpio.Request.{Driver}

-- What the initialisation of a transport leaves behind: a device, or its code after it has destroyed
-- the device.
pub data Brought (L T : Type 0) : Type 0 where
  up : Device L T → Brought L T
  down : Errno → Brought L T

-- What the call leaves behind. `refused`: `*dev` is not written. `failed`: the device is destroyed,
-- and `*dev` is null. `destroyed_twice`: a device that is destroyed already is destroyed again, and
-- C does not say what happens.
pub data Started (os : Os) (T : Type 0) : Type 0 where
  running : Driver os T → (thread : Option ℕ) → Started os T
  refused : Errno → Started os T
  failed : Errno → Option (Device os.spin.Lock T) → os.World → Started os T
  destroyed_twice : Errno → Started os T

-- `struct virtio_gpio_config` from the words that the transport stores, on a little-endian machine.
abbrev pub config_ngpio : List ℕ → ℕ
config_ngpio words = u16 (get_or words 0 0)

abbrev pub config_names_size : List ℕ → ℕ
config_names_size words = u32 (get_or words 1 0)

-- A read that fails leaves the zeros of `calloc`.
abbrev pub config_words : Result (List ℕ) → List ℕ
config_words (ok words) = words
config_words (err rc) = []

module _ (os : Os) {T : Type 0} (delay : Delay T) where
  open os use {spin, World}

  -- The result of `virtio_add_device_status` is not looked at.
  unfoldable pub add_status : (bits : ℕ) → Device spin.Lock T → Device spin.Lock T
  add_status bits dev = elim (add_device_status spin (some dev) bits).1 [ none ↦ dev | some d ↦ d ]

  -- From the reset to the end of the feature negotiation: the device, and the words of its
  -- configuration. What the reset and the read return is not looked at.
  unfoldable pub negotiate : (fuel : ℕ) → Device spin.Lock T → Option (List ℕ × Device spin.Lock T)
  negotiate fuel vdev =
      elim (reset_device spin delay fuel vdev) as (λ _. Option (List ℕ × Device spin.Lock T)) [
        | none ↦ none
        | some (rc, dev) ↦ some (
            let dev1 = add_status status_driver (add_status status_acknowledge dev) in
            let (config, dev2) = read_device_config dev1 8 0 in
            (config_words config, add_status status_features_ok dev2))
      ]

  -- The queue is enabled, and the driver is ready. `memory` holds no buffers yet.
  unfoldable pub go :
      (idx : ℕ)
      → (config : List ℕ) → Memory
      → Virtq spin.Lock
      → Device spin.Lock T
      → (thread : Option ℕ) → World
      → Started os T
  go idx config memory vq dev thread w =
      let enabled = elim (enable_queue spin (some dev) 0 true).1 as (λ _. Device spin.Lock T) [
        | none ↦ dev
        | some d ↦ d
      ] in
      running
        record {
          idx = idx;
          ngpio = config_ngpio config;
          gpio_names_size = config_names_size config;
          dev = some (add_status status_driver_ok enabled);
          requestq = vq;
          memory = memory;
          world = w;
        }
        thread

  -- What follows `virtio_create_queue`. `none`: it returned EOK with no device or no queue.
  unfoldable pub conclude :
      (idx : ℕ) → (config : List ℕ) → Memory → Outcome spin.Lock T World → Option (Started os T)
  conclude idx config memory o =
      let done = elim o.dev as (λ _. Option (Started os T)) [
        | none ↦ none
        | some dev ↦ elim o.vq as (λ _. Option (Started os T)) [
          | none ↦ none
          | some vq ↦ some (go idx config memory vq dev o.thread o.world)
        ]
      ] in
      if is_ok o.rc then done else some (failed o.rc (destroy spin o.dev).1 o.world)

  -- The call once the transport has been initialised.
  unfoldable pub bring_up :
      (fuel : ℕ)
      → Uninit
      → (idx qsize : ℕ) → Memory
      → Device spin.Lock T
      → World
      → Option (Started os T)
  bring_up fuel u idx qsize memory vdev w =
      elim (negotiate fuel vdev) as (λ _. Option (Started os T)) [
        | none ↦ none
        | some (config, dev) ↦
            elim (create_queue os delay fuel u (some dev) 0 qsize dev.irq true true w)
              as (λ _. Option (Started os T)) [
                | none ↦ none
                | some o ↦ conclude idx config memory o
              ]
      ]

  -- `block` says whether `calloc` grants the structure, `made` is what `virtio_init` returns and
  -- hands out, and `transport` the initialisation of the transport.
  unfoldable pub init :
      {Hw : Type 0}
      → (fuel : ℕ) → Uninit
      → (out block : Bool) → (errno : Errno) → (made : Errno × Option (Device spin.Lock Hw))
      → (transport : Device spin.Lock Hw → Option (Brought spin.Lock T)) → (idx qsize : ℕ) → Memory
      → World
      → Option (Started os T)
  init fuel u out block errno (rc, vdev) transport idx qsize memory w =
      let brought = elim vdev as (λ _. Option (Started os T)) [
        | none ↦ some (refused rc)
        | some dev ↦ elim (transport dev) as (λ _. Option (Started os T)) [
          | none ↦ none
          | some (up d) ↦ bring_up fuel u idx qsize memory d w
          | some (down rc') ↦ some (destroyed_twice rc')
        ]
      ] in
      if out
      then (if block
          then (if is_ok rc then brought else some (refused rc))
          else some (refused errno))
      else some (refused einval)
