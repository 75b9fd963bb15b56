-- ===== src/Virtio/Kept.antt =====
-- src/virtio/virtio.c: `virtio_create_queue` and what it keeps.
use qnx_virtio.Common.{
  ℕ, Bool, true, Option, none, some, Errno, eok, einval, enodev, is_ok, ok, err, if◌then◌else◌,
  ◌==◌, ◌&&◌,
}
use qnx_virtio.Os.{Os}
use qnx_virtio.Virtq.{Virtq}
use qnx_virtio.Virtq.Create
use qnx_virtio.Virtio.{
  Ops, Device, on_queue, set_queue_addr, set_queue_size, max_queue_size, set_queue_reset,
}
use qnx_virtio.Virtio.Reset.{Delay, reset_queue}
use qnx_virtio.Virtio.Queue.{
  Outcome, Uninit, start_queue, size_queue, configure_queue, chosen_size, create_queue_on,
  create_queue,
}
use qnx_virtio.Virtio.Keeps.{
  Good, GoodIfAny, GoodResult, Good-if, Good-record, on_queue-Good, poll_queue-Good,
}

module _ (os : Os) {T : Type 0} (delay : Delay T) (Inv : T → Type 0)
    (ops : Ops os.spin.Lock T) where
  open os use {spin, World}

  abbrev Out : Type 0
  Out = Outcome spin.Lock T World

  abbrev GoodOut : Out → Type 0
  GoodOut o = GoodIfAny delay Inv ops o.dev

  abbrev pub GoodOutcome : Option Out → Type 0
  GoodOutcome none = Unit {0}
  GoodOutcome (some o) = GoodOut o

  reset_queue-Good :
      (fuel uninit index : ℕ) (dev : Device spin.Lock T)
      → Good delay Inv ops dev
      → GoodResult delay Inv ops (reset_queue spin delay fuel uninit (some dev) index)
  unfolding reset_queue set_queue_reset
  reset_queue-Good fuel uninit index dev g =
      let set =
        on_queue-Good spin delay Inv ops (λ rc. rc) dev index dev.ops.set_queue_reset
          g.keeps.set_reset g in
      let (rc, dev') = set_queue_reset spin (some dev) index in
      Good-if (GoodResult delay Inv ops) (is_ok rc) _ (some (rc, dev'))
        (poll_queue-Good spin delay Inv ops fuel index uninit dev.queue_reset_timeout_ms _ set) set

  start_queue-Good :
      (irq : ℕ) (vq : Option (Virtq spin.Lock)) (dev : Option (Device spin.Lock T)) (w : World)
      → GoodIfAny delay Inv ops dev
      → GoodOut (start_queue os delay irq vq dev w)
  unfolding start_queue set_queue_addr
  start_queue-Good irq vq none w g = tt
  start_queue-Good irq vq (some dev) w g =
      let set = Good-record delay Inv dev.lock _ g (g.keeps.addr dev.leagcy vq dev.priv g.holds) in
      let (rc, dev') = set_queue_addr dev vq in
      Good-if GoodOut (is_ok rc)
        (record { rc = eok; vq = vq; dev = some dev'; world = w; thread = some irq })
        (record { rc = rc; vq = vq; dev = some dev'; world = w; thread = none }) set set

  size_queue-Good :
      (index size irq : ℕ) (vq : Option (Virtq spin.Lock)) (dev : Option (Device spin.Lock T))
      (w : World)
      → GoodIfAny delay Inv ops dev
      → GoodOut (size_queue os delay index size irq vq dev w)
  unfolding size_queue set_queue_size
  size_queue-Good index size irq vq none w g = tt
  size_queue-Good index size irq vq (some dev) w g =
      let set =
        on_queue-Good spin delay Inv ops (λ rc. rc) dev index (dev.ops.set_queue_size size)
          (g.keeps.set_size size) g in
      let (rc, dev') = set_queue_size spin (some dev) index size in
      Good-if GoodOut (is_ok rc) (start_queue os delay irq vq dev' w)
        (record { rc = rc; vq = vq; dev = dev'; world = w; thread = none })
        (start_queue-Good irq vq dev' w set) set

  sized :
      (index size irq : ℕ) (vq : Option (Virtq spin.Lock)) (w : World)
      (r : Option (Errno × Option (Device spin.Lock T)))
      → GoodResult delay Inv ops r
      → GoodOutcome (elim r as (λ _. Option Out) [
        | none ↦ none
        | some (rc, dev') ↦ some (
            if is_ok rc
            then size_queue os delay index size irq vq dev' w
            else record { rc = rc; vq = vq; dev = dev'; world = w; thread = none })
      ])
  sized index size irq vq w none g = tt
  sized index size irq vq w (some (rc, dev')) g =
      Good-if GoodOut (is_ok rc) _ _ (size_queue-Good index size irq vq dev' w g) g

  configure_queue-Good :
      (fuel : ℕ) (u : Uninit) (index size irq : ℕ) (vq : Option (Virtq spin.Lock))
      (dev : Device spin.Lock T) (w : World)
      → Good delay Inv ops dev
      → GoodOutcome (configure_queue os delay fuel u index size irq vq (some dev) w)
  unfolding configure_queue
  configure_queue-Good fuel u index size irq vq dev w g =
      sized index size irq vq w (reset_queue spin delay fuel u.queue_reset (some dev) index)
        (reset_queue-Good fuel u.queue_reset index dev g)

  -- If the transport's operations on queues and the passing of time keep a property of its state,
  -- `virtio_create_queue` keeps it too, on every path, and the device keeps its operations.
  pub create_queue-Good :
      (fuel : ℕ) (u : Uninit) (dev : Device spin.Lock T) (index size irq : ℕ) (callback out : Bool)
      (w : World)
      → Good delay Inv ops dev
      → GoodOutcome (create_queue os delay fuel u (some dev) index size irq callback out w)
  unfolding create_queue create_queue_on max_queue_size
  create_queue-Good fuel u dev index size irq callback out w g =
      let asked =
        on_queue-Good spin delay Inv ops err dev index dev.ops.max_queue_size g.keeps.max_size g in
      let (read, dev') = on_queue spin err dev index dev.ops.max_queue_size in
      let max = elim read as (λ _. ℕ) [ ok n ↦ n | err _ ↦ u.queue_size ] in
      let queue_size = chosen_size os delay size max in
      let (rc, vq, w') = Create.create os queue_size dev.leagcy true w in
      Good-if GoodOutcome (callback && out) (create_queue_on os delay fuel u dev index size irq w)
        (some (record { rc = einval; vq = none; dev = some dev; world = w; thread = none }))
        (Good-if GoodOutcome (queue_size == 0)
          (some (record { rc = enodev; vq = none; dev = some dev'; world = w; thread = none }))
          (if is_ok rc
            then configure_queue os delay fuel u index size irq vq (some dev') w'
            else some (record { rc = rc; vq = vq; dev = some dev'; world = w'; thread = none }))
          asked
          (Good-if GoodOutcome (is_ok rc)
            (configure_queue os delay fuel u index size irq vq (some dev') w')
            (some (record { rc = rc; vq = vq; dev = some dev'; world = w'; thread = none }))
            (configure_queue-Good fuel u index size irq vq dev' w' asked) asked))
        g
