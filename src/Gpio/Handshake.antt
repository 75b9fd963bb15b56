-- ===== src/Gpio/Handshake.antt =====
-- src/gpio/gpio.c: the status that `virtio_gpio_init` shows the device while it brings it up.
use qnx_virtio.Common.{
  ℕ, ◌≡◌, refl, ap, sym, subst, ◌∙◌, List, true, Option, none, some, eok, is_ok, arith, bit_or, u8,
}
use qnx_virtio.Os.{Os}
use qnx_virtio.Virtq.{Virtq}
use qnx_virtio.Virtio.{
  Device, Ops, add_device_status, read_device_config, on_queue, enable_queue, status_acknowledge,
  status_driver, status_driver_ok, status_features_ok,
}
use qnx_virtio.Virtio.Laws.{StatusRegister}
use qnx_virtio.Virtio.Reset.{Delay, reset_device}
use qnx_virtio.Virtio.Queue.{Outcome, Uninit, create_queue}
use qnx_virtio.Virtio.Keeps.{Keeps, Good, GoodIfAny, on_queue-Good}
use qnx_virtio.Virtio.Kept.{GoodOutcome, create_queue-Good}
use qnx_virtio.Gpio.{Memory}
use qnx_virtio.Gpio.Request.{Driver}
use qnx_virtio.Gpio.Start.{
  running, add_status, negotiate, go, conclude, bring_up, config_words, config_ngpio,
  config_names_size,
}

-- A record of what is written to the status of the device, of any kind: `note` adds a value to it.
-- Reading the status adds nothing.
pub record StatusLog {L T : Type 0} (ops : Ops L T) : Type 1 where
  pub Log : Type 0
  pub note : ℕ → Log → Log
  pub written : T → Log
  pub get-written : (t : T) → written (ops.get_device_status t).1 ≡ written t
  pub set-written :
      (n : ℕ) (t : T) → written (ops.set_device_status n t).1 ≡ note (u8 n) (written t)

-- The record after `virtio_gpio_init` has written the status four times, in this order:
-- ACKNOWLEDGE, with DRIVER, with FEATURES_OK, with DRIVER_OK.
abbrev pub handshake : {L T : Type 0} {ops : Ops L T} (log : StatusLog ops) → log.Log → log.Log
handshake log l = log.note 15 (log.note 11 (log.note 3 (log.note 1 l)))

module _ (os : Os) {T : Type 0} (delay : Delay T)
    (free : (l : os.spin.Lock) → is_ok (os.spin.spin_lock l).0 ≡ true) where
  open os use {spin, World}

  abbrev pub at : Device spin.Lock T → spin.Lock → T → Device spin.Lock T
  at dev l t = record dev { lock = l; priv = t }

  add_status-at :
      (dev : Device spin.Lock T) (bits : ℕ) (r : StatusRegister dev.ops) (log : StatusLog dev.ops)
      → (l : spin.Lock) × (t : T) × (add_status os delay bits dev ≡ at dev l t)
        × (r.status t ≡ u8 (bit_or (r.status dev.priv) bits))
        × (log.written t ≡ log.note (u8 (bit_or (r.status dev.priv) bits)) (log.written dev.priv))
  unfolding add_status add_device_status
  add_status-at dev bits r log =
      let next = bit_or (r.status dev.priv) bits in
      let t = (dev.ops.get_device_status dev.priv).1 in
      (
        (spin.spin_unlock (spin.spin_lock dev.lock).1).1,
        (dev.ops.set_device_status next t).1,
        ground (arith, free dev.lock, r.get-status dev.priv),
        r.set-status next t,
        log.set-written next t ∙ ap (log.note (u8 next)) (log.get-written dev.priv),
      )

  add_status-same :
      (dev : Device spin.Lock T) (bits : ℕ) (ops : Ops spin.Lock T)
      → dev.ops ≡ ops
      → (r : StatusRegister ops) (log : StatusLog ops)
      → let next = u8 (bit_or (r.status dev.priv) bits) in
        let t = (add_status os delay bits dev).priv in
        (r.status t ≡ next) × (log.written t ≡ log.note next (log.written dev.priv))
  add_status-same dev bits ops e =
      subst
        (λ ops.
          (r : StatusRegister ops) (log : StatusLog ops)
          → (r.status (add_status os delay bits dev).priv ≡ u8 (bit_or (r.status dev.priv) bits))
            × (log.written (add_status os delay bits dev).priv
                ≡ log.note (u8 (bit_or (r.status dev.priv) bits)) (log.written dev.priv)))
        e
        (λ r log.
          (let (l, t, same, status, written) = add_status-at dev bits r log in
            (ap (λ d. r.status d.priv) same ∙ status, ap (λ d. log.written d.priv) same ∙ written)))

  -- What the operations that `virtio_gpio_init` calls between its writes of the status do to it: the
  -- status and the record of its writes stay.
  abbrev pub Shows :
      {ops : Ops spin.Lock T}
      → (r : StatusRegister ops) (log : StatusLog ops) → (n : ℕ) → log.Log
      → T
      → Type 0
  Shows r log n l t = (r.status t ≡ n) × (log.written t ≡ l)

  pub record KeepsStatus (ops : Ops spin.Lock T) (r : StatusRegister ops) (log : StatusLog ops)
      : Type 0 where
    pub queues : (n : ℕ) (l : log.Log) → Keeps ops delay (Shows r log n l)
    pub config :
        (len offset : ℕ) (t : T)
        → Shows r log (r.status t) (log.written t) (ops.read_device_config len offset t).1

  abbrev device_of : Device spin.Lock T → Option (List ℕ × Device spin.Lock T) → Device spin.Lock T
  device_of dev none = dev
  device_of dev (some (config, dev')) = dev'

  negotiate-status :
      (fuel : ℕ) (vdev : Device spin.Lock T) (t : T) (r : StatusRegister vdev.ops)
      (log : StatusLog vdev.ops)
      → KeepsStatus vdev.ops r log
      → reset_device spin delay fuel vdev ≡ some (eok, record vdev { priv = t })
      → r.status t ≡ 0
      → (config : List ℕ) × (l : spin.Lock) × (t' : T) × (negotiate os delay fuel vdev
          ≡ some (config, at vdev l t'))
        × Shows r log 11 (log.note 11 (log.note 3 (log.note 1 (log.written t)))) t'
  unfolding negotiate read_device_config
  negotiate-status fuel vdev t r log keep reset zero =
      let (l1, t1, same1, status1, log1) =
        add_status-at (record vdev { priv = t }) status_acknowledge r log in
      let (l2, t2, same2, status2, log2) = add_status-at (at vdev l1 t1) status_driver r log in
      let (config, t3) = vdev.ops.read_device_config 8 0 t2 in
      let (l4, t4, same4, status4, log4) = add_status-at (at vdev l2 t3) status_features_ok r log in
      let is1 : r.status t1 ≡ 1 = status1 ∙ ap (λ n. u8 (bit_or n status_acknowledge)) zero in
      let is3 : r.status t2 ≡ 3 = status2 ∙ ap (λ n. u8 (bit_or n status_driver)) is1 in
      let is3' : r.status t3 ≡ 3 = (keep.config 8 0 t2).0 ∙ is3 in
      let log1' : log.written t1 ≡ log.note 1 (log.written t) =
        log1 ∙ ap (λ n. log.note (u8 (bit_or n status_acknowledge)) (log.written t)) zero in
      let log2' : log.written t2 ≡ log.note 3 (log.written t1) =
        log2 ∙ ap (λ n. log.note (u8 (bit_or n status_driver)) (log.written t1)) is1 in
      let log4' : log.written t4 ≡ log.note 11 (log.written t3) =
        log4 ∙ ap (λ n. log.note (u8 (bit_or n status_features_ok)) (log.written t3)) is3' in
      (
        config_words config,
        l4,
        t4,
        ground (arith, reset, same1, same2, same4),
        (
          status4 ∙ ap (λ n. u8 (bit_or n status_features_ok)) is3',
          log4' ∙ ap (log.note 11) ((keep.config 8 0 t2).1 ∙ log2' ∙ ap (log.note 3) log1'),
        ),
      )

  -- If locks can be taken, the device's status register is changed by nothing but a reset and a
  -- write of the status, the reset ends with status 0 and `virtio_create_queue` on the device
  -- behind the negotiation returns EOK with a queue, `virtio_gpio_init` starts the driver with that
  -- queue. After the reset it writes the status four times: ACKNOWLEDGE (1), then DRIVER with it
  -- (3), then FEATURES_OK with these (11), all before the queue is created, and in the end DRIVER_OK
  -- with these (15). So a record of the writes, of any kind, holds them in this order.
  pub bring_up-status :
      (fuel : ℕ) (u : Uninit) (idx qsize : ℕ) (memory : Memory) (vdev : Device spin.Lock T)
      (w : World) (t : T) (r : StatusRegister vdev.ops) (log : StatusLog vdev.ops) (config : List ℕ)
      (dev : Device spin.Lock T) (o : Outcome spin.Lock T World) (made : Device spin.Lock T)
      (vq : Virtq spin.Lock)
      → KeepsStatus vdev.ops r log
      → reset_device spin delay fuel vdev ≡ some (eok, record vdev { priv = t })
      → r.status t ≡ 0
      → negotiate os delay fuel vdev ≡ some (config, dev)
      → create_queue os delay fuel u (some dev) 0 qsize dev.irq true true w ≡ some o
      → o.rc ≡ eok
      → o.dev ≡ some made
      → o.vq ≡ some vq
      → (g : Driver os T) × (last : Device spin.Lock T) × (r.status dev.priv ≡ 11)
        × (log.written dev.priv ≡ log.note 11 (log.note 3 (log.note 1 (log.written t))))
        × (bring_up os delay fuel u idx qsize memory vdev w ≡ some (running g o.thread))
        × (g.requestq ≡ vq)
        × (g.dev ≡ some last)
        × (r.status last.priv ≡ 15)
        × (log.written last.priv ≡ handshake log (log.written t))
  unfolding bring_up conclude go enable_queue
  bring_up-status fuel u idx qsize memory vdev w t r log config dev o made vq keep reset zero
        negotiated created rc dev' queue =
      let (config', l, t', done, shown) = negotiate-status fuel vdev t r log keep reset zero in
      let same : at vdev l t' ≡ dev = ap (device_of dev) (sym done ∙ negotiated) in
      let before = log.note 11 (log.note 3 (log.note 1 (log.written t))) in
      let start : Good delay (Shows r log 11 before) vdev.ops dev =
        subst (Good delay (Shows r log 11 before) vdev.ops) same
          record { same = refl; keeps = keep.queues 11 before; holds = shown } in
      let kept =
        create_queue-Good os delay (Shows r log 11 before) vdev.ops fuel u dev 0 qsize dev.irq true
          true w start in
      let good : Good delay (Shows r log 11 before) vdev.ops made =
        subst (GoodIfAny delay (Shows r log 11 before) vdev.ops) dev'
          (subst (GoodOutcome os delay (Shows r log 11 before) vdev.ops) created kept) in
      let enabled =
        on_queue-Good spin delay (Shows r log 11 before) vdev.ops (λ rc. rc) made 0
          (made.ops.enable_queue true) (good.keeps.enable true) good in
      let on = (on_queue spin (λ rc. rc) made 0 (made.ops.enable_queue true)).1 in
      let last = add_status os delay status_driver_ok on in
      let g : Driver os T = record {
        idx = idx;
        ngpio = config_ngpio config;
        gpio_names_size = config_names_size config;
        dev = some last;
        requestq = vq;
        memory = memory;
        world = o.world;
      } in
      let (status, written) = add_status-same on status_driver_ok vdev.ops enabled.same r log in
      (
        g,
        last,
        start.holds.0,
        start.holds.1,
        rw (bring_up, negotiated, created, conclude, rc, dev', queue) refl,
        refl,
        refl,
        status ∙ ap (λ n. u8 (bit_or n status_driver_ok)) enabled.holds.0,
        written
            ∙ ap (λ n. log.note (u8 (bit_or n status_driver_ok)) (log.written on.priv))
                enabled.holds.0
            ∙ ap (log.note 15) enabled.holds.1,
      )
