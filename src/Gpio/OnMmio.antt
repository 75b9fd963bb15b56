-- ===== src/Gpio/OnMmio.antt =====
-- src/gpio/gpio.c and src/virtio_mmio/virtio_mmio.c: `virtio_gpio_init` on a device with memory-mapped
-- registers.
use qnx_virtio.Common.{
  ℕ, zero, suc, ◌+◌, ◌*◌, ◌/◌, ◌≡◌, ◌≢◌, refl, ap, ◌∙◌, List, Bool, Option, none, some, true, false,
  eok, is_ok, arith, u8, u32,
}
use qnx_virtio.Os.{Os}
use qnx_virtio.Virtq.{Virtq}
use qnx_virtio.Virtio.{Device, get_device_status}
use qnx_virtio.Virtio.Reset.{Delay, reset_device, poll_device}
use qnx_virtio.Virtio.Queue.{Outcome, Uninit, create_queue}
use qnx_virtio.Mmio
use qnx_virtio.Mmio.{Bus, MmioDevice, reg_status, reg_config}
use qnx_virtio.Mmio.Address.{mmio_ops, set_queue_addr, write_addr}
use qnx_virtio.Mmio.Config
use qnx_virtio.Mmio.Config.{read_words}
use qnx_virtio.Mmio.Laws.{RegisterFile, mmio_status}
use qnx_virtio.Gpio.{Memory}
use qnx_virtio.Gpio.Request.{Driver}
use qnx_virtio.Gpio.Start.{running, negotiate, bring_up}
use qnx_virtio.Gpio.Handshake.{StatusLog, KeepsStatus, bring_up-status}

module _ {Hw : Type 0} (bus : Bus Hw) (file : RegisterFile bus) (mdev : MmioDevice) where
  open file use {reg, reg-write, reg-read}

  -- The status register.
  abbrev at_status : Hw → ℕ
  at_status hw = reg (mdev.vaddr + reg_status) hw

  write-other :
      (offset v : ℕ) (hw : Hw)
      → offset ≢ reg_status
      → at_status (bus.write (mdev.vaddr + offset) v hw) ≡ at_status hw
  write-other offset v hw ne =
      ground (arith, reg-write (mdev.vaddr + reg_status) (mdev.vaddr + offset) v hw)

  read_words-status :
      (offset word words : ℕ) (hw : Hw)
      → at_status (read_words bus mdev offset word words hw).1 ≡ at_status hw
  unfolding read_words
  read_words-status offset word zero hw = refl
  read_words-status offset word (suc words) hw =
      let a = mdev.vaddr + u32 (reg_config + offset + word * 4) in
      read_words-status offset (suc word) words (bus.read a hw).1
      ∙ reg-read (mdev.vaddr + reg_status) a hw

  write_addr-status :
      (low paddr : ℕ) (hw : Hw)
      → low ≢ reg_status
      → low + 4 ≢ reg_status
      → at_status (write_addr bus mdev low paddr hw) ≡ at_status hw
  unfolding write_addr
  write_addr-status low paddr hw ne ne' = write-other (low + 4) _ _ ne' ∙ write-other low _ hw ne

  set_queue_addr-status :
      {L : Type 0} (b : Bool) (vq : Option (Virtq L)) (hw : Hw)
      → at_status (set_queue_addr bus mdev b vq hw).1 ≡ at_status hw
  unfolding set_queue_addr
  set_queue_addr-status b none hw = refl
  set_queue_addr-status true (some vq) hw = write-other _ _ hw (λ e. omega arith)
  set_queue_addr-status false (some vq) hw =
      write_addr-status _ _ _ (λ e. omega arith) (λ e. omega arith)
      ∙ write_addr-status _ _ _ (λ e. omega arith) (λ e. omega arith)
      ∙ write_addr-status _ _ hw (λ e. omega arith) (λ e. omega arith)

  read_device_config-status :
      (len offset : ℕ) (hw : Hw)
      → at_status (Config.read_device_config bus (some (some mdev)) true len offset hw).1
        ≡ at_status hw
  unfolding Config.read_device_config
  read_device_config-status len offset hw = ground (arith, read_words-status offset 0 (len / 4) hw)

module _ (os : Os) {Hw : Type 0} (bus : Bus Hw) (file : RegisterFile bus)
    (delay : Delay (MmioDevice × Hw))
    (free : (l : os.spin.Lock) → is_ok (os.spin.spin_lock l).0 ≡ true)
    (still : (n : ℕ) (t : MmioDevice × Hw)
      → ((delay n t).1.0 ≡ t.0)
        × (at_status bus file t.0 (delay n t).1.1 ≡ at_status bus file t.0 t.1)) where
  open os use {spin, World}

  -- No record of the writes.
  mmio_log : StatusLog (mmio_ops bus {L = spin.Lock})
  mmio_log = record {
    Log = Unit {0};
    note = λ n l. l;
    written = λ t. tt;
    get-written = λ t. refl;
    set-written = λ n t. refl;
  }

  mmio_keeps : KeepsStatus os delay free (mmio_ops bus) (mmio_status bus file) mmio_log
  unfolding mmio_log mmio_ops mmio_status Mmio.select_queue Mmio.enable_queue Mmio.set_queue_reset
      Mmio.get_queue_reset Mmio.max_queue_size Mmio.set_queue_size
  mmio_keeps = record {
    queues = λ n l. record {
      sleep = λ k t h. (
        ap (λ (m : MmioDevice). u8 (at_status bus file m (delay k t).1.1)) (still k t).0
            ∙ ap u8 (still k t).1
            ∙ h.0,
        h.1,
      );
      addr = λ b vq (mdev, hw) h. (ap u8 (set_queue_addr-status bus file mdev b vq hw) ∙ h.0, h.1);
      select = λ i (mdev, hw) h.
          (ap u8 (write-other bus file mdev _ _ hw (λ e. omega arith)) ∙ h.0, h.1);
      enable = λ b (mdev, hw) h.
          (ap u8 (write-other bus file mdev _ _ hw (λ e. omega arith)) ∙ h.0, h.1);
      set_reset =
          λ (mdev, hw) h. (ap u8 (write-other bus file mdev _ _ hw (λ e. omega arith)) ∙ h.0, h.1);
      get_reset = λ (mdev, hw) h. (ap u8 (file.reg-read (mdev.vaddr + reg_status) _ hw) ∙ h.0, h.1);
      max_size = λ (mdev, hw) h. (ap u8 (file.reg-read (mdev.vaddr + reg_status) _ hw) ∙ h.0, h.1);
      set_size = λ k (mdev, hw) h.
          (ap u8 (write-other bus file mdev _ _ hw (λ e. omega arith)) ∙ h.0, h.1);
    };
    config = λ len offset (mdev, hw).
        (ap u8 (read_device_config-status bus file mdev len offset hw), refl);
  }

  -- The registers after a reset: the status is written and read back.
  abbrev reset_hw : MmioDevice → Hw → Hw
  reset_hw mdev hw = let a = mdev.vaddr + reg_status in (bus.read a (bus.write a (u32 0) hw)).1

  mmio_reset :
      (fuel : ℕ) (dev : Device spin.Lock (MmioDevice × Hw))
      → let vdev = record dev { ops = mmio_ops bus } in
        (reset_device spin delay (suc fuel) vdev
          ≡ some (eok, record vdev { priv = (dev.priv.0, reset_hw dev.priv.0 dev.priv.1) }))
        × (at_status bus file dev.priv.0 (reset_hw dev.priv.0 dev.priv.1) ≡ 0)
  unfolding reset_device poll_device get_device_status mmio_ops Mmio.reset_device
      Mmio.get_device_status
  mmio_reset fuel dev =
      let a = dev.priv.0.vaddr + reg_status in
      let hw = bus.write a (u32 0) dev.priv.1 in
      let clear : file.reg a hw ≡ 0 = ground (arith, file.reg-write a a (u32 0) dev.priv.1) in
      let value : (bus.read a hw).0 ≡ 0 = file.read-reg a hw ∙ clear in
      (rw value refl, file.reg-read a a hw ∙ clear)

  -- On a device with memory-mapped registers that hold what is written to them and keep it while
  -- time passes, if locks can be taken and `virtio_create_queue` behind the negotiation returns EOK
  -- with a queue, `virtio_gpio_init` starts the driver with that queue: the lowest byte of the
  -- status register is ACKNOWLEDGE, DRIVER and FEATURES_OK (11) when the queue is created, and in the
  -- end these and DRIVER_OK (15), whatever it was before.
  pub bring_up-mmio_ops :
      (fuel : ℕ) (u : Uninit) (idx qsize : ℕ) (memory : Memory)
      (vdev : Device spin.Lock (MmioDevice × Hw)) (w : World) (config : List ℕ)
      (dev : Device spin.Lock (MmioDevice × Hw)) (o : Outcome spin.Lock (MmioDevice × Hw) World)
      (made : Device spin.Lock (MmioDevice × Hw)) (vq : Virtq spin.Lock)
      → negotiate os delay (suc fuel) (record vdev { ops = mmio_ops bus }) ≡ some (config, dev)
      → create_queue os delay (suc fuel) u (some dev) 0 qsize dev.irq true true w ≡ some o
      → o.rc ≡ eok
      → o.dev ≡ some made
      → o.vq ≡ some vq
      → let status = λ (t : MmioDevice × Hw). u8 (at_status bus file t.0 t.1) in
        (g : Driver os (MmioDevice × Hw)) × (last : Device spin.Lock (MmioDevice × Hw)) × (status
            dev.priv
          ≡ 11)
        × (bring_up os delay (suc fuel) u idx qsize memory (record vdev { ops = mmio_ops bus }) w
            ≡ some (running g o.thread))
        × (g.requestq ≡ vq)
        × (g.dev ≡ some last)
        × (status last.priv ≡ 15)
  unfolding mmio_status
  bring_up-mmio_ops fuel u idx qsize memory vdev w config dev o made vq negotiated created rc dev'
        queue =
      let (reset, cleared) = mmio_reset fuel vdev in
      let (g, last, negotiated_status, log, started, queue_of, dev_of, final, log') =
        bring_up-status os delay free (suc fuel) u idx qsize memory
          (record vdev { ops = mmio_ops bus }) w (vdev.priv.0, reset_hw vdev.priv.0 vdev.priv.1)
          (mmio_status bus file) mmio_log config dev o made vq mmio_keeps reset (ap u8 cleared)
          negotiated created rc dev' queue in
      (g, last, negotiated_status, started, queue_of, dev_of, final)
