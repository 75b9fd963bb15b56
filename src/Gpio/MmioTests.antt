-- ===== src/Gpio/MmioTests.antt =====
-- The start of the GPIO driver on plain registers, on the small system `sim`.
use qnx_virtio.Common.{
  ℕ, ◌+◌, ◌≡◌, refl, [], ◌∷◌, Bool, true, false, Option, none, some, List, eok, u8, if◌then◌else◌,
  ◌==◌,
}
use qnx_virtio.Sim.{sim, SimWorld}
use qnx_virtio.Virtq.Sample.{world, later, three, create-three}
use qnx_virtio.Virtio.{
  Device, read_device_config, get_device_status, add_device_status, on_queue, select_queue,
  max_queue_size, set_queue_size, set_queue_addr, set_queue_reset,
}
use qnx_virtio.Virtio.Reset.{reset_device, poll_device, reset_queue, poll_queue}
use qnx_virtio.Virtio.Queue.{
  Outcome, create_queue, create_queue_on, configure_queue, size_queue, start_queue, chosen_size,
}
use qnx_virtio.Mmio
use qnx_virtio.Mmio.{Bus, MmioDevice}
use qnx_virtio.Mmio.Address
use qnx_virtio.Mmio.Address.{mmio_ops}
use qnx_virtio.Mmio.Config
use qnx_virtio.Mmio.Laws.{RegisterFile}
use qnx_virtio.Gpio.OnMmio.{bring_up-mmio_ops}
use qnx_virtio.Gpio.Panel.{memory, zeros}
use qnx_virtio.Gpio.Request.{Driver}
use qnx_virtio.Gpio.Start.{running, negotiate, bring_up, add_status}

abbrev Registers : Type 0
Registers = ℕ → ℕ

abbrev plain : Bus Registers
plain = record { read = λ a hw. (hw a, hw); write = λ a v hw. (λ b. if b == a then v else hw b) }

unfoldable plain-RegisterFile : RegisterFile plain
plain-RegisterFile = record {
  reg = λ a hw. hw a;
  reg-write = λ a b v hw. refl;
  reg-read = λ a b hw. refl;
  read-reg = λ a hw. refl;
}

abbrev T : Type 0
T = MmioDevice × Registers

abbrev mdev : MmioDevice
mdev = record { paddr = 167772160; vaddr = 4096; pagesize = 4096 }

-- The driver before has left DRIVER_OK, and queues have at most 3 descriptors.
abbrev registers : Registers
registers a = if a == 4096 + 112 then 4 else if a == 4096 + 52 then 3 else 0

abbrev board : Device Bool T
board = record {
  lock = false;
  leagcy = false;
  ops = mmio_ops plain;
  device_reset_timeout_ms = 500;
  device_reset_poll_interval_ms = 10;
  queue_reset_timeout_ms = 500;
  queue_reset_poll_interval_ms = 10;
  irq = 5;
  priv = (mdev, registers);
}

abbrev nap : ℕ → T → ℕ × T
nap n t = (0, t)

abbrev device_of : Option (List ℕ × Device Bool T) → Device Bool T
device_of none = board
device_of (some (config, dev)) = dev

abbrev made_of : Option (Outcome Bool T SimWorld) → Device Bool T
made_of none = board
made_of (some o) = elim o.dev as (λ _. Device Bool T) [ none ↦ board | some dev ↦ dev ]

abbrev negotiated : Device Bool T
negotiated = device_of (negotiate sim nap 1 board)

abbrev made : Device Bool T
made = made_of (create_queue sim nap 1 zeros (some negotiated) 0 3 5 true true world)

abbrev created : Outcome Bool T SimWorld
created = record { rc = eok; vq = some three; dev = some made; world = later; thread = some 5 }

create_queue-plain :
    create_queue sim nap 1 zeros (some negotiated) 0 3 5 true true world ≡ some created
unfolding create_queue create_queue_on configure_queue size_queue start_queue chosen_size
    max_queue_size set_queue_size set_queue_addr set_queue_reset reset_queue poll_queue on_queue
    select_queue mmio_ops Mmio.select_queue Mmio.max_queue_size Mmio.set_queue_size
    Mmio.set_queue_reset Mmio.enable_queue Address.set_queue_addr negotiate reset_device poll_device
    get_device_status read_device_config add_status add_device_status Mmio.reset_device
    Mmio.get_device_status Mmio.set_device_status Config.read_device_config
create_queue-plain = rw create-three refl

bring_up-mmio_ops_example :
    (g : Driver sim T) × (last : Device Bool T) × (u8 (negotiated.priv.1 (4096 + 112)) ≡ 11)
    × (bring_up sim nap 1 zeros 0 3 memory board world ≡ some (running g (some 5)))
    × (g.requestq ≡ three)
    × (g.dev ≡ some last)
    × (u8 (last.priv.1 (last.priv.0.vaddr + 112)) ≡ 15)
unfolding plain-RegisterFile negotiate reset_device poll_device get_device_status read_device_config
    add_status add_device_status mmio_ops Mmio.reset_device Mmio.get_device_status
    Mmio.set_device_status Config.read_device_config
bring_up-mmio_ops_example =
    bring_up-mmio_ops sim plain plain-RegisterFile nap (λ l. refl) (λ n t. (refl, refl)) 0 zeros 0 3
      memory board world (0 ∷ 0 ∷ []) negotiated created made three refl create_queue-plain refl
      refl refl
