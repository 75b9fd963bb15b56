-- ===== src/Mmio/Tests.antt =====
-- Runs of the transport on plain registers.
use qnx_virtio.Common.{
  ℕ, ◌+◌, ◌*◌, ◌^◌, ◌≡◌, refl, [], ◌∷◌, Bool, true, false, some, arith, u8, eok, ok, ◌==◌,
  if◌then◌else◌,
}
use qnx_virtio.Virtq.{Virtq, zero_desc, zero_extras}
use qnx_virtio.Mmio.{Bus, MmioDevice}
use qnx_virtio.Mmio.Laws.{RegisterFile, add_device_status-mmio_ops}
use qnx_virtio.Sim.{locks}
use qnx_virtio.Virtio.Laws.{priv_of}
use qnx_virtio.Virtio.{Device, add_device_status, enable_queue}
use qnx_virtio.Mmio.Address.{set_queue_addr, mmio_ops}
use qnx_virtio.Mmio.Config.{read_device_config}
use qnx_virtio.Mmio.Queues.{QueueBank, enable_queue-mmio_ops}
use qnx_virtio.Mmio.Rings.{set_queue_addr-modern}
use qnx_virtio.Mmio.Words.{read_device_config-words}

abbrev Registers : Type 0
Registers = ℕ → ℕ

abbrev plain : Bus Registers
plain = record { read = λ a hw. (hw a, hw); write = λ a v hw. (λ b. if b == a then v else hw b) }

unfoldable plain-RegisterFile : RegisterFile plain
plain-RegisterFile = record {
  reg = λ a hw. hw a;
  reg-write = λ a b v hw. refl;
  reg-read = λ a b hw. refl;
  read-reg = λ a hw. refl;
}

abbrev mdev : MmioDevice
mdev = record { paddr = 167772160; vaddr = 4096; pagesize = 4096 }

-- The register at each address holds that address.
abbrev hw : Registers
hw = λ a. a

abbrev queue : Virtq Bool
queue = record {
  place = record {
    num = 1;
    legacy = false;
    desc_vaddr = 28672;
    desc_paddr = 8589938688;
    avail_vaddr = 24576;
    avail_paddr = 90112;
    used_vaddr = 20480;
    used_paddr = 86016;
    desc_bytes = 16;
    avail_bytes = 8;
    used_bytes = 14;
  };
  lock = false;
  desc = zero_desc ∷ [];
  avail = record { flags = 0; idx = 0; ring = 0 ∷ [] };
  used = record { flags = 0; idx = 0; ring = record { id = 0; len = 0 } ∷ [] };
  last_seen_used = 0;
  free_descs = record {
    lock = false;
    head = 0;
    tail = 0;
    count = 1;
    capacity = 1;
    elem_size = 2;
    storage = 0 ∷ 0 ∷ [];
  };
  desc_extras = zero_extras ∷ [];
}

-- The descriptor table lies above 4 GB.
set_queue_addr-modern_example :
    let (rc, hw') = set_queue_addr plain mdev false (some queue) hw in
    (rc ≡ eok)
    × (hw' (4096 + 132) * 2 ^ 32 + hw' (4096 + 128) ≡ 8589938688)
    × (hw' (4096 + 148) * 2 ^ 32 + hw' (4096 + 144) ≡ 90112)
    × (hw' (4096 + 164) * 2 ^ 32 + hw' (4096 + 160) ≡ 86016)
unfolding plain-RegisterFile
set_queue_addr-modern_example =
    set_queue_addr-modern plain plain-RegisterFile mdev queue hw (omega arith) (omega arith)
      (omega arith)

read_device_config-words_example :
    (read_device_config plain (some (some mdev)) true 8 4 hw).0 ≡ ok (4356 ∷ 4360 ∷ [])
unfolding plain-RegisterFile
read_device_config-words_example =
    read_device_config-words plain plain-RegisterFile mdev 8 4 hw (omega arith)

abbrev device : Device Bool (MmioDevice × Registers)
device = record {
  lock = false;
  leagcy = false;
  ops = mmio_ops plain;
  device_reset_timeout_ms = 500;
  device_reset_poll_interval_ms = 10;
  queue_reset_timeout_ms = 500;
  queue_reset_poll_interval_ms = 10;
  irq = 0;
  priv = (mdev, hw);
}

add_device_status-mmio_ops_example :
    let (rc, dev') = add_device_status locks (some device) 12 in
    let (mdev', hw') = priv_of dev' device.priv in (rc ≡ eok) × (u8 (hw' (mdev'.vaddr + 112)) ≡ 124)
unfolding plain-RegisterFile
add_device_status-mmio_ops_example =
    add_device_status-mmio_ops locks plain plain-RegisterFile device 12

-- The selected queue and the enabled ones of the device at each address.
record Queues : Type 0 where
  selected : ℕ → ℕ
  ready : ℕ → ℕ → Bool

abbrev queues : Bus Queues
queues = record {
  read = λ a hw. (0, hw);
  write = λ a v hw. record {
    selected = λ k. if k + 48 == a then v else hw.selected k;
    ready = λ k j.
        if k + 68 == a then (if hw.selected k == j then v == 1 else hw.ready k j) else hw.ready k j;
  };
}

queues-ready :
    (vaddr j : ℕ) (b : Bool) (hw : Queues)
    → (queues.write (vaddr + 68) (if b then 1 else 0) hw).ready vaddr j
      ≡ (if hw.selected vaddr == j then b else hw.ready vaddr j)
queues-ready vaddr j true hw = ground arith
queues-ready vaddr j false hw = ground arith

queues-selected : (vaddr v : ℕ) (hw : Queues) → (queues.write (vaddr + 48) v hw).selected vaddr ≡ v
queues-selected vaddr v hw = ground arith

queues-same :
    (vaddr v j : ℕ) (hw : Queues)
    → (queues.write (vaddr + 48) v hw).ready vaddr j ≡ hw.ready vaddr j
queues-same vaddr v j hw = ground arith

unfoldable queues-QueueBank : QueueBank queues
queues-QueueBank = record {
  selected = λ vaddr hw. hw.selected vaddr;
  ready = λ vaddr j hw. hw.ready vaddr j;
  sel-selected = queues-selected;
  sel-ready = queues-same;
  ready-ready = queues-ready;
}

-- Queue 7 was selected before.
abbrev at_seven : Queues
at_seven = record { selected = λ k. 7; ready = λ k j. false }

abbrev banked : Device Bool (MmioDevice × Queues)
banked = record {
  lock = false;
  leagcy = false;
  ops = mmio_ops queues;
  device_reset_timeout_ms = 500;
  device_reset_poll_interval_ms = 10;
  queue_reset_timeout_ms = 500;
  queue_reset_poll_interval_ms = 10;
  irq = 0;
  priv = (mdev, at_seven);
}

enable_queue-mmio_ops_example :
    let (mdev', hw') = priv_of (enable_queue locks (some banked) 1 true).1 banked.priv in
    hw'.ready mdev'.vaddr 1 ≡ true
unfolding queues-QueueBank
enable_queue-mmio_ops_example =
    enable_queue-mmio_ops locks queues queues-QueueBank banked 1 1 true (omega arith)
