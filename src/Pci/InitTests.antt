-- ===== src/Pci/InitTests.antt =====
-- The initialisation of a device that cannot be used.
use qnx_virtio.Common.{[], Bool, true, false, none, some, eok, enomem, ok, err, refl}
use qnx_virtio.Sim.{locks}
use qnx_virtio.Virtio.{Ops, Device}
use qnx_virtio.Pci.{Region}
use qnx_virtio.Pci.Caps.{PciServer}
use qnx_virtio.Pci.Detached.{Attachments, IsReleased, init_attached-IsReleased}
use qnx_virtio.Pci.Init.{zero_pci_device, init_attached}

-- A server that holds one device, of which the regions cannot be read. The state says whether it is
-- attached.
abbrev one_slot : PciServer Bool
one_slot = record {
  device_find = λ index vid did hw. (some 0, hw);
  attach = λ bdf hw. (ok 0, true);
  detach = λ pci hw. false;
  find_capid = λ bdf capid hw. (none, hw);
  find_capid_next = λ bdf capid index hw. (none, hw);
  read_cap = λ bdf index hw. (ok index, hw);
  vend_read_bytes = λ cap count hw. (ok [], hw);
  read_ba = λ pci count hw. (err enomem, hw);
  msix_get_nirq = λ cap hw. (0, hw);
  msix_set_nirq = λ pci cap count hw. (eok, hw);
  msix_set_irq_entry = λ pci cap irq entry hw. (eok, hw);
  cap_enable = λ pci cap hw. (eok, hw);
  read_irq = λ pci hw. (ok 0, hw);
  msix_unmask_irq_entry = λ pci cap entry hw. (eok, hw);
  mmap_phys = λ size addr hw. (addr, hw);
}

abbrev no_memory : Region Bool
no_memory = record { read = λ bytes a hw. (0, hw); write = λ bytes a v hw. hw }

abbrev slots : Attachments one_slot
slots = record { attached = λ pci hw. hw; detach-gone = λ pci hw. refl }

abbrev idle_ops : Ops Bool Bool
idle_ops = record {
  read_device_features = λ count t. (ok [], t);
  write_driver_features = λ features t. (eok, t);
  set_device_status = λ n t. (eok, t);
  get_device_status = λ t. (ok 0, t);
  reset_device = λ t. (eok, t);
  read_device_config = λ len offset t. (ok [], t);
  set_queue_addr = λ leagcy vq t. (eok, t);
  select_queue = λ i t. (eok, t);
  notify_queue = λ i t. (eok, t);
  enable_queue = λ b t. (eok, t);
  set_queue_reset = λ t. (eok, t);
  get_queue_reset = λ t. (ok 0, t);
  max_queue_size = λ t. (ok 0, t);
  set_queue_size = λ n t. (eok, t);
}

abbrev bare : Device Bool Bool
bare = record {
  lock = false;
  leagcy = false;
  ops = idle_ops;
  device_reset_timeout_ms = 500;
  device_reset_poll_interval_ms = 10;
  queue_reset_timeout_ms = 500;
  queue_reset_poll_interval_ms = 10;
  irq = 0;
  priv = true;
}

init_attached-IsReleased_example :
    IsReleased locks one_slot no_memory slots 0
      (init_attached locks one_slot no_memory 1 0 zero_pci_device bare true)
init_attached-IsReleased_example =
    init_attached-IsReleased locks one_slot no_memory slots 1 0 zero_pci_device bare true
