-- ===== src/Pci/Tests.antt =====
-- Runs of the transport on registers that hold a value at each address.
use qnx_virtio.Common.{
  ℕ, ◌+◌, ◌≤◌, ◌<◌, ◌≡◌, ◌⊎◌, refl, List, [], ◌∷◌, Bool, true, false, none, some, arith, eok, ok,
  ◌==◌, if◌then◌else◌, take,
}
use qnx_virtio.Sim.{locks}
use qnx_virtio.Virtq.{Virtq, zero_desc, zero_extras}
use qnx_virtio.Virtio.{Device, add_device_status}
use qnx_virtio.Virtio.Laws.{priv_of}
use qnx_virtio.Pci.{Region, PciDevice}
use qnx_virtio.Pci.Address.{pci_ops, set_queue_addr}
use qnx_virtio.Pci.Caps.{PciServer, walk_caps, cap_of}
use qnx_virtio.Pci.Config.{read_device_config}
use qnx_virtio.Pci.Found.{walk_caps-last}
use qnx_virtio.Pci.Init.{zero_pci_device}
use qnx_virtio.Pci.Laws.{Fields, add_device_status-pci_ops, set_queue_addr-fields}
use qnx_virtio.Pci.Strays.{strays, read_device_config-strays}

abbrev Words : Type 0
Words = ℕ → ℕ

abbrev plain : Region Words
plain = record {
  read = λ b a hw. (hw a, hw);
  write = λ b a v hw. (λ x. if x == a then v else hw x);
}

write_self : (a v : ℕ) (hw : Words) → (if a == a then v else hw a) ≡ v
write_self a v hw = ground arith

write_apart :
    (b a b' a' v : ℕ) (hw : Words)
    → 0 < b
    → 0 < b'
    → (a + b ≤ a') ⊎ (a' + b' ≤ a)
    → (if a == a' then v else hw a) ≡ hw a
write_apart b a b' a' v hw p p' h = ground arith

unfoldable plain-Fields : Fields plain
plain-Fields = record {
  field = λ b a hw. hw a;
  field-write = λ b a v hw. write_self a v hw;
  field-write_apart = λ b a b' a' v hw p p' h. write_apart b a b' a' v hw p p' h;
  field-read = λ b a b' a' hw. refl;
  read-field = λ b a hw. refl;
}

abbrev pdev : PciDevice
pdev = record zero_pci_device { common_cfg = 4096; device_cfg = 8192 }

-- The register at each address holds that address.
abbrev hw : Words
hw = λ a. a

abbrev queue : Virtq Bool
queue = record {
  place = record {
    num = 1;
    legacy = false;
    desc_vaddr = 28672;
    desc_paddr = 8589938688;
    avail_vaddr = 24576;
    avail_paddr = 90112;
    used_vaddr = 20480;
    used_paddr = 86016;
    desc_bytes = 16;
    avail_bytes = 8;
    used_bytes = 14;
  };
  lock = false;
  desc = zero_desc ∷ [];
  avail = record { flags = 0; idx = 0; ring = 0 ∷ [] };
  used = record { flags = 0; idx = 0; ring = record { id = 0; len = 0 } ∷ [] };
  last_seen_used = 0;
  free_descs = record {
    lock = false;
    head = 0;
    tail = 0;
    count = 1;
    capacity = 1;
    elem_size = 2;
    storage = 0 ∷ 0 ∷ [];
  };
  desc_extras = zero_extras ∷ [];
}

set_queue_addr-fields_example :
    let (rc, hw') = set_queue_addr plain pdev (some queue) hw in
    (rc ≡ eok) × (hw' 4128 ≡ 8589938688) × (hw' 4136 ≡ 90112) × (hw' 4144 ≡ 86016)
unfolding plain-Fields
set_queue_addr-fields_example =
    set_queue_addr-fields plain plain-Fields pdev queue hw (omega arith) (omega arith) (omega arith)

-- The eight bytes of the GPIO configuration: the second word is stored at byte 16.
read_device_config-strays_example :
    (stores : List (ℕ × ℕ)) × ((read_device_config plain (some pdev) true 8 0 hw).0 ≡ ok stores)
    × (strays 8 stores ≡ true)
read_device_config-strays_example = read_device_config-strays plain pdev 8 0 hw (omega arith)

abbrev device : Device Bool (PciDevice × Words)
device = record {
  lock = false;
  leagcy = false;
  ops = pci_ops plain;
  device_reset_timeout_ms = 500;
  device_reset_poll_interval_ms = 10;
  queue_reset_timeout_ms = 500;
  queue_reset_poll_interval_ms = 10;
  irq = 0;
  priv = (pdev, λ a. if a == 4116 then 3 else a);
}

add_device_status-pci_ops_example :
    let (rc, dev') = add_device_status locks (some device) 12 in
    let (pdev', hw') = priv_of dev' device.priv in (rc ≡ eok) × (hw' (pdev'.common_cfg + 20) ≡ 15)
unfolding plain-Fields
add_device_status-pci_ops_example =
    add_device_status-pci_ops plain plain-Fields locks device 12 (λ e. omega arith)

-- A device with two common configurations at the indices 0 and 1.
abbrev first_common : List ℕ
first_common = 1 ∷ 0 ∷ 0 ∷ 0 ∷ 0 ∷ 0 ∷ 0 ∷ 0 ∷ 0 ∷ 56 ∷ 0 ∷ 0 ∷ 0 ∷ []

abbrev second_common : List ℕ
second_common = 1 ∷ 4 ∷ 0 ∷ 0 ∷ 0 ∷ 0 ∷ 16 ∷ 0 ∷ 0 ∷ 56 ∷ 0 ∷ 0 ∷ 0 ∷ []

abbrev two_caps : PciServer Words
two_caps = record {
  device_find = λ index vid did hw. (some 0, hw);
  attach = λ bdf hw. (ok 0, hw);
  detach = λ pci hw. hw;
  find_capid = λ bdf capid hw. (some 0, hw);
  find_capid_next = λ bdf capid index hw. ((if index == 0 then some 1 else none), hw);
  read_cap = λ bdf index hw. (ok index, hw);
  vend_read_bytes =
      λ cap count hw. (ok (take count (if cap == 0 then first_common else second_common)), hw);
  read_ba = λ pci count hw. (ok [], hw);
  msix_get_nirq = λ cap hw. (0, hw);
  msix_set_nirq = λ pci cap count hw. (eok, hw);
  msix_set_irq_entry = λ pci cap irq entry hw. (eok, hw);
  cap_enable = λ pci cap hw. (eok, hw);
  read_irq = λ pci hw. (ok 0, hw);
  msix_unmask_irq_entry = λ pci cap entry hw. (eok, hw);
  mmap_phys = λ size addr hw. (addr, hw);
}

-- The walk leaves the second one, which lies in region 4.
walk_caps-last_example :
    (dev' : PciDevice) × (hw' : Words) × (walk_caps two_caps 3 (some 0) zero_pci_device hw
      ≡ some (eok, dev', hw'))
    × (dev'.common_cfg_cap ≡ record { cfg_type = 1; bar = 4; id = 0; offset = 4096; len = 56 })
    × (dev'.notify_cfg_cap ≡ zero_pci_device.notify_cfg_cap)
    × (dev'.isr_cfg_cap ≡ zero_pci_device.isr_cfg_cap)
    × (dev'.device_cfg_cap ≡ zero_pci_device.device_cfg_cap)
    × (dev'.pci_cfg_cap ≡ zero_pci_device.pci_cfg_cap)
unfolding cap_of
walk_caps-last_example =
    walk_caps-last two_caps 3 (some 0) (first_common ∷ second_common ∷ []) zero_pci_device hw
      (
        0,
        0,
        some 1,
        refl,
        (λ hw. refl),
        (λ n hw. refl),
        (λ hw. refl),
        (1, 1, none, refl, (λ hw. refl), (λ n hw. refl), (λ hw. refl), refl),
      )
      (omega arith)
