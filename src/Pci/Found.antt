-- ===== src/Pci/Found.antt =====
-- Which capabilities the walk of `virtio_pci_find_caps` leaves in the device.
use qnx_virtio.Common.{
  ℕ, zero, suc, ◌<◌, ◌≡◌, refl, sym, ap, subst, ◌∙◌, Option, none, some, List, [], ◌∷◌, eok, ok,
  arith, if◌then◌else◌, ◌==◌, get_or, take, length,
}
use qnx_virtio.Pci.{PciDevice, PciCap, NotifyCap}
use qnx_virtio.Pci.Caps.{
  PciServer, capid_vend, cap_common_cfg, cap_notify_cfg, cap_isr_cfg, cap_device_cfg, cap_pci_cfg,
  cap_of, notify_cap_of, read_one_cap, walk_caps,
}

-- The last capability of a type among the bytes of several, or `default`.
abbrev pub last_of : {A : Type 0} → (List ℕ → A) → (type : ℕ) → List (List ℕ) → (default : A) → A
last_of make type [] default = default
last_of make type (b ∷ bs) default =
    last_of make type bs (if get_or b 0 0 == type then make b else default)

-- The structure in the bytes of a capability, as much as is read of it.
abbrev pub pci_cap : List ℕ → PciCap
pci_cap b = cap_of (take 13 b)

abbrev pub notify_cap : List ℕ → NotifyCap
notify_cap b = notify_cap_of (take 17 b)

get_or-take : (b : List ℕ) → get_or (take 1 b) 0 0 ≡ get_or b 0 0
get_or-take [] = refl
get_or-take (x ∷ b) = refl

module _ {Hw : Type 0} (server : PciServer Hw) where
  open server use {find_capid_next, read_cap, vend_read_bytes}

  -- The server has the capabilities with the bytes `bs` of the device `bdf` from `index` on, whatever
  -- the state of the hardware.
  abbrev pub Serves : (bdf : ℕ) → (index : Option ℕ) → (bs : List (List ℕ)) → Type 0
  Serves bdf index [] = index ≡ none
  Serves bdf index (b ∷ bs) =
      (i : ℕ) × (cap : ℕ) × (next : Option ℕ) × (index ≡ some i)
      × ((hw : Hw) → (read_cap bdf i hw).0 ≡ ok cap)
      × ((count : ℕ) (hw : Hw) → (vend_read_bytes cap count hw).0 ≡ ok (take count b))
      × ((hw : Hw) → (find_capid_next bdf capid_vend i hw).0 ≡ next)
      × Serves bdf next bs

  -- What one round of the walk makes of a device.
  record Kept (b : List ℕ) (dev dev' : PciDevice) : Type 0 where
    same : dev'.bdf ≡ dev.bdf
    common :
        dev'.common_cfg_cap
        ≡ (if get_or b 0 0 == cap_common_cfg then pci_cap b else dev.common_cfg_cap)
    notify :
        dev'.notify_cfg_cap
        ≡ (if get_or b 0 0 == cap_notify_cfg then notify_cap b else dev.notify_cfg_cap)
    isr : dev'.isr_cfg_cap ≡ (if get_or b 0 0 == cap_isr_cfg then pci_cap b else dev.isr_cfg_cap)
    device :
        dev'.device_cfg_cap
        ≡ (if get_or b 0 0 == cap_device_cfg then pci_cap b else dev.device_cfg_cap)
    config : dev'.pci_cfg_cap ≡ (if get_or b 0 0 == cap_pci_cfg then pci_cap b else dev.pci_cfg_cap)

  read_one_cap-Kept :
      (b : List ℕ) (i cap : ℕ) (dev : PciDevice) (hw : Hw)
      → ((hw' : Hw) → (read_cap dev.bdf i hw').0 ≡ ok cap)
      → ((count : ℕ) (hw' : Hw) → (vend_read_bytes cap count hw').0 ≡ ok (take count b))
      → let (rc, dev', hw') = read_one_cap server i dev hw in (rc ≡ eok) × Kept b dev dev'
  unfolding read_one_cap
  read_one_cap-Kept b i cap dev hw found bytes =
      let hw1 = (read_cap dev.bdf i hw).1 in
      let hw2 = (vend_read_bytes cap 1 hw1).1 in
      ground (arith, found hw, bytes 1 hw1, bytes 13 hw2, bytes 17 hw2, get_or-take b)

  -- If the PCI server lists the device's vendor capabilities, the walk of `virtio_pci_find_caps` ends
  -- with EOK, with fuel beyond their number, and leaves the last capability of each type in the
  -- device.
  pub walk_caps-last :
      (fuel : ℕ) (index : Option ℕ) (bs : List (List ℕ)) (dev : PciDevice) (hw : Hw)
      → Serves dev.bdf index bs
      → length bs < fuel
      → (dev' : PciDevice) × (hw' : Hw) × (walk_caps server fuel index dev hw
          ≡ some (eok, dev', hw'))
        × (dev'.common_cfg_cap ≡ last_of pci_cap cap_common_cfg bs dev.common_cfg_cap)
        × (dev'.notify_cfg_cap ≡ last_of notify_cap cap_notify_cfg bs dev.notify_cfg_cap)
        × (dev'.isr_cfg_cap ≡ last_of pci_cap cap_isr_cfg bs dev.isr_cfg_cap)
        × (dev'.device_cfg_cap ≡ last_of pci_cap cap_device_cfg bs dev.device_cfg_cap)
        × (dev'.pci_cfg_cap ≡ last_of pci_cap cap_pci_cfg bs dev.pci_cfg_cap)
  unfolding walk_caps
  walk_caps-last zero index bs dev hw s h = absurd (omega arith)
  walk_caps-last (suc fuel) index [] dev hw s h = rw s (dev, hw, refl, refl, refl, refl, refl, refl)
  walk_caps-last (suc fuel) index (b ∷ bs) dev hw (i, cap, next, at, found, bytes, follows, rest)
        h =
      let (fine, kept) = read_one_cap-Kept b i cap dev hw found bytes in
      let (rc, dev1, hw1) = read_one_cap server i dev hw in
      let (index', hw2) = find_capid_next dev1.bdf capid_vend i hw1 in
      let next_at : index' ≡ next = rw kept.same (follows hw1) in
      let (dev', hw', e, common, notify, isr, device, config) =
        walk_caps-last fuel index' bs dev1 hw2 (continues dev1 index' kept.same next_at rest)
          (omega arith) in
      rw at (
        dev',
        hw',
        rw fine e,
        common ∙ ap (last_of pci_cap cap_common_cfg bs) kept.common,
        notify ∙ ap (last_of notify_cap cap_notify_cfg bs) kept.notify,
        isr ∙ ap (last_of pci_cap cap_isr_cfg bs) kept.isr,
        device ∙ ap (last_of pci_cap cap_device_cfg bs) kept.device,
        config ∙ ap (last_of pci_cap cap_pci_cfg bs) kept.config,
      )
    where
      continues :
          (dev1 : PciDevice) (index' : Option ℕ)
          → dev1.bdf ≡ dev.bdf
          → index' ≡ next
          → Serves dev.bdf next bs
          → Serves dev1.bdf index' bs
      continues dev1 index' same e rest' =
          subst (λ x. Serves x index' bs) (sym same)
            (subst (λ n. Serves dev.bdf n bs) (sym e) rest')
