-- ===== src/Pci/Detached.antt =====
-- A device that `virtio_pci_init` has attached and cannot use is detached.
use qnx_virtio.Common.{
  ℕ, zero, suc, ◌≡◌, refl, ◌∙◌, subst, Bool, false, Option, none, some, Errno, is_ok, Result, ok,
  err, arith, if◌then◌else◌,
}
use qnx_virtio.Spinlock.{Spinlock}
use qnx_virtio.Virtio.{Device}
use qnx_virtio.Virtio.Keeps.{Good-if}
use qnx_virtio.Pci.{Region, PciDevice}
use qnx_virtio.Pci.Caps.{
  PciServer, capid_vend, read_pci_cap, read_pci_notify_cap, read_typed_cap, read_one_cap, walk_caps,
  find_msix, find_caps, map_bars,
}
use qnx_virtio.Pci.Init.{
  Initialised, ready, failed, locate_cfgs, choose_msix, fail, equipped, init_attached,
}

module _ {Hw : Type 0} (server : PciServer Hw) where
  abbrev SameHandle : PciDevice → Option (Errno × PciDevice × Hw) → Type 0
  SameHandle dev none = Unit {0}
  SameHandle dev (some (rc, dev', hw)) = dev'.pci ≡ dev.pci

  read_one_cap-handle :
      (index : ℕ) (dev : PciDevice) (hw : Hw) → (read_one_cap server index dev hw).1.pci ≡ dev.pci
  unfolding read_one_cap read_typed_cap read_pci_cap read_pci_notify_cap
  read_one_cap-handle index dev hw = ground arith

  find_msix-handle : (dev : PciDevice) (hw : Hw) → (find_msix server dev hw).1.pci ≡ dev.pci
  unfolding find_msix
  find_msix-handle dev hw = ground arith

  map_bars-handle : (dev : PciDevice) (hw : Hw) → (map_bars server dev hw).1.pci ≡ dev.pci
  unfolding map_bars
  map_bars-handle dev hw = ground arith

  choose_msix-handle :
      (dev : PciDevice) (n : ℕ) (hw : Hw) → (choose_msix server dev n hw).1.pci ≡ dev.pci
  unfolding choose_msix
  choose_msix-handle dev n hw = ground arith

  SameHandle-via :
      (dev dev' : PciDevice) (o : Option (Errno × PciDevice × Hw))
      → dev'.pci ≡ dev.pci
      → SameHandle dev' o
      → SameHandle dev o
  SameHandle-via dev dev' none e h = tt
  SameHandle-via dev dev' (some (rc, dev2, hw)) e h = h ∙ e

  walk_caps-handle :
      (fuel : ℕ) (index : Option ℕ) (dev : PciDevice) (hw : Hw)
      → SameHandle dev (walk_caps server fuel index dev hw)
  unfolding walk_caps
  walk_caps-handle zero index dev hw = tt
  walk_caps-handle (suc fuel) none dev hw = refl
  walk_caps-handle (suc fuel) (some index) dev hw =
      let (rc, dev1, hw1) = read_one_cap server index dev hw in
      let same = read_one_cap-handle index dev hw in
      let (index', hw2) = server.find_capid_next dev1.bdf capid_vend index hw1 in
      Good-if (SameHandle dev) (is_ok rc) (walk_caps server fuel index' dev1 hw2)
        (some (rc, dev1, hw1))
        (SameHandle-via dev dev1 (walk_caps server fuel index' dev1 hw2) same
          (walk_caps-handle fuel index' dev1 hw2))
        same

  found-handle :
      (dev : PciDevice) (o : Option (Errno × PciDevice × Hw))
      → SameHandle dev o
      → SameHandle dev (elim o as (λ _. Option (Errno × PciDevice × Hw)) [
        | none ↦ none
        | some (rc, dev', hw) ↦ some (if is_ok rc then find_msix server dev' hw else (rc, dev', hw))
      ])
  found-handle dev none h = tt
  found-handle dev (some (rc, dev', hw)) h =
      Good-if (λ (r : Errno × PciDevice × Hw). r.1.pci ≡ dev.pci) (is_ok rc)
        (find_msix server dev' hw) (rc, dev', hw) (find_msix-handle dev' hw ∙ h) h

  find_caps-handle :
      (fuel : ℕ) (dev : PciDevice) (hw : Hw) → SameHandle dev (find_caps server fuel dev hw)
  unfolding find_caps
  find_caps-handle fuel dev hw =
      let (first, hw1) = server.find_capid dev.bdf capid_vend hw in
      found-handle dev (walk_caps server fuel first dev hw1) (walk_caps-handle fuel first dev hw1)

-- Which handles the PCI server holds. A detached one is not among them.
pub record Attachments {Hw : Type 0} (server : PciServer Hw) : Type 0 where
  pub attached : (pci : ℕ) → Hw → Bool
  pub detach-gone : (pci : ℕ) (hw : Hw) → attached pci (server.detach pci hw) ≡ false

module _ (s : Spinlock) {Hw : Type 0} (server : PciServer Hw) (region : Region Hw)
    (held : Attachments server) where
  open s use {Lock}
  open held use {attached, detach-gone}

  -- A device that is handed out, or one that is not attached any more.
  abbrev pub IsReleased : (pci : ℕ) → Option (Initialised Lock Hw) → Type 0
  IsReleased pci none = Unit {0}
  IsReleased pci (some (ready dev)) = Unit {0}
  IsReleased pci (some (failed rc dev hw)) = attached pci hw ≡ false

  fail-IsReleased :
      (pci : ℕ) (pdev : PciDevice) (rc : Errno) (dev : Device Lock Hw) (hw : Hw)
      → pdev.pci ≡ pci
      → IsReleased pci (some (fail s server region rc dev (server.detach pdev.pci hw)))
  unfolding fail
  fail-IsReleased pci pdev rc dev hw e =
      subst (λ p. attached p (server.detach pdev.pci hw) ≡ false) e (detach-gone pdev.pci hw)

  chosen-IsReleased :
      (pci : ℕ) (chosen : Result (Option ℕ)) (pdev : PciDevice) (dev : Device Lock Hw) (hw : Hw)
      → pdev.pci ≡ pci
      → IsReleased pci (
          some (elim chosen as (λ _. Initialised Lock Hw) [
            | err rc ↦ fail s server region rc dev (server.detach pdev.pci hw)
            | ok none ↦ ready (equipped s server region dev dev.irq pdev hw)
            | ok (some irq) ↦ ready (equipped s server region dev irq pdev hw)
          ]))
  chosen-IsReleased pci (err rc) pdev dev hw e = fail-IsReleased pci pdev rc dev hw e
  chosen-IsReleased pci (ok none) pdev dev hw e = tt
  chosen-IsReleased pci (ok (some irq)) pdev dev hw e = tt

  after_caps-IsReleased :
      (requested : ℕ) (pdev : PciDevice) (dev : Device Lock Hw)
      (o : Option (Errno × PciDevice × Hw))
      → SameHandle server pdev o
      → IsReleased pdev.pci (elim o as (λ _. Option (Initialised Lock Hw)) [
        | none ↦ none
        | some (rc, pdev1, hw1) ↦ some (
            let (rc', pdev2, hw2) = map_bars server pdev1 hw1 in
            let (chosen, pdev3, hw3) = choose_msix server (locate_cfgs pdev2) requested hw2 in
            if is_ok rc
            then (if is_ok rc'
                then (elim chosen as (λ _. Initialised Lock Hw) [
                  | err rc'' ↦ fail s server region rc'' dev (server.detach pdev3.pci hw3)
                  | ok none ↦ ready (equipped s server region dev dev.irq pdev3 hw3)
                  | ok (some irq) ↦ ready (equipped s server region dev irq pdev3 hw3)
                ])
                else fail s server region rc' dev (server.detach pdev2.pci hw2))
            else fail s server region rc dev (server.detach pdev1.pci hw1))
      ])
  unfolding locate_cfgs
  after_caps-IsReleased requested pdev dev none h = tt
  after_caps-IsReleased requested pdev dev (some (rc, pdev1, hw1)) h =
      let (rc', pdev2, hw2) = map_bars server pdev1 hw1 in
      let mapped = map_bars-handle server pdev1 hw1 ∙ h in
      let (chosen, pdev3, hw3) = choose_msix server (locate_cfgs pdev2) requested hw2 in
      let last = choose_msix-handle server (locate_cfgs pdev2) requested hw2 ∙ mapped in
      let released : Initialised Lock Hw → Type 0 = λ r. IsReleased pdev.pci (some r) in
      Good-if released (is_ok rc) _ _
        (Good-if released (is_ok rc') _ _ (chosen-IsReleased pdev.pci chosen pdev3 dev hw3 last)
          (fail-IsReleased pdev.pci pdev2 rc' dev hw2 mapped))
        (fail-IsReleased pdev.pci pdev1 rc dev hw1 h)

  -- A `virtio_pci_init` that has attached a device and fails, at whatever step, has detached it.
  pub init_attached-IsReleased :
      (fuel requested : ℕ) (pdev : PciDevice) (dev : Device Lock Hw) (hw : Hw)
      → IsReleased pdev.pci (init_attached s server region fuel requested pdev dev hw)
  unfolding init_attached
  init_attached-IsReleased fuel requested pdev dev hw =
      after_caps-IsReleased requested pdev dev (find_caps server fuel pdev hw)
        (find_caps-handle server fuel pdev hw)
