-- ===== src/Pci/Strays.antt =====
-- Where `virtio_pci_read_device_config` stores what it reads: its index counts words, not bytes.
use qnx_virtio.Common.{
  ℕ, zero, suc, ◌+◌, ◌*◌, ◌/◌, ◌≤◌, ◌<◌, ◌≡◌, refl, ◌-◌, Bool, true, false, some, List, [], ◌∷◌, ok,
  arith, leb, ◌||◌,
}
use qnx_virtio.Pci.{Region, PciDevice}
use qnx_virtio.Pci.Config.{copy_words, read_device_config}

-- Whether a store lies at or behind the end of a buffer of `len` bytes.
abbrev pub strays : (len : ℕ) → List (ℕ × ℕ) → Bool
strays len [] = false
strays len ((i, w) ∷ stores) = leb len (i * 4) || strays len stores

or-right : (a b : Bool) → b ≡ true → (a || b) ≡ true
or-right true b h = refl
or-right false b h = h

module _ {Hw : Type 0} (region : Region Hw) (pdev : PciDevice) where
  strays-copy_words :
      (len offset i rounds : ℕ) (hw : Hw)
      → len ≤ (i + rounds * 4) * 4
      → strays len (copy_words region pdev offset i (suc rounds) hw).0 ≡ true
  unfolding copy_words
  strays-copy_words len offset i zero hw h = ground arith
  strays-copy_words len offset i (suc rounds) hw h = or-right (leb len (i * 4)) _ (
      strays-copy_words len offset (i + 4) rounds
        (region.read 4 (pdev.device_cfg + (offset + i) * 4) hw).1 (omega arith))

  -- A request for more than 4 bytes makes `virtio_pci_read_device_config` store a word at or behind
  -- the end of its buffer.
  pub read_device_config-strays :
      (len offset : ℕ) (hw : Hw)
      → 4 < len
      → (stores : List (ℕ × ℕ)) × ((read_device_config region (some pdev) true len offset hw).0
          ≡ ok stores)
        × (strays len stores ≡ true)
  unfolding read_device_config
  read_device_config-strays len offset hw h = (
    (copy_words region pdev offset 0 ((len + 3) / 4) hw).0,
    refl,
    (let more : (len + 3) / 4 ≡ suc ((len + 3) / 4 - 1) = omega arith in
        rw more (strays-copy_words len offset 0 ((len + 3) / 4 - 1) hw (omega arith))),
  )
