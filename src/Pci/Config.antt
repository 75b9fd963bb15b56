-- ===== src/Pci/Config.antt =====
-- src/virtio_pci/virtio_pci.c: the feature words and the device's configuration.
use qnx_virtio.Common.{
  ℕ, zero, suc, ◌+◌, ◌*◌, ◌/◌, Bool, Option, none, some, List, [], ◌∷◌, Errno, eok, einval, Result,
  ok, err, if◌then◌else◌, set,
}
use qnx_virtio.Pci.{
  Region, PciDevice, Handle, with_pdev, read_field, write32, at_device_feature_select,
  at_device_feature, at_driver_feature_select, at_driver_feature,
}

module _ {Hw : Type 0} (region : Region Hw) where
  unfoldable pub read_features : PciDevice → (select len : ℕ) → Hw → List ℕ × Hw
  unfolding read_field write32
  read_features pdev select zero hw = ([], hw)
  read_features pdev select (suc len) hw =
      let selected = write32 region pdev at_device_feature_select select hw in
      let (feature, hw') = read_field region 4 pdev at_device_feature selected in
      let (features, hw'') = read_features pdev (suc select) len hw' in (feature ∷ features, hw'')

  unfoldable pub read_device_features :
      Handle → (out : Bool) → (len : ℕ) → Hw → Result (List ℕ) × Hw
  unfolding read_features
  read_device_features dev out len hw =
      if out
      then (with_pdev dev (err einval)
          (λ pdev hw'. (let (fs, hw'') = read_features pdev 0 len hw' in (ok fs, hw''))) hw)
      else (err einval, hw)

  unfoldable pub write_features : PciDevice → (select : ℕ) → List ℕ → Hw → Hw
  unfolding write32
  write_features pdev select [] hw = hw
  write_features pdev select (feature ∷ features) hw =
      let selected = write32 region pdev at_driver_feature_select select hw in
      write_features pdev (suc select) features
        (write32 region pdev at_driver_feature feature selected)

  -- `features` holds the `len` words that are written.
  unfoldable pub write_driver_features : Handle → Option (List ℕ) → Hw → Errno × Hw
  unfolding write_features
  write_driver_features dev none hw = (einval, hw)
  write_driver_features dev (some features) hw =
      with_pdev dev einval (λ pdev hw'. (eok, write_features pdev 0 features hw')) hw

  -- The loop `for (i = 0; i < len; i += 4) dst[i] = device_cfg[offset + i]`, whose index counts words:
  -- the words that are stored, with their indices. It makes `rounds` rounds.
  unfoldable pub copy_words : PciDevice → (offset i rounds : ℕ) → Hw → List (ℕ × ℕ) × Hw
  copy_words pdev offset i zero hw = ([], hw)
  copy_words pdev offset i (suc rounds) hw =
      let (word, hw') = region.read 4 (pdev.device_cfg + (offset + i) * 4) hw in
      let (stores, hw'') = copy_words pdev offset (i + 4) rounds hw' in ((i, word) ∷ stores, hw'')

  -- The private data is not checked.
  unfoldable pub read_device_config :
      Option PciDevice → (out : Bool) → (len offset : ℕ) → Hw → Result (List (ℕ × ℕ)) × Hw
  unfolding copy_words
  read_device_config none out len offset hw = (err einval, hw)
  read_device_config (some pdev) out len offset hw =
      if out
      then (let (stores, hw') = copy_words pdev offset 0 ((len + 3) / 4) hw in (ok stores, hw'))
      else (err einval, hw)

-- The words of a buffer after the stores; those behind its end are lost here.
abbrev pub stored : List ℕ → List (ℕ × ℕ) → List ℕ
stored words [] = words
stored words ((i, w) ∷ stores) = stored (set words i w) stores
