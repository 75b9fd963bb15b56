-- ===== src/Mmio/Config.antt =====
-- src/virtio_mmio/virtio_mmio.c: `virtio_mmio_read_device_config`, which reads the configuration of
-- the device in words.
use qnx_virtio.Common.{
  ℕ, zero, suc, ◌+◌, ◌*◌, ◌/◌, ◌%◌, Bool, List, [], ◌∷◌, einval, Result, ok, err, if◌then◌else◌,
  ◌==◌, ◌&&◌, u32,
}
use qnx_virtio.Mmio.{Bus, MmioDevice, Handle, with_mdev, read32, reg_config}

module _ {Hw : Type 0} (bus : Bus Hw) where
  -- The loop, from `word` on. The address of the word is a `size_t`, and the parameter of
  -- `virtio_mmio_read32` that takes it a `uint32_t`.
  unfoldable pub read_words : MmioDevice → (offset word words : ℕ) → Hw → List ℕ × Hw
  unfolding read32
  read_words mdev offset word zero hw = ([], hw)
  read_words mdev offset word (suc words) hw =
      let (value, hw') = read32 bus mdev (u32 (reg_config + offset + word * 4)) hw in
      let (values, hw'') = read_words mdev offset (suc word) words hw' in (value ∷ values, hw'')

  unfoldable pub read_device_config :
      Handle → (out : Bool) → (len offset : ℕ) → Hw → Result (List ℕ) × Hw
  unfolding read_words
  read_device_config dev out len offset hw =
      if out && (len % 4 == 0) && (offset % 4 == 0)
      then (with_mdev dev (err einval)
          (λ mdev hw'.
            (let (values, hw'') = read_words mdev offset 0 (len / 4) hw' in (ok values, hw'')))
          hw)
      else (err einval, hw)
