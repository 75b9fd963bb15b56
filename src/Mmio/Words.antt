-- ===== src/Mmio/Words.antt =====
-- The configuration that the driver reads, as the device's registers hold it.
use qnx_virtio.Common.{
  ℕ, zero, suc, ◌+◌, ◌*◌, ◌/◌, ◌%◌, ◌^◌, ◌≤◌, u32, ◌≡◌, refl, ap, ◌∙◌, true, some, List, [], ◌∷◌,
  einval, ok, err, arith, if◌then◌else◌, ◌==◌, ◌&&◌,
}
use qnx_virtio.Mmio.{Bus, MmioDevice, read32, reg_config}
use qnx_virtio.Mmio.Config.{read_words, read_device_config}
use qnx_virtio.Mmio.Laws.{RegisterFile}

-- The words of `count` registers from the address `a` on.
abbrev pub words_at : (ℕ → ℕ) → (a count : ℕ) → List ℕ
words_at reg a zero = []
words_at reg a (suc count) = reg a ∷ words_at reg (a + 4) count

module _ {Hw : Type 0} (bus : Bus Hw) (file : RegisterFile bus) (mdev : MmioDevice) where
  open file use {reg, reg-read, read-reg}

  words_at-ext :
      {f g : ℕ → ℕ}
      → ((a : ℕ) → f a ≡ g a)
      → (a count : ℕ) → words_at f a count ≡ words_at g a count
  words_at-ext h a zero = refl
  words_at-ext {g} h a (suc count) = rw (h a) (ap (λ ws. g a ∷ ws) (words_at-ext h (a + 4) count))

  read_words-reg :
      (offset word words : ℕ) (hw : Hw)
      → reg_config + offset + (word + words) * 4 ≤ 2 ^ 32
      → (read_words bus mdev offset word words hw).0
        ≡ words_at (λ a. reg a hw) (mdev.vaddr + (reg_config + offset + word * 4)) words
  unfolding read_words read32
  read_words-reg offset word zero hw h = refl
  read_words-reg offset word (suc words) hw h =
      let a = mdev.vaddr + (reg_config + offset + word * 4) in
      let fits : u32 (reg_config + offset + word * 4) ≡ reg_config + offset + word * 4 =
        omega arith in
      rw (fits, read-reg a hw)
        (ap (λ ws. reg a hw ∷ ws)
          (read_words-reg offset (suc word) words (bus.read a hw).1 (omega arith)
            ∙ words_at-ext (λ b. reg-read b a hw) _ words
            ∙ ap (λ b. words_at (λ c. reg c hw) b words) (omega arith)))

  -- On a device whose reads give what its registers hold and change none,
  -- `virtio_mmio_read_device_config` of bytes whose register offsets all fit into 32 bits returns the
  -- words of the configuration from the offset on, and EINVAL if the length or the offset is not a
  -- multiple of 4.
  pub read_device_config-words :
      (len offset : ℕ) (hw : Hw)
      → reg_config + offset + len ≤ 2 ^ 32
      → (read_device_config bus (some (some mdev)) true len offset hw).0 ≡ (
          if (len % 4 == 0) && (offset % 4 == 0)
          then ok (words_at (λ a. reg a hw) (mdev.vaddr + (reg_config + offset)) (len / 4))
          else err einval)
  unfolding read_device_config
  read_device_config-words len offset hw h = ground (
    arith,
    read_words-reg offset 0 (len / 4) hw (omega arith),
    ap (λ a. words_at (λ c. reg c hw) a (len / 4)) (from_start),
  )
    where
      from_start : mdev.vaddr + (reg_config + offset + 0 * 4) ≡ mdev.vaddr + (reg_config + offset)
      from_start = omega arith
