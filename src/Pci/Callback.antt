-- ===== src/Pci/Callback.antt =====
-- src/virtio_pci/virtio_pci.c: `virtio_pci_virtq_callback`. The callback changes a state `S`, and both
-- run on fuel: `none` means that it ran out.
use qnx_virtio.Common.{
  ℕ, zero, suc, Bool, Option, none, some, Errno, einval, is_ok, if◌then◌else◌, ◌&&◌,
}

module _ {S : Type 0} where
  -- `do rc = callback(dev, vq); while (rc == EOK)`
  unfoldable pub repeat : (fuel : ℕ) → (S → Option (Errno × S)) → S → Option (Errno × S)
  repeat zero callback s = none
  repeat (suc fuel) callback s = elim (callback s) as (λ _. Option (Errno × S)) [
    | none ↦ none
    | some (rc, s') ↦
        (let rest = repeat fuel callback s' in if is_ok rc then rest else some (rc, s'))
  ]

  -- `dev` and `vq` say whether those pointers are not null.
  unfoldable pub virtq_callback :
      (fuel : ℕ) → (dev vq : Bool) → Option (S → Option (Errno × S)) → S → Option (Errno × S)
  unfolding repeat
  virtq_callback fuel dev vq none s = some (einval, s)
  virtq_callback fuel dev vq (some callback) s =
      if dev && vq then repeat fuel callback s else some (einval, s)
