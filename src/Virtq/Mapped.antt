-- ===== src/Virtq/Mapped.antt =====
-- src/virtio/virtq.c: what the mappings of a queue have room for.
use qnx_virtio.Common.{ℕ, ◌+◌, ◌*◌, ◌≤◌, ◌≡◌, refl, Bool, true, false, is_ok, arith}
use qnx_virtio.Os.{Os}
use qnx_virtio.Virtq.{Place}
use qnx_virtio.Virtq.Create.{entries}
use qnx_virtio.Virtq.Layout.{
  desc_mem_size, avail_mem_size, used_mem_size, legacy_mem_size, LegacyFits,
}
use qnx_virtio.Virtq.Mapping.{create_place, create_legacy, create_modern}
use qnx_virtio.Virtq.Ownership.{Errnos}

-- The table and both rings of a queue of `size` descriptors lie in what is mapped.
pub record Mapped (size : ℕ) (p : Place) : Type 0 where
  pub desc : size * 16 ≤ p.desc_bytes
  pub avail : 4 + size * 2 ≤ p.avail_bytes
  pub used : 4 + size * 8 ≤ p.used_bytes

pub entries-Mapped :
    (size : ℕ) (p : Place)
    → Mapped size p
    → (entries size 0 16 p.desc_bytes ≡ size)
      × (entries size 4 2 p.avail_bytes ≡ size)
      × (entries size 4 8 p.used_bytes ≡ size)
entries-Mapped size p m = (ground arith, ground arith, ground arith)

module _ (os : Os) (err_codes : Errnos os) where
  open os use {World, pagesize, mmap}

  -- What `virtq_create_legacy` or `virtq_create_modern` maps is enough; a legacy queue has to fit
  -- into its one mapping.
  pub create_place-Mapped :
      (legacy : Bool) (num : ℕ) (w : World)
      → (legacy ≡ true → LegacyFits num pagesize)
      → let (rc, p, w') = create_place os legacy num w in is_ok rc ≡ true → Mapped num p
  unfolding create_place create_legacy create_modern desc_mem_size avail_mem_size used_mem_size
  create_place-Mapped true num w fits done =
      ground (arith, fits refl, err_codes.errno-mmap (legacy_mem_size num pagesize) w)
  create_place-Mapped false num w fits done =
      ground (arith, err_codes.errno-mmap (desc_mem_size num) w)
