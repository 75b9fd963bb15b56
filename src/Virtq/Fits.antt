-- ===== src/Virtq/Fits.antt =====
-- Whether the parts of a legacy queue fit into its one mapping, for pages of 4096 bytes.
use qnx_virtio.Common.{ℕ, ◌+◌, ◌%◌, ◌≤◌, ◌≡◌, arith, leb}
use qnx_virtio.Virtq.Layout.{
  desc_mem_size, avail_mem_size, used_mem_size, legacy_mem_size, legacy_used_offset,
}

abbrev page : ℕ
page = 4096

-- With pages of 4096 bytes, the used ring of a legacy queue of at most 2045 descriptors starts on a
-- page boundary behind the available ring, and ends inside the queue's mapping exactly when the
-- queue has at most 511 descriptors.
pub legacy_layout :
    (num : ℕ)
    → num ≤ 2045
    → (legacy_used_offset num page % page ≡ 0)
      × (desc_mem_size num + avail_mem_size num ≤ legacy_used_offset num page)
      × (leb (legacy_used_offset num page + used_mem_size num) (legacy_mem_size num page)
          ≡ leb num 511)
unfolding legacy_used_offset legacy_mem_size used_mem_size
legacy_layout num h = (omega arith, omega arith, ground arith)
