-- ===== src/Virtq/Layout.antt =====
-- src/virtio/virtq.c: the sizes of a queue's parts, and the single mapping of a legacy queue.
use qnx_virtio.Common.{ℕ, ◌+◌, ◌-◌, ◌*◌, ◌%◌, ◌≤◌, u16}

-- `sizeof(struct virtq_desc)` is 16 bytes, of `uint16_t` 2, of `struct virtq_used_elem` 8; the
-- headers of both rings are 4 bytes. With `num` at most 65535 no sum wraps.
unfoldable pub desc_mem_size : ℕ → ℕ
desc_mem_size size = size * 16

unfoldable pub avail_mem_size : (num : ℕ) → ℕ
avail_mem_size num = 4 + num * 2 + 2

unfoldable pub used_mem_size : (num : ℕ) → ℕ
used_mem_size num = 4 + num * 8 + 2

-- `ALIGN`: `(size + (alignment - 1)) & ~(alignment - 1)`. For a power of two the mask takes the
-- remainder off; for 0, a page size of 65536 in a `uint16_t`, the mask and the result are 0.
unfoldable pub align : (size alignment : ℕ) → ℕ
align size alignment = let t = size + alignment - 1 in t - t % alignment

unfoldable pub legacy_mem_size : (num alignment : ℕ) → ℕ
unfolding desc_mem_size avail_mem_size align
legacy_mem_size num alignment =
    align (desc_mem_size num + avail_mem_size num) (u16 alignment)
    + align (avail_mem_size num) (u16 alignment)

-- Where `virtq_create_legacy` puts the used ring in the mapping.
unfoldable pub legacy_used_offset : (num pagesize : ℕ) → ℕ
unfolding desc_mem_size avail_mem_size align
legacy_used_offset num pagesize = align (desc_mem_size num + avail_mem_size num) pagesize

-- The parts of a legacy queue lie behind one another in its mapping.
abbrev pub LegacyFits : (num pagesize : ℕ) → Type 0
LegacyFits num pagesize =
    (desc_mem_size num + avail_mem_size num ≤ legacy_used_offset num pagesize)
    × (legacy_used_offset num pagesize + used_mem_size num ≤ legacy_mem_size num pagesize)
