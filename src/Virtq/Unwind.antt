-- ===== src/Virtq/Unwind.antt =====
-- How `virtq_create` unwinds. Until the last step the structure's `num` is 0, so the lengths of the
-- unmapping calls are those of a queue of no descriptors.
use qnx_virtio.Common.{
  ℕ, ◌*◌, ◌^◌, ◌<◌, ◌≡◌, refl, ◌∷◌, none, some, true, false, Errno, eok, ok, err, arith, u16,
}
use qnx_virtio.Os.{Os, Accounting}
use qnx_virtio.Fifo
use qnx_virtio.Fifo.{Fifo}
use qnx_virtio.Virtq.{Place}
use qnx_virtio.Virtq.Layout.{desc_mem_size, avail_mem_size, used_mem_size}
use qnx_virtio.Virtq.Mapping.{
  create_place, destroy_place, create_modern, destroy_modern, zero_place,
}
use qnx_virtio.Virtq.Create.{create, locate_desc, make_free, fill_free, unwind_place, unwind_fifo}

module _ (os : Os) (acc : Accounting os) where
  open os use {spin, World, mmap, munmap, mem_offset, calloc, malloc_fifo}
  open acc use {
    mappings, mmap-some, mem_offset-same, munmap-zero, munmap-err, calloc-same, free-same,
  }

  -- Unwinding a modern queue whose `num` is still 0 unmaps nothing.
  destroy_place-zero :
      (p : Place) (w : World)
      → p.num ≡ 0
      → p.legacy ≡ false
      → mappings (destroy_place os p w).1 ≡ mappings w
  unfolding destroy_place destroy_modern desc_mem_size
  destroy_place-zero p w n l =
      ground (arith, munmap-zero p.desc_vaddr w, munmap-err p.desc_vaddr 0 w)

  -- If `virtq_create` has mapped the three parts of a modern queue of fewer than 65536 descriptors,
  -- and `mem_offset64` then fails on the first, the call returns that error and no queue, and all
  -- three mappings stay live.
  pub create-leaks :
      (size : ℕ) (w w1 w2 w3 w4 w5 : World) (block a b c : ℕ) (rc : Errno)
      → size < 2 ^ 16
      → calloc 1 168 w ≡ (some block, w1)
      → mmap (desc_mem_size size) w1 ≡ (some a, w2)
      → mmap (avail_mem_size size) w2 ≡ (some b, w3)
      → mmap (used_mem_size size) w3 ≡ (some c, w4)
      → mem_offset a 0 w4 ≡ (err rc, w5)
      → let (rc', vq, w') = create os size false true w in
        (rc' ≡ rc)
        × (vq ≡ none)
        × (mappings w'
            ≡ (c, used_mem_size size)
              ∷ (b, avail_mem_size size)
              ∷ (a, desc_mem_size size)
              ∷ mappings w)
  unfolding create create_place create_modern locate_desc unwind_place
  create-leaks size w w1 w2 w3 w4 w5 block a b c rc small h0 h1 h2 h3 h4 =
      let wrap : u16 size ≡ size = omega arith in
      let place : Place = record zero_place {
        legacy = false;
        desc_vaddr = a;
        avail_vaddr = b;
        used_vaddr = c;
        desc_bytes = desc_mem_size size;
        avail_bytes = avail_mem_size size;
        used_bytes = used_mem_size size;
      } in
      ground (
        arith,
        h0,
        h1,
        h2,
        h3,
        h4,
        wrap,
        calloc-same 1 168 w,
        mmap-some (desc_mem_size size) w1 a,
        mmap-some (avail_mem_size size) w2 b,
        mmap-some (used_mem_size size) w3 c,
        mem_offset-same a 0 w4,
        destroy_place-zero place w5 refl refl,
        free-same block (destroy_place os place w5).1,
      )

  -- A `fifo_put` that fails while the free list is filled makes `virtq_create` return `EOK` with no
  -- queue.
  make_free-stale_rc :
      (block extras size : ℕ) (p : Place) (w : World) (f : Fifo spin.Lock)
      → Fifo.create spin size 2 true (malloc_fifo (size * 2) w).0 ≡ ok f
      → (fill_free os size 0 f).0 ≡ false
      → ((make_free os block extras size p w).0 ≡ eok)
        × ((make_free os block extras size p w).1 ≡ none)
  unfolding make_free unwind_fifo unwind_place
  make_free-stale_rc block extras size p w f h g = ground arith
