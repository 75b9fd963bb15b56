-- ===== src/Virtq/Alloc.antt =====
-- src/virtio/virtq.c: `virtq_alloc_desc` and `virtq_free_desc`.
use qnx_virtio.Common.{
  ℕ, Bool, Option, none, some, List, [], Errno, eok, einval, is_ok, ok, err, if◌then◌else◌, set,
}
use qnx_virtio.Os.{Os}
use qnx_virtio.Fifo
use qnx_virtio.Virtq.{
  Virtq, f_write, zero_desc, zero_extras, desc_at, extras_at, bytes16, of_bytes16,
}

-- The bytes that `fifo_get` left in the variable, if it did.
abbrev pub fetched : Option (List ℕ) → List ℕ
fetched none = []
fetched (some bytes) = bytes

module _ (os : Os) where
  open os use {spin, World, mmap, munmap, mem_offset, errno}

  -- The label `free_desc`: the index goes back to the free list.
  unfoldable pub give_back :
      Errno → Virtq spin.Lock → (idx : ℕ) → World → Errno × Option ℕ × Virtq spin.Lock × World
  give_back rc vq idx w =
      (rc, some idx, record vq { free_descs = (Fifo.put spin vq.free_descs (bytes16 idx)).1 }, w)

  -- The entries of a descriptor that is handed out.
  unfoldable pub fill_desc :
      Virtq spin.Lock → (idx vaddr paddr len : ℕ) → (writable : Bool) → Virtq spin.Lock
  fill_desc vq idx vaddr paddr len writable = record vq {
    desc_extras = set vq.desc_extras idx (record { vaddr = vaddr; context = none });
    desc =
        set vq.desc idx
          (record { addr = paddr; len = len; flags = if writable then f_write else 0; next = 0 });
  }

  -- `virtq_alloc_desc` once it has an index.
  unfoldable pub alloc_at :
      Virtq spin.Lock
      → (idx len : ℕ) → (writable : Bool) → World
      → Errno × Option ℕ × Virtq spin.Lock × World
  unfolding give_back
  alloc_at vq idx len writable w =
      let (mapping, w1) = mmap len w in
      elim mapping [
        | none ↦ give_back (errno w1) vq idx w1
        | some vaddr ↦
            let (offset, w2) = mem_offset vaddr len w1 in
            elim offset [
              | err rc ↦ give_back (errno w2) vq idx (munmap vaddr len w2).1
              | ok paddr ↦ (eok, some idx, fill_desc vq idx vaddr paddr len writable, w2)
            ]
      ]

  -- `virtq_alloc_desc` after its check of the pointers. The option is what is written to `*idx`.
  unfoldable pub alloc :
      Virtq spin.Lock
      → (len : ℕ) → (writable : Bool) → World
      → Errno × Option ℕ × Virtq spin.Lock × World
  unfolding alloc_at
  alloc vq len writable w =
      let (rc, bytes, f) = Fifo.get spin vq.free_descs in
      let vq' = record vq { free_descs = f } in
      if is_ok rc
      then alloc_at vq' (of_bytes16 (fetched bytes)) len writable w
      else (rc, none, vq', w)

  unfoldable pub alloc_desc :
      Option (Virtq spin.Lock)
      → (len : ℕ) → (writable : Bool) → (out : Bool) → World
      → Errno × Option ℕ × Option (Virtq spin.Lock) × World
  alloc_desc none len writable out w = (einval, none, none, w)
  alloc_desc (some vq) len writable out w =
      if out
      then (let (rc, idx, vq', w') = alloc vq len writable w in (rc, idx, some vq', w'))
      else (einval, none, some vq, w)

  -- The source checks neither the pointer nor the index.
  unfoldable pub free_desc : Virtq spin.Lock → (idx : ℕ) → World → Errno × Virtq spin.Lock × World
  free_desc vq idx w =
      let (rc, w') = munmap (extras_at vq idx).vaddr (desc_at vq idx).len w in
      if is_ok rc
      then (let (rc', f) = Fifo.put spin vq.free_descs (bytes16 idx) in
          (
            rc',
            record vq {
              desc_extras = set vq.desc_extras idx zero_extras;
              desc = set vq.desc idx zero_desc;
              free_descs = f;
            },
            w',
          ))
      else (rc, vq, w')
