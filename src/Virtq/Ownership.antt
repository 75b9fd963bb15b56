-- ===== src/Virtq/Ownership.antt =====
-- Descriptors are handed out and taken back: the free list, the table and the live mappings.
use qnx_virtio.Common.{
  ℕ, ◌^◌, ◌≤◌, ◌<◌, ◌≡◌, ◌≢◌, refl, List, [], ◌∷◌, ◌++◌, Bool, Option, none, some, true, false, ◌⊎◌,
  inl, inr, Errno, eok, enoent, is_ok, Result, ok, err, arith, length, length-set, get_or-set_self,
  get_or-set_ne, if◌then◌else◌,
}
use qnx_virtio.Os.{Os, Accounting, mapped, unmap, Mapping}
use qnx_virtio.Virtq.{Virtq, Desc, DescExtras, desc_at, extras_at, f_write, zero_desc, zero_extras}
use qnx_virtio.Virtq.Alloc.{alloc, give_back, fill_desc, free_desc}
use qnx_virtio.Virtq.FreeList.{FreeList, pop-nil, pop-cons, push-lem, length-FreeList, Below-append}
use qnx_virtio.Virtq.Walk.{Below}

-- The queue's tables have `num` entries, and `q` are the free descriptors in the order in which they
-- are handed out.
pub record IsReady {L : Type 0} (vq : Virtq L) (q : List ℕ) : Type 0 where
  pub free : FreeList vq.free_descs q
  pub capacity : vq.free_descs.capacity ≡ vq.place.num
  pub word : vq.place.num ≤ 2 ^ 16
  pub table : length vq.desc ≡ vq.place.num
  pub extras : length vq.desc_extras ≡ vq.place.num
  pub inside : Below vq.place.num q

-- After a failed call `errno` holds an error code.
pub record Errnos (os : Os) : Type 0 where
  pub errno-mmap :
      (len : ℕ) (w : os.World)
      → (os.mmap len w).0 ≡ none
      → is_ok (os.errno (os.mmap len w).1) ≡ false
  pub errno-mem_offset :
      (a len : ℕ) (w : os.World) (e : Errno)
      → (os.mem_offset a len w).0 ≡ err e
      → is_ok (os.errno (os.mem_offset a len w).1) ≡ false

abbrev pub is_ok_result : Result ℕ → Bool
is_ok_result (ok _) = true
is_ok_result (err _) = false

-- Whether the system maps a buffer of `len` bytes and knows its physical address.
abbrev pub granted : (os : Os) → (len : ℕ) → os.World → Bool
granted os len w = elim (os.mmap len w).0 [
  | none ↦ false
  | some a ↦ is_ok_result (os.mem_offset a len (os.mmap len w).1).0
]

abbrev pub granted_desc : (paddr len : ℕ) → Bool → Desc
granted_desc paddr len writable = record {
  addr = paddr;
  len = len;
  flags = if writable then f_write else 0;
  next = 0;
}

abbrev pub granted_extras : ℕ → DescExtras
granted_extras vaddr = record { vaddr = vaddr; context = none }

pub outcome : (o : Option ℕ) → (o ≡ none) ⊎ ((a : ℕ) × (o ≡ some a))
outcome none = inl refl
outcome (some a) = inr (a, refl)

refused_offset : (r : Result ℕ) → is_ok_result r ≡ false → (e : Errno) × (r ≡ err e)
refused_offset (ok _) h = cc
refused_offset (err e) h = (e, refl)

-- The newest mapping is found first.
unmap-head :
    (a n : ℕ) (ms : List Mapping)
    → (mapped (a, n) ((a, n) ∷ ms) ≡ true) × (unmap (a, n) ((a, n) ∷ ms) ≡ ms)
unmap-head a n ms = ground arith

module _ {L : Type 0} {vq : Virtq L} {i : ℕ} {q : List ℕ} (r : IsReady vq (i ∷ q)) where
  room : (length q < vq.free_descs.capacity)
  room = omega (arith, length-FreeList r.free, r.free.valid.count_in)

  index_small : i < 2 ^ 16
  index_small = omega (arith, r.inside.0, r.word)

module _ (os : Os) (acc : Accounting os) (err_codes : Errnos os)
    (free : (l : os.spin.Lock) → is_ok (os.spin.spin_lock l).0 ≡ true) where
  open os use {spin, World, mmap, munmap, mem_offset, errno}
  open acc use {mappings, mmap-some, mmap-none, mem_offset-same, munmap-mapped}

  -- If locks can always be taken, `virtq_alloc_desc` on a ready queue with no descriptor free
  -- answers `ENOENT`, hands out no index, keeps the queue ready and leaves the system as it was.
  pub alloc-exhausted :
      (vq : Virtq spin.Lock) (len : ℕ) (writable : Bool) (w : World)
      → IsReady vq []
      → let (rc, idx, vq', w') = alloc os vq len writable w in
        (rc ≡ enoent) × (idx ≡ none) × IsReady vq' [] × (w' ≡ w)
  unfolding alloc
  alloc-exhausted vq len writable w r = ground (arith, pop-nil spin free r.free)

  -- If locks can always be taken and the system maps the buffer and knows its physical address,
  -- `virtq_alloc_desc` on a ready queue hands out the first free descriptor and the queue is ready
  -- with the others free: the descriptor has the buffer's physical address, its length and the
  -- writable flag, its extras have the virtual address and no context, any other descriptor is as
  -- before, and the buffer's mapping is added to the live ones.
  pub alloc-granted :
      (vq : Virtq spin.Lock) (i : ℕ) (q : List ℕ) (len : ℕ) (writable : Bool) (w : World)
      (va pa k : ℕ)
      → IsReady vq (i ∷ q)
      → (mmap len w).0 ≡ some va
      → (mem_offset va len (mmap len w).1).0 ≡ ok pa
      → k ≢ i
      → let (rc, idx, vq', w') = alloc os vq len writable w in
        (rc ≡ eok)
        × (idx ≡ some i)
        × IsReady vq' q
        × (desc_at vq' i ≡ granted_desc pa len writable)
        × (extras_at vq' i ≡ granted_extras va)
        × (desc_at vq' k ≡ desc_at vq k)
        × (mappings w' ≡ (va, len) ∷ mappings w)
  unfolding alloc fill_desc
  alloc-granted vq i q len writable w va pa k r m o ne = ground (
    arith,
    pop-cons spin free r.free,
    length-set vq.desc i (granted_desc pa len writable),
    length-set vq.desc_extras i (granted_extras va),
    get_or-set_self vq.desc i (granted_desc pa len writable) zero_desc,
    get_or-set_self vq.desc_extras i (granted_extras va) zero_extras,
    get_or-set_ne vq.desc i k (granted_desc pa len writable) zero_desc,
    mmap-some len w va m,
    mem_offset-same va len (mmap len w).1,
    m,
    o,
  )

  -- If locks can always be taken and the system refuses the mapping or the physical address,
  -- `virtq_alloc_desc` on a ready queue with a free descriptor fails, leaves the descriptor table,
  -- the extras and the live mappings as they were, and the queue is ready with the descriptor moved
  -- to the end of the free list.
  pub alloc-refused :
      (vq : Virtq spin.Lock) (i : ℕ) (q : List ℕ) (len : ℕ) (writable : Bool) (w : World)
      → IsReady vq (i ∷ q)
      → granted os len w ≡ false
      → let (rc, idx, vq', w') = alloc os vq len writable w in
        (is_ok rc ≡ false)
        × IsReady vq' (q ++ (i ∷ []))
        × (vq'.desc ≡ vq.desc)
        × (vq'.desc_extras ≡ vq.desc_extras)
        × (mappings w' ≡ mappings w)
  unfolding alloc give_back
  alloc-refused vq i q len writable w r g =
      let popped = pop-cons spin free r.free in
      let pushed =
        push-lem spin free i popped.2 (omega (arith, popped.3, room r)) (index_small r) in
      elim (outcome (mmap len w).0) [
        | inl e ↦ ground (
          arith,
          e,
          popped,
          pushed,
          mmap-none len w e,
          err_codes.errno-mmap len w e,
          Below-append vq.place.num q i r.inside.1 r.inside.0,
        )
        | inr (va, e) ↦
            let offset : is_ok_result (mem_offset va len (mmap len w).1).0 ≡ false =
              ground (arith, e) in
            let (code, o) = refused_offset (mem_offset va len (mmap len w).1).0 offset in
            ground (
              arith,
              e,
              o,
              popped,
              pushed,
              mmap-some len w va e,
              mem_offset-same va len (mmap len w).1,
              unmap-head va len (mappings w),
              munmap-mapped va len (mem_offset va len (mmap len w).1).1,
              err_codes.errno-mem_offset va len (mmap len w).1 code o,
              Below-append vq.place.num q i r.inside.1 r.inside.0,
            )
      ]

  -- If locks can always be taken, `virtq_free_desc` of a descriptor whose buffer is mapped, on a
  -- ready queue in which not all are free, returns EOK, takes off that mapping, clears the
  -- descriptor and its extras and no other descriptor, and puts it at the end of the free list of a
  -- ready queue.
  pub free_desc-returns :
      (vq : Virtq spin.Lock) (i k : ℕ) (q : List ℕ) (w : World)
      → IsReady vq q
      → i < vq.place.num
      → length q < vq.place.num
      → mapped ((extras_at vq i).vaddr, (desc_at vq i).len) (mappings w) ≡ true
      → k ≢ i
      → let (rc, vq', w') = free_desc os vq i w in
        (rc ≡ eok)
        × IsReady vq' (q ++ (i ∷ []))
        × (desc_at vq' i ≡ zero_desc)
        × (extras_at vq' i ≡ zero_extras)
        × (desc_at vq' k ≡ desc_at vq k)
        × (mappings w' ≡ unmap ((extras_at vq i).vaddr, (desc_at vq i).len) (mappings w))
  unfolding free_desc
  free_desc-returns vq i k q w r lt few live ne = ground (
    arith,
    munmap-mapped (extras_at vq i).vaddr (desc_at vq i).len w live,
    push-lem spin free i r.free (omega (arith, r.capacity)) (omega (arith, r.word)),
    length-set vq.desc i zero_desc,
    length-set vq.desc_extras i zero_extras,
    get_or-set_self vq.desc i zero_desc zero_desc,
    get_or-set_self vq.desc_extras i zero_extras zero_extras,
    get_or-set_ne vq.desc i k zero_desc zero_desc,
    Below-append vq.place.num q i r.inside,
  )
