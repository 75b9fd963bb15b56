-- ===== src/Virtq/Frames.antt =====
-- What the calls on a virtqueue leave alone, and the tables that they write.
use qnx_virtio.Common.{
  ℕ, suc, ◌<◌, ◌≡◌, ◌≢◌, refl, ◌∙◌, List, [], ◌∷◌, ◌++◌, Bool, none, some, true, eok, is_ok, Result,
  ok, err, arith, length, get_or-set_ne, inl, inr,
}
use qnx_virtio.Os.{Os, Accounting, mapped, unmap}
use qnx_virtio.Virtq.{Virtq, desc_at, extras_at, zero_extras}
use qnx_virtio.Virtq.Alloc.{alloc, give_back, fill_desc, free_desc}
use qnx_virtio.Virtq.Ownership.{
  IsReady, Errnos, granted, granted_desc, granted_extras, alloc-granted, free_desc-returns, outcome,
  is_ok_result,
}
use qnx_virtio.Virtq.FreeList.{pop-cons}

-- The fields that say where a queue lies and what the device has seen of it.
pub record SameRings {L : Type 0} (vq vq' : Virtq L) : Type 0 where
  pub place : vq'.place ≡ vq.place
  pub avail : vq'.avail ≡ vq.avail
  pub used : vq'.used ≡ vq.used
  pub seen : vq'.last_seen_used ≡ vq.last_seen_used

pub SameRings-trans : {L : Type 0} {a b c : Virtq L} → SameRings a b → SameRings b c → SameRings a c
SameRings-trans r s = record {
  place = s.place ∙ r.place;
  avail = s.avail ∙ r.avail;
  used = s.used ∙ r.used;
  seen = s.seen ∙ r.seen;
}

value_of : (r : Result ℕ) → is_ok_result r ≡ true → (a : ℕ) × (r ≡ ok a)
value_of (ok a) h = (a, refl)
value_of (err e) h = cc

-- A queue is ready whatever its rings, its entries and its lock.
pub IsReady-tables :
    {L : Type 0} {vq vq' : Virtq L} {q : List ℕ}
    → IsReady vq q
    → vq'.free_descs ≡ vq.free_descs
    → vq'.place ≡ vq.place
    → length vq'.desc ≡ length vq.desc
    → length vq'.desc_extras ≡ length vq.desc_extras
    → IsReady vq' q
IsReady-tables r f p d e = ground (arith, r)

module _ (os : Os) (acc : Accounting os) (err_codes : Errnos os)
    (free : (l : os.spin.Lock) → is_ok (os.spin.spin_lock l).0 ≡ true) where
  open os use {spin, World, mmap, mem_offset}
  open acc use {mappings}

  pub alloc-SameRings :
      (vq : Virtq spin.Lock) (len : ℕ) (writable : Bool) (w : World)
      → SameRings vq (alloc os vq len writable w).2
  unfolding alloc give_back fill_desc
  alloc-SameRings vq len writable w = ground arith

  alloc-extras_ne :
      (vq : Virtq spin.Lock) (i : ℕ) (q : List ℕ) (len : ℕ) (writable : Bool) (w : World)
      (va pa k : ℕ)
      → IsReady vq (i ∷ q)
      → (mmap len w).0 ≡ some va
      → (mem_offset va len (mmap len w).1).0 ≡ ok pa
      → k ≢ i
      → extras_at (alloc os vq len writable w).2 k ≡ extras_at vq k
  unfolding alloc fill_desc
  alloc-extras_ne vq i q len writable w va pa k r m o ne = ground (
    arith,
    m,
    o,
    pop-cons spin free r.free,
    get_or-set_ne vq.desc_extras i k (granted_extras va) zero_extras,
  )

  -- What the system grants.
  granted_parts :
      (len : ℕ) (w : World)
      → granted os len w ≡ true
      → (va : ℕ) × (pa : ℕ) × ((mmap len w).0 ≡ some va)
        × ((mem_offset va len (mmap len w).1).0 ≡ ok pa)
  granted_parts len w g = elim (outcome (mmap len w).0) [
    | inl e ↦ absurd_of e
    | inr (va, e) ↦
        let offset : is_ok_result (mem_offset va len (mmap len w).1).0 ≡ true = ground (arith, e) in
        let (pa, o) = value_of (mem_offset va len (mmap len w).1).0 offset in (va, pa, e, o)
  ]
    where
      absurd_of :
          (mmap len w).0 ≡ none
          → (va : ℕ) × (pa : ℕ) × ((mmap len w).0 ≡ some va)
            × ((mem_offset va len (mmap len w).1).0 ≡ ok pa)
      absurd_of e = absurd (ground (arith, e, g))

  free_desc-SameRings :
      (vq : Virtq spin.Lock) (i : ℕ) (w : World) → SameRings vq (free_desc os vq i w).1
  unfolding free_desc
  free_desc-SameRings vq i w = ground arith

  free_desc-extras_ne :
      (vq : Virtq spin.Lock) (i k : ℕ) (w : World)
      → k ≢ i
      → extras_at (free_desc os vq i w).1 k ≡ extras_at vq k
  unfolding free_desc
  free_desc-extras_ne vq i k w ne =
      ground (arith, get_or-set_ne vq.desc_extras i k zero_extras zero_extras)

  -- What a granted allocation makes of a queue: descriptor `i` and the buffer at `va`.
  pub record Allocated (vq : Virtq spin.Lock) (i : ℕ) (q : List ℕ) (len : ℕ) (writable : Bool)
      (w : World) (va pa : ℕ) : Type 0 where
    pub rc : (alloc os vq len writable w).0 ≡ eok
    pub idx : (alloc os vq len writable w).1 ≡ some i
    pub ready : IsReady (alloc os vq len writable w).2 q
    pub entry_at : desc_at (alloc os vq len writable w).2 i ≡ granted_desc pa len writable
    pub extra_at : extras_at (alloc os vq len writable w).2 i ≡ granted_extras va
    pub entry_ne : (k : ℕ) → k ≢ i → desc_at (alloc os vq len writable w).2 k ≡ desc_at vq k
    pub extra_ne : (k : ℕ) → k ≢ i → extras_at (alloc os vq len writable w).2 k ≡ extras_at vq k
    pub rings : SameRings vq (alloc os vq len writable w).2
    pub live : mappings (alloc os vq len writable w).3 ≡ (va, len) ∷ mappings w

  pub alloc-Allocated :
      (vq : Virtq spin.Lock) (i : ℕ) (q : List ℕ) (len : ℕ) (writable : Bool) (w : World)
      → IsReady vq (i ∷ q)
      → granted os len w ≡ true
      → (va : ℕ) × (pa : ℕ) × Allocated vq i q len writable w va pa
  alloc-Allocated vq i q len writable w r g =
      let (va, pa, m, o) = granted_parts len w g in
      let outside = alloc-granted os acc err_codes free vq i q len writable w va pa in
      let (rc, idx, ready, entry_at, extra_at, entry_ne, live) =
        outside (suc i) r m o (omega arith) in
      (
        va,
        pa,
        record {
          rc = rc;
          idx = idx;
          ready = ready;
          entry_at = entry_at;
          extra_at = extra_at;
          entry_ne = λ k ne. (outside k r m o ne).5;
          extra_ne = λ k ne. alloc-extras_ne vq i q len writable w va pa k r m o ne;
          rings = alloc-SameRings vq len writable w;
          live = live;
        },
      )

  -- What freeing a descriptor whose buffer is mapped makes of a queue.
  pub record Freed (vq : Virtq spin.Lock) (i : ℕ) (q : List ℕ) (w : World) : Type 0 where
    pub ready : IsReady (free_desc os vq i w).1 (q ++ (i ∷ []))
    pub entry_ne : (k : ℕ) → k ≢ i → desc_at (free_desc os vq i w).1 k ≡ desc_at vq k
    pub extra_ne : (k : ℕ) → k ≢ i → extras_at (free_desc os vq i w).1 k ≡ extras_at vq k
    pub rings : SameRings vq (free_desc os vq i w).1
    pub live :
        mappings (free_desc os vq i w).2
        ≡ unmap ((extras_at vq i).vaddr, (desc_at vq i).len) (mappings w)

  pub free_desc-Freed :
      (vq : Virtq spin.Lock) (i : ℕ) (q : List ℕ) (w : World)
      → IsReady vq q
      → i < vq.place.num
      → length q < vq.place.num
      → mapped ((extras_at vq i).vaddr, (desc_at vq i).len) (mappings w) ≡ true
      → Freed vq i q w
  free_desc-Freed vq i q w r lt few live =
      let (rc, ready, cleared, extras_cleared, entry_ne, unmapped) =
        free_desc-returns os acc err_codes free vq i (suc i) q w r lt few live (omega arith) in
      record {
        ready = ready;
        entry_ne = λ k ne. (free_desc-returns os acc err_codes free vq i k q w r lt few live ne).4;
        extra_ne = λ k ne. free_desc-extras_ne vq i k w ne;
        rings = free_desc-SameRings vq i w;
        live = unmapped;
      }
