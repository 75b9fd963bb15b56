-- ===== src/Gpio/Flights/Alloc.antt =====
-- The two outcomes of `virtq_alloc_desc` on a ready queue.
use qnx_virtio.Common.{
  ℕ, ◌≡◌, refl, ap, List, [], ◌∷◌, ◌++◌, Bool, Bool-cases, true, false, ◌⊎◌, inl, inr, is_ok, arith,
  length, length-append,
}
use qnx_virtio.Os.{Os, Accounting}
use qnx_virtio.Virtq.{Virtq}
use qnx_virtio.Virtq.Alloc.{alloc}
use qnx_virtio.Virtq.FreeList.{pop-nil}
use qnx_virtio.Virtq.Frames.{SameRings, Allocated, alloc-Allocated, alloc-SameRings}
use qnx_virtio.Virtq.Ownership.{IsReady, Errnos, granted, alloc-refused, alloc-exhausted}
use qnx_virtio.Gpio.Flights.{occurs, occurs-append}

-- The free descriptors in another order.
pub record Reordered (q q' : List ℕ) : Type 0 where
  pub same_length : length q' ≡ length q
  pub same_count : (k : ℕ) → occurs k q' ≡ occurs k q

pub Reordered-refl : (q : List ℕ) → Reordered q q
Reordered-refl q = record { same_length = refl; same_count = λ k. refl }

pub Reordered-trans : {q q' q'' : List ℕ} → Reordered q q' → Reordered q' q'' → Reordered q q''
Reordered-trans r s = record {
  same_length = omega (arith, r.same_length, s.same_length);
  same_count = λ k. omega (arith, r.same_count k, s.same_count k);
}

-- The head goes to the end.
pub Reordered-rotate : (i : ℕ) (q q' : List ℕ) → Reordered q q' → Reordered (i ∷ q) (q' ++ (i ∷ []))
Reordered-rotate i q q' r = record {
  same_length = omega (arith, length-append q' (i ∷ []), r.same_length);
  same_count = λ k. omega (arith, occurs-append k q' (i ∷ []), r.same_count k);
}

module _ (os : Os) (acc : Accounting os) (err_codes : Errnos os)
    (free : (l : os.spin.Lock) → is_ok (os.spin.spin_lock l).0 ≡ true) where
  open os use {spin, World}
  open acc use {mappings}

  exhausted-tables :
      (vq : Virtq spin.Lock) (len : ℕ) (writable : Bool) (w : World)
      → IsReady vq []
      → ((alloc os vq len writable w).2.desc ≡ vq.desc)
        × ((alloc os vq len writable w).2.desc_extras ≡ vq.desc_extras)
  unfolding alloc
  exhausted-tables vq len writable w r = ground (arith, pop-nil spin free r.free)

  -- An allocation that fails: the queue is ready with the same descriptors free.
  pub record Fails (vq : Virtq spin.Lock) (q : List ℕ) (len : ℕ) (writable : Bool) (w : World)
      (back : List ℕ) : Type 0 where
    pub failed : is_ok (alloc os vq len writable w).0 ≡ false
    pub ready : IsReady (alloc os vq len writable w).2 back
    pub order : Reordered q back
    pub desc : (alloc os vq len writable w).2.desc ≡ vq.desc
    pub extras : (alloc os vq len writable w).2.desc_extras ≡ vq.desc_extras
    pub rings : SameRings vq (alloc os vq len writable w).2
    pub live : mappings (alloc os vq len writable w).3 ≡ mappings w

  -- An allocation that succeeds, with the head of the free list.
  pub record Grants (vq : Virtq spin.Lock) (q : List ℕ) (len : ℕ) (writable : Bool) (w : World)
      (i : ℕ) (rest : List ℕ) (va pa : ℕ) : Type 0 where
    pub head : q ≡ i ∷ rest
    pub allocated : Allocated os acc err_codes free vq i rest len writable w va pa

  pub alloc-outcome :
      (vq : Virtq spin.Lock) (q : List ℕ) (len : ℕ) (writable : Bool) (w : World)
      → IsReady vq q
      → ((i : ℕ) × (rest : List ℕ) × (va : ℕ) × (pa : ℕ) × Grants vq q len writable w i rest va pa)
        ⊎ ((back : List ℕ) × Fails vq q len writable w back)
  alloc-outcome vq [] len writable w r =
      let (rc, idx, ready, world) = alloc-exhausted os acc err_codes free vq len writable w r in
      let (desc, extras) = exhausted-tables vq len writable w r in
      inr (
        [],
        record {
          failed = ap is_ok rc;
          ready = ready;
          order = Reordered-refl [];
          desc = desc;
          extras = extras;
          rings = alloc-SameRings os acc err_codes free vq len writable w;
          live = ap mappings world;
        },
      )
  alloc-outcome vq (i ∷ q) len writable w r = elim (Bool-cases (granted os len w)) [
    | inl g ↦
        let (va, pa, a) = alloc-Allocated os acc err_codes free vq i q len writable w r g in
        inl (i, q, va, pa, record { head = refl; allocated = a })
    | inr g ↦
        let (failed, ready, desc, extras, live) =
          alloc-refused os acc err_codes free vq i q len writable w r g in
        inr (
          q ++ (i ∷ []),
          record {
            failed = failed;
            ready = ready;
            order = Reordered-rotate i q q (Reordered-refl q);
            desc = desc;
            extras = extras;
            rings = alloc-SameRings os acc err_codes free vq len writable w;
            live = live;
          },
        )
  ]
