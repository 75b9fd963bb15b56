-- ===== src/Gpio/Exchange.antt =====
-- A request and its answer: what the completion callback does when the device has returned the chain.
use qnx_virtio.Common.{
  ℕ, suc, ◌+◌, ◌<◌, ◌≡◌, ◌≢◌, refl, sym, ap, subst, ◌∙◌, List, [], ◌∷◌, ◌++◌, true, none, some, eok,
  enoent, is_ok, ok, arith, length, length-append, u16,
}
use qnx_virtio.Os.{Os, Accounting, Mapping, mapped, unmap}
use qnx_virtio.Virtq.{Virtq, Used, DescExtras, desc_at, extras_at, get_desc_vaddr, get_desc_context}
use qnx_virtio.Virtq.Alloc.{free_desc}
use qnx_virtio.Virtq.Chain.{get_chain}
use qnx_virtio.Virtq.Frames.{SameRings, SameRings-trans, free_desc-Freed, IsReady-tables}
use qnx_virtio.Virtq.Tables.{get_chain-SameTables}
use qnx_virtio.Virtq.Ownership.{IsReady, Errnos, granted_extras}
use qnx_virtio.Virtq.Submit.{Returned, get-nothing_new}
use qnx_virtio.Virtq.Walk.{EndsAt}
use qnx_virtio.Gpio.{Memory, gpio_callback}
use qnx_virtio.Gpio.Request.{Driver}
use qnx_virtio.Gpio.Callback.{free_both, complete, virtq_callback}
use qnx_virtio.Gpio.Posted.{Pair, with_context, answered, taken_chain}

-- The two newest mappings are found, whichever is taken first.
unmap-two :
    (m0 m1 : Mapping) (ms : List Mapping)
    → (mapped m0 (m1 ∷ m0 ∷ ms) ≡ true)
      × (mapped m1 (unmap m0 (m1 ∷ m0 ∷ ms)) ≡ true)
      × (unmap m1 (unmap m0 (m1 ∷ m0 ∷ ms)) ≡ ms)
unmap-two m0 m1 ms = ground arith

pub get_desc-in :
    {L : Type 0} (vq : Virtq L) (i : ℕ)
    → i < vq.place.num
    → (get_desc_vaddr (some vq) i true ≡ ok (extras_at vq i).vaddr)
      × (get_desc_context (some vq) i true ≡ ok (extras_at vq i).context)
unfolding get_desc_vaddr get_desc_context
get_desc-in vq i h = ground arith

module _ (os : Os) (T : Type 0) (acc : Accounting os) (err_codes : Errnos os)
    (free : (l : os.spin.Lock) → is_ok (os.spin.spin_lock l).0 ≡ true) where
  open os use {spin}
  open acc use {mappings}

  pub complete-Pair :
      (g : Driver os T) (i j len0 len1 va0 va1 context : ℕ)
      → Pair g.requestq i j len0 len1 (with_context va0 context) (granted_extras va1)
      → complete os T (i, j) g
        ≡ some
            (free_both os T (i, j) (record g { memory = gpio_callback va0 va1 context g.memory }))
  unfolding complete
  complete-Pair g i j len0 len1 va0 va1 context p =
      let first = get_desc-in g.requestq i p.first_in in
      let second = get_desc-in g.requestq j p.second_in in
      ground (arith, first, second, p.first_extra, p.second_extra)

  -- What is left of a pair of descriptors whose buffers are mapped when both are freed.
  pub record BothFreed (g : Driver os T) (i j : ℕ) (q : List ℕ) (m0 m1 : Mapping) : Type 0 where
    pub ready : IsReady (free_both os T (i, j) g).requestq ((q ++ (i ∷ [])) ++ (j ∷ []))
    pub live : mappings (free_both os T (i, j) g).world ≡ unmap m1 (unmap m0 (mappings g.world))
    pub rings : SameRings g.requestq (free_both os T (i, j) g).requestq
    pub memory : (free_both os T (i, j) g).memory ≡ g.memory
    pub entry_ne :
        (k : ℕ)
        → k ≢ i
        → k ≢ j
        → desc_at (free_both os T (i, j) g).requestq k ≡ desc_at g.requestq k
    pub extra_ne :
        (k : ℕ)
        → k ≢ i
        → k ≢ j
        → extras_at (free_both os T (i, j) g).requestq k ≡ extras_at g.requestq k

  pub free_both-Pair :
      (g : Driver os T) (i j len0 len1 : ℕ) (x0 x1 : DescExtras) (q : List ℕ)
      → Pair g.requestq i j len0 len1 x0 x1
      → IsReady g.requestq q
      → i ≢ j
      → suc (length q) < g.requestq.place.num
      → mapped (x0.vaddr, len0) (mappings g.world) ≡ true
      → mapped (x1.vaddr, len1) (unmap (x0.vaddr, len0) (mappings g.world)) ≡ true
      → BothFreed g i j q (x0.vaddr, len0) (x1.vaddr, len1)
  unfolding free_both
  free_both-Pair g i j len0 len1 x0 x1 q p r ne few found0 found1 =
      let at0 = ap (λ x. x.vaddr) p.first_extra in
      let f0 =
        free_desc-Freed os acc err_codes free g.requestq i q g.world r p.first_in
          (omega (arith, few)) (rw at0 (rw p.first_len found0)) in
      let (rc0, vq0, w0) = free_desc os g.requestq i g.world in
      let at1 : (extras_at vq0 j).vaddr ≡ x1.vaddr =
        ap (λ x. x.vaddr) (f0.extra_ne j (λ e. ne (sym e)) ∙ p.second_extra) in
      let len_at1 : (desc_at vq0 j).len ≡ len1 =
        ap (λ d. d.len) (f0.entry_ne j (λ e. ne (sym e))) ∙ p.second_len in
      let live0 : mappings w0 ≡ unmap (x0.vaddr, len0) (mappings g.world) =
        f0.live ∙ rw at0 (rw p.first_len refl) in
      let f1 =
        free_desc-Freed os acc err_codes free vq0 j (q ++ (i ∷ [])) w0 f0.ready
          (subst (λ pl. j < pl.num) (sym f0.rings.place) p.second_in)
          (subst (λ pl. length (q ++ (i ∷ [])) < pl.num) (sym f0.rings.place)
            (omega (arith, few, length-append q (i ∷ []))))
          (rw at1 (rw len_at1 (rw live0 found1))) in
      record {
        ready = f1.ready;
        live = f1.live ∙ rw at1 (rw len_at1 (rw live0 refl));
        rings = SameRings-trans f0.rings f1.rings;
        memory = refl;
        entry_ne = λ k ni nj. f1.entry_ne k nj ∙ f0.entry_ne k ni;
        extra_ne = λ k ni nj. f1.extra_ne k nj ∙ f0.extra_ne k ni;
      }

  pub callback-step :
      (n : ℕ) (idxs : ℕ × ℕ) (g g' : Driver os T) (i j : ℕ)
      → (get_chain spin g.requestq 2).0 ≡ (eok, some 2, i ∷ j ∷ [])
      → complete os T (i, j) (record g { requestq = (get_chain spin g.requestq 2).1 }) ≡ some g'
      → virtq_callback os T (suc n) idxs g ≡ virtq_callback os T n (i, j) g'
  unfolding virtq_callback
  callback-step n idxs g g' i j chain done = ground (arith, chain, done)

  pub callback-ends :
      (n : ℕ) (idxs : ℕ × ℕ) (g : Driver os T)
      → (get_chain spin g.requestq 2).0 ≡ (enoent, none, [])
      → virtq_callback os T (suc n) idxs g
        ≡ some (enoent, record g { requestq = (get_chain spin g.requestq 2).1 })
  unfolding virtq_callback
  callback-ends n idxs g chain = ground (arith, chain)

  -- What the completion callback leaves when the device has returned the chain of `i` and `j`.
  pub record Answered (g : Driver os T) (q : List ℕ) (ms : List Mapping) (memory : Memory)
      : Type 0 where
    pub ready : IsReady g.requestq q
    pub live : mappings g.world ≡ ms
    pub completed : g.memory ≡ memory

  pub callback-answered :
      (g : Driver os T) (vq : Virtq spin.Lock) (i j len0 len1 va0 va1 context : ℕ) (q : List ℕ)
      (ms : List Mapping) (u : Used) (n : ℕ) (idxs : ℕ × ℕ)
      → IsReady vq q
      → Pair vq i j len0 len1 (with_context va0 context) (granted_extras va1)
      → EndsAt vq.desc i (j ∷ [])
      → i ≢ j
      → suc (length q) < vq.place.num
      → mappings g.world ≡ (va1, len1) ∷ (va0, len0) ∷ ms
      → Returned vq u i
      → u.idx ≡ u16 (vq.last_seen_used + 1)
      → (g' : Driver os T) × (virtq_callback os T
            (suc (suc n))
            idxs
            (record g { requestq = answered spin vq i j u })
          ≡ some (enoent, g'))
        × Answered g' ((q ++ (i ∷ [])) ++ (j ∷ [])) ms (gpio_callback va0 va1 context g.memory)
  callback-answered g vq i j len0 len1 va0 va1 context q ms u n idxs r p ends ne few live ret one =
      let g0 : Driver os T = record g { requestq = answered spin vq i j u } in
      let (chain, seen, used, place, p', r') = taken_chain spin free r p ends ne u ret in
      let g1 : Driver os T = record g0 {
        requestq = (get_chain spin g0.requestq 2).1;
        memory = gpio_callback va0 va1 context g.memory;
      } in
      let g2 = free_both os T (i, j) g1 in
      let (found0, found1, left) = unmap-two (va0, len0) (va1, len1) ms in
      let f =
        free_both-Pair g1 i j len0 len1 (with_context va0 context) (granted_extras va1) q p' r' ne
          (subst (λ pl. suc (length q) < pl.num) (sym place) few) (rw live found0)
          (rw live found1) in
      let done =
        complete-Pair (record g0 { requestq = (get_chain spin g0.requestq 2).1 }) i j len0 len1 va0
          va1 context p' in
      let step = callback-step (suc n) idxs g0 g2 i j chain done in
      let new : g2.requestq.used.idx ≡ g2.requestq.last_seen_used =
        ap (λ v. v.idx) (f.rings.used ∙ used) ∙ one ∙ sym (f.rings.seen ∙ seen) in
      let over = get-nothing_new spin g2.requestq 2 new (free g2.requestq.lock) in
      let t = get_chain-SameTables spin g2.requestq 2 in
      (
        record g2 { requestq = (get_chain spin g2.requestq 2).1 },
        step ∙ callback-ends n (i, j) g2 over.0,
        record {
          ready =
              IsReady-tables f.ready t.free_descs t.place (ap length t.desc)
                (ap length t.desc_extras);
          live = f.live ∙ rw live left;
          completed = f.memory;
        },
      )
