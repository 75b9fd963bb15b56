-- ===== src/Gpio/Refused.antt =====
-- A request of the GPIO driver that cannot get its second buffer.
use qnx_virtio.Common.{
  ℕ, ◌<◌, ◌≡◌, ◌≢◌, refl, sym, ap, subst, ◌∙◌, List, [], ◌∷◌, ◌++◌, true, false, is_ok, arith,
  length, length-append,
}
use qnx_virtio.Os.{Os, Accounting, mapped, unmap, Mapping}
use qnx_virtio.Virtq.{desc_at, extras_at}
use qnx_virtio.Virtq.Alloc.{alloc}
use qnx_virtio.Virtq.Frames.{alloc-Allocated, alloc-SameRings, free_desc-Freed}
use qnx_virtio.Virtq.FreeList.{length-FreeList}
use qnx_virtio.Virtq.Ownership.{IsReady, Errnos, granted, alloc-refused}
use qnx_virtio.Gpio.{GpioRequest, response_size}
use qnx_virtio.Gpio.Request.{Driver, request}

pub unmap-newest :
    (m : Mapping) (ms : List Mapping) → (mapped m (m ∷ ms) ≡ true) × (unmap m (m ∷ ms) ≡ ms)
unmap-newest m ms = ground arith

module _ (os : Os) (T : Type 0) (acc : Accounting os) (err_codes : Errnos os)
    (free : (l : os.spin.Lock) → is_ok (os.spin.spin_lock l).0 ≡ true) where
  open acc use {mappings}

  -- If locks can be taken and the system grants the request's buffer but not the response's, the
  -- request on a ready queue with the free descriptors `i`, `j` and `q` fails, the mappings are
  -- those before it, the queue is ready with both descriptors back behind `q`, and the device, the
  -- buffers and the callers' contexts are as before.
  pub request-unwinds :
      (g : Driver os T) (req : GpioRequest) (context i j : ℕ) (q : List ℕ)
      → IsReady g.requestq (i ∷ j ∷ q)
      → i ≢ j
      → granted os 8 g.world ≡ true
      → granted os (response_size g req.type) (alloc os g.requestq 8 false g.world).3 ≡ false
      → let (rc, g') = request os T req context g in
        (is_ok rc ≡ false)
        × IsReady g'.requestq ((q ++ (j ∷ [])) ++ (i ∷ []))
        × (mappings g'.world ≡ mappings g.world)
        × (g'.dev ≡ g.dev)
        × (g'.memory ≡ g.memory)
  unfolding request
  request-unwinds g req context i j q r ne grant0 refused =
      let (va0, pa0, a0) =
        alloc-Allocated os acc err_codes free g.requestq i (j ∷ q) 8 false g.world r grant0 in
      let (rc0, idx0, vq0, w0) = alloc os g.requestq 8 false g.world in
      let n = response_size g req.type in
      let (failed, ready, desc, extras, live) =
        alloc-refused os acc err_codes free vq0 j q n true w0 a0.ready refused in
      let (rc1, idx1, vq1, w1) = alloc os vq0 n true w0 in
      let place = (alloc-SameRings os acc err_codes free vq0 n true w0).place ∙ a0.rings.place in
      let few : length (q ++ (j ∷ [])) < g.requestq.place.num = omega (
        arith,
        r.capacity,
        length-FreeList r.free,
        r.free.valid.count_in,
        length-append q (j ∷ []),
      ) in
      let at0 : (extras_at vq1 i).vaddr ≡ va0 = rw extras (ap (λ x. x.vaddr) a0.extra_at) in
      let len_at0 : (desc_at vq1 i).len ≡ 8 = rw desc (ap (λ d. d.len) a0.entry_at) in
      let (found, rest) = unmap-newest (va0, 8) (mappings g.world) in
      let f =
        free_desc-Freed os acc err_codes free vq1 i (q ++ (j ∷ [])) w1 ready
          (subst (λ pl. i < pl.num) (sym place) r.inside.0)
          (subst (λ pl. length (q ++ (j ∷ [])) < pl.num) (sym place) few)
          (rw at0 (rw len_at0 (rw live (rw a0.live found)))) in
      rw (a0.rc, a0.idx)
        (rw failed
          (failed, f.ready, f.live ∙ rw at0 (rw len_at0 (rw live (rw a0.live rest))), refl, refl))
