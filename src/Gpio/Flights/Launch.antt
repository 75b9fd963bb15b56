-- ===== src/Gpio/Flights/Launch.antt =====
-- `virtio_gpio_request` on a driver that has requests in flight.
use qnx_virtio.Common.{
  ℕ, ◌<◌, ◌≤◌, ◌≡◌, ◌≢◌, refl, sym, ap, subst, ◌∙◌, List, [], ◌∷◌, ◌++◌, true, false, ◌⊎◌, inl, inr,
  some, Errno, eok, is_ok, arith, length,
}
use qnx_virtio.Os.{Os, Accounting}
use qnx_virtio.Virtq.{Virtq, desc_at, extras_at}
use qnx_virtio.Virtq.Alloc.{alloc, free_desc}
use qnx_virtio.Virtq.Frames.{Allocated, free_desc-Freed}
use qnx_virtio.Virtq.FreeList.{length-FreeList}
use qnx_virtio.Virtq.Ownership.{IsReady, Errnos}
use qnx_virtio.Gpio.{GpioRequest, response_size}
use qnx_virtio.Gpio.Request.{Driver, written, request}
use qnx_virtio.Gpio.Refused.{unmap-newest}
use qnx_virtio.Gpio.RoundTrip.{Posted, Allocated-Posted}
use qnx_virtio.Gpio.Flights.{Flight, occurs}
use qnx_virtio.Gpio.Flights.Alloc.{Reordered, Reordered-rotate, Fails, alloc-outcome}

module _ (os : Os) (T : Type 0) where
  -- The request that `virtio_gpio_request` puts in flight, if it succeeds.
  unfoldable pub flight_of : GpioRequest → (context : ℕ) → Driver os T → Flight
  flight_of req context g =
      let (rc0, idx0, vq0, w0) = alloc os g.requestq 8 false g.world in
      let (rc1, idx1, vq1, w1) = alloc os vq0 (response_size g req.type) true w0 in
      record {
        first = written idx0;
        second = written idx1;
        va0 = (extras_at vq1 (written idx0)).vaddr;
        va1 = (extras_at vq1 (written idx1)).vaddr;
        len = response_size g req.type;
        context = context;
      }

module _ (os : Os) (T : Type 0) (acc : Accounting os) (err_codes : Errnos os)
    (free : (l : os.spin.Lock) → is_ok (os.spin.spin_lock l).0 ≡ true) where
  open os use {spin, World}
  open acc use {mappings}

  -- What a request that fails leaves: the same descriptors are free, and those that were not have
  -- their entries.
  pub record Unsent (g : Driver os T) (q back : List ℕ) (o : Errno × Driver os T) : Type 0 where
    pub failed : is_ok o.0 ≡ false
    pub ready : IsReady o.1.requestq back
    pub order : Reordered q back
    pub place : o.1.requestq.place ≡ g.requestq.place
    pub entry : (k : ℕ) → occurs k q ≡ 0 → desc_at o.1.requestq k ≡ desc_at g.requestq k
    pub extra : (k : ℕ) → occurs k q ≡ 0 → extras_at o.1.requestq k ≡ extras_at g.requestq k
    pub live : mappings o.1.world ≡ mappings g.world

  pub record Sends (g : Driver os T) (req : GpioRequest) (context : ℕ) (q : List ℕ) (i j : ℕ)
      (rest : List ℕ) (va0 va1 : ℕ) (vq : Virtq spin.Lock) (w : World) : Type 0 where
    pub head : q ≡ i ∷ j ∷ rest
    pub differ : i ≢ j
    pub posted : Posted os T acc err_codes free g req context i j rest va0 va1 vq w
    pub flight : flight_of os T req context g ≡ record {
      first = i;
      second = j;
      va0 = va0;
      va1 = va1;
      len = response_size g req.type;
      context = context;
    }

  head_differ : (i j : ℕ) (rest q : List ℕ) → q ≡ i ∷ j ∷ rest → occurs i q ≤ 1 → i ≢ j
  head_differ i j rest q h few e = ground (arith, h, few, e)

  not_used : (k i : ℕ) (q : List ℕ) → occurs k (i ∷ q) ≡ 0 → k ≢ i
  not_used k i q h e = ground (arith, h, e)

  request-first_fails :
      (g : Driver os T) (req : GpioRequest) (context : ℕ)
      → let (rc, idx, vq, w) = alloc os g.requestq 8 false g.world in
        is_ok rc ≡ false → request os T req context g ≡ (rc, record g { requestq = vq; world = w })
  unfolding request
  request-first_fails g req context h = ground (arith, h)

  request-second_fails :
      (g : Driver os T) (req : GpioRequest) (context i : ℕ)
      → let (rc0, idx0, vq0, w0) = alloc os g.requestq 8 false g.world in
        let (rc1, idx1, vq1, w1) = alloc os vq0 (response_size g req.type) true w0 in
        rc0 ≡ eok
        → idx0 ≡ some i
        → is_ok rc1 ≡ false
        → request os T req context g ≡ (
          rc1,
          record g { requestq = (free_desc os vq1 i w1).1; world = (free_desc os vq1 i w1).2 },
        )
  unfolding request
  request-second_fails g req context i e idx h = rw (e, idx) (rw h refl)

  first-Unsent :
      (g : Driver os T) (req : GpioRequest) (context : ℕ) (q back : List ℕ)
      → Fails os acc err_codes free g.requestq q 8 false g.world back
      → Unsent g q back (request os T req context g)
  first-Unsent g req context q back f =
      subst (Unsent g q back) (sym (request-first_fails g req context f.failed)) record {
        failed = f.failed;
        ready = f.ready;
        order = f.order;
        place = f.rings.place;
        entry = λ k h. rw f.desc refl;
        extra = λ k h. rw f.extras refl;
        live = f.live;
      }

  second-Unsent :
      (g : Driver os T) (req : GpioRequest) (context : ℕ) (i : ℕ) (rest back : List ℕ) (va0 pa0 : ℕ)
      → IsReady g.requestq (i ∷ rest)
      → let (rc0, idx0, vq0, w0) = alloc os g.requestq 8 false g.world in
        Allocated os acc err_codes free g.requestq i rest 8 false g.world va0 pa0
        → Fails os acc err_codes free vq0 rest (response_size g req.type) true w0 back
        → Unsent g (i ∷ rest) (back ++ (i ∷ [])) (request os T req context g)
  second-Unsent g req context i rest back va0 pa0 r a0 f =
      let (rc0, idx0, vq0, w0) = alloc os g.requestq 8 false g.world in
      let (rc1, idx1, vq1, w1) = alloc os vq0 (response_size g req.type) true w0 in
      let place = f.rings.place ∙ a0.rings.place in
      let few : length back < g.requestq.place.num =
        omega
          (arith, r.capacity, length-FreeList r.free, r.free.valid.count_in, f.order.same_length) in
      let at0 : (extras_at vq1 i).vaddr ≡ va0 = rw f.extras (ap (λ x. x.vaddr) a0.extra_at) in
      let len_at0 : (desc_at vq1 i).len ≡ 8 = rw f.desc (ap (λ d. d.len) a0.entry_at) in
      let (found, left) = unmap-newest (va0, 8) (mappings g.world) in
      let freed =
        free_desc-Freed os acc err_codes free vq1 i back w1 f.ready
          (subst (λ pl. i < pl.num) (sym place) r.inside.0)
          (subst (λ pl. length back < pl.num) (sym place) few)
          (rw at0 (rw len_at0 (rw f.live (rw a0.live found)))) in
      let result = request-second_fails g req context i a0.rc a0.idx f.failed in
      subst (Unsent g (i ∷ rest) (back ++ (i ∷ []))) (sym result) record {
        failed = f.failed;
        ready = freed.ready;
        order = Reordered-rotate i rest back f.order;
        place = freed.rings.place ∙ place;
        entry = λ k h.
            freed.entry_ne k (not_used k i rest h)
            ∙ rw f.desc (a0.entry_ne k (not_used k i rest h));
        extra = λ k h.
            freed.extra_ne k (not_used k i rest h)
            ∙ rw f.extras (a0.extra_ne k (not_used k i rest h));
        live = freed.live ∙ rw at0 (rw len_at0 (rw f.live (rw a0.live left)));
      }

  flight-Allocated :
      (g : Driver os T) (req : GpioRequest) (context i j : ℕ) (q : List ℕ) (va0 pa0 va1 pa1 : ℕ)
      → i ≢ j
      → let (rc0, idx0, vq0, w0) = alloc os g.requestq 8 false g.world in
        Allocated os acc err_codes free g.requestq i (j ∷ q) 8 false g.world va0 pa0
        → Allocated os acc err_codes free vq0 j q (response_size g req.type) true w0 va1 pa1
        → flight_of os T req context g ≡ record {
          first = i;
          second = j;
          va0 = va0;
          va1 = va1;
          len = response_size g req.type;
          context = context;
        }
  unfolding flight_of
  flight-Allocated g req context i j q va0 pa0 va1 pa1 ne a0 a1 =
      rw (a0.idx, a1.idx) (ground (arith, a1.extra_ne i ne, a0.extra_at, a1.extra_at))

  pub request-outcome :
      (g : Driver os T) (req : GpioRequest) (context : ℕ) (q : List ℕ)
      → IsReady g.requestq q
      → ((k : ℕ) → k < g.requestq.place.num → occurs k q ≤ 1)
      → ((i : ℕ) × (j : ℕ) × (rest : List ℕ) × (va0 : ℕ) × (va1 : ℕ) × (vq : Virtq spin.Lock)
          × (w : World) × Sends g req context q i j rest va0 va1 vq w)
        ⊎ ((back : List ℕ) × Unsent g q back (request os T req context g))
  request-outcome g req context q r single =
      elim (alloc-outcome os acc err_codes free g.requestq q 8 false g.world r) [
        | inr (back, f) ↦ inr (back, first-Unsent g req context q back f)
        | inl (i, rest, va0, pa0, a0) ↦
            let (rc0, idx0, vq0, w0) = alloc os g.requestq 8 false g.world in
            let r0 = subst (IsReady g.requestq) a0.head r in
            elim (alloc-outcome os acc err_codes free vq0 rest (response_size g req.type) true w0
              a0.allocated.ready) [
                | inr (back, f) ↦ inr (
                  back ++ (i ∷ []),
                  subst (λ q. Unsent g q (back ++ (i ∷ [])) (request os T req context g))
                      (sym a0.head)
                      (second-Unsent g req context i rest back va0 pa0 r0 a0.allocated f),
                )
                | inl (j, rest', va1, pa1, a1) ↦
                    let whole = a0.head ∙ ap (λ l. i ∷ l) a1.head in
                    let r1 = subst (IsReady g.requestq) whole r in
                    let b0 =
                      subst
                        (λ l.
                          Allocated os acc err_codes free g.requestq i l 8 false g.world va0 pa0)
                        a1.head a0.allocated in
                    let ne = head_differ i j rest' q whole (single i r1.inside.0) in
                    inl (
                      i,
                      j,
                      rest',
                      va0,
                      va1,
                      _,
                      _,
                      record {
                        head = whole;
                        differ = ne;
                        posted =
                            Allocated-Posted os T acc err_codes free g req context i j rest' va0 pa0
                              va1 pa1 r1 ne b0 a1.allocated;
                        flight =
                            flight-Allocated g req context i j rest' va0 pa0 va1 pa1 ne b0
                              a1.allocated;
                      },
                    )
              ]
      ]
