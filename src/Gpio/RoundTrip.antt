-- ===== src/Gpio/RoundTrip.antt =====
-- A request of the GPIO driver from `virtio_gpio_request` to the end of its completion callback.
use qnx_virtio.Common.{
  ℕ, suc, ◌+◌, ◌%◌, ◌<◌, ◌≡◌, ◌≢◌, refl, sym, ap, subst, ◌∙◌, List, [], ◌∷◌, ◌++◌, true, false,
  some, eok, enoent, is_ok, arith, get_or, length, u16,
}
use qnx_virtio.Os.{Os, Accounting}
use qnx_virtio.Virtq.{Virtq, Used, desc_at, extras_at}
use qnx_virtio.Virtq.Alloc.{alloc}
use qnx_virtio.Virtq.Chain.{zero_elem}
use qnx_virtio.Virtq.Frames.{SameRings, SameRings-trans, Allocated, alloc-Allocated}
use qnx_virtio.Virtq.Tables.{put_desc_chain-Linked}
use qnx_virtio.Virtq.Ownership.{IsReady, Errnos, granted, granted_extras}
use qnx_virtio.Virtq.Submit.{Returned}
use qnx_virtio.Virtq.FreeList.{length-FreeList}
use qnx_virtio.Virtq.Walk.{EndsAt}
use qnx_virtio.Gpio.{
  Memory, Gpio, GpioRequest, GpioResponse, completed, response_size, update, gpio_callback,
}
use qnx_virtio.Gpio.Request.{Driver, request, submit, post}
use qnx_virtio.Gpio.Callback.{virtq_callback}
use qnx_virtio.Gpio.Posted.{Pair, contextual, contextual-Pair}
use qnx_virtio.Gpio.Exchange.{get_desc-in, callback-answered}

module _ {L T W : Type 0} where
  -- The device answers the request whose second descriptor is `j`: it writes the response to the
  -- buffer, and the used ring is `u`.
  abbrev pub answer : (j : ℕ) → Used → GpioResponse → Gpio L T W → Gpio L T W
  answer j u response g = record g {
    requestq = record (g.requestq) { used = u };
    memory = record (g.memory) {
      response_at = update g.memory.response_at (extras_at g.requestq j).vaddr response;
    };
  }

module _ (os : Os) (T : Type 0) (acc : Accounting os) (err_codes : Errnos os)
    (free : (l : os.spin.Lock) → is_ok (os.spin.spin_lock l).0 ≡ true) where
  open os use {spin, World}
  open acc use {mappings}

  submit-posts :
      (g : Driver os T) (req : GpioRequest) (i j context : ℕ)
      → i < g.requestq.place.num
      → submit os T req i j context g
        ≡ (eok, post os T req (extras_at g.requestq i).vaddr i j context g)
  unfolding submit
  submit-posts g req i j context h = ground (arith, get_desc-in g.requestq i h)

  -- Both allocations of a request succeed.
  pub record Posted (g : Driver os T) (req : GpioRequest) (context i j : ℕ) (q : List ℕ)
      (va0 va1 : ℕ) (vq : Virtq spin.Lock) (w : World) : Type 0 where
    pub posts :
        request os T req context g
        ≡ (eok, post os T req va0 i j context (record g { requestq = vq; world = w }))
    pub ready : IsReady vq q
    pub pair : Pair vq i j 8 (response_size g req.type) (granted_extras va0) (granted_extras va1)
    pub ends : EndsAt vq.desc i (j ∷ [])
    pub few : suc (length q) < vq.place.num
    pub live : mappings w ≡ (va1, response_size g req.type) ∷ (va0, 8) ∷ mappings g.world
    pub rings : SameRings g.requestq vq
    pub entry_ne : (k : ℕ) → k ≢ i → k ≢ j → desc_at vq k ≡ desc_at g.requestq k
    pub extra_ne : (k : ℕ) → k ≢ i → k ≢ j → extras_at vq k ≡ extras_at g.requestq k

  -- Two allocations that succeed, one after the other.
  pub Allocated-Posted :
      (g : Driver os T) (req : GpioRequest) (context i j : ℕ) (q : List ℕ) (va0 pa0 va1 pa1 : ℕ)
      → IsReady g.requestq (i ∷ j ∷ q)
      → i ≢ j
      → let (rc0, idx0, vq0, w0) = alloc os g.requestq 8 false g.world in
        let (rc1, idx1, vq1, w1) = alloc os vq0 (response_size g req.type) true w0 in
        Allocated os acc err_codes free g.requestq i (j ∷ q) 8 false g.world va0 pa0
        → Allocated os acc err_codes free vq0 j q (response_size g req.type) true w0 va1 pa1
        → Posted g req context i j q va0 va1 vq1 w1
  unfolding request
  Allocated-Posted g req context i j q va0 pa0 va1 pa1 r ne a0 a1 =
      let (rc0, idx0, vq0, w0) = alloc os g.requestq 8 false g.world in
      let n = response_size g req.type in
      let (rc1, idx1, vq1, w1) = alloc os vq0 n true w0 in
      let rings = SameRings-trans a0.rings a1.rings in
      let pair : Pair vq1 i j 8 n (granted_extras va0) (granted_extras va1) = record {
        first_in = subst (λ pl. i < pl.num) (sym rings.place) r.inside.0;
        second_in = subst (λ pl. j < pl.num) (sym rings.place) r.inside.1.0;
        first_len = ap (λ d. d.len) (a1.entry_ne i ne ∙ a0.entry_at);
        second_len = ap (λ d. d.len) a1.entry_at;
        first_extra = a1.extra_ne i ne ∙ a0.extra_at;
        second_extra = a1.extra_at;
      } in
      let g1 : Driver os T = record g { requestq = vq1; world = w1 } in
      let posts =
        submit-posts g1 req i j context pair.first_in
        ∙ ap (λ x. (eok, post os T req x.vaddr i j context g1)) pair.first_extra in
      record {
        posts = rw (a0.rc, a1.rc, a0.idx, a1.idx) posts;
        ready = a1.ready;
        pair = pair;
        ends = ap (λ d. d.flags % 2) a1.entry_at;
        few =
            subst (λ pl. suc (length q) < pl.num) (sym rings.place)
              (omega (arith, r.capacity, length-FreeList r.free, r.free.valid.count_in));
        live = a1.live ∙ ap (λ ms. (va1, n) ∷ ms) a0.live;
        rings = rings;
        entry_ne = λ k ni nj. a1.entry_ne k nj ∙ a0.entry_ne k ni;
        extra_ne = λ k ni nj. a1.extra_ne k nj ∙ a0.extra_ne k ni;
      }

  request-Posted :
      (g : Driver os T) (req : GpioRequest) (context i j : ℕ) (q : List ℕ)
      → IsReady g.requestq (i ∷ j ∷ q)
      → i ≢ j
      → granted os 8 g.world ≡ true
      → granted os (response_size g req.type) (alloc os g.requestq 8 false g.world).3 ≡ true
      → (va0 : ℕ) × (va1 : ℕ) × (vq : Virtq spin.Lock) × (w : World) × Posted g req context i j q
          va0 va1 vq w
  request-Posted g req context i j q r ne grant0 grant1 =
      let (va0, pa0, a0) =
        alloc-Allocated os acc err_codes free g.requestq i (j ∷ q) 8 false g.world r grant0 in
      let (rc0, idx0, vq0, w0) = alloc os g.requestq 8 false g.world in
      let (va1, pa1, a1) =
        alloc-Allocated os acc err_codes free vq0 j q (response_size g req.type) true w0 a0.ready
          grant1 in
      (va0, va1, _, _, Allocated-Posted g req context i j q va0 pa0 va1 pa1 r ne a0 a1)

  gpio_callback-answer :
      (m : Memory) (req : GpioRequest) (response : GpioResponse) (va0 va1 va context : ℕ)
      → va ≡ va1
      → (gpio_callback va0 va1 context (record m {
        request_at = update m.request_at va0 req;
        response_at = update m.response_at va response;
      })).context_at
          context
        ≡ completed req response (m.context_at context)
  unfolding gpio_callback
  gpio_callback-answer m req response va0 va1 va context e = ground arith

  -- If locks can be taken and the system grants both buffers, a request on a ready queue with the
  -- free descriptors `i`, `j` and `q` returns EOK, and once the device has written its response and
  -- returned the chain in the next entry of the used ring, the completion callback ends with
  -- `ENOENT`: the caller's context holds the response and is posted once, the mappings are those
  -- before the request, and the queue is ready with both descriptors back behind `q`. Fuel for two
  -- rounds of the callback's loop is enough.
  pub request-completes :
      (g : Driver os T) (req : GpioRequest) (context i j : ℕ) (q : List ℕ) (u : Used)
      (response : GpioResponse) (n : ℕ) (idxs : ℕ × ℕ)
      → IsReady g.requestq (i ∷ j ∷ q)
      → i ≢ j
      → granted os 8 g.world ≡ true
      → granted os (response_size g req.type) (alloc os g.requestq 8 false g.world).3 ≡ true
      → Returned g.requestq u i
      → u.idx ≡ u16 (g.requestq.last_seen_used + 1)
      → let (rc, g1) = request os T req context g in
        (rc ≡ eok)
        × (g' : Driver os T) × (virtq_callback os T (suc (suc n)) idxs (answer j u response g1)
            ≡ some (enoent, g'))
        × IsReady g'.requestq ((q ++ (i ∷ [])) ++ (j ∷ []))
        × (mappings g'.world ≡ mappings g.world)
        × (g'.memory.context_at context ≡ completed req response (g.memory.context_at context))
  unfolding post
  request-completes g req context i j q u response n idxs r ne grant0 grant1 ret one =
      let (va0, va1, vq, w, p) = request-Posted g req context i j q r ne grant0 grant1 in
      let (pair, ready, seen, place, desc) = contextual-Pair p.ready p.pair ne context in
      let posted = post os T req va0 i j context (record g { requestq = vq; world = w }) in
      let l = put_desc_chain-Linked spin (contextual vq i context) i (j ∷ []) in
      let at1 : (extras_at posted.requestq j).vaddr ≡ va1 =
        rw l.desc_extras (ap (λ x. x.vaddr) pair.second_extra) in
      let seen' = seen ∙ p.rings.seen in
      let place' = place ∙ p.rings.place in
      let ret' : Returned (contextual vq i context) u i = record {
        small = ret.small;
        new = λ e. ret.new (e ∙ seen');
        head = rw seen' (
            subst (λ pl. (get_or u.ring (g.requestq.last_seen_used % pl.num) zero_elem).id ≡ i)
              (sym place') ret.head);
      } in
      let one' = one ∙ ap (λ k. u16 (k + 1)) (sym seen') in
      let (g', back, a) =
        callback-answered os T acc err_codes free (answer j u response posted)
          (contextual vq i context) i j 8 (response_size g req.type) va0 va1 context q
          (mappings g.world) u n idxs ready pair (rw desc p.ends) ne
          (subst (λ pl. suc (length q) < pl.num) (sym place) p.few) p.live ret' one' in
      rw p.posts (
        refl,
        g',
        back,
        a.ready,
        a.live,
        ap (λ m. m.context_at context) a.completed
            ∙ gpio_callback-answer g.memory req response va0 va1 (extras_at posted.requestq j).vaddr
                context at1,
      )
