-- ===== src/Gpio/Flights/Batch.antt =====
-- The completion callback when the device has returned several requests, in any order.
use qnx_virtio.Common.{
  ℕ, zero, suc, ◌+◌, ◌%◌, ◌^◌, ◌<◌, ◌≡◌, ◌≢◌, refl, ap, ◌∙◌, List, [], ◌∷◌, ◌++◌, true, some, eok,
  enoent, is_ok, arith, length, get_or, u16,
}
use qnx_virtio.Os.{Os, Accounting, Mapping}
use qnx_virtio.Virtq.{Virtq, Used}
use qnx_virtio.Virtq.Chain.{get_chain, zero_elem}
use qnx_virtio.Virtq.Ownership.{Errnos}
use qnx_virtio.Virtq.Submit.{get-nothing_new}
use qnx_virtio.Virtq.Tables.{get_chain-SameTables}
use qnx_virtio.Virtq.Walk.{walk-two}
use qnx_virtio.Gpio.{Memory, GpioResponse, gpio_callback}
use qnx_virtio.Gpio.Request.{Driver}
use qnx_virtio.Gpio.Callback.{free_both, virtq_callback}
use qnx_virtio.Gpio.Exchange.{complete-Pair, callback-step, callback-ends}
use qnx_virtio.Gpio.Flights.{Flight, Aloft, InFlight, Take, TakeAll, none_taken, taken}
use qnx_virtio.Gpio.Flights.Landing.{get_chain-SameDescs, SameDescs-InFlight, free_both-InFlight}

-- The head in the entry `seen` of the used ring.
abbrev pub ring_head : Used → (num seen : ℕ) → ℕ
ring_head u num seen = (get_or u.ring (seen % num) zero_elem).id

-- From the entry `seen` on, the used ring of `num` entries has the heads of these requests, in this
-- order, and then nothing new.
abbrev pub ReturnedAll : Used → (num seen : ℕ) → List Flight → Type 0
ReturnedAll u num seen [] = u.idx ≡ seen
ReturnedAll u num seen (f ∷ fs) =
    (u.idx ≢ seen) × (ring_head u num seen ≡ f.first) × ReturnedAll u num (u16 (seen + 1)) fs

-- The completions of these requests, in this order.
abbrev pub called_back : List Flight → Memory → Memory
called_back [] m = m
called_back (f ∷ fs) m = called_back fs (gpio_callback f.va0 f.va1 f.context m)

module _ (os : Os) (T : Type 0) (acc : Accounting os) (base : List Mapping) where
  open os use {spin, World}

  -- What the device does: it writes responses, and its ring.
  abbrev pub device_writes : Used → (ℕ → GpioResponse) → Driver os T → Driver os T
  device_writes u responses g = record g {
    requestq = record (g.requestq) { used = u };
    memory = record (g.memory) { response_at = responses };
  }

  module _ (err_codes : Errnos os)
      (free : (l : spin.Lock) → is_ok (spin.spin_lock l).0 ≡ true) where
    head_chain :
        (vq : Virtq spin.Lock) (f : Flight)
        → Aloft vq f
        → f.first < 2 ^ 16
        → vq.used.idx ≢ vq.last_seen_used
        → ring_head vq.used vq.place.num vq.last_seen_used ≡ f.first
        → ((get_chain spin vq 2).0 ≡ (eok, some 2, f.first ∷ f.second ∷ []))
          × ((get_chain spin vq 2).1.last_seen_used ≡ u16 (vq.last_seen_used + 1))
    unfolding get_chain
    head_chain vq f a small new head =
        ground (arith, free vq.lock, walk-two vq.desc f.first f.second a.next a.more a.last)

    -- The driver behind one round of the callback's loop.
    abbrev landed : Flight → Driver os T → Driver os T
    landed f g =
        free_both os T (f.first, f.second)
          (record g {
            requestq = (get_chain spin g.requestq 2).1;
            memory = gpio_callback f.va0 f.va1 f.context g.memory;
          })

    round :
        {g : Driver os T} {fs rest : List Flight} {q : List ℕ} {f : Flight} (n : ℕ) (idxs : ℕ × ℕ)
        → InFlight os T acc base g fs q
        → Take f fs rest
        → g.requestq.used.idx ≢ g.requestq.last_seen_used
        → ring_head g.requestq.used g.requestq.place.num g.requestq.last_seen_used ≡ f.first
        → (virtq_callback os T (suc n) idxs g
            ≡ virtq_callback os T n (f.first, f.second) (landed f g))
          × InFlight os T acc base (landed f g) rest ((q ++ (f.first ∷ [])) ++ (f.second ∷ []))
          × ((landed f g).requestq.used ≡ g.requestq.used)
          × ((landed f g).requestq.place ≡ g.requestq.place)
          × ((landed f g).requestq.last_seen_used ≡ u16 (g.requestq.last_seen_used + 1))
          × ((landed f g).memory ≡ gpio_callback f.va0 f.va1 f.context g.memory)
    round {g} {fs} {rest} {q} {f} n idxs v t new head =
        let a = v.aloft f rest t in
        let tables = get_chain-SameTables spin g.requestq 2 in
        let (chain, seen) =
          head_chain g.requestq f a (omega (arith, a.pair.first_in, v.ready.word)) new head in
        let g0 : Driver os T = record g { requestq = (get_chain spin g.requestq 2).1 } in
        let descs = get_chain-SameDescs spin g.requestq 2 in
        let v0 = SameDescs-InFlight os T acc base {g' = g0} v descs refl in
        let a0 = v0.aloft f rest t in
        let done =
          complete-Pair os T acc err_codes free g0 f.first f.second 8 f.len f.va0 f.va1 f.context
            a0.pair in
        let g1 : Driver os T = record g0 {
          memory = gpio_callback f.va0 f.va1 f.context g.memory;
        } in
        let v1 = SameDescs-InFlight os T acc base {g' = g1} v descs refl in
        let (v2, rings, memory) = free_both-InFlight os T acc base err_codes free v1 t in
        (
          callback-step os T acc err_codes free n idxs g (landed f g) f.first f.second chain done,
          v2,
          rings.used ∙ tables.used,
          rings.place ∙ tables.place,
          rings.seen ∙ seen,
          memory,
        )

    -- On a driver with the requests `fs` in flight, when the used ring has the heads of some of them
    -- in any order and then nothing new, the completion callback ends with `ENOENT`: it has completed
    -- exactly these, in the order of the ring, the others are in flight as before with every
    -- descriptor free once or used once, and the buffers of those that came back are unmapped. Fuel
    -- for one round more than requests came back is enough.
    pub virtq_callback-InFlight :
        (fuel : ℕ) (idxs : ℕ × ℕ) (g : Driver os T) (q : List ℕ) {batch fs rest : List Flight}
        → InFlight os T acc base g fs q
        → TakeAll batch fs rest
        → ReturnedAll g.requestq.used g.requestq.place.num g.requestq.last_seen_used batch
        → length batch < fuel
        → (g' : Driver os T) × (q' : List ℕ) × (virtq_callback os T fuel idxs g ≡ some (enoent, g'))
          × InFlight os T acc base g' rest q'
          × (g'.memory ≡ called_back batch g.memory)
    virtq_callback-InFlight zero idxs g q v all ret lt = absurd (omega arith)
    virtq_callback-InFlight (suc n) idxs g q v none_taken ret lt =
        let (over, seen) = get-nothing_new spin g.requestq 2 ret (free g.requestq.lock) in
        let g' : Driver os T = record g { requestq = (get_chain spin g.requestq 2).1 } in
        (
          g',
          q,
          callback-ends os T acc err_codes free n idxs g over,
          SameDescs-InFlight os T acc base v (get_chain-SameDescs spin g.requestq 2) refl,
          refl,
        )
    virtq_callback-InFlight (suc n) idxs g q {batch = f ∷ batch} v (taken t all) ret lt =
        let (step, v', used, place, seen, memory) = round n idxs v t ret.0 ret.1 in
        let ret' : ReturnedAll (landed f g).requestq.used (landed f g).requestq.place.num
            (landed f g).requestq.last_seen_used batch =
          rw used (rw place (rw seen ret.2)) in
        let (g', q', ends, kept, called) =
          virtq_callback-InFlight n (f.first, f.second) (landed f g)
            ((q ++ (f.first ∷ [])) ++ (f.second ∷ [])) v' all ret' (omega arith) in
        (g', q', step ∙ ends, kept, called ∙ ap (called_back batch) memory)
