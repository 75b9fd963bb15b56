-- ===== src/Gpio/Flights/Reach.antt =====
-- The states of a driver whose callers, whose device and whose interrupt thread take their steps in any
-- order. A request and a run of the completion callback are one step each.
use qnx_virtio.Common.{
  ℕ, zero, suc, ◌+◌, ◌<◌, ◌≤◌, ◌≡◌, refl, subst, List, [], ◌∷◌, some, true, Errno, is_ok, arith,
  length, if◌then◌else◌,
}
use qnx_virtio.Os.{Os, Accounting}
use qnx_virtio.Virtq.{Used}
use qnx_virtio.Virtq.Fresh.{IsFresh, upto, length-upto}
use qnx_virtio.Virtq.Ownership.{Errnos}
use qnx_virtio.Gpio.{Memory, GpioRequest}
use qnx_virtio.Gpio.Request.{Driver, request}
use qnx_virtio.Gpio.Callback.{virtq_callback}
use qnx_virtio.Gpio.Flights.{Flight, InFlight, TakeAll, occurs}
use qnx_virtio.Gpio.Flights.Launch.{flight_of}
use qnx_virtio.Gpio.Flights.Sent.{request-InFlight}
use qnx_virtio.Gpio.Flights.Landing.{SameDescs-InFlight}
use qnx_virtio.Gpio.Flights.Batch.{ReturnedAll, virtq_callback-InFlight}

module _ (os : Os) (T : Type 0) where
  -- The device writes its ring and responses, and the callers their contexts.
  abbrev pub others_write : Used → Memory → Driver os T → Driver os T
  others_write u m g = record g { requestq = record (g.requestq) { used = u }; memory = m }

  -- The states that are reached from `g0`, with the requests in flight.
  pub data Reaches (g0 : Driver os T) : Driver os T → List Flight → Type 0 where
    begin : Reaches g0 g0 []
    requested :
        {g : Driver os T} {fs : List Flight} (req : GpioRequest) (context : ℕ)
        → Reaches g0 g fs
        → Reaches g0
            (request os T req context g).1
            (if is_ok (request os T req context g).0 then flight_of os T req context g ∷ fs else fs)
    others_wrote :
        {g : Driver os T} {fs : List Flight} (u : Used) (m : Memory)
        → Reaches g0 g fs
        → Reaches g0 (others_write u m g) fs
    called :
        {g g' : Driver os T} {batch fs rest : List Flight} {rc : Errno} (fuel : ℕ) (idxs : ℕ × ℕ)
        → Reaches g0 g fs
        → TakeAll batch fs rest
        → ReturnedAll g.requestq.used g.requestq.place.num g.requestq.last_seen_used batch
        → length batch < fuel
        → virtq_callback os T fuel idxs g ≡ some (rc, g')
        → Reaches g0 g' rest

occurs-upto_below : (k i n : ℕ) → k < i → occurs k (upto i n) ≡ 0
occurs-upto_below k i zero h = refl
occurs-upto_below k i (suc n) h = ground (arith, occurs-upto_below k (i + 1) n)

occurs-upto : (k i n : ℕ) → i ≤ k → k < i + n → occurs k (upto i n) ≡ 1
occurs-upto k i zero low high = absurd (omega arith)
occurs-upto k i (suc n) low high =
    ground (arith, occurs-upto k (i + 1) n, occurs-upto_below k (i + 1) n)

module _ (os : Os) (T : Type 0) (acc : Accounting os) (err_codes : Errnos os)
    (free : (l : os.spin.Lock) → is_ok (os.spin.spin_lock l).0 ≡ true) where
  open acc use {mappings}

  IsFresh-InFlight :
      (g : Driver os T) (size : ℕ)
      → IsFresh g.requestq size
      → InFlight os T acc (mappings g.world) g [] (upto 0 size)
  IsFresh-InFlight g size f = record {
    ready = f.ready;
    aloft = λ h rest t. elim t [ ];
    room = omega (arith, length-upto 0 size, f.num);
    once = λ k lt. omega (arith, occurs-upto k 0 size (omega arith) (omega (arith, f.num, lt)));
    live = λ m. omega arith;
  }

  -- If locks can be taken, then in every state that is reached from a driver whose queue has just
  -- been created, whatever requests were made, were refused or failed half way, and in whatever order
  -- the device returned those in flight, some free list makes the queue ready, every descriptor is
  -- free once or used once by one request in flight, whose chain, buffers and context its two
  -- descriptors hold, and the live mappings are those at the start and the two buffers of each
  -- request in flight.
  pub Reaches-InFlight :
      (g0 : Driver os T) (size : ℕ) (g : Driver os T) (fs : List Flight)
      → IsFresh g0.requestq size
      → Reaches os T g0 g fs
      → (q : List ℕ) × InFlight os T acc (mappings g0.world) g fs q
  Reaches-InFlight g0 size g fs f begin = (upto 0 size, IsFresh-InFlight g0 size f)
  Reaches-InFlight g0 size g fs f (requested {g = g1} {fs = fs1} req context r) =
      let (q, v) = Reaches-InFlight g0 size g1 fs1 f r in
      request-InFlight os T acc (mappings g0.world) err_codes free req context v
  Reaches-InFlight g0 size g fs f (others_wrote {g = g1} u m r) =
      let (q, v) = Reaches-InFlight g0 size g1 fs f r in
      (
        q,
        SameDescs-InFlight os T acc (mappings g0.world) v
            record { place = refl; desc = refl; free_descs = refl; desc_extras = refl } refl,
      )
  Reaches-InFlight g0 size g fs f (called {g = g1} {fs = fs1} {rc = rc} fuel idxs r all ret lt e) =
      let (q, v) = Reaches-InFlight g0 size g1 fs1 f r in
      let (g', q', ends, kept, called_back) =
        virtq_callback-InFlight os T acc (mappings g0.world) err_codes free fuel idxs g1 q v all ret
          lt in
      (q', subst (λ g. InFlight os T acc (mappings g0.world) g fs q') (cc) kept)
