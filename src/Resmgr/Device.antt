-- ===== src/Resmgr/Device.antt =====
-- A read and a write of a line's file, down to the device's answer.
use qnx_virtio.Common.{
  ℕ, suc, ◌+◌, ◌≡◌, ◌≢◌, List, [], ◌∷◌, ◌++◌, true, false, none, some, eok, eio, enoent, is_ok, ok,
  arith, get_or, u16, u8, if◌then◌else◌, ◌==◌,
}
use qnx_virtio.Os.{Os, Accounting}
use qnx_virtio.Virtq.{Used}
use qnx_virtio.Virtq.Alloc.{alloc}
use qnx_virtio.Virtq.Ownership.{IsReady, Errnos, granted}
use qnx_virtio.Virtq.Submit.{Returned}
use qnx_virtio.Gpio.{
  GpioRequest, GpioResponse, response_size, msg_get_value, msg_set_value, gpio_status_ok,
}
use qnx_virtio.Gpio.Request.{Driver, request}
use qnx_virtio.Gpio.Callback.{virtq_callback}
use qnx_virtio.Gpio.Calls.{Semaphores, get_value, set_value}
use qnx_virtio.Gpio.RoundTrip.{answer}
use qnx_virtio.Gpio.Waiting.{emptied, taken, prepared, exchange-answers}
use qnx_virtio.Resmgr.{File, gpio_calls, read_size, resmgr_read, resmgr_write}

module _ (os : Os) (T : Type 0) (sems : Semaphores (Driver os T)) (acc : Accounting os)
    (err_codes : Errnos os) (free : (l : os.spin.Lock) → is_ok (os.spin.spin_lock l).0 ≡ true) where
  -- The device answers the request `req` of a call with `response`: locks, buffers and the semaphore
  -- are there, the queue has the descriptors `i`, `j` and `q` free, and the completion callback runs
  -- during the wait.
  pub record Answers (g : Driver os T) (req : GpioRequest) (context i j : ℕ) (q : List ℕ) (u : Used)
      (response : GpioResponse) (n : ℕ) (idxs : ℕ × ℕ) : Type 0 where
    pub init : (g0 : Driver os T) → sems.sem_init context g0 ≡ (true, emptied context g0)
    pub kept :
        (g0 : Driver os T)
        → ((sems.sem_destroy context g0).1.requestq ≡ g0.requestq)
          × ((sems.sem_destroy context g0).1.world ≡ g0.world)
    pub ready : IsReady g.requestq (i ∷ j ∷ q)
    pub differ : i ≢ j
    pub grant0 : granted os 8 g.world ≡ true
    pub grant1 :
        granted os (response_size g req.type) (alloc os g.requestq 8 false g.world).3 ≡ true
    pub returned : Returned g.requestq u i
    pub one : u.idx ≡ u16 (g.requestq.last_seen_used + 1)
    pub wait :
        (g3 : Driver os T)
        → virtq_callback os T
            (suc (suc n))
            idxs
            (answer j u response (request os T req context (prepared context g)).1)
          ≡ some (enoent, g3)
        → sems.sem_wait context (request os T req context (prepared context g)).1
          ≡ (true, taken context g3)

  abbrev get_request : ℕ → GpioRequest
  get_request gpio = record { type = msg_get_value; gpio = gpio; value = 0 }

  abbrev set_request : (gpio value : ℕ) → GpioRequest
  set_request gpio value = record { type = msg_set_value; gpio = gpio; value = value }

  -- If the device answers, a read of at least one byte of a line's file replies with the bytes asked
  -- for when the answer's status is OK, the file's value is then the answer's byte as a digit and its
  -- offset moves on by the bytes; otherwise it fails with `EIO` and the offset stays. In both cases
  -- the queue is ready with both descriptors back behind `q`, and the mappings are those before the
  -- call.
  pub read-Answers :
      (g : Driver os T) (file : File) (requested context i j : ℕ) (q : List ℕ) (u : Used)
      (response : GpioResponse) (fuel n : ℕ) (idxs : ℕ × ℕ)
      → Answers g (get_request (u16 file.index)) context i j q u response n idxs
      → read_size requested file ≢ 0
      → let done = response.status == gpio_status_ok in
        let bytes = read_size requested file in
        (g' : Driver os T) × (end : File) × (resmgr_read
            (gpio_calls os T sems (suc fuel) context)
            eok
            requested
            file
            g
          ≡ some ((if done then eok else eio), (if done then some bytes else none), end, g'))
        × (end.offset ≡ (if done then file.offset + bytes else file.offset))
        × (end.value
            ≡ (if done then u8 (get_or response.bytes 0 0 + 48) else get_or response.bytes 0 0))
        × IsReady g'.requestq ((q ++ (i ∷ [])) ++ (j ∷ []))
        × (acc.mappings g'.world ≡ acc.mappings g.world)
  unfolding resmgr_read gpio_calls get_value
  read-Answers g file requested context i j q u response fuel n idxs a some_bytes =
      let (g', answered, ready, live) =
        exchange-answers os T sems acc err_codes free g (get_request (u16 file.index)) context i j q
          u response fuel n idxs a.init a.kept (λ e. omega arith) a.ready a.differ a.grant0 a.grant1
          a.returned a.one a.wait in
      let byte = get_or response.bytes 0 0 in
      let bytes = read_size requested file in
      let end : File =
        if response.status == gpio_status_ok
        then record file { value = u8 (byte + 48); offset = file.offset + bytes }
        else record file { value = byte } in
      (g', end, ground (arith, answered, some_bytes), ground arith, ground arith, ready, live)

  -- If the device answers, a write of one byte to a line's file asks it to clear the line for the
  -- digit 0 and to set it for any other byte, and replies with one byte written when the answer's
  -- status is OK and fails with `EIO` otherwise. In both cases the queue is ready with both
  -- descriptors back behind `q`, and the mappings are those before the call.
  pub write-Answers :
      (g : Driver os T) (file : File) (byte context i j : ℕ) (q : List ℕ) (u : Used)
      (response : GpioResponse) (fuel n : ℕ) (idxs : ℕ × ℕ)
      → Answers g
          (set_request (u16 file.index) (if byte == 48 then 0 else 1))
          context
          i
          j
          q
          u
          response
          n
          idxs
      → let done = response.status == gpio_status_ok in
        (g' : Driver os T) × (resmgr_write
            (gpio_calls os T sems (suc fuel) context)
            eok
            1
            (ok byte)
            file
            g
          ≡ some ((if done then eok else eio), (if done then some 1 else none), g'))
        × IsReady g'.requestq ((q ++ (i ∷ [])) ++ (j ∷ []))
        × (acc.mappings g'.world ≡ acc.mappings g.world)
  unfolding resmgr_write gpio_calls set_value
  write-Answers g file byte context i j q u response fuel n idxs a =
      let (g', answered, ready, live) =
        exchange-answers os T sems acc err_codes free g
          (set_request (u16 file.index) (if byte == 48 then 0 else 1)) context i j q u response fuel
          n idxs a.init a.kept (λ e. omega arith) a.ready a.differ a.grant0 a.grant1 a.returned
          a.one a.wait in
      (g', ground (arith, answered), ready, live)
