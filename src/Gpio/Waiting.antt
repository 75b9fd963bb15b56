-- ===== src/Gpio/Waiting.antt =====
-- The calls of the GPIO driver that wait for the device: how the wait ends, and what the caller gets.
use qnx_virtio.Common.{
  ℕ, suc, ◌+◌, ◌-◌, ◌≡◌, ◌≢◌, ap, ◌∙◌, List, [], ◌∷◌, ◌++◌, true, false, Option, some, Bool, Errno,
  eok, eio, enoent, sym, subst, is_ok, arith, get_or, u16, if◌then◌else◌, ◌==◌,
}
use qnx_virtio.Os.{Os, Accounting}
use qnx_virtio.Virtq.{Used}
use qnx_virtio.Virtq.Alloc.{alloc}
use qnx_virtio.Virtq.Ownership.{IsReady, Errnos, granted}
use qnx_virtio.Virtq.Submit.{Returned}
use qnx_virtio.Gpio.{
  Gpio, GpioRequest, GpioResponse, GpioContext, completed, response_size, update,
  msg_get_line_names, gpio_status_ok,
}
use qnx_virtio.Gpio.Request.{Driver, request}
use qnx_virtio.Gpio.Callback.{virtq_callback}
use qnx_virtio.Gpio.Calls.{
  Semaphores, code_of, context_init, context_wait, context_deinit, exchange,
}
use qnx_virtio.Gpio.RoundTrip.{answer, request-completes}

module _ {L T W : Type 0} where
  abbrev pub with_context_at : (context : ℕ) → (GpioContext → GpioContext) → Gpio L T W → Gpio L T W
  with_context_at context f g = record g {
    memory = record (g.memory) {
      context_at = update g.memory.context_at context (f (g.memory.context_at context));
    };
  }

  -- The effect of `sem_init` with the value 0, and that of a `sem_wait` that succeeds.
  abbrev pub emptied : (context : ℕ) → Gpio L T W → Gpio L T W
  emptied context = with_context_at context (λ c. record c { sem = 0 })

  -- The state in which a call sends its request.
  abbrev pub prepared : (context : ℕ) → Gpio L T W → Gpio L T W
  prepared context g = emptied context (with_context_at context (λ c. record c { status = 0 }) g)

  abbrev pub taken : (context : ℕ) → Gpio L T W → Gpio L T W
  taken context = with_context_at context (λ c. record c { sem = c.sem - 1 })

  -- What a caller reads after its wait.
  taken-completed :
      (g : Gpio L T W) (context : ℕ) (old : GpioContext) (req : GpioRequest)
      (response : GpioResponse)
      → req.type ≢ msg_get_line_names
      → g.memory.context_at context ≡ completed req response old
      → let answered = (taken context g).memory.context_at context in
        ◌≡◌ {A = ℕ × ℕ}
          (answered.status, get_or answered.bytes 0 0)
          (response.status, get_or response.bytes 0 0)
  unfolding completed
  taken-completed g context old req response type e = ground (arith, e)

module _ (os : Os) (T : Type 0) (sems : Semaphores (Driver os T)) where
  open os use {spin}
  open sems use {sem_init, sem_wait, sem_destroy}

  -- A result of -1 is not EINTR, so the loop of `virtio_gpio_context_wait` waits once, interrupted or
  -- not, and ends with the result of that wait.
  pub context_wait-once :
      (fuel context : ℕ) (g : Driver os T)
      → context_wait os T sems (suc fuel) context g
        ≡ some (code_of (sem_wait context g).0, (sem_wait context g).1)
  unfolding context_wait
  context_wait-once fuel context g = ground arith

  -- If locks can be taken, the system grants both buffers, the semaphores do what they are for and
  -- the end of one keeps the queue and the system, a call that asks the device about a line on a
  -- ready queue with the free descriptors `i`, `j` and `q` ends: when the device answers during the
  -- wait, and the wait is not interrupted, the call returns EOK if the response's status is OK and
  -- `EIO` if not, with the first byte of the response, the queue is ready with both descriptors back
  -- behind `q`, and the mappings are those before the call. Fuel for one wait is enough.
  pub exchange-answers :
      (acc : Accounting os) (err_codes : Errnos os)
      → (free : (l : spin.Lock) → is_ok (spin.spin_lock l).0 ≡ true)
      → (g : Driver os T) (req : GpioRequest) (context i j : ℕ) (q : List ℕ) (u : Used)
        (response : GpioResponse) (fuel n : ℕ) (idxs : ℕ × ℕ)
      → ((g0 : Driver os T) → sem_init context g0 ≡ (true, emptied context g0))
      → ((g0 : Driver os T)
          → ((sem_destroy context g0).1.requestq ≡ g0.requestq)
            × ((sem_destroy context g0).1.world ≡ g0.world))
      → req.type ≢ msg_get_line_names
      → IsReady g.requestq (i ∷ j ∷ q)
      → i ≢ j
      → granted os 8 g.world ≡ true
      → granted os (response_size g req.type) (alloc os g.requestq 8 false g.world).3 ≡ true
      → Returned g.requestq u i
      → u.idx ≡ u16 (g.requestq.last_seen_used + 1)
      → let asked = (request os T req context (prepared context g)).1 in
        ((g3 : Driver os T)
          → virtq_callback os T (suc (suc n)) idxs (answer j u response asked) ≡ some (enoent, g3)
          → sem_wait context asked ≡ (true, taken context g3))
        → (g' : Driver os T) × (exchange os T sems (suc fuel) req context g
            ≡ some (
              (if response.status == gpio_status_ok then eok else eio),
              some (get_or response.bytes 0 0),
              g',
            ))
          × IsReady g'.requestq ((q ++ (i ∷ [])) ++ (j ∷ []))
          × (acc.mappings g'.world ≡ acc.mappings g.world)
  unfolding exchange context_init context_deinit response_size
  exchange-answers acc err_codes free g req context i j q u response fuel n idxs init kept type r ne
        grant0 grant1 ret one wait =
      let g1 : Driver os T = prepared context g in
      let (rc, g3, back, ready, live, held) =
        request-completes os T acc err_codes free g1 req context i j q u response n idxs r ne grant0
          grant1 ret one in
      let woken = wait g3 back in
      let last : Driver os T = taken context g3 in
      let waited : context_wait os T sems (suc fuel) context (request os T req context g1).1
          ≡ some (eok, last) =
        context_wait-once fuel context (request os T req context g1).1
        ∙ ap (λ (x : Bool × Driver os T). some (code_of x.0, x.1)) woken in
      let read = taken-completed g3 context (g1.memory.context_at context) req response type held in
      let g4 : Driver os T = (sem_destroy context last).1 in
      let result : ℕ × ℕ → Option (Errno × Option ℕ × Driver os T) =
        λ (status, byte). some ((if status == gpio_status_ok then eok else eio), some byte, g4) in
      (
        g4,
        rw (init (with_context_at context (λ c. record c { status = 0 }) g))
            (rw (rc, waited) (ap result read)),
        subst (λ vq. IsReady vq ((q ++ (i ∷ [])) ++ (j ∷ []))) (sym (kept last).0) ready,
        ap acc.mappings (kept last).1 ∙ live,
      )
