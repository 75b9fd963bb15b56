-- ===== src/Gpio/Tests.antt =====
-- Runs of the GPIO driver's calls on a queue of three descriptors, on the small system `sim`.
use qnx_virtio.Common.{ℕ, ◌≡◌, ◌∷◌, [], ap, refl, false, none, some, arith, eok, enoent, is_ok}
use qnx_virtio.Fifo
use qnx_virtio.Sim.{sim, sim-Accounting, sim-Errnos, view}
use qnx_virtio.Virtq.Alloc.{alloc}
use qnx_virtio.Virtq.Ownership.{IsReady}
use qnx_virtio.Virtq.Sample.{later, three-IsReady}
use qnx_virtio.Gpio.{completed, response_size}
use qnx_virtio.Gpio.Request.{Driver, request}
use qnx_virtio.Gpio.Callback.{virtq_callback}
use qnx_virtio.Gpio.Calls.{exchange}
use qnx_virtio.Gpio.RoundTrip.{request-completes}
use qnx_virtio.Gpio.Refused.{request-unwinds}
use qnx_virtio.Gpio.Waiting.{prepared, exchange-answers}
use qnx_virtio.Gpio.Board.{memory, board, short, ask, high, returned, answered, awake, sems}

request-completes_example :
    let (rc, g1) = request sim ℕ ask 512 board in
    (rc ≡ eok)
    × (g' : Driver sim ℕ) × (virtq_callback sim ℕ 2 (0, 0) (answered g1) ≡ some (enoent, g'))
    × IsReady g'.requestq (2 ∷ 0 ∷ 1 ∷ [])
    × (view g'.world.1 ≡ view later.1)
    × (g'.memory.context_at 512 ≡ completed ask high (memory.context_at 512))
unfolding alloc response_size Fifo.get sim-Accounting
request-completes_example =
    request-completes sim ℕ sim-Accounting sim-Errnos (λ l. refl) board ask 512 0 1 (2 ∷ [])
      returned high 0 (0, 0) three-IsReady (λ e. omega arith) refl refl
      record { small = omega arith; new = λ e. omega arith; head = refl } refl

request-unwinds_example :
    let (rc, g') = request sim ℕ ask 512 short in
    (is_ok rc ≡ false)
    × IsReady g'.requestq (2 ∷ 1 ∷ 0 ∷ [])
    × (view g'.world.1 ≡ view later.1)
    × (g'.dev ≡ none)
    × (g'.memory ≡ memory)
unfolding alloc response_size Fifo.get sim-Accounting
request-unwinds_example =
    request-unwinds sim ℕ sim-Accounting sim-Errnos (λ l. refl) short ask 512 0 1 (2 ∷ [])
      three-IsReady (λ e. omega arith) refl refl

exchange-answers_example :
    (g' : Driver sim ℕ) × (exchange sim ℕ sems 1 ask 512 board ≡ some (eok, some 1, g'))
    × IsReady g'.requestq (2 ∷ 0 ∷ 1 ∷ [])
    × (view g'.world.1 ≡ view later.1)
unfolding alloc response_size Fifo.get sim-Accounting
exchange-answers_example =
    exchange-answers sim ℕ sems sim-Accounting sim-Errnos (λ l. refl) board ask 512 0 1 (2 ∷ [])
      returned high 0 0 (0, 0) (λ g. refl) (λ g. (refl, refl)) (λ e. omega arith) three-IsReady
      (λ e. omega arith) refl refl
      record { small = omega arith; new = λ e. omega arith; head = refl } refl
      (λ g3 e. ap (λ r. awake 512 (request sim ℕ ask 512 (prepared 512 board)).1 r) e)
