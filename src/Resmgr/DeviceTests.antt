-- ===== src/Resmgr/DeviceTests.antt =====
-- The files of a line on a device that answers, on the small system `sim`.
use qnx_virtio.Common.{ℕ, ◌≡◌, ap, refl, [], ◌∷◌, some, eok, ok, arith}
use qnx_virtio.Fifo
use qnx_virtio.Sim.{sim, sim-Accounting, sim-Errnos, view}
use qnx_virtio.Virtq.Alloc.{alloc}
use qnx_virtio.Virtq.Ownership.{IsReady}
use qnx_virtio.Virtq.Sample.{later, three-IsReady}
use qnx_virtio.Gpio.{GpioRequest, response_size, msg_set_value}
use qnx_virtio.Gpio.Board.{board, ask, high, returned, sems, awake}
use qnx_virtio.Gpio.Request.{Driver, request}
use qnx_virtio.Gpio.Calls.{get_value}
use qnx_virtio.Gpio.Waiting.{prepared, exchange-answers}
use qnx_virtio.Resmgr.{File, gpio_calls, read_size, resmgr_read, resmgr_write}
use qnx_virtio.Resmgr.Files.{read-past_end}
use qnx_virtio.Resmgr.Device.{Answers, read-Answers, write-Answers}

abbrev line3 : File
line3 = record { index = 3; value = 0; nbytes = 1; offset = 0 }

abbrev set_high : GpioRequest
set_high = record { type = msg_set_value; gpio = 3; value = 1 }

board-Answers :
    (req : GpioRequest)
    → response_size board req.type ≡ 2
    → Answers sim ℕ sems sim-Accounting sim-Errnos
        (λ l. refl)
        board
        req
        512
        0
        1
        (2 ∷ [])
        returned
        high
        0
        (0, 0)
unfolding alloc Fifo.get
board-Answers req size = record {
  init = λ g. refl;
  kept = λ g. (refl, refl);
  ready = three-IsReady;
  differ = λ e. omega arith;
  grant0 = refl;
  grant1 = rw size refl;
  returned = record { small = omega arith; new = λ e. omega arith; head = refl };
  one = refl;
  wait = λ g3 e. ap (λ r. awake 512 (request sim ℕ req 512 (prepared 512 board)).1 r) e;
}

read-Answers_example :
    (g' : Driver sim ℕ) × (end : File) × (resmgr_read
        (gpio_calls sim ℕ sems 1 512)
        eok
        80
        line3
        board
      ≡ some (eok, some 1, end, g'))
    × (end.offset ≡ 1)
    × (end.value ≡ 49)
    × IsReady g'.requestq (2 ∷ 0 ∷ 1 ∷ [])
    × (view g'.world.1 ≡ view later.1)
unfolding response_size read_size sim-Accounting
read-Answers_example =
    read-Answers sim ℕ sems sim-Accounting sim-Errnos (λ l. refl) board line3 80 512 0 1 (2 ∷ [])
      returned high 0 0 (0, 0) (board-Answers ask refl) (λ e. omega arith)

write-Answers_example :
    (g' : Driver sim ℕ) × (resmgr_write (gpio_calls sim ℕ sems 1 512) eok 1 (ok 49) line3 board
      ≡ some (eok, some 1, g'))
    × IsReady g'.requestq (2 ∷ 0 ∷ 1 ∷ [])
    × (view g'.world.1 ≡ view later.1)
unfolding response_size sim-Accounting
write-Answers_example =
    write-Answers sim ℕ sems sim-Accounting sim-Errnos (λ l. refl) board line3 49 512 0 1 (2 ∷ [])
      returned high 0 0 (0, 0) (board-Answers set_high refl)

-- The offset is behind the one byte of the file.
abbrev far : File
far = record line3 { offset = 9 }

-- The driver asks the device for the line.
line3_high : (g' : Driver sim ℕ) × (get_value sim ℕ sems 1 3 512 board ≡ some (eok, some 1, g'))
unfolding get_value response_size alloc Fifo.get
line3_high =
    let (g', answered, ready, live) =
      exchange-answers sim ℕ sems sim-Accounting sim-Errnos (λ l. refl) board ask 512 0 1 (2 ∷ [])
        returned high 0 0 (0, 0) (λ g. refl) (λ g. (refl, refl)) (λ e. omega arith) three-IsReady
        (λ e. omega arith) refl refl
        record { small = omega arith; new = λ e. omega arith; head = refl } refl
        (λ g3 e. ap (λ r. awake 512 (request sim ℕ ask 512 (prepared 512 board)).1 r) e) in
    (g', answered)

read-past_end_example :
    (end : File) × (resmgr_read (gpio_calls sim ℕ sems 1 512) eok 512 far board
      ≡ some (eok, some 512, end, line3_high.0))
    × (end.value ≡ 49)
    × (end.offset ≡ 521)
unfolding gpio_calls
read-past_end_example =
    read-past_end (gpio_calls sim ℕ sems 1 512) 512 far board line3_high.0 1 line3_high.1
      (omega arith) (omega arith) (omega arith) (omega arith)
