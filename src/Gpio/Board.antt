-- ===== src/Gpio/Board.antt =====
-- A GPIO driver on a queue of three descriptors, and semaphores that let the device answer, on the small
-- system `sim`.
use qnx_virtio.Common.{ℕ, ◌∷◌, [], none, some, true, Bool, Errno, Option}
use qnx_virtio.Sim.{sim}
use qnx_virtio.Virtq.{Used}
use qnx_virtio.Virtq.Sample.{later, three}
use qnx_virtio.Gpio.{GpioRequest, GpioResponse, Memory, msg_get_value}
use qnx_virtio.Gpio.Request.{Driver}
use qnx_virtio.Gpio.Callback.{virtq_callback}
use qnx_virtio.Gpio.Calls.{Semaphores}
use qnx_virtio.Gpio.RoundTrip.{answer}
use qnx_virtio.Gpio.Waiting.{emptied, taken}

abbrev pub memory : Memory
memory = record {
  request_at = λ a. record { type = 0; gpio = 0; value = 0 };
  response_at = λ a. record { status = 0; bytes = [] };
  context_at = λ a. record { sem = 0; status = 7; size = 0; bytes = 0 ∷ [] };
}

abbrev pub board : Driver sim ℕ
board = record {
  idx = 0;
  ngpio = 4;
  gpio_names_size = 0;
  dev = none;
  requestq = three;
  memory = memory;
  world = later;
}

-- Only one more buffer is granted.
abbrev pub short : Driver sim ℕ
short = record board { world = (1, later.1) }

abbrev pub ask : GpioRequest
ask = record { type = msg_get_value; gpio = 3; value = 0 }

-- The line is high.
abbrev pub high : GpioResponse
high = record { status = 0; bytes = 1 ∷ [] }

abbrev pub returned : Used
returned = record { flags = 0; idx = 1; ring = record { id = 0; len = 2 } ∷ [] }

abbrev pub answered : Driver sim ℕ → Driver sim ℕ
answered = answer 1 returned high

-- A wait during which the device answers.
abbrev pub awake :
    (context : ℕ) → Driver sim ℕ → Option (Errno × Driver sim ℕ) → Bool × Driver sim ℕ
awake context g none = (true, g)
awake context g (some (rc, g3)) = (true, taken context g3)

abbrev pub sems : Semaphores (Driver sim ℕ)
sems = record {
  sem_init = λ context g. (true, emptied context g);
  sem_wait = λ context g. awake context g (virtq_callback sim ℕ 2 (0, 0) (answered g));
  sem_destroy = λ context g. (true, g);
}
