-- ===== src/Gpio/Panel.antt =====
-- A small GPIO device that is reset at once, on the small system `sim`.
use qnx_virtio.Common.{ℕ, ◌≡◌, refl, List, [], ◌∷◌, get_or, true, false, some, eok, ok, Bool, u8}
use qnx_virtio.Sim.{sim, SimWorld}
use qnx_virtio.Virtq.Sample.{world, later, three, create-three}
use qnx_virtio.Virtio.{
  Ops, Device, on_queue, select_queue, max_queue_size, set_queue_size, set_queue_addr,
  set_queue_reset,
}
use qnx_virtio.Virtio.Laws.{StatusRegister}
use qnx_virtio.Virtio.Reset.{Delay, reset_queue, poll_queue}
use qnx_virtio.Virtio.Queue.{
  Outcome, Uninit, create_queue, create_queue_on, configure_queue, size_queue, start_queue,
  chosen_size,
}
use qnx_virtio.Gpio.{Memory}
use qnx_virtio.Gpio.Handshake.{StatusLog, KeepsStatus}

-- What is written to the device's status, the newest value first, is all that the device has.
abbrev pub panel_ops : Ops Bool (List ℕ)
panel_ops = record {
  read_device_features = λ count t. (ok [], t);
  write_driver_features = λ features t. (eok, t);
  set_device_status = λ n t. (eok, u8 n ∷ t);
  get_device_status = λ t. (ok (get_or t 0 0), t);
  reset_device = λ t. (eok, 0 ∷ t);
  read_device_config = λ len offset t. (ok (4 ∷ 0 ∷ []), t);
  set_queue_addr = λ leagcy vq t. (eok, t);
  select_queue = λ i t. (eok, t);
  notify_queue = λ i t. (eok, t);
  enable_queue = λ b t. (eok, t);
  set_queue_reset = λ t. (eok, t);
  get_queue_reset = λ t. (ok 0, t);
  max_queue_size = λ t. (ok 3, t);
  set_queue_size = λ n t. (eok, t);
}

abbrev pub at_status : List ℕ → Device Bool (List ℕ)
at_status statuses = record {
  lock = false;
  leagcy = false;
  ops = panel_ops;
  device_reset_timeout_ms = 500;
  device_reset_poll_interval_ms = 10;
  queue_reset_timeout_ms = 500;
  queue_reset_poll_interval_ms = 10;
  irq = 5;
  priv = statuses;
}

abbrev pub nap : Delay (List ℕ)
nap n t = (0, t)

unfoldable pub panel_status : StatusRegister panel_ops
panel_status = record {
  status = λ t. get_or t 0 0;
  get-status = λ t. refl;
  get-same = λ t. refl;
  set-rc = λ n t. refl;
  set-status = λ n t. refl;
}

abbrev pub panel_log : StatusLog panel_ops
panel_log = record {
  Log = List ℕ;
  note = λ n l. n ∷ l;
  written = λ t. t;
  get-written = λ t. refl;
  set-written = λ n t. refl;
}

pub panel_keeps : KeepsStatus sim nap (λ l. refl) panel_ops panel_status panel_log
unfolding panel_status
panel_keeps = record {
  queues = λ n l. record {
    sleep = λ k t h. h;
    addr = λ b vq t h. h;
    select = λ i t h. h;
    enable = λ b t h. h;
    set_reset = λ t h. h;
    get_reset = λ t h. h;
    max_size = λ t h. h;
    set_size = λ k t h. h;
  };
  config = λ len offset t. (refl, refl);
}

abbrev pub memory : Memory
memory = record {
  request_at = λ a. record { type = 0; gpio = 0; value = 0 };
  response_at = λ a. record { status = 0; bytes = [] };
  context_at = λ a. record { sem = 0; status = 0; size = 0; bytes = [] };
}

abbrev pub zeros : Uninit
zeros = record { queue_size = 0; queue_reset = 0 }

-- The device was found with DRIVER_OK (4) set, reset and told 1, 3 and 11.
abbrev pub negotiated : List ℕ
negotiated = 11 ∷ 3 ∷ 1 ∷ 0 ∷ 4 ∷ []

abbrev pub created : Outcome Bool (List ℕ) SimWorld
created = record {
  rc = eok;
  vq = some three;
  dev = some (at_status negotiated);
  world = later;
  thread = some 5;
}

pub create_queue-three :
    create_queue sim nap 1 zeros (some (at_status negotiated)) 0 3 5 true true world ≡ some created
unfolding create_queue create_queue_on configure_queue size_queue start_queue chosen_size
    max_queue_size set_queue_size set_queue_addr set_queue_reset reset_queue poll_queue on_queue
    select_queue
create_queue-three = rw create-three refl
