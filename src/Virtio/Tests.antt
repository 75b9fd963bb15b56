-- ===== src/Virtio/Tests.antt =====
-- Runs on a small device, which finishes a reset while the driver sleeps.
use qnx_virtio.Common.{
  ℕ, ◌-◌, ◌≡◌, refl, [], Bool, false, some, arith, eok, einval, ok, u8, ◌==◌, if◌then◌else◌,
}
use qnx_virtio.Sim.{locks}
use qnx_virtio.Virtio.{Ops, Device, on_queue, add_device_status}
use qnx_virtio.Virtio.Reset.{Delay, pause, reset_device}
use qnx_virtio.Virtio.Laws.{StatusRegister, lock_of, device_lock-released}
use qnx_virtio.Virtio.Polling.{Passes, reset_device-ends}

-- The status, the sleeps until a reset is done, the selected queue and the enabled queues.
record Board : Type 0 where
  status : ℕ
  sleeps : ℕ
  queue : ℕ
  enabled : ℕ → Bool

abbrev board_ops : Ops Bool Board
board_ops = record {
  read_device_features = λ count t. (ok [], t);
  write_driver_features = λ features t. (eok, t);
  set_device_status = λ n t. (eok, record t { status = u8 n });
  get_device_status = λ t. (ok t.status, t);
  reset_device = λ t. (eok, record t { sleeps = 2 });
  read_device_config = λ len offset t. (ok [], t);
  set_queue_addr = λ leagcy vq t. (eok, t);
  select_queue = λ i t. (eok, record t { queue = i });
  notify_queue = λ i t. (eok, t);
  enable_queue = λ b t. (eok, record t { enabled = λ j. if t.queue == j then b else t.enabled j });
  set_queue_reset = λ t. (eok, t);
  get_queue_reset = λ t. (ok 0, t);
  max_queue_size = λ t. (ok 0, t);
  set_queue_size = λ n t. (eok, t);
}

-- A sleep brings the device on; after the last one its status is 0.
abbrev sleep : Delay Board
sleep n t = (0, record t { sleeps = t.sleeps - 1; status = if t.sleeps == 1 then 0 else t.status })

abbrev board : Board
board = record { status = 3; sleeps = 0; queue = 7; enabled = λ i. false }

abbrev device : Device Bool Board
device = record {
  lock = false;
  leagcy = false;
  ops = board_ops;
  device_reset_timeout_ms = 500;
  device_reset_poll_interval_ms = 10;
  queue_reset_timeout_ms = 500;
  queue_reset_poll_interval_ms = 10;
  irq = 0;
  priv = board;
}

sleep-Passes : Passes sleep
sleep-Passes n t h = h

board_status : StatusRegister board_ops
board_status = record {
  status = λ t. t.status;
  get-status = λ t. refl;
  get-same = λ t. refl;
  set-rc = λ n t. refl;
  set-status = λ n t. refl;
}

-- The reset is done after the second of at most 50 sleeps.
reset_device-ends_example :
    (t' : Board) × (reset_device locks sleep 501 device ≡ some (eok, record device { priv = t' }))
unfolding pause
reset_device-ends_example =
    reset_device-ends locks sleep sleep-Passes device (λ t. t.status) (λ t. refl) 501 board
      (omega arith) (omega arith) refl

device_lock-released_example :
    ((on_queue locks (λ rc. rc) device 1 (λ t. (einval, t))).1.lock ≡ false)
    × (lock_of (add_device_status locks (some device) 12).1 false ≡ false)
device_lock-released_example =
    device_lock-released locks (λ rc. rc) device 1 12 (λ t. (einval, t)) refl
