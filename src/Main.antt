-- ===== src/Main.antt =====
-- src/gpio/main.c: `main`, from the command line to the resource manager. What the calls of the system
-- find and return are arguments, and so are the formats of the two messages.
mod Tests
use qnx_virtio.Common.{
  ℕ, true, Bool, Option, none, some, List, Errno, minus_one, if◌then◌else◌, ◌==◌, u16,
}
use qnx_virtio.Os.{Os}
use qnx_virtio.Virtio.{Device}
use qnx_virtio.Virtio.Reset.{Delay}
use qnx_virtio.Virtio.Queue.{Uninit}
use qnx_virtio.Gpio.{Memory, num_gpios}
use qnx_virtio.Gpio.Request.{Driver}
use qnx_virtio.Gpio.Start
use qnx_virtio.Gpio.Start.{Brought, Started, running, refused, failed, destroyed_twice}
use qnx_virtio.Logging.{LogSystem, LoggingCtx, codes, log_flag_none, logging_init, logging_log_impl}
use qnx_virtio.Options
use qnx_virtio.Options.{VirtioArgs, Opt, Parsed, parse_options}
use qnx_virtio.Resmgr.Run.{ResmgrSystem, resmgr_run}

-- `struct virtio_args virtio_args = {0}`
abbrev pub no_args : VirtioArgs
no_args = record { idx = 0; mem = 0; irq = 0; qsize = 0 }

-- `virtio_mmio_init` and `virtio_pci_init` for a GPIO device, the latter with one MSI-X vector.
pub record Transports (L Hw T : Type 0) : Type 0 where
  pub mmio : (mem irq : ℕ) → Device L Hw → Option (Brought L T)
  pub pci : (idx : ℕ) → Device L Hw → Option (Brought L T)

-- What `virtio_gpio_init` meets: whether `calloc` grants the structure, `errno` if not, what
-- `virtio_init` returns and hands out, and the memory of the buffers.
pub record Platform (os : Os) (Hw T : Type 0) : Type 0 where
  pub transports : Transports os.spin.Lock Hw T
  pub delay : Delay T
  pub uninit : Uninit
  pub block : Bool
  pub errno : Errno
  pub made : Errno × Option (Device os.spin.Lock Hw)
  pub memory : Memory

-- How `main` ends: without a driver, or with one when the resource manager gives up. `undefined` is
-- for a device that has been destroyed twice.
pub data Ended (os : Os) (T L : Type 0) : Type 0 where
  stopped : Errno → LoggingCtx L → os.World → Ended os T L
  served : Errno → LoggingCtx L → Driver os T → Ended os T L
  undefined : Ended os T L

module _ (os : Os) {Hw T : Type 0} (platform : Platform os Hw T) (log : LogSystem os.World)
    (sys : ResmgrSystem (Driver os T)) (thread_ctl : os.World → os.World)
    (starting : VirtioArgs → log.Format) (starting_line : ℕ) (failing : Errno → log.Format) where
  open os use {World}
  open platform use {transports, delay, uninit, block, errno, made, memory}

  -- `virtio_gpio_init` with the arguments of `main`: a memory address of 0 selects PCI.
  unfoldable pub gpio_init : (fuel : ℕ) → VirtioArgs → World → Option (Started os T)
  gpio_init fuel args w =
      Start.init os delay fuel uninit true block errno made
        (if args.mem == 0 then transports.pci args.idx else transports.mmio args.mem args.irq)
        args.idx (u16 args.qsize) memory w

  -- `log_err` and `return -1`
  unfoldable pub give_up : Errno → LoggingCtx log.Mutex → World → Ended os T log.Mutex
  give_up rc ctx w =
      stopped minus_one ctx
        (logging_log_impl log ctx log.severities.error (codes "main.c") 39 (failing rc) w)

  -- Behind the command line. What `logging_init` returns is not looked at.
  unfoldable pub start :
      (fuel : ℕ) → VirtioArgs → LoggingCtx log.Mutex → World → Option (Ended os T log.Mutex)
  unfolding gpio_init give_up
  start fuel args ctx w =
      let (rc, ctx', w1) =
        logging_init log (some (codes "dev-virtio-gpio")) log_flag_none ctx (thread_ctl w) in
      let w2 =
        logging_log_impl log ctx' log.severities.info (codes "main.c") starting_line (starting args)
          w1 in
      elim (gpio_init fuel args w2) as (λ _. Option (Ended os T log.Mutex)) [
        | none ↦ none
        | some (running g thread) ↦
            elim (resmgr_run sys fuel (some (num_gpios (some g) true)) g)
              as (λ _. Option (Ended os T log.Mutex)) [
                | none ↦ none
                | some (rc', g') ↦ some (served rc' ctx' g')
              ]
        | some (refused rc') ↦ some (give_up rc' ctx' w2)
        | some (failed rc' dev w3) ↦ some (give_up rc' ctx' w3)
        | some (destroyed_twice rc') ↦ some undefined
      ]

  -- `main`. With an option for help the command line is not parsed either.
  unfoldable pub main :
      (fuel : ℕ) → List Opt → LoggingCtx log.Mutex → World → Option (Ended os T log.Mutex)
  unfolding start
  main fuel opts ctx w =
      let (outcome, args) = parse_options opts no_args in
      let started = start fuel args ctx w in
      elim outcome as (λ _. Option (Ended os T log.Mutex)) [
        | Parsed.parsed ↦ started
        | Parsed.help ↦ some (stopped minus_one ctx w)
        | Parsed.failed ↦ some (stopped minus_one ctx w)
      ]
