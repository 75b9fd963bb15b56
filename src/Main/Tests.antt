-- ===== src/Main/Tests.antt =====
-- A run of `main` on a small MMIO device, with a resource manager that cannot be set up.
use qnx_virtio.Common.{
  ℕ, ◌≡◌, refl, [], ◌∷◌, List, Bool, true, false, none, some, eok, enodev, enomem, minus_one, is_ok,
  arith,
}
use qnx_virtio.Sim.{sim, SimWorld}
use qnx_virtio.Virtq.Sample.{world}
use qnx_virtio.Gpio.Panel.{at_status, nap, memory, zeros}
use qnx_virtio.Gpio.Request.{Driver}
use qnx_virtio.Gpio.Start.{up, down}
use qnx_virtio.Logging.{LogSystem, LoggingCtx}
use qnx_virtio.Options.{Opt, opt_virtio, opt_help, opt_mem, opt_irq, opt_qsize, parse_options}
use qnx_virtio.Resmgr.Run.{ResmgrSystem}
use qnx_virtio.Main.{Platform, stopped, main}

taken : (l : Bool) → is_ok eok ≡ false → true ≡ l
taken true h = refl
taken false h = absurd (ground (arith, h))

-- A logger that keeps nothing.
abbrev quiet : LogSystem SimWorld
quiet = record {
  Mutex = Bool;
  Format = ℕ;
  severities = record {
    shutdown = 0;
    critical = 1;
    error = 2;
    warning = 3;
    notice = 4;
    info = 5;
    debug1 = 6;
    debug2 = 7;
  };
  mutex_lock = λ l. (eok, true);
  mutex_unlock = λ l. (eok, false);
  slog2_register = λ set w. (enomem, none, w);
  slog2_reset = λ w. w;
  slog2f = λ buffer severity file line message w. w;
  vsnprintf = λ size fmt. none;
  fprintf = λ severity file line message w. w;
  fflush = λ w. w;
  held = λ l. l;
  held-lock = λ l h. taken l h;
  held-unlock = λ l h. refl;
}

abbrev fresh : LoggingCtx Bool
fresh = record { initialized = false; flags = 0; buffer = none; mutex = false }

abbrev full : ResmgrSystem (Driver sim (List ℕ))
full = record {
  errno = λ g. enomem;
  dispatch_create = λ g. (false, g);
  dispatch_destroy = λ g. g;
  calloc = λ b g. (false, g);
  free = λ b g. g;
  resmgr_attach = λ n g. (none, g);
  resmgr_detach = λ i g. g;
  dispatch_context_alloc = λ g. (false, g);
  serve = λ g. (false, g);
}

-- There is a device on MMIO only.
abbrev platform : Platform sim (List ℕ) (List ℕ)
platform = record {
  transports = record {
    mmio = λ mem irq dev. some (up (at_status (4 ∷ [])));
    pci = λ idx dev. some (down enodev);
  };
  delay = nap;
  uninit = zeros;
  block = true;
  errno = enomem;
  made = (eok, some (at_status []));
  memory = memory;
}

abbrev opts : List Opt
opts = opt_virtio (opt_mem (some 4096) ∷ opt_irq (some 5) ∷ opt_qsize (some 3) ∷ []) ∷ []

-- With an option for help nothing is started, and the code is that of a failure.
main_help :
    main sim platform quiet full (λ w. w) (λ a. 0) 31 (λ rc. 0) 1 (opt_help ∷ opts) fresh world
    ≡ some (stopped minus_one fresh world)
unfolding main parse_options
main_help = refl
