-- ===== src/Logging/Tests.antt =====
-- The logger at concrete inputs, over a system that keeps what is sent to it.
use qnx_virtio.Common.{
  ℕ, ◌≡◌, refl, Bool, true, false, List, [], ◌∷◌, ◌++◌, Option, none, some, Errno, eok, einval,
  enomem, ealready, is_ok, arith,
}
use qnx_virtio.Logging.{
  codes, Severities, LogSystem, LoggingCtx, logging_init, logging_shutdown, logging_log_impl,
  get_severity_name, basename,
}
use qnx_virtio.Logging.Basename.{basename-last}
use qnx_virtio.Logging.Lifecycle.{Call, init, shutdown, log, run, run_open, run-run_open}
use qnx_virtio.Logging.Locks.{mutex-released}

abbrev severities : Severities
severities = record {
  shutdown = 0;
  critical = 1;
  error = 2;
  warning = 3;
  notice = 4;
  info = 5;
  debug1 = 6;
  debug2 = 7;
}

-- What went out: to the buffer, or to stdout with the name of the severity and that of the file.
data Sent : Type 0 where
  to_slog : (buffer : ℕ) → (message : List ℕ) → Sent
  to_stdout : (severity file message : List ℕ) → Sent
  was_reset : Sent

taken : (l : Bool) → is_ok eok ≡ false → true ≡ l
taken true h = refl
taken false h = absurd (ground (arith, h))

-- A registration with an empty name fails.
abbrev registration : List ℕ → List Sent → Errno × Option (Option ℕ) × List Sent
registration [] w = (enomem, none, w)
registration (x ∷ xs) w = (eok, some (some 9), w)

abbrev system : LogSystem (List Sent)
system = record {
  Mutex = Bool;
  Format = Option (List ℕ);
  severities = severities;
  mutex_lock = λ l. (eok, true);
  mutex_unlock = λ l. (eok, false);
  slog2_register = λ set w. registration set.buffer_set_name w;
  slog2_reset = λ w. w ++ (was_reset ∷ []);
  slog2f = λ buffer severity file line message w. w ++ (to_slog buffer message ∷ []);
  vsnprintf = λ size fmt. fmt;
  fprintf = λ severity file line message w. w ++ (to_stdout severity file message ∷ []);
  fflush = λ w. w;
  held = λ l. l;
  held-lock = λ l h. taken l h;
  held-unlock = λ l h. refl;
}

abbrev fresh : LoggingCtx Bool
fresh = record { initialized = false; flags = 0; buffer = none; mutex = false }

abbrev calls : List (Call (Option (List ℕ)))
calls =
    log 5 (codes "a.c") 1 (some (codes "early"))
    ∷ init none 1
    ∷ init (some []) 1
    ∷ init (some (codes "gpio")) 1
    ∷ init (some (codes "gpio")) 0
    ∷ log 2 (codes "src/gpio/a.c") 2 (some (codes "bad"))
    ∷ log 2 (codes "a.c") 2 none
    ∷ shutdown
    ∷ log 5 (codes "a.c") 3 (some (codes "late"))
    ∷ []

run-calls : run system calls fresh [] ≡ (
  einval ∷ enomem ∷ eok ∷ ealready ∷ [],
  to_slog 9 (codes "bad") ∷ to_stdout (codes "ERROR") (codes "a.c") (codes "bad") ∷ was_reset ∷ [],
)
unfolding run logging_init logging_log_impl logging_shutdown
run-calls = refl

registers :
    (ident : List ℕ) (w : List Sent)
    → is_ok (registration ident w).0 ≡ true
    → (b : ℕ) × ((registration ident w).1 ≡ some (some b))
registers [] w h = absurd (ground (arith, h))
registers (x ∷ xs) w h = (9, refl)

run-run_open_example : run system calls fresh [] ≡ run_open system calls none []
run-run_open_example = run-run_open system (λ l. refl) registers calls none fresh [] refl

basename-paths :
    (basename (codes "src/gpio" ++ (b'/' ∷ codes "a.c")) ≡ codes "a.c")
    × (basename (codes "a.c") ≡ codes "a.c")
basename-paths = basename-last (codes "src/gpio") (codes "a.c") (omega arith)

mutex-released_example :
    ((logging_init system (some (codes "gpio")) 1 fresh []).1.mutex ≡ false)
    × (is_ok eok ≡ true → (logging_shutdown system fresh []).0.mutex ≡ false)
mutex-released_example = mutex-released system (some (codes "gpio")) 1 fresh [] refl

unknown_severity : get_severity_name severities 7 ≡ codes "UNKNOWN"
unfolding get_severity_name
unknown_severity = refl
