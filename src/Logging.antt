-- ===== src/Logging.antt =====
-- utils/logging/logging.c: the logger of the driver. The mutex of <pthread.h>, the calls of
-- <sys/slog2.h> and those of <stdio.h> are parameters; the severities of slog2 are numbers that its
-- header gives. A null pointer is an absent value.
pub mod Basename
pub mod Lifecycle
pub mod Locks
mod Tests
use Prim.Native.Char.{code}
use Prim.Native.String.{String}
use qnx_virtio.Common.{
  ℕ, ◌%◌, Bool, true, false, Option, none, some, List, [], ◌∷◌, Errno, eok, einval, ealready, is_ok,
  if◌then◌else◌, ◌==◌, ◌≡◌,
}

-- The characters of a text.
abbrev pub codes : String → List ℕ
codes String.[] = []
codes (String.◌∷◌ c s) = code c ∷ codes s

-- `LOG_FLAG_NONE`. `LOG_FLAG_STDOUT` is the lowest bit.
abbrev pub log_flag_none : ℕ
log_flag_none = 0

abbrev pub has_stdout : (flags : ℕ) → Bool
has_stdout flags = flags % 2 == 1

-- `SLOG2_…`
pub record Severities : Type 0 where
  pub shutdown : ℕ
  pub critical : ℕ
  pub error : ℕ
  pub warning : ℕ
  pub notice : ℕ
  pub info : ℕ
  pub debug1 : ℕ
  pub debug2 : ℕ

-- `slog2_buffer_set_config_t`, as far as it is filled.
pub record BufferSet : Type 0 where
  pub buffer_set_name : List ℕ
  pub num_buffers : ℕ
  pub verbosity_level : ℕ
  pub buffer_name : List ℕ
  pub num_pages : ℕ

-- `struct logging_ctx`, with the mutex as a word of type `L`.
pub record LoggingCtx (L : Type 0) : Type 0 where
  pub initialized : Bool
  pub flags : ℕ
  pub buffer : Option ℕ
  pub mutex : L

-- The calls that the logger makes. `slog2_register` may write a handle, `vsnprintf` makes a text of
-- at most so many bytes from a format and its arguments, and a negative result is an absent text.
pub record LogSystem (W : Type 0) : Type 1 where
  pub Mutex : Type 0
  pub Format : Type 0
  pub severities : Severities
  pub mutex_lock : Mutex → Errno × Mutex
  pub mutex_unlock : Mutex → Errno × Mutex
  pub slog2_register : BufferSet → W → Errno × Option (Option ℕ) × W
  pub slog2_reset : W → W
  pub slog2f : (buffer severity : ℕ) → (file : List ℕ) → (line : ℕ) → (message : List ℕ) → W → W
  pub vsnprintf : (size : ℕ) → Format → Option (List ℕ)
  pub fprintf : (severity_name basename : List ℕ) → (line : ℕ) → (message : List ℕ) → W → W
  pub fflush : W → W
  pub held : Mutex → Bool
  -- An attempt that reports an error does not change who holds the mutex.
  pub held-lock : (l : Mutex) → is_ok (mutex_lock l).0 ≡ false → held (mutex_lock l).1 ≡ held l
  -- The holder's release leaves the mutex free.
  pub held-unlock :
      (l : Mutex) → is_ok (mutex_lock l).0 ≡ true → held (mutex_unlock (mutex_lock l).1).1 ≡ false

unfoldable pub get_severity_name : Severities → (severity : ℕ) → List ℕ
get_severity_name s severity =
    if severity == s.shutdown
    then codes "EMERG"
    else if severity == s.critical
    then codes "CRIT"
    else if severity == s.error
    then codes "ERROR"
    else if severity == s.warning
    then codes "WARNING"
    else if severity == s.notice
    then codes "NOTICE"
    else if severity == s.info
    then codes "INFO"
    else if severity == s.debug1
    then codes "DEBUG"
    else codes "UNKNOWN"

-- `strrchr`: the text from the last `c` on.
unfoldable pub strrchr : List ℕ → (c : ℕ) → Option (List ℕ)
strrchr [] c = none
strrchr (x ∷ xs) c = elim (strrchr xs c) as (λ _. Option (List ℕ)) [
  | some found ↦ some found
  | none ↦ if x == c then some (x ∷ xs) else none
]

-- `drop_one` is the pointer's increment.
abbrev pub drop_one : List ℕ → List ℕ
drop_one [] = []
drop_one (x ∷ xs) = xs

-- What is printed for the file.
unfoldable pub basename : (file : List ℕ) → List ℕ
unfolding strrchr
basename file = elim (strrchr file b'/') as (λ _. List ℕ) [
  | some found ↦ drop_one found
  | none ↦ file
]

module _ {W : Type 0} (sys : LogSystem W) where
  open sys use {
    Mutex, Format, severities, mutex_lock, mutex_unlock, slog2_register, slog2_reset, slog2f,
    vsnprintf, fprintf, fflush,
  }

  abbrev pub buffer_set : (ident : List ℕ) → BufferSet
  buffer_set ident = record {
    buffer_set_name = ident;
    num_buffers = 1;
    verbosity_level = severities.debug2;
    buffer_name = codes "main";
    num_pages = 8;
  }

  abbrev pub unlock : LoggingCtx Mutex → LoggingCtx Mutex
  unlock ctx = record ctx { mutex = (mutex_unlock ctx.mutex).1 }

  -- With the mutex held. What `slog2_register` has written stays when it fails.
  unfoldable pub register :
      (ident : List ℕ) → (flags : ℕ) → LoggingCtx Mutex → W → Errno × LoggingCtx Mutex × W
  register ident flags ctx w =
      let (rc, handle, w') = slog2_register (buffer_set ident) w in
      let buffer = elim handle as (λ _. Option ℕ) [ none ↦ ctx.buffer | some b ↦ b ] in
      let written = record ctx { buffer = buffer } in
      if is_ok rc
      then (eok, unlock (record written { flags = flags; initialized = true }), w')
      else (rc, unlock written, w')

  unfoldable pub logging_init :
      (ident : Option (List ℕ)) → (flags : ℕ) → LoggingCtx Mutex → W → Errno × LoggingCtx Mutex × W
  unfolding register
  logging_init none flags ctx w = (einval, ctx, w)
  logging_init (some ident) flags ctx w =
      let (rc, l) = mutex_lock ctx.mutex in
      let locked = record ctx { mutex = l } in
      if is_ok rc
      then (if ctx.initialized then (ealready, unlock locked, w) else register ident flags locked w)
      else (rc, locked, w)

  -- What `pthread_mutex_lock` returns is not looked at.
  unfoldable pub logging_shutdown : LoggingCtx Mutex → W → LoggingCtx Mutex × W
  logging_shutdown ctx w =
      let locked = record ctx { mutex = (mutex_lock ctx.mutex).1 } in
      if ctx.initialized
      then (
        unlock (record locked { buffer = none; initialized = false; flags = log_flag_none }),
        slog2_reset w,
      )
      else (unlock locked, w)

  -- The two ways out, once there is a message.
  unfoldable pub write_message :
      (flags buffer severity : ℕ) → (file : List ℕ) → (line : ℕ) → (message : List ℕ) → W → W
  unfolding basename get_severity_name
  write_message flags buffer severity file line message w =
      let w1 = slog2f buffer severity file line message w in
      if has_stdout flags
      then fflush (fprintf (get_severity_name severities severity) (basename file) line message w1)
      else w1

  -- The mutex is not taken.
  unfoldable pub logging_log_impl :
      LoggingCtx Mutex → (severity : ℕ) → (file : List ℕ) → (line : ℕ) → Format → W → W
  unfolding write_message
  logging_log_impl ctx severity file line fmt w =
      if ctx.initialized
      then (elim ctx.buffer as (λ _. W) [
        | none ↦ w
        | some buffer ↦ elim (vsnprintf 1024 fmt) as (λ _. W) [
          | none ↦ w
          | some message ↦ write_message ctx.flags buffer severity file line message w
        ]
      ])
      else w
