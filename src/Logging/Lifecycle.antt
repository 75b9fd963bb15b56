-- ===== src/Logging/Lifecycle.antt =====
-- utils/logging/logging.c: sequences of calls of the logger, and the logger as its users see it: closed,
-- or open with flags and a buffer.
use mathlib.Core.Path.{ap₂}
use qnx_virtio.Common.{
  ℕ, ◌≡◌, refl, ap, ◌∙◌, true, false, inl, inr, ◌⊎◌, Bool-cases, is_ok→eq, List, [], ◌∷◌, Option,
  none, some, Errno, einval, ealready, is_ok, arith, if◌then◌else◌,
}
use qnx_virtio.Logging.{
  LogSystem, LoggingCtx, buffer_set, logging_init, logging_shutdown, logging_log_impl,
  write_message,
}

-- The calls, over the formats with their arguments.
pub data Call (F : Type 0) : Type 0 where
  init : (ident : Option (List ℕ)) → (flags : ℕ) → Call F
  shutdown : Call F
  log : (severity : ℕ) → (file : List ℕ) → (line : ℕ) → F → Call F

handles : (o : Option (Option ℕ)) → (o ≡ none) ⊎ ((o ≡ some none) ⊎ ((b : ℕ) × (o ≡ some (some b))))
handles none = inl refl
handles (some none) = inr (inl refl)
handles (some (some b)) = inr (inr (b, refl))

-- The flags and the buffer of a logger that is open.
abbrev pub Open : Type 0
Open = Option (ℕ × ℕ)

module _ {W : Type 0} (sys : LogSystem W) where
  open sys use {Mutex, Format, mutex_lock, slog2_register, slog2_reset, vsnprintf}

  abbrev coded : Errno → List Errno × W → List Errno × W
  coded rc (rcs, w) = (rc ∷ rcs, w)

  -- A sequence of calls: the codes that the calls of `logging_init` return, and the world.
  unfoldable pub run : List (Call Format) → LoggingCtx Mutex → W → List Errno × W
  run [] ctx w = ([], w)
  run (init ident flags ∷ calls) ctx w =
      let (rc, ctx', w') = logging_init sys ident flags ctx w in coded rc (run calls ctx' w')
  run (shutdown ∷ calls) ctx w = let (ctx', w') = logging_shutdown sys ctx w in run calls ctx' w'
  run (log severity file line fmt ∷ calls) ctx w =
      run calls ctx (logging_log_impl sys ctx severity file line fmt w)

  -- The open logger keeps its flags and its buffer until it is shut down.
  abbrev pub open_init : Option (List ℕ) → (flags : ℕ) → Open → W → Errno × Open × W
  open_init none flags state w = (einval, state, w)
  open_init (some ident) flags (some o) w = (ealready, some o, w)
  open_init (some ident) flags none w =
      let (rc, handle, w') = slog2_register (buffer_set sys ident) w in
      elim handle as (λ _. Errno × Open × W) [
        | some (some b) ↦ (rc, (if is_ok rc then some (flags, b) else none), w')
        | _ ↦ (rc, none, w')
      ]

  abbrev pub open_shutdown : Open → W → W
  open_shutdown none w = w
  open_shutdown (some o) w = slog2_reset w

  -- A message goes out exactly when the logger is open and the message can be made.
  abbrev pub open_log : (severity : ℕ) → (file : List ℕ) → (line : ℕ) → Format → Open → W → W
  open_log severity file line fmt none w = w
  open_log severity file line fmt (some (flags, b)) w = elim (vsnprintf 1024 fmt) as (λ _. W) [
    | none ↦ w
    | some message ↦ write_message sys flags b severity file line message w
  ]

  unfoldable pub run_open : List (Call Format) → Open → W → List Errno × W
  run_open [] state w = ([], w)
  run_open (init ident flags ∷ calls) state w =
      let (rc, state', w') = open_init ident flags state w in coded rc (run_open calls state' w')
  run_open (shutdown ∷ calls) state w = run_open calls none (open_shutdown state w)
  run_open (log severity file line fmt ∷ calls) state w =
      run_open calls state (open_log severity file line fmt state w)

  -- What the structure holds for a state.
  abbrev pub Shows : Open → LoggingCtx Mutex → Type 0
  Shows none ctx = ctx.initialized ≡ false
  Shows (some (flags, b)) ctx =
      (ctx.initialized ≡ true) × (ctx.flags ≡ flags) × (ctx.buffer ≡ some b)

  -- A registration that succeeds hands out a buffer.
  abbrev pub Registers : Type 0
  Registers =
      (ident : List ℕ) (w : W)
      → is_ok (slog2_register (buffer_set sys ident) w).0 ≡ true
      → (b : ℕ) × ((slog2_register (buffer_set sys ident) w).1 ≡ some (some b))

  module _ (free : (l : Mutex) → is_ok (mutex_lock l).0 ≡ true) (registers : Registers) where
    init-Shows :
        (ident : Option (List ℕ)) (flags : ℕ) (state : Open) (ctx : LoggingCtx Mutex) (w : W)
        → Shows state ctx
        → let (rc, ctx', w') = logging_init sys ident flags ctx w in
          let (rc', state', w'') = open_init ident flags state w in
          (rc ≡ rc') × Shows state' ctx' × (w' ≡ w'')
    unfolding logging_init
    init-Shows none flags state ctx w h = (refl, h, refl)
    init-Shows (some ident) flags (some o) ctx w h = ground (arith, free ctx.mutex)
    init-Shows (some ident) flags none ctx w h =
        elim (Bool-cases (is_ok (slog2_register (buffer_set sys ident) w).0)) [
          | inl t ↦
              let (b, e) = registers ident w t in
              ground (
                arith,
                h,
                free ctx.mutex,
                t,
                e,
                is_ok→eq (slog2_register (buffer_set sys ident) w).0 t,
              )
          | inr t ↦ elim (handles (slog2_register (buffer_set sys ident) w).1) [
            | inl e ↦ ground (arith, h, free ctx.mutex, t, e)
            | inr (inl e) ↦ ground (arith, h, free ctx.mutex, t, e)
            | inr (inr (b, e)) ↦ ground (arith, h, free ctx.mutex, t, e)
          ]
        ]

    shutdown-Shows :
        (state : Open) (ctx : LoggingCtx Mutex) (w : W)
        → Shows state ctx
        → let (ctx', w') = logging_shutdown sys ctx w in
          Shows none ctx' × (w' ≡ open_shutdown state w)
    unfolding logging_shutdown
    shutdown-Shows none ctx w h = ground (arith, h)
    shutdown-Shows (some o) ctx w h = ground (arith, h)

    log-Shows :
        (severity : ℕ) (file : List ℕ) (line : ℕ) (fmt : Format) (state : Open)
        (ctx : LoggingCtx Mutex) (w : W)
        → Shows state ctx
        → logging_log_impl sys ctx severity file line fmt w
          ≡ open_log severity file line fmt state w
    unfolding logging_log_impl
    log-Shows severity file line fmt none ctx w h = ground (arith, h)
    log-Shows severity file line fmt (some o) ctx w h = ground (arith, h)

    -- If the mutex can always be taken and a registration that succeeds hands out a buffer, no
    -- sequence of `logging_init`, `logging_shutdown` and log calls tells the logger's structure from
    -- a logger that is closed, or open with flags and a buffer: it opens by the first initialisation
    -- that succeeds, refuses others with `EALREADY` while it is open, is closed by a shutdown and can
    -- be opened again, and a message goes out exactly while it is open, to the buffer and, with the
    -- flag for stdout, to stdout.
    pub run-run_open :
        (calls : List (Call Format)) (state : Open) (ctx : LoggingCtx Mutex) (w : W)
        → Shows state ctx
        → run calls ctx w ≡ run_open calls state w
    unfolding run run_open
    run-run_open [] state ctx w h = refl
    run-run_open (init ident flags ∷ calls) state ctx w h =
        let (rc, shows, world) = init-Shows ident flags state ctx w h in
        let (rc', state', w'') = open_init ident flags state w in
        let (rc0, ctx', w') = logging_init sys ident flags ctx w in
        ap₂ coded rc
          (run-run_open calls state' ctx' w' shows ∙ ap (λ x. run_open calls state' x) world)
    run-run_open (shutdown ∷ calls) state ctx w h =
        let (shows, world) = shutdown-Shows state ctx w h in
        let (ctx', w') = logging_shutdown sys ctx w in
        run-run_open calls none ctx' w' shows ∙ ap (λ x. run_open calls none x) world
    run-run_open (log severity file line fmt ∷ calls) state ctx w h =
        run-run_open calls state ctx (logging_log_impl sys ctx severity file line fmt w) h
        ∙ ap (λ x. run_open calls state x) (log-Shows severity file line fmt state ctx w h)
