-- ===== src/Gpio/Calls.antt =====
-- src/gpio/gpio.c: the calls that ask the device and wait for its answer. The semaphores of
-- <semaphore.h> are a parameter: during a wait the device and the other threads run.
use qnx_virtio.Common.{
  ℕ, zero, suc, Bool, true, false, Option, none, some, Errno, eok, eio, eintr, minus_one, is_ok,
  if◌then◌else◌, ◌==◌, get_or,
}
use qnx_virtio.Os.{Os}
use qnx_virtio.Gpio.{
  GpioRequest, update, gpio_status_ok, msg_get_direction, msg_set_direction, msg_get_value,
  msg_set_value,
}
use qnx_virtio.Gpio.Request.{Driver, request}

abbrev pub is_eintr : Errno → Bool
is_eintr eintr = true
is_eintr _ = false

-- `sem_init`, `sem_wait` and `sem_destroy` of the context at an address: true for a result of 0, false
-- for -1, which is not the errno of the failure.
pub record Semaphores (S : Type 0) : Type 0 where
  pub sem_init : (context : ℕ) → S → Bool × S
  pub sem_wait : (context : ℕ) → S → Bool × S
  pub sem_destroy : (context : ℕ) → S → Bool × S

-- The result of a call on a semaphore, as the driver takes it for a code.
abbrev pub code_of : Bool → Errno
code_of true = eok
code_of false = minus_one

module _ (os : Os) (T : Type 0) (sems : Semaphores (Driver os T)) where
  open sems use {sem_init, sem_wait, sem_destroy}

  -- The status is 0, and the semaphore as `sem_init` makes it.
  unfoldable pub context_init : (context : ℕ) → Driver os T → Errno × Driver os T
  context_init context g =
      let (done, g') = sem_init context (record g {
        memory = record (g.memory) {
          context_at =
              update g.memory.context_at context
                (record (g.memory.context_at context) { status = 0 });
        };
      }) in
      (code_of done, g')

  -- What the semaphore's end returns is not looked at.
  unfoldable pub context_deinit : (context : ℕ) → Driver os T → Driver os T
  context_deinit context g = (sem_destroy context g).1

  -- `do rc = sem_wait(…); while (rc == EINTR)` on fuel.
  unfoldable pub context_wait : (fuel context : ℕ) → Driver os T → Option (Errno × Driver os T)
  context_wait zero context g = none
  context_wait (suc fuel) context g =
      let (done, g') = sem_wait context g in
      let rest = context_wait fuel context g' in
      if is_eintr (code_of done) then rest else some (code_of done, g')

  -- What the four calls share. Beside the code: the context's first byte, if the wait succeeded.
  unfoldable pub exchange :
      (fuel : ℕ)
      → GpioRequest
      → (context : ℕ) → Driver os T
      → Option (Errno × Option ℕ × Driver os T)
  unfolding context_init context_wait context_deinit
  exchange fuel req context g =
      let (rc, g1) = context_init context g in
      let (rc', g2) = request os T req context g1 in
      let waited =
        elim (context_wait fuel context g2) as (λ _. Option (Errno × Option ℕ × Driver os T)) [
          | none ↦ none
          | some (rc'', g3) ↦
              (let answer = g3.memory.context_at context in
                let done = if answer.status == gpio_status_ok then eok else eio in
                let g4 = context_deinit context g3 in
                some (
                  if is_ok rc''
                  then (done, some (get_or answer.bytes 0 0), g4)
                  else (rc'', none, g4)))
        ] in
      if is_ok rc
      then (if is_ok rc' then waited else some (rc', none, context_deinit context g2))
      else some (rc, none, g1)

  unfoldable pub set_value :
      (fuel gpio value context : ℕ) → Driver os T → Option (Errno × Option ℕ × Driver os T)
  unfolding exchange
  set_value fuel gpio value =
      exchange fuel (record { type = msg_set_value; gpio = gpio; value = value })

  unfoldable pub get_value :
      (fuel gpio context : ℕ) → Driver os T → Option (Errno × Option ℕ × Driver os T)
  unfolding exchange
  get_value fuel gpio = exchange fuel (record { type = msg_get_value; gpio = gpio; value = 0 })

  unfoldable pub get_direction :
      (fuel gpio context : ℕ) → Driver os T → Option (Errno × Option ℕ × Driver os T)
  unfolding exchange
  get_direction fuel gpio =
      exchange fuel (record { type = msg_get_direction; gpio = gpio; value = 0 })

  unfoldable pub set_direction :
      (fuel gpio direction context : ℕ) → Driver os T → Option (Errno × Option ℕ × Driver os T)
  unfolding exchange
  set_direction fuel gpio direction =
      exchange fuel (record { type = msg_set_direction; gpio = gpio; value = direction })
