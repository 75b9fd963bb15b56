-- ===== src/Gpio.antt =====
-- src/gpio/gpio.c: the GPIO driver's data, its completion callback and the calls that read the
-- device's configuration. The buffers that the driver and the device share, and the contexts on the
-- stacks of the waiting callers, lie in a `Memory`.
pub mod Request
pub mod Callback
pub mod Calls
pub mod Start
pub mod Handshake
pub mod OnMmio
pub mod Posted
pub mod Exchange
pub mod RoundTrip
pub mod Refused
pub mod Waiting
pub mod Flights
mod Tests
pub mod Board
pub mod Panel
mod StartTests
mod FlightTests
mod MmioTests
use qnx_virtio.Common.{
  ℕ, ◌+◌, Bool, Option, none, some, List, [], ◌∷◌, einval, Result, ok, err, if◌then◌else◌, ◌==◌,
  get_or, take, u32,
}
use qnx_virtio.Virtq.{Virtq}
use qnx_virtio.Virtio.{Device}

-- `VIRTIO_GPIO_MSG_…`
abbrev pub msg_get_line_names : ℕ
msg_get_line_names = 1

abbrev pub msg_get_direction : ℕ
msg_get_direction = 2

abbrev pub msg_set_direction : ℕ
msg_set_direction = 3

abbrev pub msg_get_value : ℕ
msg_get_value = 4

abbrev pub msg_set_value : ℕ
msg_set_value = 5

-- `VIRTIO_GPIO_STATUS_OK`
abbrev pub gpio_status_ok : ℕ
gpio_status_ok = 0

-- `struct virtio_gpio_request`
pub record GpioRequest : Type 0 where
  pub type : ℕ
  pub gpio : ℕ
  pub value : ℕ

-- `struct virtio_gpio_response` and `struct virtio_gpio_response_n`: the status, and the bytes behind
-- it.
pub record GpioResponse : Type 0 where
  pub status : ℕ
  pub bytes : List ℕ

-- `struct virtio_gpio_context` and `struct virtio_gpio_context_n`, with the count of the semaphore.
-- The callback is always `virtio_gpio_callback`.
pub record GpioContext : Type 0 where
  pub sem : ℕ
  pub status : ℕ
  pub size : ℕ
  pub bytes : List ℕ

-- The structures by their addresses.
pub record Memory : Type 0 where
  pub request_at : ℕ → GpioRequest
  pub response_at : ℕ → GpioResponse
  pub context_at : ℕ → GpioContext

-- `struct virtio_gpio_device` with what its pointers lead to, and the world of the system.
pub record Gpio (L T W : Type 0) : Type 0 where
  pub idx : ℕ
  pub ngpio : ℕ
  pub gpio_names_size : ℕ
  pub dev : Option (Device L T)
  pub requestq : Virtq L
  pub memory : Memory
  pub world : W

abbrev pub update : {A : Type 0} → (ℕ → A) → ℕ → A → ℕ → A
update f a v = λ b. if b == a then v else f b

-- The context that `virtio_gpio_callback` leaves behind, which it posts.
unfoldable pub completed : GpioRequest → GpioResponse → GpioContext → GpioContext
completed request response context = record context {
  sem = context.sem + 1;
  status = response.status;
  bytes =
      if request.type == msg_get_line_names
      then take context.size response.bytes
      else get_or response.bytes 0 0 ∷ [];
}

-- `virtio_gpio_callback` with the addresses of its arguments.
unfoldable pub gpio_callback : (request response context : ℕ) → Memory → Memory
unfolding completed
gpio_callback request response context m = record m {
  context_at =
      update m.context_at context
        (completed (m.request_at request) (m.response_at response) (m.context_at context));
}

module _ {L T W : Type 0} where
  -- The result is passed as a `uint32_t`.
  unfoldable pub response_size : Gpio L T W → (type : ℕ) → ℕ
  response_size dev type = u32 (if type == msg_get_line_names then 1 + dev.gpio_names_size else 2)

  -- The calls that return a field of the device.
  abbrev get_info : Option (Gpio L T W) → (out : Bool) → (Gpio L T W → ℕ) → Result ℕ
  get_info none out field = err einval
  get_info (some dev) out field = if out then ok (field dev) else err einval

  unfoldable pub get_chip_index : Option (Gpio L T W) → (out : Bool) → Result ℕ
  get_chip_index dev out = get_info dev out λ d. d.idx

  unfoldable pub num_gpios : Option (Gpio L T W) → (out : Bool) → Result ℕ
  num_gpios dev out = get_info dev out λ d. d.ngpio

  unfoldable pub names_size : Option (Gpio L T W) → (out : Bool) → Result ℕ
  names_size dev out = get_info dev out λ d. d.gpio_names_size
