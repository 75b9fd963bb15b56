-- ===== src/Resmgr.antt =====
-- src/gpio/resmgr.c: the handlers of the GPIO resource manager for reads, writes and control messages.
-- What the calls of <sys/iofunc.h> and <sys/resmgr.h> return is an argument. The handlers work on the
-- calls of src/gpio/gpio.h over a state `D`, which `gpio_calls` fills with those of the driver. These
-- run on fuel, so do the handlers: `none` means that it ran out.
pub mod Files
pub mod Run
pub mod Names
pub mod Device
mod Tests
mod DeviceTests
use qnx_virtio.Common.{
  ℕ, ◌+◌, ◌-◌, ◌^◌, Bool, true, Option, none, some, Errno, eok, einval, enoent, enotsup, enosys,
  is_ok, Result, ok, err, if◌then◌else◌, ◌==◌, leb, min, u8, u16, u32, u64,
}
use qnx_virtio.Os.{Os}
use qnx_virtio.Gpio.{num_gpios, get_chip_index}
use qnx_virtio.Gpio.Request.{Driver}
use qnx_virtio.Gpio.Calls.{Semaphores, set_value, get_value, get_direction}

-- `struct gpio_iofunc_attr`, and the offset of the open file. `nbytes` is that of the `iofunc_attr_t`.
pub record File : Type 0 where
  pub index : ℕ
  pub value : ℕ
  pub nbytes : ℕ
  pub offset : ℕ

-- The control messages: with the line's offset, those that the header names but the handler refuses,
-- and any other.
pub data Control : Type 0 where
  get_chipinfo : Control
  get_lineinfo : ℕ → Control
  refused : Control
  unknown : Control

-- `struct gpiochip_info` and `struct gpio_v2_line_info`, with the numbers that their names are made
-- of.
pub data Info : Type 0 where
  chip : (index lines : ℕ) → Info
  line : (offset index flags : ℕ) → Info

-- `GPIO_V2_LINE_FLAG_INPUT` and `GPIO_V2_LINE_FLAG_OUTPUT`
abbrev pub flag_input : ℕ
flag_input = 4

abbrev pub flag_output : ℕ
flag_output = 8

-- `ocb->attr->attr.nbytes - ocb->offset` as a `size_t`, and the smaller of it and what is asked for.
unfoldable pub read_size : (requested : ℕ) → File → ℕ
read_size requested file = min requested (u64 (file.nbytes + 2 ^ 64 - file.offset))

-- The calls of the driver: a code, and the byte that is written to the output, if one is.
pub record GpioCalls (D : Type 0) : Type 0 where
  pub set_value : (gpio value : ℕ) → D → Option (Errno × Option ℕ × D)
  pub get_value : (gpio : ℕ) → D → Option (Errno × Option ℕ × D)
  pub get_direction : (gpio : ℕ) → D → Option (Errno × Option ℕ × D)
  pub num_gpios : D → Result ℕ
  pub get_chip_index : D → Result ℕ

unfoldable pub gpio_calls :
    (os : Os) (T : Type 0) → Semaphores (Driver os T) → (fuel context : ℕ) → GpioCalls (Driver os T)
gpio_calls os T sems fuel context = record {
  set_value = λ gpio value. set_value os T sems fuel gpio value context;
  get_value = λ gpio. get_value os T sems fuel gpio context;
  get_direction = λ gpio. get_direction os T sems fuel gpio context;
  num_gpios = λ g. num_gpios (some g) true;
  get_chip_index = λ g. get_chip_index (some g) true;
}

module _ {D : Type 0} (calls : GpioCalls D) where
  -- `verified` is what `iofunc_write_verify` returns, `nbytes` the size of the message, and `got` the
  -- byte that `resmgr_msgget` reads, or `errno`. Beside the code: the bytes that the reply counts.
  unfoldable pub resmgr_write :
      (verified : Errno)
      → (nbytes : ℕ) → (got : Result ℕ) → File
      → D
      → Option (Errno × Option ℕ × D)
  resmgr_write verified nbytes got file g =
      let written = λ (byte : ℕ).
        elim (calls.set_value (u16 file.index) (if byte == 48 then 0 else 1) g)
          as (λ _. Option (Errno × Option ℕ × D)) [
            | none ↦ none
            | some (rc, v, g') ↦ some (rc, (if is_ok rc then some 1 else none), g')
          ] in
      if is_ok verified
      then (if nbytes == 1
          then (elim got as (λ _. Option (Errno × Option ℕ × D)) [
            | err rc ↦ some (rc, none, g)
            | ok byte ↦ written byte
          ])
          else some (einval, none, g))
      else some (verified, none, g)

  -- Beside the code: the bytes that the reply counts, from `value` on.
  unfoldable pub resmgr_read :
      (verified : Errno) → (requested : ℕ) → File → D → Option (Errno × Option ℕ × File × D)
  resmgr_read verified requested file g =
      let nbytes = read_size requested file in
      let kept = λ (v : Option ℕ). elim v as (λ _. ℕ) [ none ↦ file.value | some b ↦ b ] in
      let asked =
        elim (calls.get_value (u16 file.index) g) as (λ _. Option (Errno × Option ℕ × File × D)) [
          | none ↦ none
          | some (rc, v, g') ↦ some (
              if is_ok rc
              then (
                eok,
                some nbytes,
                record file { value = u8 (kept v + 48); offset = file.offset + nbytes },
                g',
              )
              else (rc, none, record file { value = kept v }, g'))
        ] in
      if is_ok verified
      then (if nbytes == 0 then some (eok, some 0, file, g) else asked)
      else some (verified, none, file, g)

  -- The line's name and its direction, once the number of lines and the chip's index are known.
  unfoldable pub line_info : (offset lines index : ℕ) → D → Option (Result Info × D)
  line_info offset lines index g =
      let asked = elim (calls.get_direction (u16 offset) g) as (λ _. Option (Result Info × D)) [
        | none ↦ none
        | some (rc, v, g') ↦
            (let direction = elim v as (λ _. ℕ) [ none ↦ 0 | some d ↦ d ] in
              some (
                if is_ok rc
                then (
                  ok (line offset index (if direction == 0 then flag_input else flag_output)),
                  g',
                )
                else (err rc, g')))
      ] in
      if leb lines offset then some (err enoent, g) else asked

  -- `handled` is what `iofunc_devctl_default` returns, if it is not `_RESMGR_DEFAULT`. A code with no
  -- payload is an `err`.
  unfoldable pub resmgr_devctl : (handled : Option Errno) → Control → D → Option (Result Info × D)
  resmgr_devctl (some rc) dcmd g = some (err rc, g)
  resmgr_devctl none refused g = some (err enotsup, g)
  resmgr_devctl none unknown g = some (err enosys, g)
  resmgr_devctl none get_chipinfo g = elim (calls.num_gpios g) as (λ _. Option (Result Info × D)) [
    | err rc ↦ some (err rc, g)
    | ok lines ↦ elim (calls.get_chip_index g) as (λ _. Option (Result Info × D)) [
      | err rc ↦ some (err rc, g)
      | ok index ↦ some (ok (chip index lines), g)
    ]
  ]
  resmgr_devctl none (get_lineinfo offset) g =
      elim (calls.num_gpios g) as (λ _. Option (Result Info × D)) [
        | err rc ↦ some (err rc, g)
        | ok lines ↦ elim (calls.get_chip_index g) as (λ _. Option (Result Info × D)) [
          | err rc ↦ some (err rc, g)
          | ok index ↦ line_info offset lines index g
        ]
      ]
