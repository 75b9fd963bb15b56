-- ===== src/Gpio/Request.antt =====
-- src/gpio/gpio.c: `virtio_gpio_request`.
use qnx_virtio.Common.{
  ℕ, true, false, Option, none, some, [], ◌∷◌, Errno, eok, is_ok, ok, err, if◌then◌else◌,
}
use qnx_virtio.Os.{Os}
use qnx_virtio.Virtio.{notify_queue}
use qnx_virtio.Virtq.{get_desc_vaddr, set_desc_context}
use qnx_virtio.Virtq.Alloc.{alloc, free_desc}
use qnx_virtio.Virtq.Chain.{put_desc_chain}
use qnx_virtio.Gpio.{Gpio, GpioRequest, update, response_size}

-- What `virtq_alloc_desc` has written when it succeeded.
abbrev pub written : Option ℕ → ℕ
written none = 0
written (some i) = i

abbrev pub kept : {Q : Type 0} → Q → Option Q → Q
kept q none = q
kept q (some q') = q'

abbrev pub Driver : Os → Type 0 → Type 0
Driver os T = Gpio os.spin.Lock T os.World

module _ (os : Os) (T : Type 0) where
  open os use {spin, World}

  -- The labels `free_desc1` and `free_desc0`.
  unfoldable pub unwind0 : Errno → (idx0 : ℕ) → Driver os T → Errno × Driver os T
  unwind0 rc idx0 g =
      let (rc0, vq, w) = free_desc os g.requestq idx0 g.world in
      (rc, record g { requestq = vq; world = w })

  unfoldable pub unwind1 : Errno → (idx0 idx1 : ℕ) → Driver os T → Errno × Driver os T
  unfolding unwind0
  unwind1 rc idx0 idx1 g =
      let (rc1, vq, w) = free_desc os g.requestq idx1 g.world in
      unwind0 rc idx0 (record g { requestq = vq; world = w })

  -- The request's buffer, its context and the chain. What `virtq_set_desc_context`,
  -- `virtq_put_desc_chain` and `virtio_notify_queue` return is not looked at.
  unfoldable pub post : GpioRequest → (vaddr idx0 idx1 context : ℕ) → Driver os T → Driver os T
  post request vaddr idx0 idx1 context g =
      let vq1 = kept g.requestq (set_desc_context (some g.requestq) idx0 (some context)).1 in
      record g {
        requestq = (put_desc_chain spin vq1 idx0 (idx1 ∷ [])).1;
        dev = (notify_queue spin g.dev 0).1;
        memory = record (g.memory) { request_at = update g.memory.request_at vaddr request };
      }

  unfoldable pub submit : GpioRequest → (idx0 idx1 context : ℕ) → Driver os T → Errno × Driver os T
  unfolding unwind1 post get_desc_vaddr
  submit request idx0 idx1 context g = elim (get_desc_vaddr (some g.requestq) idx0 true) [
    | err rc ↦ unwind1 rc idx0 idx1 g
    | ok vaddr ↦ (eok, post request vaddr idx0 idx1 context g)
  ]

  -- The buffer of a request has 8 bytes.
  unfoldable pub request : GpioRequest → (context : ℕ) → Driver os T → Errno × Driver os T
  unfolding unwind0 submit response_size
  request req context g =
      let (rc0, idx0, vq0, w0) = alloc os g.requestq 8 false g.world in
      let (rc1, idx1, vq1, w1) = alloc os vq0 (response_size g req.type) true w0 in
      let g1 = record g { requestq = vq1; world = w1 } in
      if is_ok rc0
      then (if is_ok rc1
          then submit req (written idx0) (written idx1) context g1
          else unwind0 rc1 (written idx0) g1)
      else (rc0, record g { requestq = vq0; world = w0 })
