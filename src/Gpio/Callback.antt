-- ===== src/Gpio/Callback.antt =====
-- src/gpio/gpio.c: `virtq_callback`, the work on the chains that the device has returned. It runs on
-- fuel. `none` means that the fuel ran out, or that a pointer was used that no call had set.
use qnx_virtio.Common.{
  ℕ, zero, suc, true, Option, none, some, List, [], ◌∷◌, Errno, is_ok, ok, err, if◌then◌else◌,
}
use qnx_virtio.Os.{Os}
use qnx_virtio.Virtq.{get_desc_vaddr, get_desc_context}
use qnx_virtio.Virtq.Alloc.{free_desc}
use qnx_virtio.Virtq.Chain.{get_chain}
use qnx_virtio.Gpio.{gpio_callback}
use qnx_virtio.Gpio.Request.{Driver}

-- The array `idxs` after a call has written the front of it.
abbrev pub overwrite : ℕ × ℕ → List ℕ → ℕ × ℕ
overwrite (a, b) [] = (a, b)
overwrite (a, b) (i ∷ []) = (i, b)
overwrite (a, b) (i ∷ j ∷ js) = (i, j)

module _ (os : Os) (T : Type 0) where
  open os use {spin, World}

  unfoldable pub free_both : (idxs : ℕ × ℕ) → Driver os T → Driver os T
  free_both (idx0, idx1) g =
      let (rc0, vq0, w0) = free_desc os g.requestq idx0 g.world in
      let (rc1, vq1, w1) = free_desc os vq0 idx1 w0 in record g { requestq = vq1; world = w1 }

  -- The body of the loop.
  unfoldable pub complete : (idxs : ℕ × ℕ) → Driver os T → Option (Driver os T)
  complete (idx0, idx1) g =
      let found = get_desc_context (some g.requestq) idx0 true in
      let response = get_desc_vaddr (some g.requestq) idx1 true in
      let finish = λ (request response' context : ℕ).
        (free_both (idx0, idx1)
          (record g { memory = gpio_callback request response' context g.memory })) in
      elim (get_desc_vaddr (some g.requestq) idx0 true) as (λ _. Option (Driver os T)) [
        | err _ ↦ none
        | ok request ↦ elim response as (λ _. Option (Driver os T)) [
          | err _ ↦ none
          | ok response' ↦ elim found as (λ _. Option (Driver os T)) [
            | err _ ↦ none
            | ok none ↦ none
            | ok (some context) ↦ some (finish request response' context)
          ]
        ]
      ]

  -- `idxs` is what the array holds before the call.
  unfoldable pub virtq_callback :
      (fuel : ℕ) → (idxs : ℕ × ℕ) → Driver os T → Option (Errno × Driver os T)
  unfolding complete
  virtq_callback zero idxs g = none
  virtq_callback (suc fuel) idxs g =
      let ((rc, count, indices), vq) = get_chain spin g.requestq 2 in
      let idxs' = overwrite idxs indices in
      let g' = record g { requestq = vq } in
      let next = elim (complete idxs' g') as (λ _. Option (Errno × Driver os T)) [
        | none ↦ none
        | some g'' ↦ virtq_callback fuel idxs' g''
      ] in
      if is_ok rc then next else some (rc, g')
