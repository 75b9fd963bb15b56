-- ===== src/Virtio/Service.antt =====
-- src/virtio/virtio.c: `virtio_ist`, the thread that serves the interrupt of a queue. It runs for
-- ever, so it is modelled step by step. `S` is all the state that it shares with the device and with
-- the other threads.
use qnx_virtio.Common.{ℕ, Option, none, some, Errno}

-- Where the thread is: in front of `InterruptAttachThread`, of `InterruptUnmask`, of `InterruptWait`
-- and of the callback, each with the id of the interrupt, or at its end.
pub data Phase : Type 0 where
  starting : Phase
  masked waiting serving : (id : ℕ) → Phase
  ended : Phase

-- The calls of <sys/neutrino.h>. An id is absent where the call fails with -1, and a wait has no
-- result as long as it blocks.
pub record Interrupts (S : Type 0) : Type 0 where
  pub attach_thread : (irq : ℕ) → S → Option ℕ × S
  pub unmask : (irq id : ℕ) → S → S
  pub wait : S → Option S

module _ {S : Type 0} (sys : Interrupts S) where
  -- One step of the thread. `callback` is `virtio_virtq_callback`, whose code is not looked at. `none`:
  -- the thread blocks or is over.
  unfoldable pub virtio_ist :
      (irq : ℕ) → (callback : S → Option (Errno × S)) → Phase → S → Option (Phase × S)
  virtio_ist irq callback starting s =
      let (id, s') = sys.attach_thread irq s in
      elim id as (λ _. Option (Phase × S)) [
        | none ↦ some (ended, s')
        | some i ↦ some (masked i, s')
      ]
  virtio_ist irq callback (masked i) s = some (waiting i, sys.unmask irq i s)
  virtio_ist irq callback (waiting i) s = elim (sys.wait s) as (λ _. Option (Phase × S)) [
    | none ↦ none
    | some s' ↦ some (serving i, s')
  ]
  virtio_ist irq callback (serving i) s = elim (callback s) as (λ _. Option (Phase × S)) [
    | none ↦ none
    | some (rc, s') ↦ some (masked i, s')
  ]
  virtio_ist irq callback ended s = none
