-- ===== src/Fifo/Tests.antt =====
-- Runs of the fifo's calls on a fifo of two elements of two bytes.
use qnx_virtio.Common.{
  ◌≡◌, refl, [], ◌∷◌, Bool, true, false, none, some, eok, enomem, enoent, arith, ok, read_at,
}
use qnx_virtio.Sim.{locks}
use qnx_virtio.Fifo.{Fifo, create, put, get}
use qnx_virtio.Fifo.Queue
use qnx_virtio.Fifo.Queue.{enqueue, dequeue}
use qnx_virtio.Fifo.Laws.{IsValid}
use qnx_virtio.Fifo.Refine.{contents, fifo_lock-released}
use qnx_virtio.Fifo.Run.{run, run_refines}

-- One element, in the last slot.
abbrev wrapped : Fifo Bool
wrapped = record {
  lock = false;
  head = 1;
  tail = 0;
  count = 1;
  capacity = 2;
  elem_size = 2;
  storage = 10 ∷ 20 ∷ 30 ∷ 40 ∷ [];
}

wrapped-IsValid : IsValid wrapped
wrapped-IsValid = record {
  room = omega arith;
  small = omega arith;
  head_in = omega arith;
  count_in = omega arith;
  tail_at = refl;
}

create_two :
    create locks 2 2 true (some (true, 0 ∷ 0 ∷ 0 ∷ 0 ∷ []))
    ≡ ok (record wrapped { head = 0; count = 0; storage = 0 ∷ 0 ∷ 0 ∷ 0 ∷ [] })
unfolding create
create_two = refl

run_refines_example :
    run locks wrapped
      (enqueue (5 ∷ 6 ∷ []) ∷ enqueue (7 ∷ 8 ∷ []) ∷ dequeue ∷ dequeue ∷ dequeue ∷ [])
    ≡ Queue.run 2
        (contents wrapped)
        (enqueue (5 ∷ 6 ∷ []) ∷ enqueue (7 ∷ 8 ∷ []) ∷ dequeue ∷ dequeue ∷ dequeue ∷ [])
run_refines_example =
    run_refines locks (λ l. refl)
      (enqueue (5 ∷ 6 ∷ []) ∷ enqueue (7 ∷ 8 ∷ []) ∷ dequeue ∷ dequeue ∷ dequeue ∷ []) wrapped
      wrapped-IsValid (refl, (refl, tt))

-- The third element does not fit; the others come back in order.
run_replies :
    Queue.run 2
      (contents wrapped)
      (enqueue (5 ∷ 6 ∷ []) ∷ enqueue (7 ∷ 8 ∷ []) ∷ dequeue ∷ dequeue ∷ dequeue ∷ [])
    ≡ (eok, none)
      ∷ (enomem, none)
      ∷ (eok, some (30 ∷ 40 ∷ []))
      ∷ (eok, some (5 ∷ 6 ∷ []))
      ∷ (enoent, none)
      ∷ []
unfolding Queue.run read_at
run_replies = refl

fifo_lock-released_example :
    ((put locks wrapped (5 ∷ 6 ∷ [])).1.lock ≡ false) × ((get locks wrapped).2.lock ≡ false)
fifo_lock-released_example = fifo_lock-released locks wrapped (5 ∷ 6 ∷ []) refl
