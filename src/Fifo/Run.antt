-- ===== src/Fifo/Run.antt =====
-- A client's sequence of calls on a fifo whose lock can always be taken.
use qnx_virtio.Common.{ℕ, ◌≡◌, refl, List, [], ◌∷◌, none, eok, arith, length}
use qnx_virtio.Spinlock.{Spinlock}
use qnx_virtio.Fifo.{Fifo, put, get}
use qnx_virtio.Fifo.Queue
use qnx_virtio.Fifo.Queue.{Op, enqueue, dequeue, Reply}
use qnx_virtio.Fifo.Laws.{IsValid}
use qnx_virtio.Fifo.Refine.{contents, put_refines, get_refines, put-shape, get-shape}

-- Every element that is put has `size` bytes.
abbrev pub AllFit : ℕ → List Op → Type 0
AllFit size [] = Unit {0}
AllFit size (enqueue x ∷ ops) = (length x ≡ size) × AllFit size ops
AllFit size (dequeue ∷ ops) = AllFit size ops

module _ (s : Spinlock) where
  open s use {Lock, spin_lock}

  unfoldable pub run : Fifo Lock → List Op → List Reply
  run f [] = []
  run f (enqueue x ∷ ops) = let (rc, f') = put s f x in (rc, none) ∷ run f' ops
  run f (dequeue ∷ ops) = let (rc, out, f') = get s f in (rc, out) ∷ run f' ops

  -- If the lock can always be taken, no sequence of `fifo_put` and `fifo_get` calls with elements of
  -- the fifo's size tells a valid fifo from the bounded queue of its contents.
  pub run_refines :
      (free : (l : Lock) → (spin_lock l).0 ≡ eok) (ops : List Op) (f : Fifo Lock)
      → IsValid f
      → AllFit f.elem_size ops
      → run f ops ≡ Queue.run f.capacity (contents f) ops
  unfolding run Queue.run
  run_refines free [] f v fit = refl
  run_refines free (enqueue x ∷ ops) f v fit = ground (
    arith,
    free f.lock,
    put_refines s f x v fit.0,
    put-shape s f x,
    run_refines free ops (put s f x).1,
  )
  run_refines free (dequeue ∷ ops) f v fit =
      ground
        (arith, free f.lock, get_refines s f v, get-shape s f, run_refines free ops (get s f).2)
