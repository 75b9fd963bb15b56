-- ===== src/Fifo/Laws.antt =====
-- utils/fifo/fifo.c: the representation invariant of `struct fifo`.
use native.Mathlib.Nat.{mod-lt, mod-add-mod, mod-eq_of_lt}
use qnx_virtio.Common.{
  ℕ, ◌+◌, ◌*◌, ◌%◌, ◌^◌, ◌≤◌, ◌<◌, ◌≡◌, ap, ◌∙◌, ◌-◌, some, List, ok, Bool, arith, length,
  length-write_at, take,
}
use qnx_virtio.Spinlock.{Spinlock}
use qnx_virtio.Fifo.{Fifo, elem_addr, store, fetch, create, put, get}

-- The data holds `capacity` elements, the counters are in range, and the tail lies `count` slots
-- behind the head.
pub record IsValid {L : Type 0} (f : Fifo L) : Type 0 where
  pub room : f.elem_size * f.capacity ≤ length f.storage
  pub small : f.capacity < 2 ^ 64
  pub head_in : f.head < f.capacity
  pub count_in : f.count ≤ f.capacity
  pub tail_at : f.tail ≡ (f.head + f.count) % f.capacity

pub relock : {L : Type 0} {f : Fifo L} → IsValid f → (l : L) → IsValid (record f { lock = l })
relock v l = record {
  room = v.room;
  small = v.small;
  head_in = v.head_in;
  count_in = v.count_in;
  tail_at = v.tail_at;
}

pub tail-lt-capacity : {L : Type 0} {f : Fifo L} → IsValid f → f.tail < f.capacity
tail-lt-capacity {f} v = omega (arith, mod-lt (f.head + f.count) {m = f.capacity})

pub store-IsValid :
    {L : Type 0} {f : Fifo L} (elem : List ℕ)
    → IsValid f
    → f.count < f.capacity
    → IsValid (store f elem)
unfolding store
store-IsValid {f} elem v h = record {
  room = omega (arith, length-write_at f.storage (elem_addr f f.tail) (take f.elem_size elem));
  small = v.small;
  head_in = v.head_in;
  count_in = omega arith;
  tail_at = next_tail;
}
  where
    next_tail : (f.tail + 1) % 2 ^ 64 % f.capacity ≡ (f.head + (f.count + 1) % 2 ^ 64) % f.capacity
    next_tail = rw v.tail_at (
        let a : ((f.head + f.count) % f.capacity + 1) % 2 ^ 64
            ≡ (f.head + f.count) % f.capacity + 1 =
          omega (arith, mod-lt (f.head + f.count) {m = f.capacity}) in
        rw a (mod-add-mod (f.head + f.count) f.capacity 1 ∙ ap (λ x. x % f.capacity) (omega arith)))

pub fetch-IsValid : {L : Type 0} {f : Fifo L} → IsValid f → 0 < f.count → IsValid (fetch f).1
unfolding fetch
fetch-IsValid {f} v h = record {
  room = v.room;
  small = v.small;
  head_in = mod-lt _ (omega arith);
  count_in = omega arith;
  tail_at = same_tail;
}
  where
    same_tail : f.tail ≡ ((f.head + 1) % 2 ^ 64 % f.capacity + (f.count - 1)) % f.capacity
    same_tail =
        let a : (f.head + 1) % 2 ^ 64 ≡ f.head + 1 = omega arith in
        rw (a, mod-add-mod (f.head + 1) f.capacity (f.count - 1))
          (v.tail_at ∙ ap (λ x. x % f.capacity) (omega arith))

module _ (s : Spinlock) where
  open s use {Lock, spin_init, spin_lock, spin_unlock, held}

  pub create-IsValid :
      (capacity elem_size : ℕ) (out : Bool) (l : Lock) (bytes : List ℕ) {f : Fifo Lock}
      → 0 < capacity
      → capacity < 2 ^ 64
      → elem_size * capacity ≤ length bytes
      → create s capacity elem_size out (some (l, bytes)) ≡ ok f
      → IsValid f
        × (f.count ≡ 0)
        × (f.capacity ≡ capacity)
        × (f.elem_size ≡ elem_size)
        × (f.lock ≡ (spin_init l).1)
  unfolding create
  create-IsValid capacity elem_size out l bytes pos small room e =
      ground (arith, mod-eq_of_lt {n = 0} {m = capacity})

  pub put-IsValid : (f : Fifo Lock) (elem : List ℕ) → IsValid f → IsValid (put s f elem).1
  unfolding put
  put-IsValid f elem v = ground (arith, store-IsValid elem (relock v (spin_lock f.lock).1))

  pub get-IsValid : (f : Fifo Lock) → IsValid f → IsValid (get s f).2
  unfolding get
  get-IsValid f v = ground (arith, fetch-IsValid (relock v (spin_lock f.lock).1))
