-- ===== src/Fifo/Refine.antt =====
-- utils/fifo/fifo.c: a fifo and the bounded queue of the elements in its slots.
use qnx_virtio.Common.{
  ℕ, suc, ◌+◌, ◌%◌, ◌^◌, ◌<◌, ◌≡◌, ap, ◌∙◌, refl, sym, ◌≢◌, List, [], ◌∷◌, ◌++◌, false, arith,
  length, take,
}
use qnx_virtio.Spinlock.{Spinlock}
use qnx_virtio.Fifo.{Fifo, store, fetch, put, get}
use qnx_virtio.Fifo.Queue
use qnx_virtio.Fifo.Queue.{Queue}
use qnx_virtio.Fifo.Slots.{slots, length-slots, slots_uncons, slots-write}
use qnx_virtio.Fifo.Laws.{IsValid, relock, put-IsValid, get-IsValid}

abbrev pub contents : {L : Type 0} → Fifo L → Queue
contents f = slots f.storage f.elem_size f.capacity f.head 0 f.count

pub length-contents : {L : Type 0} (f : Fifo L) → length (contents f) ≡ f.count
length-contents f = length-slots f.storage f.elem_size f.capacity f.head 0 f.count

take_all : (xs : List ℕ) → take (length xs) xs ≡ xs
take_all [] = refl
take_all (x ∷ xs) = ap (λ l. x ∷ l) (take_all xs)

module _ {L : Type 0} {f : Fifo L} (v : IsValid f) where
  pub contents-store :
      (elem : List ℕ)
      → length elem ≡ f.elem_size
      → f.count < f.capacity
      → contents (store f elem) ≡ contents f ++ (elem ∷ [])
  unfolding store
  contents-store elem fits h =
      let whole : take f.elem_size elem ≡ elem = rw (sym fits) (take_all elem) in
      let counted : (f.count + 1) % 2 ^ 64 ≡ suc f.count = omega arith in
      rw (whole, counted)
        (slots-write f.storage f.elem_size f.capacity f.head 0 f.count f.tail elem fits v.room
          v.head_in (omega arith) (v.tail_at ∙ ap (λ x. (f.head + x) % f.capacity) (omega arith)))

  pub contents-fetch : f.count ≢ 0 → (fetch f).0 ∷ contents (fetch f).1 ≡ contents f
  unfolding fetch
  contents-fetch h =
      let a : (f.head + 1) % 2 ^ 64 ≡ f.head + 1 = omega arith in
      rw a (sym (slots_uncons f.storage f.elem_size f.capacity f.head f.count v.head_in h))

contents_empty : {L : Type 0} (f : Fifo L) → f.count ≡ 0 → contents f ≡ []
contents_empty f h = rw h refl

module _ (s : Spinlock) where
  open s use {Lock, spin_lock, spin_unlock, held, held-lock, held-unlock}

  -- `fifo_put` of an element of the fifo's size on a valid fifo returns the code of the bounded
  -- queue's `put`, leaves the fifo holding its queue and keeps the invariant, whether or not the
  -- lock could be taken.
  pub put_refines :
      (f : Fifo Lock) (elem : List ℕ)
      → IsValid f
      → length elem ≡ f.elem_size
      → let (rc, f') = put s f elem in
        ((rc, contents f') ≡ Queue.put f.capacity (spin_lock f.lock).0 (contents f) elem)
        × IsValid f'
  unfolding put Queue.put
  put_refines f elem v fits =
      let w = relock v (spin_lock f.lock).1 in
      (ground (arith, length-contents f, contents-store w elem), put-IsValid s f elem v)

  -- `fifo_get` on a valid fifo returns the code and the element of the queue's `get`, leaves the
  -- fifo holding the other elements and keeps the invariant, whether or not the lock could be
  -- taken.
  pub get_refines :
      (f : Fifo Lock)
      → IsValid f
      → let (rc, out, f') = get s f in
        ((rc, out, contents f') ≡ Queue.get (spin_lock f.lock).0 (contents f)) × IsValid f'
  unfolding get Queue.get
  get_refines f v =
      let w = relock v (spin_lock f.lock).1 in
      (ground (arith, contents_empty f, contents-fetch w), get-IsValid s f v)

  pub put-shape :
      (f : Fifo Lock) (elem : List ℕ)
      → ((put s f elem).1.capacity ≡ f.capacity) × ((put s f elem).1.elem_size ≡ f.elem_size)
  unfolding put store
  put-shape f elem = ground arith

  pub get-shape :
      (f : Fifo Lock) → ((get s f).2.capacity ≡ f.capacity) × ((get s f).2.elem_size ≡ f.elem_size)
  unfolding get fetch
  get-shape f = ground arith

  -- A call of `fifo_put` or `fifo_get` on a fifo whose lock is free leaves the lock free, on every
  -- path.
  pub fifo_lock-released :
      (f : Fifo Lock) (elem : List ℕ)
      → held f.lock ≡ false
      → (held (put s f elem).1.lock ≡ false) × (held (get s f).2.lock ≡ false)
  unfolding put get store fetch
  fifo_lock-released f elem h = ground (arith, held-lock f.lock, held-unlock f.lock)
