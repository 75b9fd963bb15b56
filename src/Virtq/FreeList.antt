-- ===== src/Virtq/FreeList.antt =====
-- The free list of a virtqueue: the fifo of `uint16_t` indices as a list of numbers.
use qnx_virtio.Common.{
  ℕ, suc, ◌^◌, ◌<◌, ◌≡◌, refl, sym, ap, ◌∙◌, List, [], ◌∷◌, ◌++◌, map, none, eok, enoent, is_ok,
  is_ok→eq, true, arith, length,
}
use qnx_virtio.Spinlock.{Spinlock}
use qnx_virtio.Fifo
use qnx_virtio.Fifo.{Fifo}
use qnx_virtio.Fifo.Queue
use qnx_virtio.Fifo.Laws.{IsValid}
use qnx_virtio.Fifo.Refine.{
  contents, length-contents, get_refines, put_refines, get-shape, put-shape,
}
use qnx_virtio.Virtq.{bytes16, of_bytes16}
use qnx_virtio.Virtq.Alloc.{fetched}
use qnx_virtio.Virtq.Walk.{Below}

-- The fifo holds the indices `q`, the next one to be handed out first.
pub record FreeList {L : Type 0} (f : Fifo L) (q : List ℕ) : Type 0 where
  pub valid : IsValid f
  pub two : f.elem_size ≡ 2
  pub holds : contents f ≡ map bytes16 q
  pub small : Below (2 ^ 16) q

of_bytes16-bytes16 : (i : ℕ) → i < 2 ^ 16 → of_bytes16 (bytes16 i) ≡ i
of_bytes16-bytes16 i h = omega arith

length-map_bytes : (q : List ℕ) → length (map bytes16 q) ≡ length q
length-map_bytes [] = refl
length-map_bytes (i ∷ q) = ap suc (length-map_bytes q)

map_bytes-append :
    (q : List ℕ) (i : ℕ) → map bytes16 (q ++ (i ∷ [])) ≡ map bytes16 q ++ (bytes16 i ∷ [])
map_bytes-append [] i = refl
map_bytes-append (x ∷ q) i = ap (λ l. bytes16 x ∷ l) (map_bytes-append q i)

pub Below-append : (n : ℕ) (xs : List ℕ) (x : ℕ) → Below n xs → x < n → Below n (xs ++ (x ∷ []))
Below-append n [] x h k = (k, tt)
Below-append n (y ∷ ys) x h k = (h.0, Below-append n ys x h.1 k)

pub length-FreeList : {L : Type 0} {f : Fifo L} {q : List ℕ} → FreeList f q → length q ≡ f.count
length-FreeList {f} {q} h = sym (length-map_bytes q) ∙ ap length (sym h.holds) ∙ length-contents f

module _ (s : Spinlock) (free : (l : s.Lock) → is_ok (s.spin_lock l).0 ≡ true) where
  open s use {Lock, spin_lock}

  pub pop-nil :
      {f : Fifo Lock}
      → FreeList f []
      → let (rc, out, f') = Fifo.get s f in
        (rc ≡ enoent) × (out ≡ none) × FreeList f' [] × (f'.capacity ≡ f.capacity)
  unfolding Queue.get
  pop-nil {f} h =
      let locked = is_ok→eq (spin_lock f.lock).0 (free f.lock) in
      ground (arith, locked, h.holds, get_refines s f h.valid, get-shape s f, h.two)

  pub pop-cons :
      {f : Fifo Lock} {i : ℕ} {q : List ℕ}
      → FreeList f (i ∷ q)
      → let (rc, out, f') = Fifo.get s f in
        (rc ≡ eok) × (of_bytes16 (fetched out) ≡ i) × FreeList f' q × (f'.capacity ≡ f.capacity)
  unfolding Queue.get
  pop-cons {f} {i} {q} h =
      let locked = is_ok→eq (spin_lock f.lock).0 (free f.lock) in
      ground (
        arith,
        locked,
        h.holds,
        h.two,
        h.small,
        get_refines s f h.valid,
        get-shape s f,
        of_bytes16-bytes16 i h.small.0,
      )

  pub push-lem :
      {f : Fifo Lock} {q : List ℕ} (i : ℕ)
      → FreeList f q
      → length q < f.capacity
      → i < 2 ^ 16
      → let (rc, f') = Fifo.put s f (bytes16 i) in
        (rc ≡ eok) × FreeList f' (q ++ (i ∷ [])) × (f'.capacity ≡ f.capacity)
  unfolding Queue.put
  push-lem {f} {q} i h room lt =
      let locked = is_ok→eq (spin_lock f.lock).0 (free f.lock) in
      ground (
        arith,
        locked,
        h.holds,
        h.two,
        length-map_bytes q,
        put_refines s f (bytes16 i) h.valid,
        put-shape s f (bytes16 i),
        map_bytes-append q i,
        Below-append (2 ^ 16) q i h.small,
      )
