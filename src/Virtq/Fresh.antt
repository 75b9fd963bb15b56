-- ===== src/Virtq/Fresh.antt =====
-- src/virtio/virtq.c: the queue that `virtq_create` makes.
use qnx_virtio.Common.{
  ℕ, zero, suc, ◌+◌, ◌*◌, ◌^◌, ◌≤◌, ◌<◌, ◌≡◌, refl, sym, ap, subst, List, [], ◌∷◌, ◌++◌, Bool,
  Option, none, some, true, false, Errno, is_ok, Result, ok, err, arith, length, length-replicate,
  if◌then◌else◌, u16,
}
use mathlib.Core.List.{append_assoc, append-nil}
use qnx_virtio.Os.{Os, MallocFits}
use qnx_virtio.Fifo
use qnx_virtio.Fifo.{Fifo}
use qnx_virtio.Fifo.Slots.{slots}
use qnx_virtio.Spinlock.{Spinlock}
use qnx_virtio.Fifo.Laws.{create-IsValid}
use qnx_virtio.Virtq.{Virtq, Place, bytes16, zero_desc, zero_extras}
use qnx_virtio.Virtq.Create.{
  Created, entries, create, fill_free, finish, make_free, make_extras, locate_used, locate_avail,
  locate_desc, unwind_fifo, unwind_place,
}
use qnx_virtio.Virtq.FreeList.{FreeList, push-lem}
use qnx_virtio.Virtq.Layout.{desc_mem_size, avail_mem_size, used_mem_size, LegacyFits}
use qnx_virtio.Virtq.Mapping.{create_place}
use qnx_virtio.Virtq.Mapped.{Mapped, entries-Mapped, create_place-Mapped}
use qnx_virtio.Virtq.Ownership.{IsReady, Errnos}
use qnx_virtio.Virtq.Chain.{zero_elem}
use qnx_virtio.Virtq.Walk.{Below}

-- `n` numbers from `i` on.
abbrev pub upto : (i n : ℕ) → List ℕ
upto i zero = []
upto i (suc n) = i ∷ upto (i + 1) n

pub length-upto : (i n : ℕ) → length (upto i n) ≡ n
length-upto i zero = refl
length-upto i (suc n) = ap suc (length-upto (i + 1) n)

Below-upto : (i n m : ℕ) → i + n ≤ m → Below m (upto i n)
Below-upto i zero m h = tt
Below-upto i (suc n) m h = (omega arith, Below-upto (i + 1) n m (omega arith))

length-snoc : (q : List ℕ) (i : ℕ) → length (q ++ (i ∷ [])) ≡ length q + 1
length-snoc [] i = omega arith
length-snoc (x ∷ q) i = omega (arith, length-snoc q i)

-- A queue just made: empty rings, and the descriptors free in the order of their indices.
pub record IsFresh {L : Type 0} (vq : Virtq L) (size : ℕ) : Type 0 where
  pub ready : IsReady vq (upto 0 size)
  pub num : vq.place.num ≡ size
  pub avail_empty : vq.avail.idx ≡ 0
  pub avail_ring : length vq.avail.ring ≡ size
  pub used_empty : vq.used.idx ≡ vq.last_seen_used
  pub used_ring : length vq.used.ring ≡ size

unwind_fifo-none :
    (os : Os) (b e : ℕ) (p : Place) (f : Fifo os.spin.Lock) (w : os.World) (rc : Errno)
    → (unwind_fifo os rc b e p f w).1 ≡ none
unfolding unwind_fifo unwind_place
unwind_fifo-none os b e p f w rc = refl

-- A queue comes only out of the branch of a call that succeeded.
module _ (os : Os) (vq : Virtq os.spin.Lock) where
  past_option :
      (o : Option ℕ) (g : Created os) (k : ℕ → Created os)
      → g.1 ≡ none
      → (elim o as (λ _. Created os) [ none ↦ g | some e ↦ k e ]).1 ≡ some vq
      → (e : ℕ) × ((k e).1 ≡ some vq)
  past_option none g k n m = ground (arith, n, m)
  past_option (some e) g k n m = (e, m)

  past_result :
      {A : Type 0} (r : Result A) (g : Errno → Created os) (k : A → Created os)
      → ((rc : Errno) → (g rc).1 ≡ none)
      → (elim r as (λ _. Created os) [ err rc ↦ g rc | ok a ↦ k a ]).1 ≡ some vq
      → (a : A) × (r ≡ ok a) × ((k a).1 ≡ some vq)
  past_result (err rc) g k n m = ground (arith, n rc, m)
  past_result (ok a) g k n m = (a, refl, m)

  past_ok : (b : Bool) (k g : Created os) → g.1 ≡ none → (if b then k else g).1 ≡ some vq → b ≡ true
  past_ok true k g n m = refl
  past_ok false k g n m = ground (arith, n, m)

  past_test :
      (b : Bool) (k g : Created os) → g.1 ≡ none → (if b then k else g).1 ≡ some vq → k.1 ≡ some vq
  past_test true k g n m = m
  past_test false k g n m = ground (arith, n, m)

-- What `fifo_create` makes for the free list.
create-FreeList :
    (s : Spinlock) (size : ℕ) (memory : Option (s.Lock × List ℕ)) (f : Fifo s.Lock)
    → 0 < size
    → size < 2 ^ 16
    → ((l : s.Lock) (bytes : List ℕ) → memory ≡ some (l, bytes) → length bytes ≡ size * 2)
    → Fifo.create s size 2 true memory ≡ ok f
    → FreeList f [] × (f.capacity ≡ size)
unfolding Fifo.create
create-FreeList s size none f pos small fits h = cc
create-FreeList s size (some (l, bytes)) f pos small fits h =
    let made =
      create-IsValid s size 2 true l bytes pos (omega arith) (omega (arith, fits l bytes refl)) h in
    (
      record {
        valid = made.0;
        two = made.3;
        holds = ap (slots f.storage f.elem_size f.capacity f.head 0) made.1;
        small = tt;
      },
      made.2,
    )

module _ (os : Os) (fits : MallocFits os)
    (free : (l : os.spin.Lock) → is_ok (os.spin.spin_lock l).0 ≡ true) where
  open os use {spin, World, malloc_fifo}

  fill_free-upto :
      (n i : ℕ) (f : Fifo spin.Lock) (q : List ℕ)
      → FreeList f q
      → length q + n ≤ f.capacity
      → i + n < 2 ^ 16
      → let (filled, f') = fill_free os n i f in
        (filled ≡ true) × FreeList f' (q ++ upto i n) × (f'.capacity ≡ f.capacity)
  unfolding fill_free
  fill_free-upto zero i f q h room lt = (refl, subst (FreeList f) (sym (append-nil q)) h, refl)
  fill_free-upto (suc n) i f q h room lt =
      let pushed = push-lem spin free i h (omega arith) (omega arith) in
      let ih =
        fill_free-upto n (i + 1) (Fifo.put spin f (bytes16 i)).1 (q ++ (i ∷ [])) pushed.1
          (omega (arith, pushed.2, length-snoc q i)) (omega arith) in
      let wrap : u16 (i + 1) ≡ i + 1 = omega arith in
      ground (arith, pushed, wrap, ih, append_assoc q (i ∷ []) (upto (i + 1) n))

  module _ (size : ℕ) (pos : 0 < size) (small : size < 2 ^ 16) (vq : Virtq spin.Lock) where
    finish-IsFresh :
        (b e : ℕ) (p : Place) (f : Fifo spin.Lock) (w : World)
        → FreeList f (upto 0 size)
        → f.capacity ≡ size
        → Mapped size p
        → (finish os b e size p f w).1 ≡ some vq
        → IsFresh vq size
    unfolding finish
    finish-IsFresh b e p f w h c mapped m = ground (
      arith,
      unwind_fifo-none os b e p f w (spin.spin_init os.zero_lock).0,
      Below-upto 0 size size,
      entries-Mapped size p mapped,
      length-replicate (entries size 0 16 p.desc_bytes) zero_desc,
      length-replicate size zero_extras,
      length-replicate (entries size 4 8 p.used_bytes) zero_elem,
      length-replicate {A = ℕ} (entries size 4 2 p.avail_bytes) 0,
    )

    make_free-IsFresh :
        (b e : ℕ) (p : Place) (w : World)
        → Mapped size p
        → (make_free os b e size p w).1 ≡ some vq
        → IsFresh vq size
    unfolding make_free unwind_place
    make_free-IsFresh b e p w mapped m =
        let (f, h, k) =
          past_result os vq (Fifo.create spin size 2 true (malloc_fifo (size * 2) w).0) _ _
            (λ _. refl) m in
        let made =
          create-FreeList spin size (malloc_fifo (size * 2) w).0 f pos small (fits (size * 2) w)
            h in
        let filled = fill_free-upto size 0 f [] made.0 (omega (arith, made.1)) (omega arith) in
        finish-IsFresh b e p (fill_free os size 0 f).1 (malloc_fifo (size * 2) w).1 filled.1
          (omega (arith, filled.2, made.1)) mapped (rw filled.0 at k)

    make_extras-IsFresh :
        (b : ℕ) (p : Place) (w : World)
        → Mapped size p
        → (make_extras os b size p w).1 ≡ some vq
        → IsFresh vq size
    unfolding make_extras unwind_place
    make_extras-IsFresh b p w mapped m =
        let (e, k) = past_option os vq (os.calloc size 16 w).0 _ _ refl m in
        make_free-IsFresh b e p (os.calloc size 16 w).1 mapped k

    locate_used-IsFresh :
        (b : ℕ) (p : Place) (w : World)
        → Mapped size p
        → (locate_used os b size p w).1 ≡ some vq
        → IsFresh vq size
    unfolding locate_used unwind_place
    locate_used-IsFresh b p w mapped m =
        let (a, h, k) =
          past_result os vq (os.mem_offset p.used_vaddr (used_mem_size p.num) w).0 _ _ (λ _. refl)
            m in
        make_extras-IsFresh b (record p { used_paddr = a }) _
          (record { desc = mapped.desc; avail = mapped.avail; used = mapped.used }) k

    locate_avail-IsFresh :
        (b : ℕ) (p : Place) (w : World)
        → Mapped size p
        → (locate_avail os b size p w).1 ≡ some vq
        → IsFresh vq size
    unfolding locate_avail unwind_place
    locate_avail-IsFresh b p w mapped m =
        let (a, h, k) =
          past_result os vq (os.mem_offset p.avail_vaddr (avail_mem_size p.num) w).0 _ _ (λ _. refl)
            m in
        locate_used-IsFresh b (record p { avail_paddr = a }) _
          (record { desc = mapped.desc; avail = mapped.avail; used = mapped.used }) k

    locate_desc-IsFresh :
        (b : ℕ) (p : Place) (w : World)
        → Mapped size p
        → (locate_desc os b size p w).1 ≡ some vq
        → IsFresh vq size
    unfolding locate_desc unwind_place
    locate_desc-IsFresh b p w mapped m =
        let (a, h, k) =
          past_result os vq (os.mem_offset p.desc_vaddr (desc_mem_size p.num) w).0 _ _ (λ _. refl)
            m in
        locate_avail-IsFresh b (record p { desc_paddr = a }) _
          (record { desc = mapped.desc; avail = mapped.avail; used = mapped.used }) k

    -- If locks can always be taken, `malloc` grants as many bytes as it is asked for and a failed
    -- `mmap64` sets errno, a queue of 1 to 65535 descriptors that `virtq_create` returns is fresh,
    -- if it is modern or fits into the one mapping of a legacy queue: its rings are empty, what is
    -- mapped has room for an entry of the table and of both rings for each descriptor, and all
    -- descriptors are free in the order of their indices.
    pub create-IsFresh :
        (err_codes : Errnos os) (legacy : Bool) (w : World)
        → (legacy ≡ true → LegacyFits size os.pagesize)
        → (create os size legacy true w).1 ≡ some vq
        → IsFresh vq size
    unfolding create
    create-IsFresh err_codes legacy w fit m =
        let (b, k) = past_option os vq (os.calloc 1 168 w).0 _ _ refl m in
        let wrap : u16 size ≡ size = omega arith in
        let w1 = (os.calloc 1 168 w).1 in
        let mapped =
          create_place-Mapped os err_codes legacy (u16 size) w1
            (λ e. subst (λ n. LegacyFits n os.pagesize) (sym wrap) (fit e)) in
        let done : is_ok (create_place os legacy (u16 size) w1).0 ≡ true =
          past_ok os vq _ _ _ refl k in
        locate_desc-IsFresh b _ _
          (subst (λ n. Mapped n (create_place os legacy (u16 size) w1).1) wrap (mapped done))
          (past_test os vq _ _ _ refl k)
