-- ===== src/Virtq/Create.antt =====
-- src/virtio/virtq.c: `virtq_create` and `virtq_destroy`. A failed step unwinds through the labels of the source.
use qnx_virtio.Common.{
  ℕ, zero, suc, ◌+◌, ◌-◌, ◌*◌, ◌/◌, leb, Bool, true, false, Option, none, some, List, Errno, eok,
  einval, is_ok, ok, err, if◌then◌else◌, u16, replicate,
}
use qnx_virtio.Os.{Os}
use qnx_virtio.Fifo
use qnx_virtio.Fifo.{Fifo}
use qnx_virtio.Virtq.{Virtq, Place, zero_desc, zero_extras, bytes16}
use qnx_virtio.Virtq.Layout.{desc_mem_size, avail_mem_size, used_mem_size}
use qnx_virtio.Virtq.Mapping.{create_place, destroy_place}

-- How many of `size` entries of `each` bytes behind `head` bytes are mapped.
abbrev pub entries : (size head each bytes : ℕ) → ℕ
entries size head each bytes = let n = (bytes - head) / each in if leb size n then size else n

module _ (os : Os) where
  open os use {spin, World, mem_offset, errno, calloc, free, malloc_fifo, free_fifo, zero_lock}

  -- `for (i = 0; i < size; i++) fifo_put(free_descs, &i)`, from `i` with `n` rounds left: whether no
  -- call failed, and the fifo. `size` comes from a `uint16_t`, so `i` does not wrap.
  unfoldable pub fill_free : (n i : ℕ) → Fifo spin.Lock → Bool × Fifo spin.Lock
  fill_free zero i f = (true, f)
  fill_free (suc n) i f =
      let (rc, f') = Fifo.put spin f (bytes16 i) in
      let rest = fill_free n (u16 (i + 1)) f' in if is_ok rc then rest else (false, f')

  -- What `virtq_create` returns: its code and what it writes to `*vq`.
  abbrev pub Created : Type 0
  Created = Errno × Option (Virtq spin.Lock) × World

  -- The labels `destroy` and `free_vq`.
  unfoldable pub unwind_place : Errno → (block : ℕ) → Place → World → Created
  unwind_place rc block p w = (rc, none, free block (destroy_place os p w).1)

  -- The labels `fifo` and `extras` in front of them.
  unfoldable pub unwind_fifo : Errno → (block extras : ℕ) → Place → Fifo spin.Lock → World → Created
  unwind_fifo rc block extras p f w =
      let w' = if is_ok (Fifo.destroy spin (some f)).0 then free_fifo w else w in
      unwind_place rc block p (free extras w')

  -- From the queue's lock to the end. The table and the rings are fresh anonymous memory, which holds
  -- zeros, as far as it is mapped; the headers of both rings are 4 bytes.
  unfoldable pub finish : (block extras size : ℕ) → Place → Fifo spin.Lock → World → Created
  finish block extras size p f w =
      let (rc, l) = spin.spin_init zero_lock in
      if is_ok rc
      then (
        eok,
        some (record {
          place = record p { num = u16 size };
          lock = l;
          desc = replicate (entries size 0 16 p.desc_bytes) zero_desc;
          avail = record {
            flags = 0;
            idx = 0;
            ring = replicate (entries size 4 2 p.avail_bytes) 0;
          };
          used = record {
            flags = 0;
            idx = 0;
            ring = replicate (entries size 4 8 p.used_bytes) (record { id = 0; len = 0 });
          };
          last_seen_used = 0;
          free_descs = f;
          desc_extras = replicate size zero_extras;
        }),
        w,
      )
      else unwind_fifo rc block extras p f w

  -- `fifo_create` frees its block when the lock cannot be initialised.
  unfoldable pub drop_fifo : Option (spin.Lock × List ℕ) → World → World
  drop_fifo none w = w
  drop_fifo (some _) w = free_fifo w

  -- The free list. A failed `fifo_put` leaves `rc` as `fifo_create` set it, which is `EOK`.
  unfoldable pub make_free : (block extras size : ℕ) → Place → World → Created
  make_free block extras size p w =
      let (memory, w1) = malloc_fifo (size * 2) w in
      elim (Fifo.create spin size 2 true memory) [
        | err rc ↦ unwind_place rc block p (free extras (drop_fifo memory w1))
        | ok f ↦
            let (filled, f') = fill_free size 0 f in
            if filled
            then finish block extras size p f' w1
            else unwind_fifo eok block extras p f' w1
      ]

  unfoldable pub make_extras : (block size : ℕ) → Place → World → Created
  make_extras block size p w =
      let (extras, w1) = calloc size 16 w in
      elim extras [
        | none ↦ unwind_place (errno w1) block p w1
        | some e ↦ make_free block e size p w1
      ]

  -- The three physical addresses. `num` is still 0 here, so are the lengths from it.
  unfoldable pub locate_used : (block size : ℕ) → Place → World → Created
  locate_used block size p w =
      let (offset, w1) = mem_offset p.used_vaddr (used_mem_size p.num) w in
      elim offset [
        | err rc ↦ unwind_place rc block p w1
        | ok a ↦ make_extras block size (record p { used_paddr = a }) w1
      ]

  unfoldable pub locate_avail : (block size : ℕ) → Place → World → Created
  locate_avail block size p w =
      let (offset, w1) = mem_offset p.avail_vaddr (avail_mem_size p.num) w in
      elim offset [
        | err rc ↦ unwind_place rc block p w1
        | ok a ↦ locate_used block size (record p { avail_paddr = a }) w1
      ]

  unfoldable pub locate_desc : (block size : ℕ) → Place → World → Created
  locate_desc block size p w =
      let (offset, w1) = mem_offset p.desc_vaddr (desc_mem_size p.num) w in
      elim offset [
        | err rc ↦ unwind_place rc block p w1
        | ok a ↦ locate_avail block size (record p { desc_paddr = a }) w1
      ]

  -- 168 stands for `sizeof(struct virtq)`, which no step depends on.
  unfoldable pub create : (size : ℕ) → (legacy out : Bool) → World → Created
  create size legacy out w =
      if out
      then (let (block, w1) = calloc 1 168 w in
          elim block [
            | none ↦ (errno w1, none, w1)
            | some b ↦
                let (rc, p, w2) = create_place os legacy (u16 size) w1 in
                if is_ok rc then locate_desc b size p w2 else (rc, none, free b w2)
          ])
      else (einval, none, w)

  -- `block` and `extras` are the heap blocks of the queue. What is left of the queue on an error is
  -- not used again.
  unfoldable pub destroy : Option (Virtq spin.Lock) → (block extras : ℕ) → World → Errno × World
  unfolding destroy_place
  destroy none block extras w = (einval, w)
  destroy (some vq) block extras w =
      let (rc, w1) = destroy_place os vq.place w in
      if is_ok rc
      then (let w2 = free extras w1 in
          let (rc', f) = Fifo.destroy spin (some vq.free_descs) in
          if is_ok rc'
          then (let (rc'', l) = spin.spin_destroy vq.lock in
              if is_ok rc'' then (eok, free block (free_fifo w2)) else (rc'', free_fifo w2))
          else (rc', w2))
      else (rc, w1)
