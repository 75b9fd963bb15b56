-- ===== src/Virtq/Chain.antt =====
-- src/virtio/virtq.c: `virtq_put_desc_chain` and `virtq_get_desc_chain`.
use qnx_virtio.Common.{
  ℕ, zero, suc, ◌+◌, ◌%◌, Bool, true, false, Option, none, some, List, [], ◌∷◌, Errno, eok, einval,
  enoent, enomem, is_ok, if◌then◌else◌, ◌==◌, u16, set, get_or, length, bit_and, bit_or,
}
use qnx_virtio.Spinlock.{Spinlock}
use qnx_virtio.Virtq.{Virtq, Desc, UsedElem, f_next, zero_desc}

abbrev pub entry : List Desc → ℕ → Desc
entry table i = get_or table i zero_desc

-- `desc[i].next = j; desc[i].flags |= VIRTQ_DESC_F_NEXT`
unfoldable pub link : List Desc → (i j : ℕ) → List Desc
link table i j =
    set table i (record (entry table i) { next = j; flags = bit_or (entry table i).flags f_next })

-- The loop over `idx[0 .. count)`, and the write behind it that ends the chain.
unfoldable pub link_chain : List Desc → ℕ → List ℕ → List Desc
unfolding link
link_chain table i [] = set table i (record (entry table i) { next = 0 })
link_chain table i (j ∷ js) = link_chain (link table i j) j js

-- The loop of `virtq_get_desc_chain` from descriptor `i` on, with `room` entries of `idx` left: what
-- it writes to `idx`, and whether it stopped at the end of the chain. The counter is a `uint16_t`,
-- so this is the loop for a `*count` of at most 65535.
unfoldable pub walk : List Desc → (room i : ℕ) → List ℕ × Bool
walk table zero i = ([], false)
walk table (suc room) i =
    let rest = walk table room (entry table i).next in
    if bit_and (entry table i).flags f_next == 0 then (i ∷ [], true) else (i ∷ rest.0, rest.1)

-- What `virtq_get_desc_chain` returns: its code, what it writes to `*count` and to `idx`.
abbrev pub Chain : Type 0
Chain = Errno × Option ℕ × List ℕ

abbrev pub zero_elem : UsedElem
zero_elem = record { id = 0; len = 0 }

module _ (s : Spinlock) where
  open s use {Lock, spin_lock, spin_unlock}

  abbrev unlock : Virtq Lock → Virtq Lock
  unlock vq = record vq { lock = (spin_unlock vq.lock).1 }

  -- The entry for the chain's head in the available ring.
  pub publish : Virtq Lock → (head : ℕ) → Virtq Lock
  publish vq head = record vq {
    avail = record (vq.avail) {
      ring = set vq.avail.ring (vq.avail.idx % vq.place.num) head;
      idx = u16 (vq.avail.idx + 1);
    };
  }

  -- The array `idx` is `i ∷ is`: with a `count` of 0 the source would read `idx[-1]`.
  unfoldable pub put_desc_chain : Virtq Lock → (i : ℕ) → (is : List ℕ) → Errno × Virtq Lock
  unfolding link_chain publish
  put_desc_chain vq i is =
      let linked = record vq { desc = link_chain vq.desc i is } in
      let (rc, l) = spin_lock vq.lock in
      let locked = record linked { lock = l } in
      if is_ok rc then ((spin_unlock l).0, unlock (publish locked i)) else (rc, locked)

  -- With the lock held: the next entry of the used ring that was not seen yet.
  get_locked : Virtq Lock → (count : ℕ) → Chain × Virtq Lock
  unfolding walk
  get_locked vq count =
      if vq.used.idx == vq.last_seen_used
      then ((enoent, none, []), vq)
      else (let head = u16 (get_or vq.used.ring (vq.last_seen_used % vq.place.num) zero_elem).id in
          let (indices, ended) = walk vq.desc count head in
          if ended
          then (
            (eok, some (length indices), indices),
            record vq { last_seen_used = u16 (vq.last_seen_used + 1) },
          )
          else ((enomem, none, indices), vq))

  -- `count` is what `*count` holds before the call.
  unfoldable pub get_chain : Virtq Lock → (count : ℕ) → Chain × Virtq Lock
  unfolding get_locked
  get_chain vq count =
      let (rc, l) = spin_lock vq.lock in
      let locked = record vq { lock = l } in
      if is_ok rc
      then (let (chain, vq') = get_locked locked count in (chain, unlock vq'))
      else ((rc, none, []), locked)

  -- An absent `count` is a null pointer.
  unfoldable pub get_desc_chain :
      Option (Virtq Lock) → (count : Option ℕ) → (out : Bool) → Chain × Option (Virtq Lock)
  get_desc_chain none count out = ((einval, none, []), none)
  get_desc_chain (some vq) none out = ((einval, none, []), some vq)
  get_desc_chain (some vq) (some count) out =
      if out
      then (let (chain, vq') = get_chain vq count in (chain, some vq'))
      else ((einval, none, []), some vq)
