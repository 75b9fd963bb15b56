-- ===== src/Virtq/Submit.antt =====
-- A submitted chain: what the device sees of it, and what comes back when the device is done.
use native.Mathlib.Nat.{mod-lt}
use qnx_virtio.Common.{
  ℕ, zero, suc, ◌&&◌, ◌+◌, ◌%◌, ◌^◌, ◌≤◌, ◌<◌, ◌≡◌, ◌≢◌, refl, ap, List, [], ◌∷◌, none, some, true,
  false, eok, enoent, enomem, is_ok, arith, length, take, get_or, length-set, get_or-set_self,
  get_or-set_ne, ltb, if◌then◌else◌, u16, ◌==◌,
}
use qnx_virtio.Spinlock.{Spinlock}
use qnx_virtio.Virtq.{Virtq, Used}
use qnx_virtio.Virtq.Chain.{entry, put_desc_chain, get_chain, zero_elem, Chain}
use qnx_virtio.Virtq.Walk.{
  NotIn, Distinct, Below, EndsAt, walk-link_chain, entry-link_chain_ne, length-link_chain,
}

-- The chain `i ∷ is` can be submitted: its descriptors exist, are different, and its last one is
-- not linked.
pub record IsChain {L : Type 0} (vq : Virtq L) (i : ℕ) (is : List ℕ) : Type 0 where
  pub distinct : Distinct (i ∷ is)
  pub below : Below (length vq.desc) (i ∷ is)
  pub ends : EndsAt vq.desc i is

-- The device has returned the chain with head `i` in the next entry that the driver has not seen.
pub record Returned {L : Type 0} (vq : Virtq L) (u : Used) (i : ℕ) : Type 0 where
  pub small : i < 2 ^ 16
  pub new : u.idx ≢ vq.last_seen_used
  pub head : (get_or u.ring (vq.last_seen_used % vq.place.num) zero_elem).id ≡ i

take_all : (xs : List ℕ) (n : ℕ) → length xs ≤ n → take n xs ≡ xs
take_all [] zero h = refl
take_all [] (suc n) h = refl
take_all (x ∷ xs) zero h = absurd (omega arith)
take_all (x ∷ xs) (suc n) h = ap (λ l. x ∷ l) (take_all xs n (omega arith))

module _ (s : Spinlock) where
  open s use {Lock, spin_lock, spin_unlock, held, held-lock, held-unlock}

  -- On a queue whose available ring has `num` > 0 entries, `virtq_put_desc_chain` writes the
  -- chain's head to the slot of the available index and moves that index on modulo 2 ^ 16 if the
  -- lock can be taken, and publishes nothing if not. Every other slot and every descriptor outside
  -- the chain keep their contents, and so do the ring's length and flags, the used ring, what the
  -- driver has seen of it, the free list, the extra data of the descriptors and the queue's place.
  pub put_publishes :
      (vq : Virtq Lock) (i : ℕ) (is : List ℕ) (slot k : ℕ)
      → 0 < vq.place.num
      → length vq.avail.ring ≡ vq.place.num
      → NotIn k (i ∷ is)
      → let vq' = (put_desc_chain s vq i is).1 in
        let locked = is_ok (spin_lock vq.lock).0 in
        (vq'.avail.idx ≡ (if locked then u16 (vq.avail.idx + 1) else vq.avail.idx))
        × (get_or vq'.avail.ring slot 0 ≡ (
            if locked && (vq.avail.idx % vq.place.num == slot)
            then i
            else get_or vq.avail.ring slot 0))
        × (entry vq'.desc k ≡ entry vq.desc k)
        × (length vq'.desc ≡ length vq.desc)
        × (length vq'.avail.ring ≡ length vq.avail.ring)
        × (vq'.avail.flags ≡ vq.avail.flags)
        × (vq'.used ≡ vq.used)
        × (vq'.last_seen_used ≡ vq.last_seen_used)
        × (vq'.free_descs ≡ vq.free_descs)
        × (vq'.desc_extras ≡ vq.desc_extras)
        × (vq'.place ≡ vq.place)
  unfolding put_desc_chain
  put_publishes vq i is slot k pos len out = (
    ground arith,
    ground (
      arith,
      mod-lt vq.avail.idx {m = vq.place.num} pos,
      get_or-set_self vq.avail.ring (vq.avail.idx % vq.place.num) i 0,
      get_or-set_ne vq.avail.ring (vq.avail.idx % vq.place.num) slot i 0,
    ),
    ground (arith, entry-link_chain_ne vq.desc i is k out),
    ground (arith, length-link_chain vq.desc i is),
    ground (arith, length-set vq.avail.ring (vq.avail.idx % vq.place.num) i),
    ground arith,
    ground arith,
    ground arith,
    ground arith,
    ground arith,
    ground arith,
  )

  -- A call of `virtq_put_desc_chain` or `virtq_get_desc_chain` leaves a free lock free.
  pub virtq_lock-released :
      (vq : Virtq Lock) (i : ℕ) (is : List ℕ) (count : ℕ)
      → held vq.lock ≡ false
      → (held (put_desc_chain s vq i is).1.lock ≡ false)
        × (held (get_chain s vq count).1.lock ≡ false)
  unfolding put_desc_chain get_chain
  virtq_lock-released vq i is count h = ground (arith, held-lock vq.lock, held-unlock vq.lock)

  -- With nothing new in the used ring, `virtq_get_desc_chain` answers `ENOENT` and moves nothing.
  pub get-nothing_new :
      (vq : Virtq Lock) (count : ℕ)
      → vq.used.idx ≡ vq.last_seen_used
      → is_ok (spin_lock vq.lock).0 ≡ true
      → ((get_chain s vq count).0 ≡ (enoent, none, []))
        × ((get_chain s vq count).1.last_seen_used ≡ vq.last_seen_used)
  unfolding get_chain
  get-nothing_new vq count h free = ground arith

  -- If the lock can always be taken, and the device has returned a chain of different descriptors
  -- of the table that was submitted, `virtq_get_desc_chain` gives back the whole chain in order,
  -- and moves on, when `*count` has room for it; otherwise it answers `ENOMEM` with the part that
  -- fits and does not move on.
  pub get-put :
      (vq : Virtq Lock) (i : ℕ) (is : List ℕ) (u : Used) (count : ℕ)
      → (free : (l : Lock) → is_ok (spin_lock l).0 ≡ true) → IsChain vq i is
      → Returned vq u i
      → let (chain, vq') = get_chain s (record ((put_desc_chain s vq i is).1) { used = u }) count in
        ◌≡◌ {A = Chain × ℕ}
          (chain, vq'.last_seen_used)
          (if ltb (length is) count
            then ((eok, some (suc (length is)), i ∷ is), u16 (vq.last_seen_used + 1))
            else ((enomem, none, take count (i ∷ is)), vq.last_seen_used))
  unfolding put_desc_chain get_chain
  get-put vq i is u count free c r = ground (
    arith,
    free vq.lock,
    free (spin_unlock (spin_lock vq.lock).1).1,
    walk-link_chain vq.desc i is count c.distinct c.below c.ends,
    take_all (i ∷ is) count,
  )
