-- ===== src/Virtq/Tables.antt =====
-- What submitting a chain and taking one back do to the driver's side of a virtqueue.
use qnx_virtio.Common.{
  ℕ, ◌<◌, ◌≡◌, ◌≢◌, List, [], ◌∷◌, arith, length, set, length-set, get_or-set_self, get_or-set_ne,
  bit_or,
}
use qnx_virtio.Spinlock.{Spinlock}
use qnx_virtio.Virtq.{Virtq, Desc, zero_desc, f_next}
use qnx_virtio.Virtq.Chain.{entry, link, link_chain, put_desc_chain, get_chain}

-- What taking a chain from the used ring leaves alone.
pub record SameTables {L : Type 0} (vq vq' : Virtq L) : Type 0 where
  pub place : vq'.place ≡ vq.place
  pub desc : vq'.desc ≡ vq.desc
  pub used : vq'.used ≡ vq.used
  pub free_descs : vq'.free_descs ≡ vq.free_descs
  pub desc_extras : vq'.desc_extras ≡ vq.desc_extras

pub get_chain-SameTables :
    (s : Spinlock) (vq : Virtq s.Lock) (count : ℕ) → SameTables vq (get_chain s vq count).1
unfolding get_chain
get_chain-SameTables s vq count = ground arith

-- What submitting a chain does to the driver's side of the queue.
pub record Linked {L : Type 0} (vq : Virtq L) (i : ℕ) (is : List ℕ) (vq' : Virtq L) : Type 0 where
  pub place : vq'.place ≡ vq.place
  pub desc : vq'.desc ≡ link_chain vq.desc i is
  pub seen : vq'.last_seen_used ≡ vq.last_seen_used
  pub free_descs : vq'.free_descs ≡ vq.free_descs
  pub desc_extras : vq'.desc_extras ≡ vq.desc_extras

pub put_desc_chain-Linked :
    (s : Spinlock) (vq : Virtq s.Lock) (i : ℕ) (is : List ℕ)
    → Linked vq i is (put_desc_chain s vq i is).1
unfolding put_desc_chain
put_desc_chain-Linked s vq i is = ground arith

-- The table after a chain of two is linked: the lengths of the buffers are kept.
pub link_chain-pair :
    (table : List Desc) (i j : ℕ)
    → i < length table
    → j < length table
    → i ≢ j
    → ((entry (link_chain table i (j ∷ [])) i).len ≡ (entry table i).len)
      × ((entry (link_chain table i (j ∷ [])) j).len ≡ (entry table j).len)
      × (length (link_chain table i (j ∷ [])) ≡ length table)
unfolding link_chain link
link_chain-pair table i j li lj ne =
    let linked = record (entry table i) { next = j; flags = bit_or (entry table i).flags f_next } in
    let table1 = set table i linked in
    ground (
      arith,
      length-set table i linked,
      length-set table1 j (record (entry table1 j) { next = 0 }),
      get_or-set_self table i linked zero_desc,
      get_or-set_ne table i j linked zero_desc,
      get_or-set_self table1 j (record (entry table1 j) { next = 0 }) zero_desc,
      get_or-set_ne table1 j i (record (entry table1 j) { next = 0 }) zero_desc,
    )
