-- ===== src/Virtq.antt =====
-- src/virtio/virtq.c: the data of a virtqueue and the calls that read it. The memory shared with the
-- device is part of the state: descriptor table, available ring and used ring are lists. A read or
-- write out of range, which C leaves undefined, reads zeros here and writes nothing.
-- An absent virtqueue is a null pointer; `out` says whether the output pointer is not null.
pub mod Layout
pub mod Mapping
pub mod Create
pub mod Walk
pub mod Submit
pub mod FreeList
pub mod Ownership
pub mod Frames
pub mod Tables
pub mod Mapped
pub mod Fresh
pub mod Unwind
pub mod Fits
pub mod Sample
mod Tests
pub mod Alloc
pub mod Chain
use qnx_virtio.Common.{
  ℕ, ◌+◌, ◌*◌, ◌/◌, ◌%◌, Bool, Option, none, some, List, [], ◌∷◌, einval, Result, ok, err,
  if◌then◌else◌, leb, get_or, set, Errno, eok,
}
use qnx_virtio.Fifo.{Fifo}

-- `VIRTQ_DESC_F_NEXT`
abbrev pub f_next : ℕ
f_next = 1

-- `VIRTQ_DESC_F_WRITE`
abbrev pub f_write : ℕ
f_write = 2

-- `struct virtq_desc`
pub record Desc : Type 0 where
  pub addr : ℕ
  pub len : ℕ
  pub flags : ℕ
  pub next : ℕ

-- `struct virtq_avail`
pub record Avail : Type 0 where
  pub flags : ℕ
  pub idx : ℕ
  pub ring : List ℕ

-- `struct virtq_used_elem`
pub record UsedElem : Type 0 where
  pub id : ℕ
  pub len : ℕ

-- `struct virtq_used`
pub record Used : Type 0 where
  pub flags : ℕ
  pub idx : ℕ
  pub ring : List UsedElem

-- `struct desc_extras`; the context is a pointer that may be null.
pub record DescExtras : Type 0 where
  pub vaddr : ℕ
  pub context : Option ℕ

-- The fields of `struct virtq` that say where the queue lies in memory. Beside the code: how many
-- bytes are mapped from each of the three addresses on.
pub record Place : Type 0 where
  pub num : ℕ
  pub legacy : Bool
  pub desc_vaddr : ℕ
  pub desc_paddr : ℕ
  pub avail_vaddr : ℕ
  pub avail_paddr : ℕ
  pub used_vaddr : ℕ
  pub used_paddr : ℕ
  pub desc_bytes : ℕ
  pub avail_bytes : ℕ
  pub used_bytes : ℕ

-- `struct virtq` over the lock words `L`: `Place`, and its other fields with what they point to.
pub record Virtq (L : Type 0) : Type 0 where
  pub place : Place
  pub open place use *
  pub lock : L
  pub desc : List Desc
  pub avail : Avail
  pub used : Used
  pub last_seen_used : ℕ
  pub free_descs : Fifo L
  pub desc_extras : List DescExtras

abbrev pub zero_desc : Desc
zero_desc = record { addr = 0; len = 0; flags = 0; next = 0 }

abbrev pub zero_extras : DescExtras
zero_extras = record { vaddr = 0; context = none }

abbrev pub desc_at : {L : Type 0} → Virtq L → ℕ → Desc
desc_at vq i = get_or vq.desc i zero_desc

abbrev pub extras_at : {L : Type 0} → Virtq L → ℕ → DescExtras
extras_at vq i = get_or vq.desc_extras i zero_extras

-- The bytes of a `uint16_t`, as the free list stores it, and back.
abbrev pub bytes16 : ℕ → List ℕ
bytes16 n = (n % 256) ∷ (n / 256 % 256) ∷ []

abbrev pub of_bytes16 : List ℕ → ℕ
of_bytes16 bytes = get_or bytes 0 0 + 256 * get_or bytes 1 0

module _ {L : Type 0} where
  -- The calls that return a field of the queue.
  unfoldable pub get_field : Option (Virtq L) → (out : Bool) → (Virtq L → ℕ) → Result ℕ
  get_field none out field = err einval
  get_field (some vq) out field = if out then ok (field vq) else err einval

  unfoldable pub desc_paddr : Option (Virtq L) → (out : Bool) → Result ℕ
  unfolding get_field
  desc_paddr vq out = get_field vq out λ q. q.place.desc_paddr

  unfoldable pub avail_paddr : Option (Virtq L) → (out : Bool) → Result ℕ
  unfolding get_field
  avail_paddr vq out = get_field vq out λ q. q.place.avail_paddr

  unfoldable pub used_paddr : Option (Virtq L) → (out : Bool) → Result ℕ
  unfolding get_field
  used_paddr vq out = get_field vq out λ q. q.place.used_paddr

  unfoldable pub size : Option (Virtq L) → (out : Bool) → Result ℕ
  unfolding get_field
  size vq out = get_field vq out λ q. q.place.num

  -- The calls that return something of descriptor `idx`.
  unfoldable pub get_of_desc {ℓ} :
      {A : Type ℓ} → Option (Virtq L) → (idx : ℕ) → (out : Bool) → (Virtq L → A) → Result A
  get_of_desc none idx out read = err einval
  get_of_desc (some vq) idx out read =
      if out then (if leb vq.place.num idx then err einval else ok (read vq)) else err einval

  unfoldable pub get_desc_vaddr : Option (Virtq L) → (idx : ℕ) → (out : Bool) → Result ℕ
  unfolding get_of_desc
  get_desc_vaddr vq idx out = get_of_desc vq idx out λ q. (extras_at q idx).vaddr

  unfoldable pub get_desc_len : Option (Virtq L) → (idx : ℕ) → (out : Bool) → Result ℕ
  unfolding get_of_desc
  get_desc_len vq idx out = get_of_desc vq idx out λ q. (desc_at q idx).len

  unfoldable pub get_desc_flags : Option (Virtq L) → (idx : ℕ) → (out : Bool) → Result ℕ
  unfolding get_of_desc
  get_desc_flags vq idx out = get_of_desc vq idx out λ q. (desc_at q idx).flags

  unfoldable pub get_desc_context : Option (Virtq L) → (idx : ℕ) → (out : Bool) → Result (Option ℕ)
  unfolding get_of_desc
  get_desc_context vq idx out = get_of_desc vq idx out λ q. (extras_at q idx).context

  -- A null context is refused.
  unfoldable pub set_desc_context :
      Option (Virtq L) → (idx : ℕ) → (context : Option ℕ) → Errno × Option (Virtq L)
  set_desc_context none idx context = (einval, none)
  set_desc_context (some vq) idx none = (einval, some vq)
  set_desc_context (some vq) idx (some c) = if leb vq.place.num idx then (einval, some vq) else (
    eok,
    some (record vq {
      desc_extras =
          set vq.desc_extras idx (record { vaddr = (extras_at vq idx).vaddr; context = some c });
    }),
  )
