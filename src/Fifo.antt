-- ===== src/Fifo.antt =====
-- utils/fifo/fifo.c: a queue of fixed-size elements in a block of bytes, under a spinlock.
-- A function that updates `*fifo` returns the new state beside its return code.
pub mod Queue
pub mod Slots
pub mod Laws
pub mod Refine
pub mod Run
mod Tests
use qnx_virtio.Common.{
  ℕ, ◌+◌, ◌-◌, ◌*◌, ◌%◌, Bool, Option, none, some, List, Errno, eok, einval, enomem, enoent, is_ok,
  Result, ok, err, if◌then◌else◌, ◌==◌, u64, read_at, write_at, take,
}
use qnx_virtio.Spinlock.{Spinlock}

-- `struct fifo`; `storage` is its flexible member `data`.
pub record Fifo (L : Type 0) : Type 0 where
  pub lock : L
  pub head : ℕ
  pub tail : ℕ
  pub count : ℕ
  pub capacity : ℕ
  pub elem_size : ℕ
  pub storage : List ℕ

-- The offset of element `index` in the data.
abbrev pub elem_addr : {L : Type 0} → Fifo L → ℕ → ℕ
elem_addr f index = f.elem_size * index

-- An absent fifo is a null pointer; `out` says whether the output pointer is not null.
unfoldable pub empty : {L : Type 0} → Option (Fifo L) → (out : Bool) → Result Bool
empty none out = err einval
empty (some f) out = if out then ok (f.count == 0) else err einval

unfoldable pub full : {L : Type 0} → Option (Fifo L) → (out : Bool) → Result Bool
full none out = err einval
full (some f) out = if out then ok (f.count == f.capacity) else err einval

-- The copy of `elem` into the slot at the tail, and the new tail and count.
unfoldable pub store : {L : Type 0} → Fifo L → List ℕ → Fifo L
store f elem = record f {
  storage = write_at f.storage (elem_addr f f.tail) (take f.elem_size elem);
  tail = u64 (f.tail + 1) % f.capacity;
  count = u64 (f.count + 1);
}

-- The copy out of the slot at the head, and the new head and count.
unfoldable pub fetch : {L : Type 0} → Fifo L → List ℕ × Fifo L
fetch f = (
  read_at f.storage (elem_addr f f.head) f.elem_size,
  record f { head = u64 (f.head + 1) % f.capacity; count = f.count - 1 },
)

module _ (s : Spinlock) where
  open s use {Lock, spin_init, spin_destroy, spin_lock, spin_unlock}

  -- `block` is what `malloc` returns: nothing, or an uninitialised lock word and data bytes.
  unfoldable pub create :
      (capacity elem_size : ℕ) (out : Bool) (block : Option (Lock × List ℕ)) → Result (Fifo Lock)
  create capacity elem_size out none = if out then err enomem else err einval
  create capacity elem_size out (some (l, bytes)) =
      if out
      then (let (rc, l') = spin_init l in
          if is_ok rc
          then ok (record {
            lock = l';
            head = 0;
            tail = 0;
            count = 0;
            capacity = capacity;
            elem_size = elem_size;
            storage = bytes;
          })
          else err rc)
      else err einval

  -- On success the fifo is freed: nothing is left. Otherwise it stays, with its lock.
  unfoldable pub destroy : Option (Fifo Lock) → Errno × Option (Fifo Lock)
  destroy none = (einval, none)
  destroy (some f) =
      let (rc, l) = spin_destroy f.lock in
      if is_ok rc then (eok, none) else (rc, some (record f { lock = l }))

  abbrev unlock : Fifo Lock → Fifo Lock
  unlock f = record f { lock = (spin_unlock f.lock).1 }

  -- `fifo_put` after the lock is taken, up to the label `exit`.
  put_locked : Fifo Lock → List ℕ → Errno × Fifo Lock
  unfolding full
  put_locked f elem = elim (full (some f) Bool.true) [
    | err rc ↦ (rc, f)
    | ok is_full ↦ if is_full then (enomem, f) else (eok, store f elem)
  ]

  unfoldable pub put : Fifo Lock → List ℕ → Errno × Fifo Lock
  unfolding put_locked
  put f elem =
      let (rc, l) = spin_lock f.lock in
      if is_ok rc
      then (let (rc', f') = put_locked (record f { lock = l }) elem in (rc', unlock f'))
      else (rc, record f { lock = l })

  -- `fifo_get` after the lock is taken; the option is what is copied through `elem`.
  get_locked : Fifo Lock → Errno × Option (List ℕ) × Fifo Lock
  unfolding empty
  get_locked f = elim (empty (some f) Bool.true) [
    | err rc ↦ (rc, none, f)
    | ok is_empty ↦
        if is_empty then (enoent, none, f) else (let (e, f') = fetch f in (eok, some e, f'))
  ]

  unfoldable pub get : Fifo Lock → Errno × Option (List ℕ) × Fifo Lock
  unfolding get_locked
  get f =
      let (rc, l) = spin_lock f.lock in
      if is_ok rc
      then (let (rc', e, f') = get_locked (record f { lock = l }) in (rc', e, unlock f'))
      else (rc, none, record f { lock = l })
