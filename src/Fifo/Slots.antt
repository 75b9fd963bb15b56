-- ===== src/Fifo/Slots.antt =====
-- The elements that a fifo holds, read off its slots, and what a write to one slot does to them.
use native.Mathlib.Nat.{mod-add-mod, mod-eq_of_lt, mod-eq-sub-mod, add-zero, mod-lt}
use native.Mathlib.Decide.{dec_lt}
use mathlib.Core.Path.{ap₂}
use qnx_virtio.Common.{
  ℕ, zero, suc, ◌+◌, ◌-◌, ◌*◌, ◌%◌, ◌≤◌, ◌<◌, ◌≡◌, refl, sym, ap, ◌∙◌, ◌≢◌, ◌⊎◌, inl, inr, List, [],
  ◌∷◌, ◌++◌, arith, length, read_at, write_at, read_at-write_at_self, read_at-write_at_below,
  read_at-write_at_above,
}
use qnx_virtio.Fifo.Queue.{Queue}

-- Element `i` of a block of elements of `size` bytes.
abbrev pub slot : List ℕ → (size i : ℕ) → List ℕ
slot bytes size i = read_at bytes (size * i) size

-- Slot `k` counted from the head `h`, going round at `cap`.
abbrev pub position : (cap h k : ℕ) → ℕ
position cap h k = (h + k) % cap

-- The `n` elements from slot `k` behind the head on.
abbrev pub slots : List ℕ → (size cap h k n : ℕ) → Queue
slots bytes size cap h k zero = []
slots bytes size cap h k (suc n) =
    slot bytes size (position cap h k) ∷ slots bytes size cap h (k + 1) n

pub length-slots : (bytes : List ℕ) (size cap h k n : ℕ) → length (slots bytes size cap h k n) ≡ n
length-slots bytes size cap h k zero = refl
length-slots bytes size cap h k (suc n) = ap suc (length-slots bytes size cap h (k + 1) n)

-- The position is `h + k`, or that less one round.
position-cases :
    (cap h k : ℕ)
    → h < cap
    → k ≤ cap
    → (position cap h k ≡ h + k) ⊎ (position cap h k + cap ≡ h + k)
position-cases cap h k hh hk = elim (dec_lt (h + k) cap) [
  | yes below ↦ inl (mod-eq_of_lt below)
  | no above ↦ inr (
      omega (
        arith,
        mod-eq-sub-mod {n = h + k} {m = cap} (omega arith),
        mod-eq_of_lt {n = h + k - cap} {m = cap} (omega arith),
      ))
]

-- Two positions less than one round apart are different slots.
position-ne : (cap h k m : ℕ) → h < cap → m < cap → k < m → position cap h m ≢ position cap h k
position-ne cap h k m hh hm lt =
    ground (arith, position-cases cap h k hh (omega arith), position-cases cap h m hh (omega arith))

-- Moving the head on by one slot moves every position.
slots_from_next :
    (bytes : List ℕ) (size cap h k n : ℕ)
    → slots bytes size cap ((h + 1) % cap) k n ≡ slots bytes size cap h (k + 1) n
slots_from_next bytes size cap h k zero = refl
slots_from_next bytes size cap h k (suc n) =
    ap₂ ◌∷◌ (ap (slot bytes size) moved) (slots_from_next bytes size cap h (k + 1) n)
  where
    moved : ((h + 1) % cap + k) % cap ≡ (h + (k + 1)) % cap
    moved = mod-add-mod (h + 1) cap k ∙ ap (λ x. x % cap) (omega arith)

-- The first of some elements, and the others as the next head sees them.
pub slots_uncons :
    (bytes : List ℕ) (size cap h n : ℕ)
    → h < cap
    → n ≢ 0
    → slots bytes size cap h 0 n
      ≡ slot bytes size h ∷ slots bytes size cap ((h + 1) % cap) 0 (n - 1)
slots_uncons bytes size cap h zero hh p = absurd (p refl)
slots_uncons bytes size cap h (suc n) hh p =
    let now : position cap h 0 ≡ h = rw add-zero (mod-eq_of_lt hh) in
    let less : n ≡ suc n - 1 = omega arith in
    ap₂ ◌∷◌ (ap (slot bytes size) now) (
      sym (slots_from_next bytes size cap h 0 n) ∙ ap (slots bytes size cap ((h + 1) % cap) 0) less)

lt-or-gt : (i j : ℕ) → i ≢ j → (i < j) ⊎ (j < i)
lt-or-gt i j p = omega arith

-- Slots do not overlap.
module _ (bytes : List ℕ) (size i : ℕ) (elem : List ℕ) (fits : length elem ≡ size) where
  slot-write_ne : (j : ℕ) → i ≢ j → slot (write_at bytes (size * i) elem) size j ≡ slot bytes size j
  slot-write_ne j ne = elim (lt-or-gt i j ne) [
    | inl lt ↦ read_at-write_at_above bytes (size * i) (size * j) size elem (grind arith)
    | inr gt ↦ read_at-write_at_below bytes (size * i) (size * j) size elem (grind arith)
  ]

  slot-write_self :
      size * i + size ≤ length bytes → slot (write_at bytes (size * i) elem) size i ≡ elem
  slot-write_self inside =
      ap (read_at (write_at bytes (size * i) elem) (size * i)) (omega arith)
      ∙ read_at-write_at_self bytes (size * i) elem (omega arith)

-- A write to the slot behind the last one appends the element.
pub slots-write :
    (bytes : List ℕ) (size cap h k n i : ℕ) (elem : List ℕ)
    → length elem ≡ size
    → size * cap ≤ length bytes
    → h < cap
    → k + n < cap
    → i ≡ position cap h (k + n)
    → slots (write_at bytes (size * i) elem) size cap h k (suc n)
      ≡ slots bytes size cap h k n ++ (elem ∷ [])
slots-write bytes size cap h k zero i elem fits room hh hn e =
    let last : position cap h k ≡ i = rw (e, add-zero) refl in
    let inside : i < cap = rw e (mod-lt (h + (k + 0)) (omega arith)) in
    rw last (ap (λ x. x ∷ []) (slot-write_self bytes size i elem fits (grind arith)))
slots-write bytes size cap h k (suc n) i elem fits room hh hn e =
    let regroup : k + suc n ≡ k + 1 + n = omega arith in
    let other : i ≢ position cap h k = rw e (position-ne cap h k (k + suc n) hh hn (omega arith)) in
    ap₂ ◌∷◌ (slot-write_ne bytes size i elem fits (position cap h k) other) (
      slots-write bytes size cap h (k + 1) n i elem fits room hh (omega arith)
        (e ∙ ap (position cap h) regroup))
