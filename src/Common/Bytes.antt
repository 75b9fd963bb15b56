-- ===== src/Common/Bytes.antt =====
-- `memcpy` into and out of a block of bytes at an offset.
use Prim.Native.Nat.{ℕ, zero, suc, ◌+◌, ◌≤◌}
use mathlib.Core.Path.{◌≡◌, refl, ap}
use mathlib.Core.List.{List, [], ◌∷◌}
use native.Mathlib.Omega.{arith}
use qnx_virtio.Common.Lists.{length, take}

-- The `n` bytes from offset `o` on; fewer if the block ends before.
unfoldable pub read_at : List ℕ → ℕ → ℕ → List ℕ
read_at xs zero n = take n xs
read_at [] (suc o) n = []
read_at (x ∷ xs) (suc o) n = read_at xs o n

overlay : List ℕ → List ℕ → List ℕ
overlay [] xs = xs
overlay (y ∷ ys) [] = []
overlay (y ∷ ys) (x ∷ xs) = y ∷ overlay ys xs

-- `ys` put over the block at offset `o`; what would lie past its end is dropped.
unfoldable pub write_at : List ℕ → ℕ → List ℕ → List ℕ
unfolding overlay
write_at xs zero ys = overlay ys xs
write_at [] (suc o) ys = []
write_at (x ∷ xs) (suc o) ys = x ∷ write_at xs o ys

length-overlay : (ys xs : List ℕ) → length (overlay ys xs) ≡ length xs
unfolding overlay
length-overlay [] xs = refl
length-overlay (y ∷ ys) [] = refl
length-overlay (y ∷ ys) (x ∷ xs) = ap suc (length-overlay ys xs)

pub length-write_at : (xs : List ℕ) (o : ℕ) (ys : List ℕ) → length (write_at xs o ys) ≡ length xs
unfolding write_at
length-write_at xs zero ys = length-overlay ys xs
length-write_at [] (suc o) ys = refl
length-write_at (x ∷ xs) (suc o) ys = ap suc (length-write_at xs o ys)

take-overlay : (ys xs : List ℕ) → length ys ≤ length xs → take (length ys) (overlay ys xs) ≡ ys
unfolding overlay
take-overlay [] xs h = refl
take-overlay (y ∷ ys) [] h = absurd (omega arith)
take-overlay (y ∷ ys) (x ∷ xs) h = ap (λ l. y ∷ l) (take-overlay ys xs (omega arith))

pub read_at-write_at_self :
    (xs : List ℕ) (o : ℕ) (ys : List ℕ)
    → o + length ys ≤ length xs
    → read_at (write_at xs o ys) o (length ys) ≡ ys
unfolding read_at write_at
read_at-write_at_self xs zero ys h = take-overlay ys xs (omega arith)
read_at-write_at_self [] (suc o) ys h = absurd (omega arith)
read_at-write_at_self (x ∷ xs) (suc o) ys h = read_at-write_at_self xs o ys (omega arith)

take_below_write :
    (xs : List ℕ) (o n : ℕ) (ys : List ℕ) → n ≤ o → take n (write_at xs o ys) ≡ take n xs
unfolding write_at
take_below_write xs o zero ys h = refl
take_below_write xs zero (suc n) ys h = absurd (omega arith)
take_below_write [] (suc o) (suc n) ys h = refl
take_below_write (x ∷ xs) (suc o) (suc n) ys h =
    ap (λ l. x ∷ l) (take_below_write xs o n ys (omega arith))

pub read_at-write_at_below :
    (xs : List ℕ) (o p n : ℕ) (ys : List ℕ)
    → p + n ≤ o
    → read_at (write_at xs o ys) p n ≡ read_at xs p n
unfolding read_at write_at
read_at-write_at_below xs o zero n ys h = take_below_write xs o n ys (omega arith)
read_at-write_at_below xs zero (suc p) n ys h = absurd (omega arith)
read_at-write_at_below [] (suc o) (suc p) n ys h = refl
read_at-write_at_below (x ∷ xs) (suc o) (suc p) n ys h =
    read_at-write_at_below xs o p n ys (omega arith)

read_past_overlay :
    (ys xs : List ℕ) (p n : ℕ) → length ys ≤ p → read_at (overlay ys xs) p n ≡ read_at xs p n
unfolding read_at overlay
read_past_overlay [] xs p n h = refl
read_past_overlay (y ∷ ys) [] p n h = refl
read_past_overlay (y ∷ ys) (x ∷ xs) zero n h = absurd (omega arith)
read_past_overlay (y ∷ ys) (x ∷ xs) (suc p) n h = read_past_overlay ys xs p n (omega arith)

pub read_at-write_at_above :
    (xs : List ℕ) (o p n : ℕ) (ys : List ℕ)
    → o + length ys ≤ p
    → read_at (write_at xs o ys) p n ≡ read_at xs p n
unfolding read_at write_at
read_at-write_at_above xs zero p n ys h = read_past_overlay ys xs p n (omega arith)
read_at-write_at_above xs (suc o) zero n ys h = absurd (omega arith)
read_at-write_at_above [] (suc o) (suc p) n ys h = refl
read_at-write_at_above (x ∷ xs) (suc o) (suc p) n ys h =
    read_at-write_at_above xs o p n ys (omega arith)
