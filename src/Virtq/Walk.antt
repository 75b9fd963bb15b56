-- ===== src/Virtq/Walk.antt =====
-- The chain that `link_chain` writes is the one that `walk` reads.
use qnx_virtio.Common.{
  ℕ, zero, suc, ◌%◌, ◌<◌, ◌≡◌, ◌≢◌, refl, sym, ap, subst, ◌∙◌, List, [], ◌∷◌, Bool, true, false,
  arith, length, take, length-set, get_or-set_self, get_or-set_ne, ltb, bit_and-one, bit_or-one,
}
use qnx_virtio.Virtq.{Desc, zero_desc}
use qnx_virtio.Virtq.Chain.{entry, link, link_chain, walk}

abbrev pub NotIn : ℕ → List ℕ → Type 0
NotIn k [] = Unit {0}
NotIn k (x ∷ xs) = (k ≢ x) × NotIn k xs

abbrev pub Distinct : List ℕ → Type 0
Distinct [] = Unit {0}
Distinct (x ∷ xs) = NotIn x xs × Distinct xs

abbrev pub Below : ℕ → List ℕ → Type 0
Below n [] = Unit {0}
Below n (x ∷ xs) = (x < n) × Below n xs

-- The last descriptor of the chain does not have `VIRTQ_DESC_F_NEXT`.
abbrev pub EndsAt : List Desc → ℕ → List ℕ → Type 0
EndsAt table i [] = (entry table i).flags % 2 ≡ 0
EndsAt table i (j ∷ js) = EndsAt table j js

length-link : (table : List Desc) (i j : ℕ) → length (link table i j) ≡ length table
unfolding link
length-link table i j = length-set table i _

pub length-link_chain :
    (table : List Desc) (i : ℕ) (is : List ℕ) → length (link_chain table i is) ≡ length table
unfolding link_chain
length-link_chain table i [] = length-set table i _
length-link_chain table i (j ∷ js) = length-link_chain (link table i j) j js ∙ length-link table i j

entry-link_ne : (table : List Desc) (i j k : ℕ) → k ≢ i → entry (link table i j) k ≡ entry table k
unfolding link
entry-link_ne table i j k ne = get_or-set_ne table i k _ zero_desc (λ e. ne (sym e))

-- Linking touches the descriptors of the chain only.
pub entry-link_chain_ne :
    (table : List Desc) (i : ℕ) (is : List ℕ) (k : ℕ)
    → NotIn k (i ∷ is)
    → entry (link_chain table i is) k ≡ entry table k
unfolding link_chain
entry-link_chain_ne table i [] k out = get_or-set_ne table i k _ zero_desc (λ e. out.0 (sym e))
entry-link_chain_ne table i (j ∷ js) k out =
    entry-link_chain_ne (link table i j) j js k out.1 ∙ entry-link_ne table i j k out.0

EndsAt-link :
    (table : List Desc) (i j k : ℕ) (ks : List ℕ)
    → NotIn i (k ∷ ks)
    → EndsAt table k ks
    → EndsAt (link table i j) k ks
EndsAt-link table i j k [] out e =
    ap (λ d. d.flags % 2) (entry-link_ne table i j k (λ p. out.0 (sym p))) ∙ e
EndsAt-link table i j k (l ∷ ls) out e = EndsAt-link table i j l ls out.1 e

-- The first step of the walk along a chain of two or more.
walk-head :
    (table : List Desc) (i j : ℕ) (js : List ℕ)
    → i < length table
    → NotIn i (j ∷ js)
    → ((entry (link_chain table i (j ∷ js)) i).next ≡ j)
      × ((entry (link_chain table i (j ∷ js)) i).flags % 2 ≡ 1)
unfolding link_chain link
walk-head table i j js inside out =
    rw (entry-link_chain_ne (link table i j) j js i out, get_or-set_self table i _ zero_desc inside)
      (refl, omega (arith, bit_or-one (entry table i).flags))

last_flags :
    (table : List Desc) (i : ℕ)
    → i < length table
    → (entry (link_chain table i []) i).flags ≡ (entry table i).flags
unfolding link_chain
last_flags table i inside = ap (λ d. d.flags) (get_or-set_self table i _ zero_desc inside)

link_chain-cons :
    (table : List Desc) (i j : ℕ) (js : List ℕ)
    → link_chain table i (j ∷ js) ≡ link_chain (link table i j) j js
unfolding link_chain
link_chain-cons table i j js = refl

-- A chain of two: how the first goes on, and how the second ends.
pub link_chain-two :
    (table : List Desc) (i j : ℕ)
    → i < length table
    → j < length table
    → i ≢ j
    → ((entry (link_chain table i (j ∷ [])) i).next ≡ j)
      × ((entry (link_chain table i (j ∷ [])) i).flags % 2 ≡ 1)
      × ((entry (link_chain table i (j ∷ [])) j).flags ≡ (entry table j).flags)
link_chain-two table i j inside inside' ne =
    let (next, more) = walk-head table i j [] inside (ne, tt) in
    (
      next,
      more,
      rw link_chain-cons (
          last_flags (link table i j) j (subst (λ n. j < n) (sym (length-link table i j)) inside')
          ∙ ap (λ d. d.flags) (entry-link_ne table i j j (λ e. ne (sym e)))),
    )

-- One step of the walk, by the lowest bit of the flags.
walk-last :
    (table : List Desc) (room i : ℕ)
    → (entry table i).flags % 2 ≡ 0
    → walk table (suc room) i ≡ (i ∷ [], true)
unfolding walk
walk-last table room i h = ground (arith, bit_and-one (entry table i).flags)

walk-next :
    (table : List Desc) (room i j : ℕ) (js : List ℕ) (b : Bool)
    → (entry table i).flags % 2 ≡ 1
    → (entry table i).next ≡ j
    → walk table room j ≡ (js, b)
    → walk table (suc room) i ≡ (i ∷ js, b)
unfolding walk
walk-next table room i j js b h n e = ground (arith, bit_and-one (entry table i).flags)

ltb-zero : (n : ℕ) → false ≡ ltb n 0
ltb-zero n = ground arith

ltb-pos : (n : ℕ) → ltb 0 (suc n) ≡ true
ltb-pos n = ground arith

ltb-suc : (n m : ℕ) → ltb n m ≡ ltb (suc n) (suc m)
ltb-suc n m = ground arith

walk-zero :
    (table : List Desc) (i : ℕ) (is : List ℕ)
    → walk (link_chain table i is) 0 i ≡ (take 0 (i ∷ is), ltb (length is) 0)
unfolding walk
walk-zero table i is = ap (λ b. ([], b)) (ltb-zero (length is))

one_room :
    (i room : ℕ)
    → ◌≡◌ {A = List ℕ × Bool} (i ∷ [], true) (take (suc room) (i ∷ []), ltb 0 (suc room))
one_room i zero = refl
one_room i (suc room) = ap (λ b. (i ∷ [], b)) (sym (ltb-pos (suc room)))

-- Walking from the head of a chain that was linked reads the chain, as far as there is room; it
-- reaches the end exactly when there is room for all.
pub walk-link_chain :
    (table : List Desc) (i : ℕ) (is : List ℕ) (room : ℕ)
    → Distinct (i ∷ is)
    → Below (length table) (i ∷ is)
    → EndsAt table i is
    → walk (link_chain table i is) room i ≡ (take room (i ∷ is), ltb (length is) room)
walk-link_chain table i is zero d b e = walk-zero table i is
walk-link_chain table i [] (suc room) d b e =
    walk-last (link_chain table i []) room i (rw (last_flags table i b.0) e) ∙ one_room i room
walk-link_chain table i (j ∷ js) (suc room) d b e =
    let head = walk-head table i j js b.0 d.0 in
    let below = subst (λ n. Below n (j ∷ js)) (sym (length-link table i j)) b.1 in
    let ends = EndsAt-link table i j j js d.0 e in
    walk-next (link_chain table i (j ∷ js)) room i j (take room (j ∷ js))
      (ltb (length (j ∷ js)) (suc room)) head.1 head.0
      (rw link_chain-cons (
        walk-link_chain (link table i j) j js room d.1 below ends
        ∙ ap (λ b. (take room (j ∷ js), b)) (ltb-suc (length js) room)))

-- A walk along a chain of two.
pub walk-two :
    (table : List Desc) (i j : ℕ)
    → (entry table i).next ≡ j
    → (entry table i).flags % 2 ≡ 1
    → (entry table j).flags % 2 ≡ 0
    → walk table 2 i ≡ (i ∷ j ∷ [], true)
walk-two table i j next more last =
    walk-next table 1 i j (j ∷ []) true more next (walk-last table 0 j last)
