-- ===== src/Fifo/Queue.antt =====
-- What a fifo promises: a queue of at most `cap` elements, oldest first. Each call is told how its
-- attempt to take the lock ended.
use qnx_virtio.Common.{
  ℕ, Option, none, some, List, [], ◌∷◌, ◌++◌, Errno, eok, enomem, enoent, is_ok, if◌then◌else◌,
  ◌==◌, length,
}

-- The elements, each a string of bytes.
abbrev pub Queue : Type 0
Queue = List (List ℕ)

unfoldable pub put : (cap : ℕ) (locked : Errno) → Queue → List ℕ → Errno × Queue
put cap locked q x =
    if is_ok locked
    then (if length q == cap then (enomem, q) else (eok, q ++ (x ∷ [])))
    else (locked, q)

take_front : Queue → Errno × Option (List ℕ) × Queue
take_front [] = (enoent, none, [])
take_front (x ∷ q) = (eok, some x, q)

unfoldable pub get : (locked : Errno) → Queue → Errno × Option (List ℕ) × Queue
unfolding take_front
get locked q = if is_ok locked then take_front q else (locked, none, q)

-- A client's calls, and what it sees of each: the code, and the element if one comes back.
pub data Op : Type 0 where
  enqueue : List ℕ → Op
  dequeue : Op

abbrev pub Reply : Type 0
Reply = Errno × Option (List ℕ)

unfoldable pub run : (cap : ℕ) → Queue → List Op → List Reply
unfolding put get
run cap q [] = []
run cap q (enqueue x ∷ ops) = let (rc, q') = put cap eok q x in (rc, none) ∷ run cap q' ops
run cap q (dequeue ∷ ops) = let (rc, out, q') = get eok q in (rc, out) ∷ run cap q' ops
