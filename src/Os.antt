-- ===== src/Os.antt =====
-- The calls of the operating system that the driver makes and does not implement: memory mappings,
-- physical addresses, heap blocks and the errno of the last failure, over an abstract state.
use qnx_virtio.Common.{
  ℕ, ◌≡◌, Bool, true, false, Option, none, some, List, [], ◌∷◌, ◌&&◌, ◌==◌, if◌then◌else◌, Errno,
  is_ok, Result, length,
}
use qnx_virtio.Spinlock.{Spinlock}

-- A mapping: its address and its length.
abbrev pub Mapping : Type 0
Mapping = ℕ × ℕ

-- Whether a mapping is live, and the mappings without it.
abbrev pub mapped : Mapping → List Mapping → Bool
mapped m [] = false
mapped (a, n) ((b, k) ∷ ms) = if (a == b) && (n == k) then true else mapped (a, n) ms

abbrev pub unmap : Mapping → List Mapping → List Mapping
unmap m [] = []
unmap (a, n) ((b, k) ∷ ms) = if (a == b) && (n == k) then ms else (b, k) ∷ unmap (a, n) ms

pub record Os : Type 1 where
  pub spin : Spinlock
  pub World : Type 0
  -- `getpagesize()`
  pub pagesize : ℕ
  -- `mmap64(0, len, …)` of anonymous memory: an address, or `MAP_FAILED`.
  pub mmap : (len : ℕ) → World → Option ℕ × World
  pub munmap : (addr len : ℕ) → World → Errno × World
  -- `mem_offset64`: the physical address, or the code that is returned.
  pub mem_offset : (addr len : ℕ) → World → Result ℕ × World
  pub errno : World → Errno
  -- `calloc`: a block, or a null pointer.
  pub calloc : (count size : ℕ) → World → Option ℕ × World
  pub free : ℕ → World → World
  -- `malloc` of a `struct fifo`: its uninitialised lock word and data bytes.
  pub malloc_fifo : (bytes : ℕ) → World → Option (spin.Lock × List ℕ) × World
  pub free_fifo : World → World
  -- The lock word of a zeroed structure.
  pub zero_lock : spin.Lock

-- The documented effect of these calls on the live mappings.
pub record Accounting (os : Os) : Type 0 where
  pub mappings : os.World → List Mapping
  pub mmap-some :
      (len : ℕ) (w : os.World) (a : ℕ)
      → (os.mmap len w).0 ≡ some a
      → mappings (os.mmap len w).1 ≡ (a, len) ∷ mappings w
  pub mmap-none :
      (len : ℕ) (w : os.World) → (os.mmap len w).0 ≡ none → mappings (os.mmap len w).1 ≡ mappings w
  pub munmap-mapped :
      (a len : ℕ) (w : os.World)
      → mapped (a, len) (mappings w) ≡ true
      → (is_ok (os.munmap a len w).0 ≡ true)
        × (mappings (os.munmap a len w).1 ≡ unmap (a, len) (mappings w))
  -- A length of 0 is an error, and an error unmaps nothing.
  pub munmap-zero : (a : ℕ) (w : os.World) → is_ok (os.munmap a 0 w).0 ≡ false
  pub munmap-err :
      (a len : ℕ) (w : os.World)
      → is_ok (os.munmap a len w).0 ≡ false
      → mappings (os.munmap a len w).1 ≡ mappings w
  pub mem_offset-same : (a len : ℕ) (w : os.World) → mappings (os.mem_offset a len w).1 ≡ mappings w
  pub calloc-same : (n k : ℕ) (w : os.World) → mappings (os.calloc n k w).1 ≡ mappings w
  pub free-same : (a : ℕ) (w : os.World) → mappings (os.free a w) ≡ mappings w
  pub malloc_fifo-same : (n : ℕ) (w : os.World) → mappings (os.malloc_fifo n w).1 ≡ mappings w
  pub free_fifo-same : (w : os.World) → mappings (os.free_fifo w) ≡ mappings w

-- A block that `malloc` grants has the bytes asked for.
abbrev pub MallocFits : Os → Type 0
MallocFits os =
    (n : ℕ) (w : os.World) (l : os.spin.Lock) (bytes : List ℕ)
    → (os.malloc_fifo n w).0 ≡ some (l, bytes)
    → length bytes ≡ n
