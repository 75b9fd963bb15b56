-- ===== src/Sim.antt =====
-- A small operating system to run the definitions on: locks that can be taken, and a count of the
-- mappings that are still granted beside the list of the live ones. A mapping's address tells how many
-- were left, and from the address 32768 on none has a physical address.
use qnx_virtio.Common.{
  ℕ, zero, suc, ◌+◌, ◌*◌, ◌≡◌, refl, Bool, true, false, Option, none, some, List, [], ◌∷◌, Errno,
  eok, einval, enomem, minus_one, is_ok, ok, err, arith, if◌then◌else◌, leb, replicate,
  length-replicate,
}
use qnx_virtio.Spinlock.{Spinlock}
use qnx_virtio.Os.{Os, Accounting, MallocFits, Mapping, mapped, unmap}
use qnx_virtio.Virtq.Ownership.{Errnos}

abbrev taken : (l : Bool) → is_ok eok ≡ false → true ≡ l
taken true h = refl
taken false h = h

-- A lock word says whether it is held.
abbrev pub locks : Spinlock
locks = record {
  Lock = Bool;
  spin_init = λ l. (eok, false);
  spin_destroy = λ l. (eok, l);
  spin_lock = λ l. (eok, true);
  spin_unlock = λ l. (eok, false);
  held = λ l. l;
  held-init = λ l h. refl;
  held-lock = λ l h. taken l h;
  held-unlock = λ l h. refl;
}

abbrev pub SimWorld : Type 0
SimWorld = ℕ × List Mapping

-- The live mappings of a world, which keeps their lengths less 1: no mapping has length 0.
abbrev pub view : List Mapping → List Mapping
view [] = []
view ((a, n) ∷ ms) = (a, suc n) ∷ view ms

abbrev sim_mmap : (len : ℕ) → SimWorld → Option ℕ × SimWorld
sim_mmap zero w = (none, w)
sim_mmap (suc len) (zero, ms) = (none, (zero, ms))
sim_mmap (suc len) (suc n, ms) = (some (4096 * n), (n, (4096 * n, len) ∷ ms))

abbrev sim_munmap : (a len : ℕ) → SimWorld → Errno × SimWorld
sim_munmap a zero w = (einval, w)
sim_munmap a (suc len) (n, ms) =
    if mapped (a, len) ms then (eok, (n, unmap (a, len) ms)) else (einval, (n, ms))

abbrev pub sim : Os
sim = record {
  spin = locks;
  World = SimWorld;
  pagesize = 4096;
  mmap = sim_mmap;
  munmap = sim_munmap;
  mem_offset = λ a len w. ((if leb 32768 a then err minus_one else ok (a + 65536)), w);
  errno = λ w. enomem;
  calloc = λ n k w. (some 1, w);
  free = λ a w. w;
  malloc_fifo = λ n w. (some (false, replicate n 0), w);
  free_fifo = λ w. w;
  zero_lock = false;
}

pub sim-MallocFits : MallocFits sim
sim-MallocFits n w l bytes h = ground (arith, length-replicate {A = ℕ} n 0)

pub mmap_some :
    (len : ℕ) (w : SimWorld) (a : ℕ)
    → (sim_mmap len w).0 ≡ some a
    → view (sim_mmap len w).1.1 ≡ (a, len) ∷ view w.1
mmap_some zero w a h = ground (arith, h)
mmap_some (suc len) (zero, ms) a h = ground (arith, h)
mmap_some (suc len) (suc n, ms) a h = ground (arith, h)

pub mmap_none :
    (len : ℕ) (w : SimWorld) → (sim_mmap len w).0 ≡ none → view (sim_mmap len w).1.1 ≡ view w.1
mmap_none zero w h = refl
mmap_none (suc len) (zero, ms) h = refl
mmap_none (suc len) (suc n, ms) h = ground (arith, h)

mapped-view : (a n : ℕ) (ms : List Mapping) → mapped (a, suc n) (view ms) ≡ mapped (a, n) ms
mapped-view a n [] = refl
mapped-view a n ((b, k) ∷ ms) = ground (arith, mapped-view a n ms)

unmap-view : (a n : ℕ) (ms : List Mapping) → unmap (a, suc n) (view ms) ≡ view (unmap (a, n) ms)
unmap-view a n [] = refl
unmap-view a n ((b, k) ∷ ms) = ground (arith, unmap-view a n ms)

mapped-zero : (a : ℕ) (ms : List Mapping) → mapped (a, 0) (view ms) ≡ false
mapped-zero a [] = refl
mapped-zero a ((b, k) ∷ ms) = ground (arith, mapped-zero a ms)

pub munmap_mapped :
    (a len : ℕ) (w : SimWorld)
    → mapped (a, len) (view w.1) ≡ true
    → (is_ok (sim_munmap a len w).0 ≡ true)
      × (view (sim_munmap a len w).1.1 ≡ unmap (a, len) (view w.1))
munmap_mapped a zero (n, ms) h = ground (arith, h, mapped-zero a ms)
munmap_mapped a (suc len) (n, ms) h = ground (arith, h, mapped-view a len ms, unmap-view a len ms)

pub munmap_err :
    (a len : ℕ) (w : SimWorld)
    → is_ok (sim_munmap a len w).0 ≡ false
    → view (sim_munmap a len w).1.1 ≡ view w.1
munmap_err a zero w h = refl
munmap_err a (suc len) (n, ms) h = ground (arith, h)

unfoldable pub sim-Accounting : Accounting sim
sim-Accounting = record {
  mappings = λ w. view w.1;
  mmap-some = mmap_some;
  mmap-none = mmap_none;
  munmap-mapped = munmap_mapped;
  munmap-zero = λ a w. refl;
  munmap-err = munmap_err;
  mem_offset-same = λ a len w. refl;
  calloc-same = λ n k w. refl;
  free-same = λ a w. refl;
  malloc_fifo-same = λ n w. refl;
  free_fifo-same = λ w. refl;
}

pub sim-Errnos : Errnos sim
sim-Errnos = record { errno-mmap = λ len w h. refl; errno-mem_offset = λ a len w e h. refl }
