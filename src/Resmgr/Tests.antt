-- ===== src/Resmgr/Tests.antt =====
-- Runs of the resource manager on a chip that keeps its lines' values, and on a small system.
use qnx_virtio.Common.{
  ℕ, zero, suc, ◌≡◌, refl, Bool, true, false, not, ◌&&◌, ◌||◌, Option, none, some, List, [], ◌∷◌,
  eok, enomem, ok, arith, ◌==◌, if◌then◌else◌,
}
use qnx_virtio.Resmgr.{File, GpioCalls, resmgr_write, resmgr_read}
use qnx_virtio.Resmgr.Files.{read-write}
use qnx_virtio.Resmgr.Run.{ResmgrSystem, attach_all, attach_lines}
use qnx_virtio.Resmgr.Names.{Names, attach_all-keeps_chip}

-- The values of the lines.
abbrev Lines : Type 0
Lines = ℕ → ℕ

abbrev chip_calls : GpioCalls Lines
chip_calls = record {
  set_value = λ gpio value d. some (eok, some 0, λ k. if k == gpio then value else d k);
  get_value = λ gpio d. some (eok, some (d gpio), d);
  get_direction = λ gpio d. some (eok, some 1, d);
  num_gpios = λ d. ok 4;
  get_chip_index = λ d. ok 0;
}

abbrev low : Lines
low k = 0

-- The file of line 3.
abbrev line3 : File
line3 = record { index = 3; value = 0; nbytes = 1; offset = 0 }

abbrev high3 : Lines
high3 k = if k == 3 then 1 else low k

read-write_example :
    (end : File) × (resmgr_write chip_calls eok 1 (ok 49) line3 low ≡ some (eok, some 1, high3))
    × (resmgr_read chip_calls eok 512 line3 high3 ≡ some (eok, some 1, end, high3))
    × (end.value ≡ 49)
    × (resmgr_read chip_calls eok 512 end high3 ≡ some (eok, some 0, end, high3))
read-write_example =
    read-write chip_calls 512 512 49 line3 line3 low high3 high3 (some 0) refl refl refl refl refl
      (omega arith)

-- The ids that are left, and those that are attached.
abbrev Desk : Type 0
Desk = ℕ × List ℕ

abbrev among : ℕ → List ℕ → Bool
among k [] = false
among k (i ∷ is) = k == i || among k is

abbrev without : ℕ → List ℕ → List ℕ
without k [] = []
without k (i ∷ is) = if i == k then without k is else i ∷ without k is

abbrev taken : List ℕ → ℕ → Desk → Option ℕ × Desk
taken is i (n, js) = if among i js then (none, (n, js)) else (some i, (n, i ∷ js))

abbrev take_id : Desk → Option ℕ × Desk
take_id (zero, is) = (none, (zero, is))
take_id (suc n, is) = taken is n (n, is)

among-without : (i k : ℕ) (is : List ℕ) → among k (without i is) ≡ (not (k == i) && among k is)
among-without i k [] = ground arith
among-without i k (j ∷ is) = ground (arith, among-without i k is)

abbrev desk : ResmgrSystem Desk
desk = record {
  errno = λ w. enomem;
  dispatch_create = λ w. (true, w);
  dispatch_destroy = λ w. w;
  calloc = λ b w. (true, w);
  free = λ b w. w;
  resmgr_attach = λ node w. take_id w;
  resmgr_detach = λ id (n, is). (n, without id is);
  dispatch_context_alloc = λ w. (true, w);
  serve = λ w. (false, w);
}

take_id-new : (w : Desk) (i : ℕ) → (take_id w).0 ≡ some i → among i w.1 ≡ false
take_id-new (zero, is) i h = ground (arith, h)
take_id-new (suc n, is) i h = ground (arith, h)

take_id-some :
    (w : Desk) (i k : ℕ)
    → (take_id w).0 ≡ some i
    → among k (take_id w).1.1 ≡ (k == i || among k w.1)
take_id-some (zero, is) i k h = ground (arith, h)
take_id-some (suc n, is) i k h = ground (arith, h)

take_id-none : (w : Desk) (k : ℕ) → (take_id w).0 ≡ none → among k (take_id w).1.1 ≡ among k w.1
take_id-none (zero, is) k h = refl
take_id-none (suc n, is) k h = ground (arith, h)

desk_names : Names desk
desk_names = record {
  attached = λ w k. among k w.1;
  attach-new = λ node w i h. take_id-new w i h;
  attach-some = λ node w i k h. take_id-some w i k h;
  attach-none = λ node w k h. take_id-none w k h;
  detach-not = λ i w k. among-without i k w.1;
  free-same = λ b w k. refl;
  destroy-same = λ w k. refl;
}

-- Three names can be attached: those of the chip and of the first two of four lines.
attach_all-keeps_chip_example :
    (w' : Desk) × (attach_all desk 1 4 (3, 7 ∷ []) ≡ some (enomem, w')) × (among 2 w'.1 ≡ true)
unfolding attach_lines desk_names
attach_all-keeps_chip_example =
    attach_all-keeps_chip desk desk_names 1 4 (3, 7 ∷ []) 2 enomem 2 refl refl
