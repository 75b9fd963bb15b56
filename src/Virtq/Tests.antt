-- ===== src/Virtq/Tests.antt =====
-- Runs of the virtqueue's calls on a modern queue of three descriptors, on the small system `sim`.
use qnx_virtio.Common.{
  ℕ, ◌+◌, ◌%◌, ◌≤◌, ◌≡◌, refl, [], ◌∷◌, Bool, true, false, Option, none, some, write_at, arith, eok,
  is_ok, minus_one, get_or, leb, length,
}
use qnx_virtio.Sim.{sim, locks, sim-Accounting, sim-Errnos, sim-MallocFits, view}
use qnx_virtio.Virtq.{Virtq, Used, desc_at, extras_at, zero_desc, zero_extras}
use qnx_virtio.Virtq.Alloc.{alloc, free_desc}
use qnx_virtio.Virtq.Chain.{entry, put_desc_chain, get_chain, Chain}
use qnx_virtio.Fifo
use qnx_virtio.Virtq.Mapping
use qnx_virtio.Virtq.Create
use qnx_virtio.Virtq.Create.{create, locate_desc}
use qnx_virtio.Virtq.Fits.{legacy_layout}
use qnx_virtio.Virtq.Fresh.{IsFresh, create-IsFresh}
use qnx_virtio.Virtq.Layout.{
  desc_mem_size, avail_mem_size, used_mem_size, legacy_mem_size, legacy_used_offset,
}
use qnx_virtio.Virtq.Ownership.{IsReady, alloc-granted, alloc-refused, free_desc-returns}
use qnx_virtio.Virtq.Sample.{later, three, three-IsReady}
use qnx_virtio.Virtq.Submit.{IsChain, put_publishes, get-put}
use qnx_virtio.Virtq.Unwind.{create-leaks}

abbrev made_of : Option (Virtq Bool) → Virtq Bool
made_of none = three
made_of (some vq) = vq

-- A legacy queue, in one mapping of two pages.
abbrev legacy_three : Virtq Bool
legacy_three = made_of (create sim 3 true true (7, [])).1

create-IsFresh_example : IsFresh legacy_three 3
unfolding create Mapping.create_place Mapping.create_legacy locate_desc Create.locate_avail
    Create.locate_used Create.make_extras Create.make_free Create.fill_free Create.finish
    Fifo.create Fifo.put Fifo.store write_at desc_mem_size avail_mem_size used_mem_size
    legacy_used_offset legacy_mem_size
create-IsFresh_example =
    create-IsFresh sim sim-MallocFits (λ l. refl) 3 (omega arith) (omega arith) legacy_three
      sim-Errnos true (7, []) (λ e. (omega arith, omega arith)) refl

abbrev none_left : Virtq Bool
none_left = record three { free_descs = record (three.free_descs) { count = 0 } }

none_left-IsReady : IsReady none_left []
none_left-IsReady = record {
  free = record {
    valid = record {
      room = omega arith;
      small = omega arith;
      head_in = omega arith;
      count_in = omega arith;
      tail_at = refl;
    };
    two = refl;
    holds = refl;
    small = tt;
  };
  capacity = refl;
  word = omega arith;
  table = refl;
  extras = refl;
  inside = tt;
}

alloc-granted_example :
    let (rc, idx, vq', w') = alloc sim three 64 true later in
    (rc ≡ eok)
    × (idx ≡ some 0)
    × IsReady vq' (1 ∷ 2 ∷ [])
    × (desc_at vq' 0 ≡ record { addr = 81920; len = 64; flags = 2; next = 0 })
    × (extras_at vq' 0 ≡ record { vaddr = 16384; context = none })
    × (desc_at vq' 1 ≡ desc_at three 1)
    × (view w'.1 ≡ (16384, 64) ∷ view later.1)
unfolding sim-Accounting
alloc-granted_example =
    alloc-granted sim sim-Accounting sim-Errnos (λ l. refl) three 0 (1 ∷ 2 ∷ []) 64 true later 16384
      81920 1 three-IsReady refl refl (λ e. omega arith)

alloc-refused_example :
    let (rc, idx, vq', w') = alloc sim three 64 true (0, later.1) in
    (is_ok rc ≡ false)
    × IsReady vq' (1 ∷ 2 ∷ 0 ∷ [])
    × (vq'.desc ≡ three.desc)
    × (vq'.desc_extras ≡ three.desc_extras)
    × (view w'.1 ≡ view later.1)
unfolding sim-Accounting
alloc-refused_example =
    alloc-refused sim sim-Accounting sim-Errnos (λ l. refl) three 0 (1 ∷ 2 ∷ []) 64 true
      (0, later.1) three-IsReady refl

-- Descriptor 1 is in use, and its buffer is mapped.
abbrev busy : Virtq Bool
busy = record none_left {
  desc = zero_desc ∷ record { addr = 81920; len = 64; flags = 0; next = 0 } ∷ zero_desc ∷ [];
  desc_extras = zero_extras ∷ record { vaddr = 16384; context = none } ∷ zero_extras ∷ [];
}

busy-IsReady : IsReady busy []
busy-IsReady = record {
  free = none_left-IsReady.free;
  capacity = refl;
  word = omega arith;
  table = refl;
  extras = refl;
  inside = tt;
}

free_desc-returns_example :
    let (rc, vq', w') = free_desc sim busy 1 (4, (16384, 63) ∷ later.1) in
    (rc ≡ eok)
    × IsReady vq' (1 ∷ [])
    × (desc_at vq' 1 ≡ zero_desc)
    × (extras_at vq' 1 ≡ zero_extras)
    × (desc_at vq' 0 ≡ zero_desc)
    × (view w'.1 ≡ view later.1)
unfolding sim-Accounting
free_desc-returns_example =
    free_desc-returns sim sim-Accounting sim-Errnos (λ l. refl) busy 1 0 []
      (4, (16384, 63) ∷ later.1) busy-IsReady (omega arith) (omega arith) refl (λ e. omega arith)

-- The chain of the descriptors 2 and 0, which the device returns.
abbrev returned : Used
returned = record { flags = 0; idx = 1; ring = record { id = 2; len = 8 } ∷ [] }

abbrev chain : IsChain three 2 (0 ∷ [])
chain = record {
  distinct = (((λ e. omega arith), tt), (tt, tt));
  below = (omega arith, (omega arith, tt));
  ends = refl;
}

get-put_example :
    let (read, vq') =
      get_chain locks (record ((put_desc_chain locks three 2 (0 ∷ [])).1) { used = returned }) 2 in
    ◌≡◌ {A = Chain × ℕ} (read, vq'.last_seen_used) ((eok, some 2, 2 ∷ 0 ∷ []), 1)
get-put_example =
    get-put locks three 2 (0 ∷ []) returned 2 (λ l. refl) chain
      record { small = omega arith; new = λ e. omega arith; head = refl }

put_publishes_example :
    let vq' = (put_desc_chain locks three 2 (0 ∷ [])).1 in
    (vq'.avail.idx ≡ 1)
    × (get_or vq'.avail.ring 0 0 ≡ 2)
    × (entry vq'.desc 1 ≡ entry three.desc 1)
    × (length vq'.desc ≡ 3)
    × (length vq'.avail.ring ≡ 3)
    × (vq'.avail.flags ≡ 0)
    × (vq'.used ≡ three.used)
    × (vq'.last_seen_used ≡ 0)
    × (vq'.free_descs ≡ three.free_descs)
    × (vq'.desc_extras ≡ three.desc_extras)
    × (vq'.place ≡ three.place)
put_publishes_example =
    put_publishes locks three 2 (0 ∷ []) 0 1 (omega arith) refl
      ((λ e. omega arith), ((λ e. omega arith), tt))

-- The descriptor table lies at 32768, which has no physical address.
create-leaks_example :
    let (rc', vq, w') = create sim 3 false true (9, []) in
    (rc' ≡ minus_one)
    × (vq ≡ none)
    × (view w'.1
        ≡ (24576, used_mem_size 3) ∷ (28672, avail_mem_size 3) ∷ (32768, desc_mem_size 3) ∷ [])
unfolding sim-Accounting desc_mem_size avail_mem_size used_mem_size
create-leaks_example =
    create-leaks sim sim-Accounting 3 (9, []) (9, []) (8, (32768, 47) ∷ [])
      (7, (28672, 11) ∷ (32768, 47) ∷ []) (6, (24576, 29) ∷ (28672, 11) ∷ (32768, 47) ∷ [])
      (6, (24576, 29) ∷ (28672, 11) ∷ (32768, 47) ∷ []) 1 32768 28672 24576 minus_one (omega arith)
      refl refl refl refl refl

legacy_layout_example :
    (legacy_used_offset 512 4096 % 4096 ≡ 0)
    × (desc_mem_size 512 + avail_mem_size 512 ≤ legacy_used_offset 512 4096)
    × (leb (legacy_used_offset 512 4096 + used_mem_size 512) (legacy_mem_size 512 4096) ≡ false)
legacy_layout_example = legacy_layout 512 (omega arith)
