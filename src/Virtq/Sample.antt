-- ===== src/Virtq/Sample.antt =====
-- A modern queue of three descriptors on the small system `sim`.
use qnx_virtio.Common.{◌≡◌, ap, refl, [], ◌∷◌, Bool, true, false, some, arith, eok, write_at}
use qnx_virtio.Sim.{sim, SimWorld, sim-MallocFits, sim-Errnos}
use qnx_virtio.Virtq.{Virtq, zero_desc, zero_extras}
use qnx_virtio.Fifo
use qnx_virtio.Virtq.Mapping
use qnx_virtio.Virtq.Create
use qnx_virtio.Virtq.Create.{create, locate_desc}
use qnx_virtio.Virtq.Fresh.{create-IsFresh}
use qnx_virtio.Virtq.Layout.{desc_mem_size, avail_mem_size, used_mem_size}
use qnx_virtio.Virtq.Ownership.{IsReady}

-- Eight mappings can be made, and each has a physical address.
abbrev pub world : SimWorld
world = (8, [])

abbrev pub later : SimWorld
later = (5, (20480, 29) ∷ (24576, 11) ∷ (28672, 47) ∷ [])

-- The queue that `virtq_create` makes there.
abbrev pub three : Virtq Bool
three = record {
  place = record {
    num = 3;
    legacy = false;
    desc_vaddr = 28672;
    desc_paddr = 94208;
    avail_vaddr = 24576;
    avail_paddr = 90112;
    used_vaddr = 20480;
    used_paddr = 86016;
    desc_bytes = 48;
    avail_bytes = 12;
    used_bytes = 30;
  };
  lock = false;
  desc = zero_desc ∷ zero_desc ∷ zero_desc ∷ [];
  avail = record { flags = 0; idx = 0; ring = 0 ∷ 0 ∷ 0 ∷ [] };
  used = record {
    flags = 0;
    idx = 0;
    ring =
        record { id = 0; len = 0 } ∷ record { id = 0; len = 0 } ∷ record { id = 0; len = 0 } ∷ [];
  };
  last_seen_used = 0;
  free_descs = record {
    lock = false;
    head = 0;
    tail = 0;
    count = 3;
    capacity = 3;
    elem_size = 2;
    storage = 0 ∷ 0 ∷ 1 ∷ 0 ∷ 2 ∷ 0 ∷ [];
  };
  desc_extras = zero_extras ∷ zero_extras ∷ zero_extras ∷ [];
}

pub create-three : create sim 3 false true world ≡ (eok, some three, later)
unfolding create Mapping.create_place Mapping.create_modern locate_desc Create.locate_avail
    Create.locate_used Create.make_extras Create.make_free Create.fill_free Create.finish
    Fifo.create Fifo.put Fifo.store write_at desc_mem_size avail_mem_size used_mem_size
create-three = refl

pub three-IsReady : IsReady three (0 ∷ 1 ∷ 2 ∷ [])
three-IsReady =
    (create-IsFresh sim sim-MallocFits (λ l. refl) 3 (omega arith) (omega arith) three sim-Errnos
      false world (λ e. absurd (ground (arith, e))) (ap (λ r. r.1) create-three)).ready
