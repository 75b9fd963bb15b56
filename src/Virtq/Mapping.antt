-- ===== src/Virtq/Mapping.antt =====
-- src/virtio/virtq.c: the memory of a queue, mapped and unmapped in both layouts.
use qnx_virtio.Common.{
  ℕ, ◌+◌, ◌-◌, Bool, true, false, Option, none, some, Errno, eok, enomem, is_ok, if◌then◌else◌,
}
use qnx_virtio.Os.{Os}
use qnx_virtio.Virtq.{Place}
use qnx_virtio.Virtq.Layout.{
  desc_mem_size, avail_mem_size, used_mem_size, legacy_mem_size, legacy_used_offset,
}

-- The structure as `calloc` leaves it.
abbrev pub zero_place : Place
zero_place = record {
  num = 0;
  legacy = false;
  desc_vaddr = 0;
  desc_paddr = 0;
  avail_vaddr = 0;
  avail_paddr = 0;
  used_vaddr = 0;
  used_paddr = 0;
  desc_bytes = 0;
  avail_bytes = 0;
  used_bytes = 0;
}

module _ (os : Os) where
  open os use {World, pagesize, mmap, munmap, errno}

  -- What `mmap64` maps: the address, and how many bytes from it on.
  abbrev pub map_bytes : (len : ℕ) → World → Option (ℕ × ℕ) × World
  map_bytes len w =
      let (mapping, w1) = mmap len w in
      (elim mapping as (λ _. Option (ℕ × ℕ)) [ none ↦ none | some a ↦ some (a, len) ], w1)

  unfoldable pub create_legacy : Place → (num : ℕ) → World → Errno × Place × World
  unfolding desc_mem_size legacy_mem_size legacy_used_offset
  create_legacy p num w =
      let (mapping, w1) = map_bytes (legacy_mem_size num pagesize) w in
      elim mapping [
        | none ↦ (errno w1, record p { legacy = true }, w1)
        | some (a, len) ↦ (
          eok,
          record p {
            legacy = true;
            desc_vaddr = a;
            avail_vaddr = a + desc_mem_size num;
            used_vaddr = a + legacy_used_offset num pagesize;
            desc_bytes = len;
            avail_bytes = len - desc_mem_size num;
            used_bytes = len - legacy_used_offset num pagesize;
          },
          w1,
        )
      ]

  unfoldable pub destroy_legacy : Place → World → Errno × World
  unfolding legacy_mem_size
  destroy_legacy p w =
      let (rc, w1) = munmap p.desc_vaddr (legacy_mem_size p.num pagesize) w in
      if is_ok rc then (eok, w1) else (errno w1, w1)

  -- The three mappings of a modern queue; the labels `unmap_vq_avail` and `unmap_vq_desc` undo them.
  map_used : Place → (num : ℕ) → World → Errno × Place × World
  unfolding desc_mem_size avail_mem_size used_mem_size
  map_used p num w =
      let (mapping, w1) = map_bytes (used_mem_size num) w in
      elim mapping [
        | none ↦
            let w2 = (munmap p.avail_vaddr (avail_mem_size num) w1).1 in
            (enomem, p, (munmap p.desc_vaddr (desc_mem_size num) w2).1)
        | some (a, len) ↦ (eok, record p { used_vaddr = a; used_bytes = len }, w1)
      ]

  map_avail : Place → (num : ℕ) → World → Errno × Place × World
  unfolding desc_mem_size avail_mem_size map_used
  map_avail p num w =
      let (mapping, w1) = map_bytes (avail_mem_size num) w in
      elim mapping [
        | none ↦ (enomem, p, (munmap p.desc_vaddr (desc_mem_size num) w1).1)
        | some (a, len) ↦ map_used (record p { avail_vaddr = a; avail_bytes = len }) num w1
      ]

  unfoldable pub create_modern : Place → (num : ℕ) → World → Errno × Place × World
  unfolding desc_mem_size map_avail
  create_modern p num w =
      let (mapping, w1) = map_bytes (desc_mem_size num) w in
      elim mapping [
        | none ↦ (errno w1, record p { legacy = false }, w1)
        | some (a, len) ↦
            map_avail (record p { legacy = false; desc_vaddr = a; desc_bytes = len }) num w1
      ]

  unfoldable pub destroy_modern : Place → World → Errno × World
  unfolding desc_mem_size avail_mem_size used_mem_size
  destroy_modern p w =
      let (rc, w1) = munmap p.desc_vaddr (desc_mem_size p.num) w in
      if is_ok rc
      then (let (rc', w2) = munmap p.avail_vaddr (avail_mem_size p.num) w1 in
          if is_ok rc'
          then (let (rc'', w3) = munmap p.used_vaddr (used_mem_size p.num) w2 in
              if is_ok rc'' then (eok, w3) else (errno w3, w3))
          else (errno w2, w2))
      else (errno w1, w1)

  unfoldable pub create_place : (legacy : Bool) → (num : ℕ) → World → Errno × Place × World
  create_place legacy num w =
      if legacy then create_legacy zero_place num w else create_modern zero_place num w

  unfoldable pub destroy_place : Place → World → Errno × World
  destroy_place p w = if p.legacy then destroy_legacy p w else destroy_modern p w
