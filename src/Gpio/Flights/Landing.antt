-- ===== src/Gpio/Flights/Landing.antt =====
-- The completion callback on a driver that has requests in flight: one round of its loop.
use qnx_virtio.Common.{
  ℕ, ◌+◌, ◌<◌, ◌≤◌, ◌≡◌, ◌≢◌, refl, ap, subst, ◌∙◌, List, [], ◌∷◌, ◌++◌, true, is_ok, arith, length,
  length-append,
}
use qnx_virtio.Os.{Os, Accounting, Mapping, mapped, unmap}
use qnx_virtio.Spinlock.{Spinlock}
use qnx_virtio.Virtq.{Virtq}
use qnx_virtio.Virtq.Chain.{get_chain}
use qnx_virtio.Virtq.Frames.{SameRings, IsReady-tables}
use qnx_virtio.Virtq.Ownership.{Errnos, granted_extras}
use qnx_virtio.Virtq.Tables.{get_chain-SameTables}
use qnx_virtio.Gpio.Request.{Driver}
use qnx_virtio.Gpio.Callback.{free_both}
use qnx_virtio.Gpio.Exchange.{free_both-Pair}
use qnx_virtio.Gpio.Posted.{with_context}
use qnx_virtio.Gpio.Flights.{
  Flight, InFlight, Take, Take-uses, Take-carries, Take-length, Take-rest, one, one_map, lives,
  occurs-append, mapped-lives, lives-unmap,
}
use qnx_virtio.Gpio.Flights.Sent.{Aloft-frame}

one_map_self : (a n : ℕ) → one_map (a, n) (a, n) ≡ 1
one_map_self a n = ground arith

unused : (k i j : ℕ) → one k i + one k j ≡ 0 → (k ≢ i) × (k ≢ j)
unused k i j h = ((λ e. ground (arith, h, e)), (λ e. ground (arith, h, e)))

used_self : (k j : ℕ) → (1 ≤ one k k + one k j) × (1 ≤ one k j + one k k)
used_self k j = ground arith

-- The queue's tables and its free list are the same.
pub record SameDescs {L : Type 0} (vq vq' : Virtq L) : Type 0 where
  pub place : vq'.place ≡ vq.place
  pub desc : vq'.desc ≡ vq.desc
  pub free_descs : vq'.free_descs ≡ vq.free_descs
  pub desc_extras : vq'.desc_extras ≡ vq.desc_extras

pub get_chain-SameDescs :
    (s : Spinlock) (vq : Virtq s.Lock) (count : ℕ) → SameDescs vq (get_chain s vq count).1
get_chain-SameDescs s vq count =
    let t = get_chain-SameTables s vq count in
    record {
      place = t.place;
      desc = t.desc;
      free_descs = t.free_descs;
      desc_extras = t.desc_extras;
    }

module _ (os : Os) (T : Type 0) (acc : Accounting os) (base : List Mapping) where
  open os use {spin, World}
  open acc use {mappings}

  -- What the queue's tables, its place and the mappings say of the requests in flight.
  pub SameDescs-InFlight :
      {g g' : Driver os T} {fs : List Flight} {q : List ℕ}
      → InFlight os T acc base g fs q
      → SameDescs g.requestq g'.requestq
      → g'.world ≡ g.world
      → InFlight os T acc base g' fs q
  SameDescs-InFlight v t w = record {
    ready =
        IsReady-tables v.ready t.free_descs t.place (ap length t.desc) (ap length t.desc_extras);
    aloft = λ h rest u.
        Aloft-frame (v.aloft h rest u) t.place (rw t.desc refl) (rw t.desc refl)
          (rw t.desc_extras refl) (rw t.desc_extras refl);
    room = rw t.place v.room;
    once = λ k lt. v.once k (subst (λ pl. k < pl.num) t.place lt);
    live = λ m. ap (λ x. lives m (mappings x)) w ∙ v.live m;
  }

  -- Two requests in flight share no descriptor.
  apart :
      {g : Driver os T} {fs rest rest' : List Flight} {q : List ℕ} {f h : Flight}
      → InFlight os T acc base g fs q
      → Take f fs rest
      → Take h rest rest'
      → ((h.first ≢ f.first) × (h.first ≢ f.second))
        × ((h.second ≢ f.first) × (h.second ≢ f.second))
  apart {f} {h} v t u =
      let (fs', u') = Take-rest t u in
      let a = v.aloft h fs' u' in
      (
        unused h.first f.first f.second (
            omega (
              arith,
              v.once h.first a.pair.first_in,
              Take-uses h.first t,
              Take-uses h.first u,
              (used_self h.first h.second).0,
            )),
        unused h.second f.first f.second (
            omega (
              arith,
              v.once h.second a.pair.second_in,
              Take-uses h.second t,
              Take-uses h.second u,
              (used_self h.second h.first).1,
            )),
      )

  module _ (err_codes : Errnos os)
      (free : (l : spin.Lock) → is_ok (spin.spin_lock l).0 ≡ true) where
    -- The buffers of a request in flight are mapped, also the second without the first.
    buffers_mapped :
        {g : Driver os T} {fs rest : List Flight} {q : List ℕ} {f : Flight}
        → InFlight os T acc base g fs q
        → Take f fs rest
        → (mapped (f.va0, 8) (mappings g.world) ≡ true)
          × (mapped (f.va1, f.len) (unmap (f.va0, 8) (mappings g.world)) ≡ true)
    buffers_mapped {g} {f = f} v t =
        let first =
          mapped-lives f.va0 8 (mappings g.world)
            (omega (arith, v.live (f.va0, 8), Take-carries (f.va0, 8) t, one_map_self f.va0 8)) in
        (
          first,
          mapped-lives f.va1 f.len (unmap (f.va0, 8) (mappings g.world)) (
              omega (
                arith,
                lives-unmap (f.va1, f.len) f.va0 8 (mappings g.world) first,
                v.live (f.va1, f.len),
                Take-carries (f.va1, f.len) t,
                one_map_self f.va1 f.len,
              )),
        )

    -- The buffers of a request that comes back are unmapped, and its descriptors are free.
    pub free_both-InFlight :
        {g : Driver os T} {fs rest : List Flight} {q : List ℕ} {f : Flight}
        → InFlight os T acc base g fs q
        → Take f fs rest
        → let g' = free_both os T (f.first, f.second) g in
          InFlight os T acc base g' rest ((q ++ (f.first ∷ [])) ++ (f.second ∷ []))
          × SameRings g.requestq g'.requestq
          × (g'.memory ≡ g.memory)
    free_both-InFlight {g} {fs} {rest} {q} {f} v t =
        let a = v.aloft f rest t in
        let (found0, found1) = buffers_mapped v t in
        let b =
          free_both-Pair os T acc err_codes free g f.first f.second 8 f.len
            (with_context f.va0 f.context) (granted_extras f.va1) q a.pair v.ready a.differ
            (omega (arith, v.room, Take-length t)) found0 found1 in
        (
          record {
            ready = b.ready;
            aloft = λ h rest' u.
                (let ((ff, fs'), (sf, ss)) = apart v t u in
                  Aloft-frame (v.aloft h (Take-rest t u).0 (Take-rest t u).1) b.rings.place
                    (b.entry_ne h.first ff fs') (b.entry_ne h.second sf ss)
                    (b.extra_ne h.first ff fs') (b.extra_ne h.second sf ss));
            room = rw b.rings.place (
                omega (
                  arith,
                  length-append (q ++ (f.first ∷ [])) (f.second ∷ []),
                  length-append q (f.first ∷ []),
                  v.room,
                  Take-length t,
                ));
            once = λ k lt. omega (
              arith,
              occurs-append k (q ++ (f.first ∷ [])) (f.second ∷ []),
              occurs-append k q (f.first ∷ []),
              v.once k (subst (λ pl. k < pl.num) b.rings.place lt),
              Take-uses k t,
            );
            live = λ m. omega (
              arith,
              ap (lives m) b.live,
              lives-unmap m f.va1 f.len (unmap (f.va0, 8) (mappings g.world)) found1,
              lives-unmap m f.va0 8 (mappings g.world) found0,
              v.live m,
              Take-carries m t,
            );
          },
          b.rings,
          b.memory,
        )
