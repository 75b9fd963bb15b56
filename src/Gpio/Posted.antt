-- ===== src/Gpio/Posted.antt =====
-- A request on its way: the queue before its chain is linked, and after the device has returned it.
use qnx_virtio.Common.{
  ℕ, ◌+◌, ◌<◌, ◌≡◌, ◌≢◌, sym, ap, subst, ◌∙◌, List, [], ◌∷◌, true, some, eok, is_ok, arith, length,
  length-set, get_or-set_self, get_or-set_ne, u16,
}
use qnx_virtio.Spinlock.{Spinlock}
use qnx_virtio.Virtq.{Virtq, Used, DescExtras, desc_at, extras_at, zero_extras, set_desc_context}
use qnx_virtio.Virtq.Chain.{put_desc_chain, get_chain}
use qnx_virtio.Virtq.Frames.{IsReady-tables}
use qnx_virtio.Virtq.Tables.{put_desc_chain-Linked, get_chain-SameTables, link_chain-pair}
use qnx_virtio.Virtq.Ownership.{IsReady, granted_extras}
use qnx_virtio.Virtq.Submit.{Returned, get-put}
use qnx_virtio.Virtq.Walk.{EndsAt}
use qnx_virtio.Gpio.Request.{kept}

-- Two descriptors that are handed out, with the lengths and addresses of their buffers.
pub record Pair {L : Type 0} (vq : Virtq L) (i j len0 len1 : ℕ) (x0 x1 : DescExtras) : Type 0 where
  pub first_in : i < vq.place.num
  pub second_in : j < vq.place.num
  pub first_len : (desc_at vq i).len ≡ len0
  pub second_len : (desc_at vq j).len ≡ len1
  pub first_extra : extras_at vq i ≡ x0
  pub second_extra : extras_at vq j ≡ x1

abbrev pub with_context : ℕ → ℕ → DescExtras
with_context va context = record { vaddr = va; context = some context }

-- The queue of the request, and that of the device's answer.
abbrev pub contextual : {L : Type 0} → Virtq L → (i context : ℕ) → Virtq L
contextual vq i context = kept vq (set_desc_context (some vq) i (some context)).1

abbrev pub answered : (s : Spinlock) → Virtq s.Lock → (i j : ℕ) → Used → Virtq s.Lock
answered s vq i j u = record ((put_desc_chain s vq i (j ∷ [])).1) { used = u }

module _ {L : Type 0} {vq : Virtq L} {i j len0 len1 va0 va1 : ℕ} {q : List ℕ} (r : IsReady vq q)
    (p : Pair vq i j len0 len1 (granted_extras va0) (granted_extras va1)) (ne : i ≢ j)
    (context : ℕ) where
  pub contextual-Pair :
      Pair (contextual vq i context) i j len0 len1 (with_context va0 context) (granted_extras va1)
      × IsReady (contextual vq i context) q
      × ((contextual vq i context).last_seen_used ≡ vq.last_seen_used)
      × ((contextual vq i context).place ≡ vq.place)
      × ((contextual vq i context).desc ≡ vq.desc)
  unfolding set_desc_context
  contextual-Pair =
      let x : DescExtras = record { vaddr = (extras_at vq i).vaddr; context = some context } in
      let same = length-set vq.desc_extras i x in
      let first = get_or-set_self vq.desc_extras i x zero_extras in
      let second = get_or-set_ne vq.desc_extras i j x zero_extras in
      (
        record {
          first_in = ground (arith, p);
          second_in = ground (arith, p);
          first_len = ground (arith, p);
          second_len = ground (arith, p);
          first_extra = ground (arith, p, r, first);
          second_extra = ground (arith, p, r, second);
        },
        record {
          free = ground (arith, p, r);
          capacity = ground (arith, p, r);
          word = ground (arith, p, r);
          table = ground (arith, p, r);
          extras = ground (arith, p, r, same);
          inside = ground (arith, p, r);
        },
        ground (arith, p),
        ground (arith, p),
        ground (arith, p),
      )

module _ (s : Spinlock) (free : (l : s.Lock) → is_ok (s.spin_lock l).0 ≡ true) {vq : Virtq s.Lock}
    {i j len0 len1 : ℕ} {x0 x1 : DescExtras} {q : List ℕ} (r : IsReady vq q)
    (p : Pair vq i j len0 len1 x0 x1) (ends : EndsAt vq.desc i (j ∷ [])) (ne : i ≢ j)
    (u : Used) where
  pub put_chain-Pair :
      Pair (answered s vq i j u) i j len0 len1 x0 x1
      × IsReady (answered s vq i j u) q
      × ((answered s vq i j u).place ≡ vq.place)
      × ((answered s vq i j u).last_seen_used ≡ vq.last_seen_used)
  put_chain-Pair =
      let l = put_desc_chain-Linked s vq i (j ∷ []) in
      let c =
        link_chain-pair vq.desc i j (omega (arith, p.first_in, r.table))
          (omega (arith, p.second_in, r.table)) ne in
      (
        record {
          first_in = ground (arith, p, l);
          second_in = ground (arith, p, l);
          first_len = rw l.desc (c.0 ∙ p.first_len);
          second_len = rw l.desc (c.1 ∙ p.second_len);
          first_extra = rw l.desc_extras p.first_extra;
          second_extra = rw l.desc_extras p.second_extra;
        },
        IsReady-tables r l.free_descs l.place (rw l.desc c.2) (ap length l.desc_extras),
        l.place,
        l.seen,
      )

  pub taken_chain :
      Returned vq u i
      → let (chain, vq') = get_chain s (answered s vq i j u) 2 in
        (chain ≡ (eok, some 2, i ∷ j ∷ []))
        × (vq'.last_seen_used ≡ u16 (vq.last_seen_used + 1))
        × (vq'.used ≡ u)
        × (vq'.place ≡ vq.place)
        × Pair vq' i j len0 len1 x0 x1
        × IsReady vq' q
  taken_chain ret =
      let (p', r', place, seen) = put_chain-Pair in
      let t = get_chain-SameTables s (answered s vq i j u) 2 in
      let chain =
        get-put s vq i (j ∷ []) u 2 free
          record {
            distinct = (((ne), tt), (tt, tt));
            below = (omega (arith, p.first_in, r.table), (omega (arith, p.second_in, r.table), tt));
            ends = ends;
          }
          ret in
      (
        ap (λ c. c.0) chain,
        ap (λ c. c.1) chain,
        t.used,
        t.place ∙ place,
        record {
          first_in = subst (λ pl. i < pl.num) (sym t.place) p'.first_in;
          second_in = subst (λ pl. j < pl.num) (sym t.place) p'.second_in;
          first_len = rw t.desc p'.first_len;
          second_len = rw t.desc p'.second_len;
          first_extra = rw t.desc_extras p'.first_extra;
          second_extra = rw t.desc_extras p'.second_extra;
        },
        IsReady-tables r' t.free_descs t.place (ap length t.desc) (ap length t.desc_extras),
      )
