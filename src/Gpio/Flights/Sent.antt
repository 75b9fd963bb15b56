-- ===== src/Gpio/Flights/Sent.antt =====
-- A request, sent or not, keeps the invariant of the requests in flight.
use qnx_virtio.Common.{
  ℕ, ◌%◌, ◌<◌, ◌≤◌, ◌≡◌, ◌≢◌, refl, sym, ap, subst, ◌∙◌, List, [], ◌∷◌, true, is_ok, arith, length,
  get_or-set_ne, Errno, some, inl, inr, if◌then◌else◌,
}
use qnx_virtio.Os.{Os, Accounting, Mapping}
use qnx_virtio.Virtq.{Virtq, DescExtras, desc_at, extras_at, zero_extras, set_desc_context}
use qnx_virtio.Virtq.Chain.{put_desc_chain, entry}
use qnx_virtio.Virtq.Ownership.{IsReady, Errnos}
use qnx_virtio.Virtq.Tables.{put_desc_chain-Linked}
use qnx_virtio.Virtq.Walk.{EndsAt, entry-link_chain_ne, link_chain-two}
use qnx_virtio.Gpio.{GpioRequest, response_size}
use qnx_virtio.Gpio.Request.{Driver, request, post}
use qnx_virtio.Gpio.Posted.{contextual, contextual-Pair, put_chain-Pair}
use qnx_virtio.Gpio.Flights.{
  Flight, Aloft, InFlight, Take, here, there, Take-uses, occurs, one, lives,
}
use qnx_virtio.Gpio.Flights.Launch.{Unsent, Sends, flight_of, request-outcome}

-- A flight stays aloft while the entries of its two descriptors stay.
pub Aloft-frame :
    {L : Type 0} {vq vq' : Virtq L} {h : Flight}
    → Aloft vq h
    → vq'.place ≡ vq.place
    → desc_at vq' h.first ≡ desc_at vq h.first
    → desc_at vq' h.second ≡ desc_at vq h.second
    → extras_at vq' h.first ≡ extras_at vq h.first
    → extras_at vq' h.second ≡ extras_at vq h.second
    → Aloft vq' h
Aloft-frame {h} a place d0 d1 x0 x1 = record {
  pair = record {
    first_in = subst (λ pl. h.first < pl.num) (sym place) a.pair.first_in;
    second_in = subst (λ pl. h.second < pl.num) (sym place) a.pair.second_in;
    first_len = ap (λ d. d.len) d0 ∙ a.pair.first_len;
    second_len = ap (λ d. d.len) d1 ∙ a.pair.second_len;
    first_extra = x0 ∙ a.pair.first_extra;
    second_extra = x1 ∙ a.pair.second_extra;
  };
  differ = a.differ;
  next = ap (λ d. d.next) d0 ∙ a.next;
  more = ap (λ d. d.flags % 2) d0 ∙ a.more;
  last = ap (λ d. d.flags % 2) d1 ∙ a.last;
}

one_self : (k : ℕ) → one k k ≡ 1
one_self k = ground arith

not_head : (k i j : ℕ) (q rest : List ℕ) → occurs k q ≡ 0 → q ≡ i ∷ j ∷ rest → (k ≢ i) × (k ≢ j)
not_head k i j q rest h e = ((λ s. ground (arith, h, e, s)), (λ s. ground (arith, h, e, s)))

contextual-extras_ne :
    {L : Type 0} (vq : Virtq L) (i context k : ℕ)
    → k ≢ i
    → extras_at (contextual vq i context) k ≡ extras_at vq k
unfolding set_desc_context
contextual-extras_ne vq i context k ne =
    let x : DescExtras = record { vaddr = (extras_at vq i).vaddr; context = some context } in
    ground (arith, get_or-set_ne vq.desc_extras i k x zero_extras)

module _ (os : Os) (T : Type 0) (acc : Accounting os) (base : List Mapping) where
  open os use {spin, World}
  open acc use {mappings}

  -- The descriptors of a request in flight are not free.
  pub InFlight-unfree :
      {g : Driver os T} {fs rest : List Flight} {q : List ℕ} {h : Flight}
      → InFlight os T acc base g fs q
      → Take h fs rest
      → (occurs h.first q ≡ 0) × (occurs h.second q ≡ 0)
  InFlight-unfree {h} v t =
      let a = v.aloft h _ t in
      (
        omega (arith, v.once h.first a.pair.first_in, Take-uses h.first t, one_self h.first),
        omega (arith, v.once h.second a.pair.second_in, Take-uses h.second t, one_self h.second),
      )

  Unsent-InFlight :
      {g : Driver os T} {fs : List Flight} {q back : List ℕ} {o : Errno × Driver os T}
      (err_codes : Errnos os) (free : (l : spin.Lock) → is_ok (spin.spin_lock l).0 ≡ true)
      → InFlight os T acc base g fs q
      → Unsent os T acc err_codes free g q back o
      → InFlight os T acc base o.1 fs back
  Unsent-InFlight {g} {fs} {q} {back} {o} err_codes free v u = record {
    ready = u.ready;
    aloft = λ h rest t.
        (let (first, second) = InFlight-unfree v t in
          Aloft-frame (v.aloft h rest t) u.place (u.entry h.first first) (u.entry h.second second)
            (u.extra h.first first) (u.extra h.second second));
    room = rw u.place (omega (arith, u.order.same_length, v.room));
    once =
        λ k lt. omega (arith, u.order.same_count k, v.once k (subst (λ pl. k < pl.num) u.place lt));
    live = λ m. ap (lives m) u.live ∙ v.live m;
  }

  module _ (err_codes : Errnos os) (free : (l : spin.Lock) → is_ok (spin.spin_lock l).0 ≡ true)
      {g : Driver os T} {fs : List Flight} {req : GpioRequest} {context i j va0 va1 : ℕ}
      {q rest : List ℕ} {vq : Virtq spin.Lock} {w : World} (v : InFlight os T acc base g fs q)
      (s : Sends os T acc err_codes free g req context q i j rest va0 va1 vq w) where
    abbrev sent : Driver os T
    sent = post os T req va0 i j context (record g { requestq = vq; world = w })

    abbrev new_flight : Flight
    new_flight = record {
      first = i;
      second = j;
      va0 = va0;
      va1 = va1;
      len = response_size g req.type;
      context = context;
    }

    abbrev chained : Virtq spin.Lock
    chained = (put_desc_chain spin (contextual vq i context) i (j ∷ [])).1

    sent-requestq : sent.requestq ≡ chained
    unfolding post
    sent-requestq = refl

    sent-world : sent.world ≡ w
    unfolding post
    sent-world = refl

    new_flight-Aloft : Aloft chained new_flight × IsReady chained rest × (chained.place ≡ vq.place)
    new_flight-Aloft =
        let p = s.posted in
        let (pair, ready, seen, place, desc) = contextual-Pair p.ready p.pair s.differ context in
        let c = contextual vq i context in
        let l = put_desc_chain-Linked spin c i (j ∷ []) in
        let ends : EndsAt c.desc i (j ∷ []) = rw desc p.ends in
        let (pair', ready', place', seen') =
          put_chain-Pair spin free ready pair ends s.differ chained.used in
        let (next, more, last) =
          link_chain-two c.desc i j (omega (arith, pair.first_in, ready.table))
            (omega (arith, pair.second_in, ready.table)) s.differ in
        (
          record {
            pair = pair';
            differ = s.differ;
            next = rw l.desc next;
            more = rw l.desc more;
            last = rw l.desc (ap (λ n. n % 2) last ∙ ends);
          },
          ready',
          place' ∙ place,
        )

    chained-ne :
        (k : ℕ)
        → occurs k q ≡ 0
        → (desc_at chained k ≡ desc_at g.requestq k)
          × (extras_at chained k ≡ extras_at g.requestq k)
    chained-ne k h =
        let p = s.posted in
        let (ni, nj) = not_head k i j q rest h s.head in
        let (pair, ready, seen, place, desc) = contextual-Pair p.ready p.pair s.differ context in
        let c = contextual vq i context in
        let l = put_desc_chain-Linked spin c i (j ∷ []) in
        (
          rw l.desc (
              entry-link_chain_ne c.desc i (j ∷ []) k (ni, (nj, tt))
              ∙ ap (λ t. entry t k) desc
              ∙ p.entry_ne k ni nj),
          rw l.desc_extras (contextual-extras_ne vq i context k ni ∙ p.extra_ne k ni nj),
        )

    Sends-InFlight : InFlight os T acc base sent (new_flight ∷ fs) rest
    Sends-InFlight =
        let p = s.posted in
        let (aloft, ready, place) = new_flight-Aloft in
        let place' : chained.place ≡ g.requestq.place = place ∙ p.rings.place in
        let others : (h : Flight) (left : List Flight) → Take h fs left → Aloft chained h =
          λ h left t.
            (let (first, second) = InFlight-unfree v t in
              let (d0, x0) = chained-ne h.first first in
              let (d1, x1) = chained-ne h.second second in
              Aloft-frame (v.aloft h left t) place' d0 d1 x0 x1) in
        record {
          ready = rw sent-requestq ready;
          aloft = λ h left t. rw sent-requestq (either h left aloft others t);
          room = rw sent-requestq (rw place' (omega (arith, ap length s.head, v.room)));
          once = λ k lt. omega (
            arith,
            ap (occurs k) s.head,
            v.once k (subst (λ pl. k < pl.num) (ap (λ x. x.place) sent-requestq ∙ place') lt),
          );
          live = λ m.
              omega
                (arith, ap (λ x. lives m (mappings x)) sent-world, ap (lives m) p.live, v.live m);
        }
      where
        either :
            (h : Flight) (left : List Flight)
            → Aloft chained new_flight
            → ((h : Flight) (left : List Flight) → Take h fs left → Aloft chained h)
            → Take h (new_flight ∷ fs) left
            → Aloft chained h
        either h left new old here = new
        either h left new old (there t) = old h _ t

  -- Whatever comes of a request, the requests in flight are then the old ones, with the new one if
  -- it was sent.
  pub request-InFlight :
      (err_codes : Errnos os) (free : (l : spin.Lock) → is_ok (spin.spin_lock l).0 ≡ true)
      → {g : Driver os T} {fs : List Flight} {q : List ℕ} (req : GpioRequest) (context : ℕ)
      → InFlight os T acc base g fs q
      → let (rc, g') = request os T req context g in
        (q' : List ℕ) × InFlight os T acc base g'
          (if is_ok rc then flight_of os T req context g ∷ fs else fs)
          q'
  request-InFlight err_codes free {g} {fs} {q} req context v =
      let launched = flight_of os T req context g in
      let single : (k : ℕ) → k < g.requestq.place.num → occurs k q ≤ 1 =
        λ k lt. omega (arith, v.once k lt) in
      elim (request-outcome os T acc err_codes free g req context q v.ready single) [
        | inl (i, j, rest, va0, va1, vq, w, s) ↦
            subst
              (λ (o : Errno × Driver os T).
                (q' : List ℕ) × InFlight os T acc base o.1 (if is_ok o.0 then launched ∷ fs else fs)
                  q')
              (sym s.posted.posts)
              (
                rest,
                subst (λ f. InFlight os T acc base (sent err_codes free v s) (f ∷ fs) rest)
                    (sym s.flight) (Sends-InFlight err_codes free v s),
              )
        | inr (back, u) ↦
            subst
              (λ b.
                (q' : List ℕ) × InFlight os T acc base (request os T req context g).1
                  (if b then launched ∷ fs else fs) q')
              (sym u.failed) (back, Unsent-InFlight err_codes free v u)
      ]
