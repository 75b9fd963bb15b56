-- ===== src/Gpio/Flights.antt =====
-- src/gpio/gpio.c: the requests that are in flight, each with two descriptors, two buffers and the
-- context of a caller, and what a driver with such requests looks like. Indices and mappings are
-- counted, since requests come back in any order.
pub mod Alloc
pub mod Launch
pub mod Sent
pub mod Landing
pub mod Batch
pub mod Reach
use qnx_virtio.Common.{
  ℕ, suc, ◌+◌, ◌*◌, ◌%◌, ◌<◌, ◌≡◌, ◌≢◌, refl, ap, List, [], ◌∷◌, ◌++◌, true, arith, length, ◌&&◌,
  if◌then◌else◌, ◌==◌,
}
use qnx_virtio.Os.{Os, Accounting, Mapping, mapped, unmap}
use qnx_virtio.Virtq.{Virtq, desc_at}
use qnx_virtio.Virtq.Ownership.{IsReady, granted_extras}
use qnx_virtio.Gpio.Request.{Driver}
use qnx_virtio.Gpio.Posted.{Pair, with_context}

abbrev pub one : (k x : ℕ) → ℕ
one k x = if k == x then 1 else 0

-- How often an index stands in a list, and a mapping among the live ones.
abbrev pub occurs : ℕ → List ℕ → ℕ
occurs k [] = 0
occurs k (x ∷ xs) = one k x + occurs k xs

abbrev pub one_map : (m m' : Mapping) → ℕ
one_map (a, n) (b, k) = if (a == b) && (n == k) then 1 else 0

abbrev pub lives : Mapping → List Mapping → ℕ
lives m [] = 0
lives m (m' ∷ ms) = one_map m m' + lives m ms

pub record Flight : Type 0 where
  pub first : ℕ
  pub second : ℕ
  pub va0 : ℕ
  pub va1 : ℕ
  pub len : ℕ
  pub context : ℕ

abbrev pub uses_of : ℕ → Flight → ℕ
uses_of k f = one k f.first + one k f.second

abbrev pub uses : ℕ → List Flight → ℕ
uses k [] = 0
uses k (f ∷ fs) = uses_of k f + uses k fs

-- The buffer of a request has 8 bytes.
abbrev pub carries_of : Mapping → Flight → ℕ
carries_of m f = one_map m (f.va0, 8) + one_map m (f.va1, f.len)

abbrev pub carries : Mapping → List Flight → ℕ
carries m [] = 0
carries m (f ∷ fs) = carries_of m f + carries m fs

-- One flight is taken from anywhere in the list, or several, one after the other.
pub data Take (f : Flight) : List Flight → List Flight → Type 0 where
  here : {fs : List Flight} → Take f (f ∷ fs) fs
  there : {h : Flight} {fs rest : List Flight} → Take f fs rest → Take f (h ∷ fs) (h ∷ rest)

pub data TakeAll : List Flight → List Flight → List Flight → Type 0 where
  none_taken : {fs : List Flight} → TakeAll [] fs fs
  taken :
      {f : Flight} {batch fs rest rest' : List Flight}
      → Take f fs rest
      → TakeAll batch rest rest'
      → TakeAll (f ∷ batch) fs rest'

-- The queue holds the flight: its buffers, its context, and the chain of its two descriptors.
pub record Aloft {L : Type 0} (vq : Virtq L) (f : Flight) : Type 0 where
  pub pair : Pair vq f.first f.second 8 f.len (with_context f.va0 f.context) (granted_extras f.va1)
  pub differ : f.first ≢ f.second
  pub next : (desc_at vq f.first).next ≡ f.second
  pub more : (desc_at vq f.first).flags % 2 ≡ 1
  pub last : (desc_at vq f.second).flags % 2 ≡ 0

-- The driver `g` has the requests `fs` in flight and the descriptors `q` free, and besides their
-- buffers the mappings `base` are live. Every descriptor is free once, or used once by one request.
pub record InFlight (os : Os) (T : Type 0) (acc : Accounting os) (base : List Mapping)
    (g : Driver os T) (fs : List Flight) (q : List ℕ) : Type 0 where
  pub ready : IsReady g.requestq q
  pub aloft : (f : Flight) (rest : List Flight) → Take f fs rest → Aloft g.requestq f
  pub room : length q + 2 * length fs ≡ g.requestq.place.num
  pub once : (k : ℕ) → k < g.requestq.place.num → occurs k q + uses k fs ≡ 1
  pub live : (m : Mapping) → lives m (acc.mappings g.world) ≡ carries m fs + lives m base

pub occurs-append : (k : ℕ) (xs ys : List ℕ) → occurs k (xs ++ ys) ≡ occurs k xs + occurs k ys
occurs-append k [] ys = omega arith
occurs-append k (x ∷ xs) ys = omega (arith, occurs-append k xs ys)

pub Take-uses :
    {f : Flight} {fs rest : List Flight} (k : ℕ)
    → Take f fs rest
    → uses k fs ≡ uses_of k f + uses k rest
Take-uses k here = refl
Take-uses k (there t) = omega (arith, Take-uses k t)

pub Take-carries :
    {f : Flight} {fs rest : List Flight} (m : Mapping)
    → Take f fs rest
    → carries m fs ≡ carries_of m f + carries m rest
Take-carries m here = refl
Take-carries m (there t) = omega (arith, Take-carries m t)

pub Take-length :
    {f : Flight} {fs rest : List Flight} → Take f fs rest → length fs ≡ suc (length rest)
Take-length here = refl
Take-length (there t) = ap suc (Take-length t)

-- What is in the rest is in the list.
pub Take-rest :
    {f h : Flight} {fs rest rest' : List Flight}
    → Take f fs rest
    → Take h rest rest'
    → (fs' : List Flight) × Take h fs fs'
Take-rest {f} {rest'} here u = (f ∷ rest', there u)
Take-rest (there t) here = (_, here)
Take-rest (there t) (there u) = let (fs', v) = Take-rest t u in (_, there v)

pub mapped-lives : (a n : ℕ) (ms : List Mapping) → 0 < lives (a, n) ms → mapped (a, n) ms ≡ true
mapped-lives a n [] h = absurd (omega arith)
mapped-lives a n ((b, k) ∷ ms) h = ground (arith, mapped-lives a n ms)

pub lives-unmap :
    (m : Mapping) (a n : ℕ) (ms : List Mapping)
    → mapped (a, n) ms ≡ true
    → lives m (unmap (a, n) ms) + one_map m (a, n) ≡ lives m ms
lives-unmap m a n [] h = cc
lives-unmap (c, l) a n ((b, k) ∷ ms) h = ground (arith, lives-unmap (c, l) a n ms)
