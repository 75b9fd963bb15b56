-- ===== src/Virtio/Keeps.antt =====
-- src/virtio/virtio.c: what every operation of the transport keeps is kept by the creation of a
-- queue, whatever fails on the way.
use qnx_virtio.Common.{
  ℕ, zero, suc, ◌-◌, ◌≡◌, Bool, true, false, Option, none, some, Errno, is_ok, Result, ok, err,
  if◌then◌else◌, ltb, ◌==◌, ◌&&◌, not, min,
}
use qnx_virtio.Spinlock.{Spinlock}
use qnx_virtio.Virtq.{Virtq}
use qnx_virtio.Virtio.{Ops, Device, call, on_queue, select_queue, get_queue_reset}
use qnx_virtio.Virtio.Reset.{Delay, pause, poll_queue}

-- The operations that act on queues, and the passing of time, keep `Inv`.
pub record Keeps {L T : Type 0} (ops : Ops L T) (delay : Delay T) (Inv : T → Type 0) : Type 0 where
  pub sleep : (n : ℕ) (t : T) → Inv t → Inv (delay n t).1
  pub addr : (b : Bool) (vq : Option (Virtq L)) (t : T) → Inv t → Inv (ops.set_queue_addr b vq t).1
  pub select : (i : ℕ) (t : T) → Inv t → Inv (ops.select_queue i t).1
  pub enable : (b : Bool) (t : T) → Inv t → Inv (ops.enable_queue b t).1
  pub set_reset : (t : T) → Inv t → Inv (ops.set_queue_reset t).1
  pub get_reset : (t : T) → Inv t → Inv (ops.get_queue_reset t).1
  pub max_size : (t : T) → Inv t → Inv (ops.max_queue_size t).1
  pub set_size : (n : ℕ) (t : T) → Inv t → Inv (ops.set_queue_size n t).1

abbrev HoldsIfAny : {T : Type 0} → (T → Type 0) → Option T → Type 0
HoldsIfAny Inv none = Unit {0}
HoldsIfAny Inv (some t) = Inv t

module _ {L T : Type 0} (delay : Delay T) (Inv : T → Type 0) where
  -- A device whose operations keep `Inv`, and on which it holds.
  pub record Good (ops : Ops L T) (dev : Device L T) : Type 0 where
    pub same : dev.ops ≡ ops
    pub keeps : Keeps dev.ops delay Inv
    pub holds : Inv dev.priv

  abbrev pub GoodIfAny : Ops L T → Option (Device L T) → Type 0
  GoodIfAny ops none = Unit {0}
  GoodIfAny ops (some dev) = Good ops dev

  abbrev pub GoodResult : {A : Type 0} → Ops L T → Option (A × Option (Device L T)) → Type 0
  GoodResult ops none = Unit {0}
  GoodResult ops (some (a, dev)) = GoodIfAny ops dev

  pub Good-record :
      {ops : Ops L T} {dev : Device L T} (l : L) (t : T)
      → Good ops dev
      → Inv t
      → Good ops (record dev { lock = l; priv = t })
  Good-record l t g h = record { same = g.same; keeps = g.keeps; holds = h }

pub Good-if :
    {A : Type 0} (P : A → Type 0) (b : Bool) (x y : A) → P x → P y → P (if b then x else y)
Good-if P true x y p q = p
Good-if P false x y p q = q

module _ (s : Spinlock) {T : Type 0} (delay : Delay T) (Inv : T → Type 0) (ops : Ops s.Lock T) where
  open s use {Lock, spin_lock, spin_unlock}

  pub on_queue-Good :
      {A : Type 0} (failed : Errno → A) (dev : Device Lock T) (index : ℕ) (op : T → A × T)
      → ((t : T) → Inv t → Inv (op t).1)
      → Good delay Inv ops dev
      → Good delay Inv ops (on_queue s failed dev index op).1
  unfolding on_queue select_queue
  on_queue-Good {A} failed dev index op keep g =
      let (rc, l) = spin_lock dev.lock in
      let locked : Device Lock T = record dev { lock = l } in
      let selected : Device Lock T = (select_queue locked index).1 in
      let chosen =
        Good-record delay Inv l selected.priv g (g.keeps.select index dev.priv g.holds) in
      let acted =
        Good-if (λ (r : A × Device Lock T). Good delay Inv ops r.1)
          (is_ok (select_queue locked index).0) (call selected op)
          (failed (select_queue locked index).0, selected)
          (Good-record delay Inv l (op selected.priv).1 g (keep selected.priv chosen.holds))
          chosen in
      Good-if (λ (r : A × Device Lock T). Good delay Inv ops r.1) (is_ok rc) _ _
        (Good-record delay Inv _ _ acted acted.holds) (Good-record delay Inv l dev.priv g g.holds)

  pause-Good :
      (fuel n : ℕ) (t : T)
      → ((n : ℕ) (t : T) → Inv t → Inv (delay n t).1)
      → Inv t
      → HoldsIfAny Inv (pause s delay fuel n t)
  unfolding pause
  pause-Good zero n t sleep h = Good-if (HoldsIfAny Inv) (ltb 0 n) none (some t) tt h
  pause-Good (suc fuel) n t sleep h =
      Good-if (HoldsIfAny Inv) (ltb 0 n) _ (some t)
        (pause-Good fuel (delay n t).0 (delay n t).1 sleep (sleep n t h)) h

  abbrev Polled : Type 0
  Polled = Option (Errno × Option (Device Lock T))

  Good-slept :
      (o : Option T) (k : T → Polled)
      → HoldsIfAny Inv o
      → ((t : T) → Inv t → GoodResult delay Inv ops (k t))
      → GoodResult delay Inv ops (elim o as (λ _. Polled) [ none ↦ none | some t ↦ k t ])
  Good-slept none k h good = tt
  Good-slept (some t) k h good = good t h

  Good-read :
      (r : Result ℕ) (dev : Device Lock T) (k : ℕ → Polled)
      → Good delay Inv ops dev
      → ((n : ℕ) → GoodResult delay Inv ops (k n))
      → GoodResult delay Inv ops
          (elim r as (λ _. Polled) [ err rc ↦ some (rc, some dev) | ok n ↦ k n ])
  Good-read (err rc) dev k g good = g
  Good-read (ok n) dev k g good = good n

  pub poll_queue-Good :
      (fuel index queue_reset remaining : ℕ) (dev : Device Lock T)
      → Good delay Inv ops dev
      → GoodResult delay Inv ops (poll_queue s delay fuel index queue_reset remaining dev)
  unfolding poll_queue get_queue_reset
  poll_queue-Good zero index queue_reset remaining dev g = tt
  poll_queue-Good (suc fuel) index queue_reset remaining dev g =
      let interval = dev.device_reset_poll_interval_ms in
      Good-if (GoodResult delay Inv ops) (not (queue_reset == 0) && ltb 0 remaining) _ _
        (Good-slept (pause s delay interval interval dev.priv) _
          (pause-Good interval interval dev.priv g.keeps.sleep g.holds)
          λ t h.
            (let next =
                on_queue-Good err (record dev { priv = t }) index dev.ops.get_queue_reset
                  g.keeps.get_reset (Good-record delay Inv dev.lock t g h) in
              Good-read _ _ _ next λ n.
                poll_queue-Good fuel index n
                  (remaining - min remaining dev.queue_reset_poll_interval_ms) _ next))
        g
