-- ===== src/Virtio/Polling.antt =====
-- src/virtio/virtio.c: how often the reset of a device polls, and what it answers.
use native.Mathlib.Decide.{dec_lt}
use native.Mathlib.Nat.{div-eq-sub-div, div-eq_of_lt}
use qnx_virtio.Common.{
  ℕ, zero, suc, ◌+◌, ◌-◌, ◌/◌, ◌≤◌, ◌<◌, ◌≡◌, refl, ap, inl, inr, Bool, none, some, true, false,
  eok, etimedout, ok, arith, if◌then◌else◌, ◌==◌, ◌||◌, subst, ltb, min, Bool-cases,
}
use qnx_virtio.Spinlock.{Spinlock}
use qnx_virtio.Virtio.{Device, get_device_status}
use qnx_virtio.Virtio.Reset.{Delay, pause, poll_device, reset_device}

-- Time passes in every call of `delay`.
abbrev pub Passes : {T : Type 0} → Delay T → Type 0
Passes {T} delay = (n : ℕ) (t : T) → 0 < n → (delay n t).0 < n

-- The number of polls in `remaining` milliseconds: the quotient, rounded up.
abbrev pub rounds : (remaining interval : ℕ) → ℕ
rounds remaining interval = (remaining + interval - 1) / interval

rounds-step : (r k : ℕ) → 0 < k → 0 < r → rounds r k ≡ suc (rounds (r - min r k) k)
rounds-step r k h p = elim (dec_lt r k) [
  | yes lt ↦ omega (
    arith,
    div-eq-sub-div {m = k} {n = r + k - 1} h (omega arith),
    ap (λ x. (x + k - 1) / k) (last_one lt),
    ap (λ x. x / k) (all_off),
    div-eq_of_lt {n = r - 1} {m = k} (omega arith),
    div-eq_of_lt {n = 0 + k - 1} {m = k} (omega arith),
  )
  | no ge ↦ omega (
    arith,
    div-eq-sub-div {m = k} {n = r + k - 1} h (omega arith),
    ap (λ x. x / k) (all_off),
    ap (λ x. x / k) (one_off ge),
  )
]
  where
    last_one : r < k → r - min r k ≡ 0
    last_one lt = omega arith

    all_off : r + k - 1 - k ≡ r - 1
    all_off = omega arith

    one_off : ¬ (r < k) → r - min r k + k - 1 ≡ r - 1
    one_off ge = omega arith

module _ (s : Spinlock) {T : Type 0} (delay : Delay T) (passes : Passes delay) where
  open s use {Lock}

  pub pause-ends : (fuel n : ℕ) (t : T) → n ≤ fuel → (t' : T) × (pause s delay fuel n t ≡ some t')
  unfolding pause
  pause-ends zero n t h = (t, ground arith)
  pause-ends (suc fuel) n t h = elim (Bool-cases (ltb 0 n)) [
    | inl more ↦ rw more (pause-ends fuel (delay n t).0 (delay n t).1 (ground (arith, passes n t)))
    | inr done ↦ rw done (t, refl)
  ]

  -- A device at transport state `t`, which reads its status and never fails at it.
  module _ (dev : Device Lock T) (status : T → ℕ)
      (reads : (t : T) → (dev.ops.get_device_status t).0 ≡ ok (status t)) where
    abbrev interval : ℕ
    interval = dev.device_reset_poll_interval_ms

    abbrev pub at : T → Device Lock T
    at t = record dev { priv = t }

    -- The transport after one interval of sleep.
    abbrev pub slept : T → T
    slept t = elim (pause s delay interval interval t) [ none ↦ t | some t' ↦ t' ]

    -- Whether the status `st`, read at `t`, or one of the next `n` that are read, is 0.
    abbrev pub answered : (n st : ℕ) → T → Bool
    answered zero st t = st == 0
    answered (suc n) st t =
        (st == 0) || answered n (status (slept t)) (dev.ops.get_device_status (slept t)).1

    -- What `poll_device` comes to with fuel enough.
    abbrev Ends : (fuel st remaining : ℕ) → T → Type 0
    Ends fuel st remaining t =
        (t' : T) × (poll_device s delay fuel st remaining (at t)
          ≡ some (if answered (rounds remaining interval) st t then eok else etimedout, at t'))

    answered_now : (n st : ℕ) (t : T) → (st == 0) ≡ true → answered n st t ≡ true
    answered_now zero st t h = h
    answered_now (suc n) st t h = rw h refl

    poll-answered :
        (fuel st remaining : ℕ) (t : T) → (st == 0) ≡ true → Ends (suc fuel) st remaining t
    unfolding poll_device
    poll-answered fuel st remaining t z =
        rw (answered_now (rounds remaining interval) st t z) (rw z (t, refl))

    poll-over : (fuel st : ℕ) (t : T) → (st == 0) ≡ false → 0 < interval → Ends (suc fuel) st 0 t
    unfolding poll_device
    poll-over fuel st t busy pos =
        rw (div-eq_of_lt {n = 0 + interval - 1} {m = interval} (omega arith)) (rw busy (t, refl))

    woken : (t t1 : T) → pause s delay interval interval t ≡ some t1 → slept t ≡ t1
    woken t t1 p = rw (p, slept) refl

    poll-goes_on :
        (fuel st remaining : ℕ) (t t1 : T)
        → pause s delay interval interval t ≡ some t1
        → (st == 0) ≡ false
        → ltb 0 remaining ≡ true
        → rounds remaining interval ≡ suc (rounds (remaining - min remaining interval) interval)
        → Ends fuel
            (status t1)
            (remaining - min remaining interval)
            (dev.ops.get_device_status t1).1
        → Ends (suc fuel) st remaining t
    unfolding poll_device get_device_status
    poll-goes_on fuel st remaining t t1 p busy more r (t', rest) =
        rw r (rw busy (rw more (rw p (rw (woken t t1 p) (rw (reads t1) (t', rest))))))

    poll_device-Ends :
        (fuel st remaining : ℕ) (t : T) → 0 < interval → remaining < fuel → Ends fuel st remaining t
    poll_device-Ends zero st remaining t pos h = absurd (omega arith)
    poll_device-Ends (suc fuel) st remaining t pos h = elim (Bool-cases (st == 0)) [
      | inl z ↦ poll-answered fuel st remaining t z
      | inr busy ↦ elim (dec_lt 0 remaining) [
        | no none_left ↦
            subst (λ r. Ends (suc fuel) st r t) (omega arith) (poll-over fuel st t busy pos)
        | yes more ↦
            (let (t1, p) = pause-ends interval interval t (omega arith) in
              poll-goes_on fuel st remaining t t1 p busy (ground arith)
                (rounds-step remaining interval pos more)
                (poll_device-Ends fuel _ _ _ pos (omega arith)))
      ]
    ]

    -- If time passes in every sleep, the status can always be read, the poll interval is not 0, the
    -- transport accepts the reset and the fuel exceeds the timeout, `virtio_reset_device` ends with
    -- only the transport's state changed: it answers EOK if one of the statuses read at once and
    -- after each of the timeout / interval rounds of sleep, rounded up, is 0, else ETIMEDOUT.
    pub reset_device-ends :
        (fuel : ℕ) (t : T)
        → 0 < interval
        → dev.device_reset_timeout_ms < fuel
        → (dev.ops.reset_device t).0 ≡ eok
        → (let t1 = (dev.ops.reset_device t).1 in
            (t' : T) × (reset_device s delay fuel (at t)
              ≡ some (
                if answered
                      (rounds dev.device_reset_timeout_ms interval)
                      (status t1)
                      (dev.ops.get_device_status t1).1
                    then eok
                    else etimedout,
                at t',
              )))
    unfolding reset_device get_device_status
    reset_device-ends fuel t pos h accepted =
        rw accepted (rw (reads (dev.ops.reset_device t).1) (poll_device-Ends fuel _ _ _ pos h))
