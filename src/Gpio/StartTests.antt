-- ===== src/Gpio/StartTests.antt =====
-- The start of the GPIO driver on a small device that is reset at once, on the small system `sim`.
use qnx_virtio.Common.{ℕ, ◌≡◌, refl, List, get_or, [], ◌∷◌, some, Bool}
use qnx_virtio.Sim.{sim}
use qnx_virtio.Virtq.Sample.{world, three}
use qnx_virtio.Virtio.{Device, read_device_config, get_device_status, add_device_status}
use qnx_virtio.Virtio.Reset.{reset_device, poll_device}
use qnx_virtio.Gpio.Request.{Driver}
use qnx_virtio.Gpio.Start.{running, bring_up, negotiate, add_status}
use qnx_virtio.Gpio.Handshake.{bring_up-status}
use qnx_virtio.Gpio.Panel.{
  at_status, nap, panel_status, panel_log, negotiated, panel_keeps, memory, zeros, created,
  create_queue-three,
}

-- The device is found with DRIVER_OK set, by a driver that went before.
bring_up-status_example :
    (g : Driver sim (List ℕ)) × (last : Device Bool (List ℕ)) × (get_or negotiated 0 0 ≡ 11)
    × (negotiated ≡ 11 ∷ 3 ∷ 1 ∷ 0 ∷ 4 ∷ [])
    × (bring_up sim nap 1 zeros 0 3 memory (at_status (4 ∷ [])) world ≡ some (running g (some 5)))
    × (g.requestq ≡ three)
    × (g.dev ≡ some last)
    × (get_or last.priv 0 0 ≡ 15)
    × (last.priv ≡ 15 ∷ 11 ∷ 3 ∷ 1 ∷ 0 ∷ 4 ∷ [])
unfolding panel_status negotiate reset_device poll_device get_device_status read_device_config
    add_status add_device_status
bring_up-status_example =
    bring_up-status sim nap (λ l. refl) 1 zeros 0 3 memory (at_status (4 ∷ [])) world (0 ∷ 4 ∷ [])
      panel_status panel_log (4 ∷ 0 ∷ []) (at_status negotiated) created (at_status negotiated)
      three panel_keeps refl refl refl create_queue-three refl refl refl
