-- ===== src/Gpio/FlightTests.antt =====
-- Two requests in flight on a queue of four descriptors, on the small system `sim`.
use qnx_virtio.Common.{
  ℕ, ◌≡◌, ap, refl, [], ◌∷◌, List, Bool, false, true, none, some, arith, eok, enoent, read_at,
  write_at,
}
use qnx_virtio.Fifo
use qnx_virtio.Sim.{sim, SimWorld, sim-Accounting, sim-Errnos, sim-MallocFits, view}
use qnx_virtio.Virtq.{Virtq, Used, UsedElem, zero_desc, zero_extras, set_desc_context}
use qnx_virtio.Virtq.Alloc.{alloc, fill_desc}
use qnx_virtio.Virtq.Chain.{put_desc_chain}
use qnx_virtio.Virtq.Mapping
use qnx_virtio.Virtq.Create
use qnx_virtio.Virtq.Create.{create, locate_desc}
use qnx_virtio.Virtq.Fresh.{IsFresh, create-IsFresh}
use qnx_virtio.Virtq.Layout.{desc_mem_size, avail_mem_size, used_mem_size}
use qnx_virtio.Gpio.{response_size}
use qnx_virtio.Gpio.Board.{ask, memory}
use qnx_virtio.Gpio.Request.{Driver, request}
use qnx_virtio.Gpio.Callback.{virtq_callback}
use qnx_virtio.Gpio.Flights.{Flight, InFlight, none_taken, taken, here}
use qnx_virtio.Gpio.Flights.Launch.{flight_of}
use qnx_virtio.Gpio.Flights.Batch.{called_back, virtq_callback-InFlight}
use qnx_virtio.Gpio.Flights.Reach.{
  Reaches, begin, requested, others_wrote, others_write, Reaches-InFlight,
}

abbrev world : SimWorld
world = (8, [])

abbrev later : SimWorld
later = (5, (20480, 37) ∷ (24576, 13) ∷ (28672, 63) ∷ [])

abbrev zero_used : UsedElem
zero_used = record { id = 0; len = 0 }

abbrev four : Virtq Bool
four = record {
  place = record {
    num = 4;
    legacy = false;
    desc_vaddr = 28672;
    desc_paddr = 94208;
    avail_vaddr = 24576;
    avail_paddr = 90112;
    used_vaddr = 20480;
    used_paddr = 86016;
    desc_bytes = 64;
    avail_bytes = 14;
    used_bytes = 38;
  };
  lock = false;
  desc = zero_desc ∷ zero_desc ∷ zero_desc ∷ zero_desc ∷ [];
  avail = record { flags = 0; idx = 0; ring = 0 ∷ 0 ∷ 0 ∷ 0 ∷ [] };
  used = record { flags = 0; idx = 0; ring = zero_used ∷ zero_used ∷ zero_used ∷ zero_used ∷ [] };
  last_seen_used = 0;
  free_descs = record {
    lock = false;
    head = 0;
    tail = 0;
    count = 4;
    capacity = 4;
    elem_size = 2;
    storage = 0 ∷ 0 ∷ 1 ∷ 0 ∷ 2 ∷ 0 ∷ 3 ∷ 0 ∷ [];
  };
  desc_extras = zero_extras ∷ zero_extras ∷ zero_extras ∷ zero_extras ∷ [];
}

create-four : create sim 4 false true world ≡ (eok, some four, later)
unfolding create Mapping.create_place Mapping.create_modern locate_desc Create.locate_avail
    Create.locate_used Create.make_extras Create.make_free Create.fill_free Create.finish
    Fifo.create Fifo.put Fifo.store write_at desc_mem_size avail_mem_size used_mem_size
create-four = refl

four-IsFresh : IsFresh four 4
four-IsFresh =
    create-IsFresh sim sim-MallocFits (λ l. refl) 4 (omega arith) (omega arith) four sim-Errnos
      false world (λ e. absurd (ground (arith, e))) (ap (λ r. r.1) create-four)

abbrev board : Driver sim ℕ
board = record {
  idx = 0;
  ngpio = 4;
  gpio_names_size = 0;
  dev = none;
  requestq = four;
  memory = memory;
  world = later;
}

-- A third request finds no descriptor.
abbrev one_sent : Driver sim ℕ
one_sent = (request sim ℕ ask 512 board).1

abbrev two_sent : Driver sim ℕ
two_sent = (request sim ℕ ask 600 one_sent).1

abbrev third_refused : Driver sim ℕ
third_refused = (request sim ℕ ask 700 two_sent).1

abbrev first_flight : Flight
first_flight = flight_of sim ℕ ask 512 board

abbrev second_flight : Flight
second_flight = flight_of sim ℕ ask 600 one_sent

-- The device returns the second request before the first.
abbrev returned : Used
returned = record {
  flags = 0;
  idx = 2;
  ring = record { id = 2; len = 2 } ∷ record { id = 0; len = 2 } ∷ zero_used ∷ zero_used ∷ [];
}

abbrev both_back : Driver sim ℕ
both_back = others_write sim ℕ returned memory third_refused

reached : Reaches sim ℕ board both_back (second_flight ∷ first_flight ∷ [])
unfolding request alloc response_size Fifo.get Fifo.fetch fill_desc read_at put_desc_chain
    set_desc_context
reached =
    others_wrote returned memory (requested ask 700 (requested ask 600 (requested ask 512 begin)))

Reaches-InFlight_example :
    (q : List ℕ) × InFlight sim ℕ sim-Accounting
      (view later.1)
      both_back
      (second_flight ∷ first_flight ∷ [])
      q
unfolding sim-Accounting
Reaches-InFlight_example =
    Reaches-InFlight sim ℕ sim-Accounting sim-Errnos (λ l. refl) board 4 both_back
      (second_flight ∷ first_flight ∷ []) four-IsFresh reached

abbrev in_flight :
    (q : List ℕ) × InFlight sim ℕ sim-Accounting
      (view later.1)
      both_back
      (second_flight ∷ first_flight ∷ [])
      q
unfolding sim-Accounting
in_flight =
    Reaches-InFlight sim ℕ sim-Accounting sim-Errnos (λ l. refl) board 4 both_back
      (second_flight ∷ first_flight ∷ []) four-IsFresh reached

-- Both come back in the ring's order.
virtq_callback-InFlight_example :
    (g' : Driver sim ℕ) × (q' : List ℕ) × (virtq_callback sim ℕ 3 (0, 0) both_back
      ≡ some (enoent, g'))
    × InFlight sim ℕ sim-Accounting (view later.1) g' [] q'
    × (g'.memory ≡ called_back (second_flight ∷ first_flight ∷ []) memory)
unfolding request alloc response_size Fifo.get Fifo.fetch fill_desc read_at put_desc_chain
    set_desc_context flight_of
virtq_callback-InFlight_example =
    virtq_callback-InFlight sim ℕ sim-Accounting (view later.1) sim-Errnos (λ l. refl) 3 (0, 0)
      both_back in_flight.0 in_flight.1 (taken here (taken here none_taken))
      ((λ e. omega arith), refl, ((λ e. omega arith), refl, refl)) (omega arith)
