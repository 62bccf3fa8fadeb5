-- ===== src/Tests/Devices.antt =====
-- A timer with one of its interrupts due, and a message between two machines.
use nachos_3_4_lab.Prelude.{
  ◌/◌, ◌%◌, ◌+◌, ◌≤◌, ℕ, ◌<◌, ◌≡◌, refl, List, [], ◌∷◌, true, false, some, length, get_or,
  replicate, arith,
}
use nachos_3_4_lab.Prelude.Outcome.{Outcome, ok, ◌>>=◌}
use nachos_3_4_lab.Disk.{read_sector, write_sector}
use nachos_3_4_lab.Disk.Drive.{Drive, compute_latency, read_request, write_request}
use nachos_3_4_lab.Disk.Drive.Latency.{compute_latency_lem}
use nachos_3_4_lab.Disk.Drive.Requests.{awaited, Requested, Ready, read_request-read_sector}
use nachos_3_4_lab.Interrupt.{
  PendingInterrupt, Interrupt, int_off, int_on, system_mode, user_mode, timer_int, run_due,
  set_level,
}
use nachos_3_4_lab.Interrupt.Due
use nachos_3_4_lab.Interrupt.Due.{due, IsDevice, run_due_lem}
use nachos_3_4_lab.Interrupt.Tick.{HasTime, Ticked, switched, set_level-set_level}
use nachos_3_4_lab.Timer.{Timer, time_slice, handle}
use nachos_3_4_lab.Timer.Device.{handle-IsDevice}
use nachos_3_4_lab.PostOffice.{Network, PostOffice, send, check_pkt_avail, deliver, receive}
use nachos_3_4_lab.PostOffice.Delivery.{receive-send}

-- The timer of the kernel, with random intervals, and no other device.
abbrev timer : Timer
timer = record { randomize = true; handler = time_slice; arg = 0; address = 500 }

abbrev no_device : PendingInterrupt → Interrupt → Outcome Interrupt
no_device p i = ok i

abbrev devices : PendingInterrupt → Interrupt → Outcome Interrupt
devices = handle 7 (λ p i. 1234567) timer no_device

no_device-IsDevice :
    (p : PendingInterrupt) (i : Interrupt)
    → i.in_handler ≡ true
    → i.total_ticks < 1000
    → Due.Sorted i.pending
    → (i' : Interrupt) × IsDevice no_device p i i'
no_device-IsDevice p i inside early sorted = (
  i,
  record { returns = refl; same_level = refl; same_time = refl; in_order = sorted; later = refl },
)

devices-IsDevice :
    (p : PendingInterrupt) (i : Interrupt)
    → i.in_handler ≡ true
    → i.total_ticks < 1000
    → Due.Sorted i.pending
    → (i' : Interrupt) × IsDevice devices p i i'
devices-IsDevice =
    handle-IsDevice 1000 (omega arith) 7 (λ p i. 1234567) timer no_device refl no_device-IsDevice

abbrev timer_at : ℕ → PendingInterrupt
timer_at t = record { handler = 7; arg = 0; when = t; type = timer_int }

abbrev interrupted : Interrupt
interrupted = record {
  level = int_off;
  pending = timer_at 5 ∷ timer_at 30 ∷ [];
  in_handler = false;
  yield_on_return = false;
  status = system_mode;
  total_ticks = 10;
  idle_ticks = 0;
  system_ticks = 10;
  user_ticks = 0;
}

run_due_lem_example :
    (i' : Interrupt) × (run_due devices 2 interrupted ≡ ok i')
    × (due i'.total_ticks i'.pending ≡ 0)
    × (i'.total_ticks ≡ 10)
unfolding Due.Sorted due
run_due_lem_example =
    run_due_lem 1000 devices devices-IsDevice 2 interrupted refl refl (omega arith)
      (omega arith, tt) (omega arith)

handle-IsDevice_example :
    (i' : Interrupt) × IsDevice devices
      (timer_at 5)
      (record interrupted { in_handler = true; pending = timer_at 30 ∷ [] })
      i'
unfolding Due.Sorted
handle-IsDevice_example =
    handle-IsDevice 1000 (omega arith) 7 (λ p i. 1234567) timer no_device refl no_device-IsDevice
      (timer_at 5) (record interrupted { in_handler = true; pending = timer_at 30 ∷ [] }) refl
      (omega arith) tt

abbrev running : Interrupt
running = record interrupted { level = int_on }

-- A thread switch after which another machine status holds.
abbrev switch : Interrupt → Outcome Interrupt
switch i = ok (record i { status = user_mode; user_ticks = i.user_ticks + 1 })

running-HasTime : HasTime 1000 running
running-HasTime = record {
  room = omega arith;
  in_range = omega arith;
  user = omega arith;
  system = omega arith;
}

set_level-set_level_example :
    (i₁ j : Interrupt) × (set_level devices 3 switch int_off running ≡ ok (int_on, i₁))
    × (i₁ ≡ record running { level = int_off })
    × Ticked running j
    × (set_level devices 3 switch int_on i₁
        ≡ (switched switch system_mode j >>= λ k. ok (int_off, k)))
unfolding Due.Sorted
set_level-set_level_example =
    set_level-set_level 1000 devices devices-IsDevice switch 3 running refl refl refl
      running-HasTime (omega arith, tt) (omega arith)

-- Machine 1 writes to box 1 of machine 2.
abbrev office : PostOffice
office = record { net_addr = 1; boxes = [] ∷ [] ∷ [] }

abbrev other_office : PostOffice
other_office = record { net_addr = 2; boxes = [] ∷ [] ∷ [] }

abbrev network : Network
network = record {
  ident = 1;
  send_busy = false;
  in_hdr = record { to = 0; from = 0; length_of_packet = 0 };
  inbox = replicate 52 0;
}

abbrev letter : List ℕ
letter = 104 ∷ 105 ∷ 0 ∷ []

receive-send_example :
    (wire bytes : List ℕ) × (net₁ net₂ : Network) × (po₁ po₂ : PostOffice) × (send false
        (replicate 52 9)
        (replicate 64 9)
        (record { to = 2; from = 0; length_of_packet = 0 })
        (record { to = 1; from = 0; length_of_mail = 3 })
        letter
        office
        network
      ≡ ok (some wire))
    × (check_pkt_avail (some wire) (record network { ident = 2 }) ≡ ok (true, net₁))
    × (deliver (replicate 52 8) (replicate 40 8) other_office net₁ ≡ ok (po₁, net₂))
    × (receive 1 po₁
        ≡ ok (
            some (
              (
                record { to = 2; from = 1; length_of_packet = 15 },
                record { to = 1; from = 0; length_of_mail = 3 },
                bytes,
              ),
              po₂,
            )))
    × (net₂.in_hdr.length_of_packet ≡ 0)
    × (length bytes ≡ 3)
    × ((j : ℕ) → j < 3 → get_or bytes j 0 ≡ get_or letter j 0)
receive-send_example =
    receive-send (record { to = 2; from = 0; length_of_packet = 0 })
      (record { to = 1; from = 0; length_of_mail = 3 }) letter office other_office network
      (record network { ident = 2 })
      (record {
        short = omega arith;
        enough = omega arith;
        box_here = omega arith;
        box_there = omega arith;
        to_word = omega arith;
        from_word = omega arith;
        machine_word = omega arith;
        address_word = omega arith;
      })
      (record { packet_size = refl; wire_size = refl; buffer_size = refl; mail_size = refl }) refl
      refl refl refl refl refl

-- A disk of zeros with the head on the track of sector 40.
abbrev drive : Drive
drive = record { active = false; last_sector = 40; buffer_init = 0; sectors = λ k. replicate 128 0 }

compute_latency_lem_example :
    (r w : ℕ) × (compute_latency 1234 700 false drive ≡ ok r)
    × (compute_latency 1234 700 true drive ≡ ok w)
    × (500 ≤ r)
    × (r ≤ w)
    × (w ≤ 32000)
    × ((1234 + w) % 500 ≡ 0)
    × ((1234 + w) / 500 % 32 ≡ 701 % 32)
compute_latency_lem_example =
    compute_latency_lem 1234 700 drive (omega arith) (omega arith) (omega arith)

read_request-read_sector_example :
    (t u : ℕ) × (d' d'' : Drive) × (compute_latency 10 700 false drive ≡ ok t)
    × (read_request 8 9 700 drive interrupted
        ≡ ok (drive.sectors 700, d', awaited 8 9 t interrupted))
    × (read_sector 700 drive.sectors ≡ ok (drive.sectors 700))
    × (d'.sectors ≡ drive.sectors)
    × Requested 8 9 10 700 drive d'
    × Ready 8 9 d'
    × (compute_latency 10 700 true drive ≡ ok u)
    × (write_request 8 9 700 letter drive interrupted ≡ ok (d'', awaited 8 9 u interrupted))
    × (write_sector 700 letter drive.sectors ≡ ok d''.sectors)
    × Requested 8 9 10 700 drive d''
    × Ready 8 9 d''
read_request-read_sector_example =
    read_request-read_sector 8 9 700 letter drive interrupted (omega arith) (omega arith) refl
      (omega arith)
