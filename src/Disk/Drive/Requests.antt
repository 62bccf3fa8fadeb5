-- ===== src/Disk/Drive/Requests.antt =====
-- A request and its interrupt do what the synchronous disk promises.
use nachos_3_4_lab.Prelude.{
  ℕ, ◌+◌, ◌/◌, ◌%◌, ◌<◌, ◌≤◌, ◌≡◌, ◌≢◌, refl, ap, Bool, true, false, not, if◌then◌else◌, ◌==◌,
  lt→ltb, arith, Bool-cases, inl, inr,
}
use nachos_3_4_lab.Prelude.Outcome.{Outcome, ok, ◌>>=◌, ◌>>◌, assert, int_sum}
use nachos_3_4_lab.Disk.{Sector, read_sector, write_sector}
use nachos_3_4_lab.Disk.Drive.{
  Drive, seek_ticks, update_last, compute_latency, read_request, write_request, handle_interrupt,
}
use nachos_3_4_lab.Disk.Drive.Latency.{
  arrival, latency, latency_bound, arrival_bound, time_to_seek_lem, arrives,
  compute_latency-latency,
}
use nachos_3_4_lab.Interrupt.{PendingInterrupt, Interrupt, disk_int, insert_pending, schedule}

-- The interrupt of a request.
abbrev pub done_at : (disk_done this when : ℕ) → PendingInterrupt
done_at disk_done this when = record {
  handler = disk_done;
  arg = this;
  when = when;
  type = disk_int;
}

-- The interrupts with the one of a request that ends so much later.
abbrev pub awaited : (disk_done this later : ℕ) → Interrupt → Interrupt
awaited disk_done this later i = record i {
  pending = insert_pending (done_at disk_done this (i.total_ticks + later)) i.pending;
}

-- A disk that has served a request for sector `n`, made at the time `now`: the head is there, the
-- track buffer is kept on the same track and otherwise begins at a sector's boundary after the
-- seek, and no request comes through.
pub record Requested (disk_done this now n : ℕ) (d d' : Drive) : Type 0 where
  pub head : d'.last_sector ≡ n
  pub same_track : n / 32 ≡ d.last_sector / 32 → d'.buffer_init ≡ d.buffer_init
  pub new_track :
      n / 32 ≢ d.last_sector / 32
      → (d'.buffer_init % 500 ≡ 0) × (now + 500 ≤ d'.buffer_init) × (d'.buffer_init < now + 16000)
  pub no_read :
      (m : ℕ) (j : Interrupt) (r : Sector × Drive × Interrupt)
      → read_request disk_done this m d' j ≢ ok r
  pub no_write :
      (m : ℕ) (b : Sector) (j : Interrupt) (r : Drive × Interrupt)
      → write_request disk_done this m b d' j ≢ ok r

-- Once the interrupt has come, the next read of any sector succeeds.
pub record Ready (disk_done this : ℕ) (d : Drive) : Type 0 where
  pub next_read :
      (m : ℕ) (j : Interrupt)
      → m < 1024
      → j.total_ticks + 32000 < 0x8000_0000
      → (t : ℕ) × (d' : Drive) × (read_request disk_done this m (handle_interrupt d) j
          ≡ ok (d.sectors m, d', awaited disk_done this t j))

-- The head and the track buffer after a request.
served : (now n : ℕ) → Drive → Drive
served now n d = record d {
  last_sector = n;
  buffer_init = if seek_ticks n d == 0 then d.buffer_init else arrival now n d;
}

-- A chain with an assertion that fails gives no result.
never {ℓ} :
    {B : Type ℓ} (m : Outcome ℕ) (b : Bool) (k : ℕ → Outcome B) (r : B)
    → b ≡ true
    → (m >>= λ t. assert (not b) >> k t) ≢ ok r
never (ok t) true k r busy e = cc
never (ok t) false k r busy e = cc
never Outcome.abort b k r busy e = cc
never Outcome.wild b k r busy e = cc

module _ (disk_done this : ℕ) where
  scheduled :
      (later : ℕ) (i : Interrupt)
      → 500 ≤ later
      → i.total_ticks + later < 0x8000_0000
      → schedule disk_done this later disk_int i ≡ ok (awaited disk_done this later i)
  unfolding schedule int_sum
  scheduled later i long fits =
      rw (lt→ltb (i.total_ticks + later) 0x8000_0000 fits, lt→ltb 0 later (omega (arith, long)))
        refl

  active_no_read :
      (m : ℕ) (d : Drive) (j : Interrupt) (r : Sector × Drive × Interrupt)
      → d.active ≡ true
      → read_request disk_done this m d j ≢ ok r
  unfolding read_request
  active_no_read m d j r busy e =
      never (compute_latency j.total_ticks m false d) d.active _ r busy e

  active_no_write :
      (m : ℕ) (b : Sector) (d : Drive) (j : Interrupt) (r : Drive × Interrupt)
      → d.active ≡ true
      → write_request disk_done this m b d j ≢ ok r
  unfolding write_request
  active_no_write m b d j r busy e =
      never (compute_latency j.total_ticks m true d) d.active _ r busy e

  served-Requested :
      (now n : ℕ) (d d' : Drive)
      → n < 1024
      → d.last_sector < 1024
      → now + 32000 < 0x8000_0000
      → d'.active ≡ true
      → d'.last_sector ≡ d.last_sector
      → d'.buffer_init ≡ d.buffer_init
      → Requested disk_done this now n d (served now n d')
  unfolding served
  served-Requested now n d d' there head in_time busy same_head same_buffer =
      let (aligned, soon) = arrival_bound now n d there head in_time in
      let arrived : arrival now n d' ≡ arrival now n d =
        ap (λ k. arrival now n (record d { last_sector = k })) same_head in
      record {
        head = refl;
        same_track = λ e. ground (arith, e, same_head, same_buffer);
        new_track = λ ne. (
          ground (arith, ne, same_head, aligned, arrived),
          ground (arith, ne, same_head),
          ground (arith, ne, same_head, soon, arrived),
        );
        no_read = λ m j r. active_no_read m (served now n d') j r busy;
        no_write = λ m b j r. active_no_write m b (served now n d') j r busy;
      }

  updated :
      (now n : ℕ) (d : Drive)
      → n < 1024
      → d.last_sector < 1024
      → now + 32000 < 0x8000_0000
      → update_last now n d ≡ ok (served now n d)
  unfolding update_last served
  updated now n d there head in_time = elim (Bool-cases (seek_ticks n d == 0)) [
    | inl same ↦ rw (time_to_seek_lem now n d there head in_time, same) refl
    | inr moved ↦
        rw (time_to_seek_lem now n d there head in_time, moved, arrives now n d there head in_time)
          refl
  ]

  module _ (n : ℕ) (d : Drive) (i : Interrupt) (there : n < 1024) (head : d.last_sector < 1024)
      (in_time : i.total_ticks + 32000 < 0x8000_0000) (idle : d.active ≡ false) where
    awaits :
        (writing : Bool)
        → schedule disk_done this (latency i.total_ticks n writing d) disk_int i
          ≡ ok (awaited disk_done this (latency i.total_ticks n writing d) i)
    awaits writing =
        let (long, short) = latency_bound i.total_ticks n d there head in_time writing in
        scheduled (latency i.total_ticks n writing d) i long (omega (arith, short, in_time))

    read_request-idle :
        read_request disk_done this n d i
        ≡ ok (
          d.sectors n,
          served i.total_ticks n (record d { active = true }),
          awaited disk_done this (latency i.total_ticks n false d) i,
        )
    unfolding read_request
    read_request-idle =
        let free : not d.active ≡ true = ground (arith, idle) in
        rw
          (
            compute_latency-latency i.total_ticks n d there head in_time false,
            free,
            lt→ltb n 1024 there,
            updated i.total_ticks n (record d { active = true }) there head in_time,
            awaits false,
          )
          refl

    write_request-idle :
        (bytes : Sector)
        → let d₁ = record d {
          active = true;
          sectors = λ m. if m == n then bytes else d.sectors m;
        } in
          write_request disk_done this n bytes d i
          ≡ ok
              (served i.total_ticks n d₁, awaited disk_done this (latency i.total_ticks n true d) i)
    unfolding write_request
    write_request-idle bytes =
        let d₁ : Drive = record d {
          active = true;
          sectors = λ m. if m == n then bytes else d.sectors m;
        } in
        let free : not d.active ≡ true = ground (arith, idle) in
        rw
          (
            compute_latency-latency i.total_ticks n d there head in_time true,
            free,
            lt→ltb n 1024 there,
            updated i.total_ticks n d₁ there head in_time,
            awaits true,
          )
          refl

  ready : (d : Drive) → d.last_sector < 1024 → Ready disk_done this d
  unfolding handle_interrupt
  ready d head = record {
    next_read = λ m j there in_time. (
      latency j.total_ticks m false (record d { active = false }),
      served j.total_ticks m (record d { active = true }),
      read_request-idle m (record d { active = false }) j there head in_time refl,
    );
  }

module _ (disk_done this n : ℕ) (bytes : Sector) (d : Drive) (i : Interrupt) (there : n < 1024)
    (head : d.last_sector < 1024) (idle : d.active ≡ false)
    (in_time : i.total_ticks + 32000 < 0x8000_0000) where
  -- If a sector and the last one are on the disk, no request is under way and the clock is at least
  -- 32000 ticks below 2 ^ 31, then `ReadRequest` and `WriteRequest` of the disk succeed, read and
  -- leave in the file what `ReadSector` and `WriteSector` of the synchronous disk promise, and
  -- schedule the disk's interrupt for the end of the request's latency; the head is then at the
  -- sector, the track buffer is the same on the same track and otherwise begins at the boundary of
  -- a sector, from 500 to 16000 ticks later; no further request succeeds before the interrupt has
  -- been handled, and afterwards, with as much room on the clock, a read of any sector does.
  pub read_request-read_sector :
      (t u : ℕ) × (d' d'' : Drive) × (compute_latency i.total_ticks n false d ≡ ok t)
      × (read_request disk_done this n d i ≡ ok (d.sectors n, d', awaited disk_done this t i))
      × (read_sector n d.sectors ≡ ok (d.sectors n))
      × (d'.sectors ≡ d.sectors)
      × Requested disk_done this i.total_ticks n d d'
      × Ready disk_done this d'
      × (compute_latency i.total_ticks n true d ≡ ok u)
      × (write_request disk_done this n bytes d i ≡ ok (d'', awaited disk_done this u i))
      × (write_sector n bytes d.sectors ≡ ok d''.sectors)
      × Requested disk_done this i.total_ticks n d d''
      × Ready disk_done this d''
  unfolding read_sector write_sector served
  read_request-read_sector =
      let now : ℕ = i.total_ticks in
      let written : Drive = record d {
        active = true;
        sectors = λ m. if m == n then bytes else d.sectors m;
      } in
      (
        latency now n false d,
        latency now n true d,
        served now n (record d { active = true }),
        served now n written,
        compute_latency-latency now n d there head in_time false,
        read_request-idle disk_done this n d i there head in_time idle,
        rw (lt→ltb n 1024 there) refl,
        refl,
        served-Requested disk_done this now n d (record d { active = true }) there head in_time refl
            refl refl,
        ready disk_done this (served now n (record d { active = true })) there,
        compute_latency-latency now n d there head in_time true,
        write_request-idle disk_done this n d i there head in_time idle bytes,
        rw (lt→ltb n 1024 there) refl,
        served-Requested disk_done this now n d written there head in_time refl refl refl,
        ready disk_done this (served now n written) there,
      )
