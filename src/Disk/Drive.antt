-- ===== src/Disk/Drive.antt =====
-- machine/disk.cc: the simulated disk behind filesys/synchdisk.cc, with its latency and its
-- interrupt. The time is that of the interrupts' clock. Where the source subtracts the start of the
-- track buffer from a time before it, the quotient is not positive there and 0 here.
pub mod Latency
pub mod Requests
use nachos_3_4_lab.Prelude.{
  ℕ, ◌+◌, ◌-◌, ◌*◌, ◌/◌, ◌%◌, Bool, true, false, not, ◌&&◌, ltb, ◌==◌, if◌then◌else◌,
}
use nachos_3_4_lab.Prelude.Outcome.{Outcome, ok, ◌>>=◌, ◌>>◌, assert, int_sum}
use nachos_3_4_lab.Disk.{Disk, Sector, num_sectors}
use nachos_3_4_lab.Interrupt.{Interrupt, disk_int, schedule}

-- `SectorsPerTrack`, and `RotationTime` and `SeekTime` of machine/stats.h
abbrev pub sectors_per_track : ℕ
sectors_per_track = 32

abbrev pub rotation_time : ℕ
rotation_time = 500

abbrev pub seek_time : ℕ
seek_time = 500

-- `Disk`, with the contents of its file.
pub record Drive : Type 0 where
  pub active : Bool
  pub last_sector : ℕ
  pub buffer_init : ℕ
  pub sectors : Disk

-- `abs(newTrack - oldTrack) * SeekTime`
abbrev pub seek_ticks : (new_sector : ℕ) → Drive → ℕ
seek_ticks new_sector d =
    let new_track = new_sector / sectors_per_track in
    let old_track = d.last_sector / sectors_per_track in
    ((new_track - old_track) + (old_track - new_track)) * seek_time

-- From a time to the next sector boundary.
abbrev pub to_boundary : (time : ℕ) → ℕ
to_boundary time = let over = time % rotation_time in if ltb 0 over then rotation_time - over else 0

-- `Disk::TimeToSeek`: the seek, and `*rotation`
unfoldable pub time_to_seek : (now new_sector : ℕ) → Drive → Outcome (ℕ × ℕ)
time_to_seek now new_sector d = do
  arrived ← int_sum now (seek_ticks new_sector d)
  ok (seek_ticks new_sector d, to_boundary arrived)

-- `Disk::ModuloDiff`
unfoldable pub modulo_diff : (to from : ℕ) → ℕ
modulo_diff to from =
    (to % sectors_per_track + sectors_per_track - from % sectors_per_track) % sectors_per_track

-- `Disk::ComputeLatency` after the seek, with the track buffer
unfoldable pub latency_after :
    (seek rotation time_after new_sector : ℕ) (writing : Bool) → Drive → ℕ
latency_after seek rotation time_after new_sector writing d =
    if not writing
      && seek == 0
      && ltb (modulo_diff new_sector (d.buffer_init / rotation_time))
          ((time_after - d.buffer_init) / rotation_time)
    then rotation_time
    else seek
      + (rotation + modulo_diff new_sector (time_after / rotation_time) * rotation_time)
      + rotation_time

-- `Disk::ComputeLatency`
unfoldable pub compute_latency : (now new_sector : ℕ) (writing : Bool) → Drive → Outcome ℕ
compute_latency now new_sector writing d = do
  (seek, rotation) ← time_to_seek now new_sector d
  time_after ← int_sum (now + seek) rotation
  ok (latency_after seek rotation time_after new_sector writing d)

-- `Disk::UpdateLast`
unfoldable pub update_last : (now new_sector : ℕ) → Drive → Outcome Drive
update_last now new_sector d = do
  (seek, rotation) ← time_to_seek now new_sector d
  buffer_init ← if seek == 0 then ok d.buffer_init else int_sum (now + seek) rotation
  ok (record d { buffer_init = buffer_init; last_sector = new_sector })

-- `Disk::ReadRequest` and `Disk::WriteRequest`; `disk_done` and `this` are the addresses of the
-- function `DiskDone` and of the disk.
unfoldable pub read_request :
    (disk_done this sector_number : ℕ) → Drive → Interrupt → Outcome (Sector × Drive × Interrupt)
read_request disk_done this sector_number d i = do
  ticks ← compute_latency i.total_ticks sector_number false d
  assert (not d.active)
  assert (ltb sector_number num_sectors)
  d' ← update_last i.total_ticks sector_number (record d { active = true })
  i' ← schedule disk_done this ticks disk_int i
  ok (d.sectors sector_number, d', i')

unfoldable pub write_request :
    (disk_done this sector_number : ℕ) → Sector → Drive → Interrupt → Outcome (Drive × Interrupt)
write_request disk_done this sector_number bytes d i = do
  ticks ← compute_latency i.total_ticks sector_number true d
  assert (not d.active)
  assert (ltb sector_number num_sectors)
  let written = λ (m : ℕ). if m == sector_number then bytes else d.sectors m
  d' ← update_last i.total_ticks sector_number (record d { active = true; sectors = written })
  i' ← schedule disk_done this ticks disk_int i
  ok (d', i')

-- `Disk::HandleInterrupt`, less the call of its handler
unfoldable pub handle_interrupt : Drive → Drive
handle_interrupt d = record d { active = false }
