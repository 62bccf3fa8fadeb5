-- ===== src/Disk/Drive/Latency.antt =====
-- How long a request takes, and where the head is when it ends.
use nachos_3_4_lab.Prelude.{
  ℕ, ◌+◌, ◌*◌, ◌/◌, ◌%◌, ◌<◌, ◌≤◌, ◌≡◌, ◌∙◌, ap, refl, Bool, true, false, arith,
}
use nachos_3_4_lab.Prelude.Outcome.{ok, int_sum, int_sum_fits}
use nachos_3_4_lab.Disk.Drive.{
  Drive, seek_ticks, to_boundary, time_to_seek, modulo_diff, latency_after, compute_latency,
}

-- The time of the seek, and of the rotation to the next boundary.
seek_bound : (n : ℕ) (d : Drive) → n < 1024 → d.last_sector < 1024 → seek_ticks n d ≤ 31 * 500
seek_bound n d p q = ground (arith, p, q)

to_boundary_bound : (t : ℕ) → (to_boundary t < 500) × ((t + to_boundary t) % 500 ≡ 0)
to_boundary_bound t = ground arith

modulo_diff_bound :
    (to from : ℕ) → (modulo_diff to from < 32) × ((from + modulo_diff to from) % 32 ≡ to % 32)
unfolding modulo_diff
modulo_diff_bound to from = (omega arith, omega arith)

ends :
    (now s r md n : ℕ)
    → (now + s + r) % 500 ≡ 0
    → ((now + s + r) / 500 + md) % 32 ≡ n % 32
    → (now + (s + (r + md * 500) + 500)) / 500 % 32 ≡ (n + 1) % 32
ends now s r md n aligned ahead =
    let whole : (now + (s + (r + md * 500) + 500)) / 500 ≡ (now + s + r) / 500 + md + 1 =
      omega arith in
    ap (λ k. k % 32) whole ∙ omega (arith, ahead)

-- When the seek and the rotation are over.
abbrev pub arrival : (now n : ℕ) → Drive → ℕ
arrival now n d = now + seek_ticks n d + to_boundary (now + seek_ticks n d)

abbrev pub latency : (now n : ℕ) → Bool → Drive → ℕ
latency now n writing d =
    latency_after (seek_ticks n d) (to_boundary (now + seek_ticks n d)) (arrival now n d) n writing
      d

module _ (now n : ℕ) (d : Drive) (there : n < 1024) (head : d.last_sector < 1024)
    (in_time : now + 32000 < 0x8000_0000) where
  pub arrival_bound : (arrival now n d % 500 ≡ 0) × (arrival now n d < now + 16000)
  arrival_bound =
      let (rotation, aligned) = to_boundary_bound (now + seek_ticks n d) in
      (aligned, omega (arith, rotation, seek_bound n d there head))

  pub time_to_seek_lem :
      time_to_seek now n d ≡ ok (seek_ticks n d, to_boundary (now + seek_ticks n d))
  unfolding time_to_seek
  time_to_seek_lem =
      rw (int_sum_fits now (seek_ticks n d) (omega (arith, seek_bound n d there head, in_time)))
        refl

  pub arrives :
      int_sum (now + seek_ticks n d) (to_boundary (now + seek_ticks n d)) ≡ ok (arrival now n d)
  arrives =
      int_sum_fits (now + seek_ticks n d) (to_boundary (now + seek_ticks n d))
        (omega (arith, arrival_bound.1, in_time))

  pub compute_latency-latency :
      (writing : Bool) → compute_latency now n writing d ≡ ok (latency now n writing d)
  unfolding compute_latency
  compute_latency-latency writing = rw (time_to_seek_lem, arrives) refl

  read_bounds : (500 ≤ latency now n false d) × (latency now n false d ≤ latency now n true d)
  unfolding latency_after
  read_bounds = ground arith

  write_bound : latency now n true d ≤ 32000
  unfolding latency_after
  write_bound =
      let t : ℕ = now + seek_ticks n d in
      let (rotation, aligned) = to_boundary_bound t in
      let (small, ahead) = modulo_diff_bound n ((t + to_boundary t) / 500) in
      omega (arith, seek_bound n d there head, rotation, small)

  pub latency_bound :
      (writing : Bool) → (500 ≤ latency now n writing d) × (latency now n writing d ≤ 32000)
  latency_bound true = (omega (arith, read_bounds.0, read_bounds.1), omega (arith, write_bound))
  latency_bound false = (omega (arith, read_bounds.0), omega (arith, read_bounds.1, write_bound))

  -- If a sector and the last one are on the disk and the clock is at least 32000 ticks below 2 ^
  -- 31, then `ComputeLatency` of a request for the sector overflows no `int`; its latency is at
  -- least the time of one sector, that of a read at most that of a write and that of a write at
  -- most 32000; a write ends on the boundary between two sectors, with the head just past the
  -- sector that was written.
  pub compute_latency_lem :
      (r w : ℕ) × (compute_latency now n false d ≡ ok r)
      × (compute_latency now n true d ≡ ok w)
      × (500 ≤ r)
      × (r ≤ w)
      × (w ≤ 32000)
      × ((now + w) % 500 ≡ 0)
      × ((now + w) / 500 % 32 ≡ (n + 1) % 32)
  unfolding latency_after
  compute_latency_lem =
      let s : ℕ = seek_ticks n d in
      let r : ℕ = to_boundary (now + s) in
      let (rotation, aligned) = to_boundary_bound (now + s) in
      let (small, ahead) = modulo_diff_bound n ((now + s + r) / 500) in
      let (lower, below) = read_bounds in
      (
        latency now n false d,
        latency now n true d,
        compute_latency-latency false,
        compute_latency-latency true,
        lower,
        below,
        write_bound,
        omega (arith, aligned),
        ends now s r (modulo_diff n ((now + s + r) / 500)) n aligned ahead,
      )
