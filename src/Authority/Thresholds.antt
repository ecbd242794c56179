-- ===== src/Authority/Thresholds.antt =====
-- The thresholds are majorities that can be reached.
use simulation_taps_tt.Base.{ℕ, ◌-◌, ◌*◌, ◌^◌, ◌≤◌, ◌<◌, arith}
use simulation_taps_tt.Authority.Defs.{signer_threshold, tracer_threshold}

-- With at least one signer, the threshold is at least 1, can be met, and is more than half: two
-- quorums always share a signer.
pub signer_threshold_bounds :
    (n : ℕ)
    → 1 ≤ n
    → (1 ≤ signer_threshold n) × (signer_threshold n ≤ n) × (n < 2 * signer_threshold n)
unfolding signer_threshold
signer_threshold_bounds n h = omega arith

-- With at least one tracer and fewer than 2 ^ 63, the reconstruction threshold is at least 1, can
-- be met, is more than two thirds, and is the least number that is.
pub tracer_threshold_bounds :
    (n3 : ℕ)
    → 1 ≤ n3
    → n3 < 2 ^ 63
    → (1 ≤ tracer_threshold n3)
      × (tracer_threshold n3 ≤ n3)
      × (2 * n3 < 3 * tracer_threshold n3)
      × (3 * (tracer_threshold n3 - 1) ≤ 2 * n3)
unfolding tracer_threshold
tracer_threshold_bounds n3 h b = (omega arith, omega arith, omega arith, omega arith)
