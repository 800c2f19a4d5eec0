-- ===== src/Config/Presets.antt =====
-- The defaults pass their own checks.
use hashshashin.Base.{ℕ, ◌≡◌, ◌≤◌, refl, String, true, arith, inl, inr, if◌then◌else◌}
use hashshashin.Base.Int.{ℤ, pos, ltb_ℤ}
use hashshashin.Config.{PerformanceConfig, passed, or_text, within}
use hashshashin.Config.Bounds.{text_cases₄}
use hashshashin.Config.Defaults.{
  clamp_int, preset, fill_performance, known_profile, validate_performance,
}

clamp_within : (v : ℤ) (n : ℕ) → 1 ≤ n → n ≤ 32 → within 1 32 (clamp_int v (pos 1) (pos n)) ≡ true
unfolding clamp_int
clamp_within v n lo hi = ground arith

-- A profile with nothing else set.
abbrev pub bare : String → PerformanceConfig
bare profile = record {
  profile = profile;
  tun_queues = pos 0;
  receive_workers = pos 0;
  tx_queue_len = pos 0;
  qdisc = "";
  socket_buffer = pos 0;
  stats_interval_seconds = pos 0;
}

-- Every profile by itself, on a machine with any number of CPUs, passes the check, and so does an
-- empty one, which becomes turbo.
pub fill_performance_valid :
    (num_cpu : ℤ) (profile : String)
    → known_profile (or_text profile "turbo") ≡ true
    → validate_performance (fill_performance num_cpu profile (bare profile)) ≡ passed tt
unfolding validate_performance fill_performance preset
fill_performance_valid num_cpu profile known =
    let cpus = if ltb_ℤ num_cpu (pos 1) then pos 1 else num_cpu in
    elim (text_cases₄ (or_text profile "turbo") "balance" "turbo" "throughput" "custom" known) [
      | inl e ↦ rw (e, clamp_within cpus 2 (omega arith) (omega arith)) refl
      | inr (inl e) ↦ rw (e, clamp_within cpus 4 (omega arith) (omega arith)) refl
      | inr (inr (inl e)) ↦ rw (e, clamp_within cpus 8 (omega arith) (omega arith)) refl
      | inr (inr (inr e)) ↦ rw (e, clamp_within cpus 4 (omega arith) (omega arith)) refl
    ]
