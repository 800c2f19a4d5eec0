-- ===== src/Config/Bounds.antt =====
-- What the checks of single sections guarantee.
use hashshashin.Base.{
  ℕ, ◌+◌, ◌*◌, ◌≤◌, ◌≡◌, refl, sym, String, str_eq, Bool, true, false, not, ◌&&◌, ◌||◌, arith, ◌⊎◌,
}
use text.Mathlib.TextEquality.{eq_iff}
use hashshashin.Base.Int.{ℤ, pos, ltb_ℤ, ◌≤ℤ◌, pos_part, neg_part}
use hashshashin.Config.{
  KcpConfig, SmartReturnConfig, PerformanceConfig, Checked, passed, Error, ◌>>◌, guard, within,
  is_zero,
}
use hashshashin.Config.Defaults.{
  kib, mib, same_truth, known_profile, known_qdisc, validate_performance, validate_kcp,
  validate_smart_return,
}

abbrev pub Between : ℕ → ℕ → ℤ → Type 0
Between lo hi x = (pos lo ≤ℤ x) × (x ≤ℤ pos hi)

pub within→Between : (lo hi : ℕ) (x : ℤ) → within lo hi x ≡ true → Between lo hi x
within→Between lo hi x h = ground arith

pub and_split : (a b : Bool) → a && b ≡ true → (a ≡ true) × (b ≡ true)
and_split a b h = ground arith

-- A chain of checks that succeeds has passed its first one.
pub guard_passed {ℓ} :
    {B : Type ℓ} (b : Bool) (e : Error) {m : Checked B} {v : B}
    → (guard b e >> m) ≡ passed v
    → (b ≡ true) × (m ≡ passed v)
guard_passed true e h = (refl, h)
guard_passed false e h = cc

pub guard_last : (b : Bool) (e : Error) {v : Unit {0}} → guard b e ≡ passed v → b ≡ true
guard_last true e h = refl
guard_last false e h = cc

-- One of the texts.
pub text_cases₂ : (s a b : String) → str_eq s a || str_eq s b ≡ true → (s ≡ a) ⊎ (s ≡ b)
text_cases₂ s a b h = ground (arith, eq_iff s a, eq_iff s b)

pub text_cases₃ :
    (s a b c : String)
    → str_eq s a || (str_eq s b || str_eq s c) ≡ true
    → (s ≡ a) ⊎ ((s ≡ b) ⊎ (s ≡ c))
text_cases₃ s a b c h = ground (arith, eq_iff s a, eq_iff s b, eq_iff s c)

pub text_cases₄ :
    (s a b c d : String)
    → str_eq s a || (str_eq s b || (str_eq s c || str_eq s d)) ≡ true
    → (s ≡ a) ⊎ ((s ≡ b) ⊎ ((s ≡ c) ⊎ (s ≡ d)))
text_cases₄ s a b c d h = ground (arith, eq_iff s a, eq_iff s b, eq_iff s c, eq_iff s d)

pub record IsPerformance (p : PerformanceConfig) : Type 0 where
  pub profile :
      (p.profile ≡ "balance")
      ⊎ ((p.profile ≡ "turbo") ⊎ ((p.profile ≡ "throughput") ⊎ (p.profile ≡ "custom")))
  pub tun_queues : Between 1 32 p.tun_queues
  pub receive_workers : Between 1 32 p.receive_workers
  pub tx_queue_len : Between 256 65536 p.tx_queue_len
  pub qdisc : (p.qdisc ≡ "fq_codel") ⊎ ((p.qdisc ≡ "fq") ⊎ (p.qdisc ≡ "none"))
  pub socket_buffer : Between (256 * kib) (64 * mib) p.socket_buffer
  pub stats_interval_seconds : Between 5 60 p.stats_interval_seconds

pub validate_performance-IsPerformance :
    (p : PerformanceConfig) → validate_performance p ≡ passed tt → IsPerformance p
unfolding validate_performance
validate_performance-IsPerformance p h =
    let (profile, h1) = guard_passed (known_profile p.profile) _ h in
    let (queues, h2) = guard_passed (within 1 32 p.tun_queues) _ h1 in
    let (workers, h3) = guard_passed (within 1 32 p.receive_workers) _ h2 in
    let (txq, h4) = guard_passed (within 256 65536 p.tx_queue_len) _ h3 in
    let (qdisc, h5) = guard_passed (known_qdisc p.qdisc) _ h4 in
    let (sock, h6) = guard_passed (within (256 * kib) (64 * mib) p.socket_buffer) _ h5 in
    let stats = guard_last (within 5 60 p.stats_interval_seconds) _ h6 in
    record {
      profile = text_cases₄ p.profile "balance" "turbo" "throughput" "custom" profile;
      tun_queues = within→Between _ _ _ queues;
      receive_workers = within→Between _ _ _ workers;
      tx_queue_len = within→Between _ _ _ txq;
      qdisc = text_cases₃ p.qdisc "fq_codel" "fq" "none" qdisc;
      socket_buffer = within→Between _ _ _ sock;
      stats_interval_seconds = within→Between _ _ _ stats;
    }

pub record IsSmartReturn (s : SmartReturnConfig) : Type 0 where
  pub probe_port : Between 1 65535 s.probe_port
  pub interval_seconds : Between 2 300 s.interval_seconds
  pub timeout_pos : pos 1 ≤ℤ s.timeout_seconds
  pub timeout_short :
      pos_part s.timeout_seconds + neg_part s.interval_seconds + 1
      ≤ pos_part s.interval_seconds + neg_part s.timeout_seconds
  pub fail_threshold : Between 1 20 s.fail_threshold
  pub recover_threshold : Between 1 20 s.recover_threshold

pub validate_smart_return-IsSmartReturn :
    (s : SmartReturnConfig) → validate_smart_return s ≡ passed tt → IsSmartReturn s
unfolding validate_smart_return
validate_smart_return-IsSmartReturn s h =
    let (port, h1) = guard_passed (within 1 65535 s.probe_port) _ h in
    let (interval, h2) = guard_passed (within 2 300 s.interval_seconds) _ h1 in
    let (timeout, h3) =
      guard_passed
        (not (ltb_ℤ s.timeout_seconds (pos 1)) && ltb_ℤ s.timeout_seconds s.interval_seconds) _
        h2 in
    let (fail, recover) = and_split (within 1 20 s.fail_threshold) _ (guard_last _ _ h3) in
    record {
      probe_port = within→Between _ _ _ port;
      interval_seconds = within→Between _ _ _ interval;
      timeout_pos = ground arith;
      timeout_short = ground arith;
      fail_threshold = within→Between _ _ _ fail;
      recover_threshold = within→Between _ _ _ recover;
    }

pub record IsKcp (k : KcpConfig) : Type 0 where
  pub data_shards : Between 0 255 k.data_shards
  pub parity_shards : Between 0 255 k.parity_shards
  pub whole_fec : is_zero k.data_shards ≡ is_zero k.parity_shards
  pub no_delay : Between 0 1 k.no_delay
  pub no_congestion : Between 0 1 k.no_congestion
  pub interval : Between 10 100 k.interval
  pub resend : Between 0 2 k.resend
  pub send_window : Between 32 8192 k.send_window
  pub receive_window : Between 32 8192 k.receive_window
  pub mtu : Between 576 1400 k.mtu
  pub socket_buffer : Between (256 * kib) (64 * mib) k.socket_buffer

same_truth-eq : (a b : Bool) → same_truth a b ≡ true → a ≡ b
same_truth-eq true b h = sym h
same_truth-eq false b h = ground arith

pub validate_kcp-IsKcp : (k : KcpConfig) → validate_kcp k ≡ passed tt → IsKcp k
unfolding validate_kcp
validate_kcp-IsKcp k h =
    let (shards, h1) =
      guard_passed (within 0 255 k.data_shards && within 0 255 k.parity_shards) _ h in
    let (fec, h2) =
      guard_passed (same_truth (is_zero k.data_shards) (is_zero k.parity_shards)) _ h1 in
    let (flags, h3) = guard_passed (within 0 1 k.no_delay && within 0 1 k.no_congestion) _ h2 in
    let (timing, h4) = guard_passed (within 10 100 k.interval && within 0 2 k.resend) _ h3 in
    let (windows, h5) =
      guard_passed (within 32 8192 k.send_window && within 32 8192 k.receive_window) _ h4 in
    let (mtu, h6) = guard_passed (within 576 1400 k.mtu) _ h5 in
    let sock = guard_last (within (256 * kib) (64 * mib) k.socket_buffer) _ h6 in
    record {
      data_shards = within→Between _ _ _ (and_split _ _ shards).0;
      parity_shards = within→Between _ _ _ (and_split (within 0 255 k.data_shards) _ shards).1;
      whole_fec = same_truth-eq _ _ fec;
      no_delay = within→Between _ _ _ (and_split _ _ flags).0;
      no_congestion = within→Between _ _ _ (and_split (within 0 1 k.no_delay) _ flags).1;
      interval = within→Between _ _ _ (and_split _ _ timing).0;
      resend = within→Between _ _ _ (and_split (within 10 100 k.interval) _ timing).1;
      send_window = within→Between _ _ _ (and_split _ _ windows).0;
      receive_window = within→Between _ _ _ (and_split (within 32 8192 k.send_window) _ windows).1;
      mtu = within→Between _ _ _ mtu;
      socket_buffer = within→Between _ _ _ sock;
    }
