-- ===== src/Config/Defaults.antt =====
-- performance.go; config.go, `applySmartReturnDefaults`, `applyKCPDefaults` and the checks that go
-- with them.
use hashshashin.Base.{ℕ, ◌*◌, String, str_eq, Bool, true, false, not, ◌&&◌, ◌||◌, if◌then◌else◌}
use hashshashin.Base.Int.{ℤ, pos, ltb_ℤ}
use hashshashin.Config.{
  KcpConfig, SmartReturnConfig, PerformanceConfig, Checked, ◌>>◌, guard, is_zero, or_default,
  or_text, within, bad_profile, bad_queues, bad_workers, bad_tx_queue, bad_qdisc, bad_socket_buffer,
  bad_stats, bad_shards, half_fec, bad_kcp_flags, bad_kcp_timing, bad_windows, bad_kcp_mtu,
  bad_kcp_buffer, bad_probe_port, bad_interval, bad_timeout, bad_thresholds,
}

abbrev pub kib : ℕ
kib = 1024

abbrev pub mib : ℕ
mib = 1024 * 1024

unfoldable pub clamp_int : ℤ → ℤ → ℤ → ℤ
clamp_int v lo hi = if ltb_ℤ v lo then lo else if ltb_ℤ hi v then hi else v

-- The `switch` of `applyPerformanceDefaults`: the most queues, the queue length, the buffer.
unfoldable pub preset : String → ℕ × ℕ × ℕ
preset profile =
    if str_eq profile "balance"
    then (2, 2048, 4 * mib)
    else if str_eq profile "throughput"
    then (8, 8192, 16 * mib)
    else (4, 4096, 8 * mib)

-- With the profile's name in lower case and trimmed.
unfoldable pub fill_performance : ℤ → String → PerformanceConfig → PerformanceConfig
unfolding preset clamp_int
fill_performance num_cpu name p =
    let profile = or_text name "turbo" in
    let cpus = if ltb_ℤ num_cpu (pos 1) then pos 1 else num_cpu in
    let (queues, txq, sock) = preset profile in
    let limited = clamp_int cpus (pos 1) (pos queues) in
    record {
      profile = profile;
      tun_queues = if is_zero p.tun_queues then limited else p.tun_queues;
      receive_workers =
          if not (str_eq profile "custom") then pos 1 else or_default p.receive_workers 1;
      tx_queue_len = or_default p.tx_queue_len txq;
      qdisc = or_text p.qdisc "fq_codel";
      socket_buffer = or_default p.socket_buffer sock;
      stats_interval_seconds = or_default p.stats_interval_seconds 10;
    }

unfoldable pub apply_performance_defaults :
    (String → String) → ℤ → PerformanceConfig → PerformanceConfig
unfolding fill_performance
apply_performance_defaults lower_trim num_cpu p = fill_performance num_cpu (lower_trim p.profile) p

abbrev pub known_profile : String → Bool
known_profile s =
    str_eq s "balance" || (str_eq s "turbo" || (str_eq s "throughput" || str_eq s "custom"))

abbrev pub known_qdisc : String → Bool
known_qdisc s = str_eq s "fq_codel" || (str_eq s "fq" || str_eq s "none")

unfoldable pub validate_performance : PerformanceConfig → Checked (Unit {0})
validate_performance p = do
  guard (known_profile p.profile) bad_profile
  guard (within 1 32 p.tun_queues) bad_queues
  guard (within 1 32 p.receive_workers) bad_workers
  guard (within 256 65536 p.tx_queue_len) bad_tx_queue
  guard (known_qdisc p.qdisc) bad_qdisc
  guard (within (256 * kib) (64 * mib) p.socket_buffer) bad_socket_buffer
  guard (within 5 60 p.stats_interval_seconds) bad_stats

unfoldable pub apply_smart_return_defaults : SmartReturnConfig → SmartReturnConfig
apply_smart_return_defaults s = record s {
  probe_port = or_default s.probe_port 9001;
  interval_seconds = or_default s.interval_seconds 5;
  timeout_seconds = or_default s.timeout_seconds 2;
  fail_threshold = or_default s.fail_threshold 3;
  recover_threshold = or_default s.recover_threshold 3;
}

unfoldable pub validate_smart_return : SmartReturnConfig → Checked (Unit {0})
validate_smart_return s = do
  guard (within 1 65535 s.probe_port) bad_probe_port
  guard (within 2 300 s.interval_seconds) bad_interval
  guard (not (ltb_ℤ s.timeout_seconds (pos 1)) && ltb_ℤ s.timeout_seconds s.interval_seconds)
      bad_timeout
  guard (within 1 20 s.fail_threshold && within 1 20 s.recover_threshold) bad_thresholds

unfoldable pub apply_kcp_defaults : KcpConfig → KcpConfig
apply_kcp_defaults k = record k {
  no_delay = or_default k.no_delay 1;
  interval = or_default k.interval 20;
  resend = or_default k.resend 2;
  no_congestion = or_default k.no_congestion 1;
  send_window = or_default k.send_window 512;
  receive_window = or_default k.receive_window 512;
  mtu = or_default k.mtu 1200;
  socket_buffer = or_default k.socket_buffer (4 * mib);
}

abbrev pub same_truth : Bool → Bool → Bool
same_truth true b = b
same_truth false b = not b

unfoldable pub validate_kcp : KcpConfig → Checked (Unit {0})
validate_kcp k = do
  guard (within 0 255 k.data_shards && within 0 255 k.parity_shards) bad_shards
  guard (same_truth (is_zero k.data_shards) (is_zero k.parity_shards)) half_fec
  guard (within 0 1 k.no_delay && within 0 1 k.no_congestion) bad_kcp_flags
  guard (within 10 100 k.interval && within 0 2 k.resend) bad_kcp_timing
  guard (within 32 8192 k.send_window && within 32 8192 k.receive_window) bad_windows
  guard (within 576 1400 k.mtu) bad_kcp_mtu
  guard (within (256 * kib) (64 * mib) k.socket_buffer) bad_kcp_buffer
