-- ===== src/Config/Sample.antt =====
-- A configuration of the Iran node, loaded: for the examples.
use hashshashin.Base.{◌≡◌, refl, str_eq, true, [], ◌∷◌, none, some, replicate, if◌then◌else◌, ◌*◌}
use hashshashin.Base.Int.{pos, ◌*ℤ◌}
use hashshashin.Config.{KcpConfig, SmartReturnConfig, Config, Library, passed}
use hashshashin.Config.Defaults.{
  mib, fill_performance, preset, clamp_int, apply_performance_defaults, validate_performance,
  apply_smart_return_defaults, validate_smart_return, apply_kcp_defaults, validate_kcp,
}
use hashshashin.Config.Load.{
  fill_basics, byte_len, check_basics, validate_transport_address, is_key, check_addresses,
  has_ports, check_smart_return, check_network, seen_port, check_ports, parse_port, listen_port,
  transport_network, protocol_includes, probe_clear, check_conflicts, probe_in_use, check_services,
  fill_performance_of, check_kcp, load_config,
}
use hashshashin.Config.Presets.{bare}

abbrev pub library : Library
library = record {
  decode_key = λ s. some (replicate 32 7);
  resolves_tcp = λ s. true;
  resolves_udp = λ s. true;
  parses_cidr = λ s. true;
  parses_ipv4 = λ s. true;
  split_port = λ s. some "443";
  atoi = λ s. if str_eq s "443" then some (pos 443) else none;
  lower_trim = λ s. s;
  num_cpu = pos 3;
}

abbrev pub no_kcp : KcpConfig
no_kcp = record {
  data_shards = pos 0;
  parity_shards = pos 0;
  no_delay = pos 0;
  interval = pos 0;
  resend = pos 0;
  no_congestion = pos 0;
  send_window = pos 0;
  receive_window = pos 0;
  mtu = pos 0;
  socket_buffer = pos 0;
}

abbrev pub smart : SmartReturnConfig
smart = record {
  enabled = true;
  probe_port = pos 0;
  interval_seconds = pos 0;
  timeout_seconds = pos 0;
  fail_threshold = pos 0;
  recover_threshold = pos 0;
}

abbrev pub sample : Config
sample = record {
  role = "iran";
  mode = "direct-return";
  transport = record {
    kind = "kcp";
    listen = "0.0.0.0:443";
    peer = "203.0.113.7:443";
    key = "k";
    keepalive_seconds = pos 0;
    session_timeout_seconds = pos 0;
    rekey_minutes = pos 0;
    kcp = no_kcp;
  };
  smart_return = smart;
  performance = bare "";
  tun = record { name = ""; local_cidr = "10.0.0.1/30"; peer_ip = "10.0.0.2"; mtu = pos 0 };
  network = record {
    public_interface = "eth0";
    public_ip = "203.0.113.9";
    public_gateway = "";
    foreign_public_ip = "203.0.113.9";
    iran_public_ip = "203.0.113.7";
    lock_service_ports = true;
  };
  ports =
      record { port = pos 443; protocol = "tcp" }
      ∷ record { port = pos 8443; protocol = "both" }
      ∷ [];
}

abbrev pub loaded : Config
loaded = record sample {
  transport = record sample.transport {
    keepalive_seconds = pos 5;
    session_timeout_seconds = pos 25;
    rekey_minutes = pos 30;
    kcp = record {
      data_shards = pos 0;
      parity_shards = pos 0;
      no_delay = pos 1;
      interval = pos 20;
      resend = pos 2;
      no_congestion = pos 1;
      send_window = pos 512;
      receive_window = pos 512;
      mtu = pos 1200;
      socket_buffer = pos (4 * mib);
    };
  };
  smart_return = record {
    enabled = true;
    probe_port = pos 9001;
    interval_seconds = pos 5;
    timeout_seconds = pos 2;
    fail_threshold = pos 3;
    recover_threshold = pos 3;
  };
  performance = record {
    profile = "turbo";
    tun_queues = pos 3;
    receive_workers = pos 1;
    tx_queue_len = pos 4096;
    qdisc = "fq_codel";
    socket_buffer = pos (8 * mib);
    stats_interval_seconds = pos 10;
  };
  tun = record sample.tun { name = "hsh0"; mtu = pos 1320 };
}

pub loads : load_config library sample ≡ passed loaded
unfolding load_config fill_basics byte_len check_basics fill_performance_of
    apply_performance_defaults fill_performance preset clamp_int validate_performance check_kcp
    apply_kcp_defaults validate_kcp check_addresses validate_transport_address is_key
    check_smart_return has_ports apply_smart_return_defaults validate_smart_return check_services
    check_network check_ports seen_port listen_port parse_port transport_network check_conflicts
    protocol_includes probe_clear probe_in_use ◌*ℤ◌
loads = refl
