-- ===== src/Tunnel/Sample.antt =====
-- Two nodes with a session: for the examples.
use hashshashin.Base.{ℕ, ◌*◌, ◌≡◌, refl, true, false, [], none, some, replicate}
use hashshashin.Base.Bytes.{Bytes}
use hashshashin.Clock.{second}
use hashshashin.Replay.Window.{Represents, empty-Represents}
use hashshashin.Tunnel.{State, Session, Metrics, session_with}

abbrev pub no_metrics : Metrics
no_metrics = record {
  data_tx_bytes = 0;
  data_rx_bytes = 0;
  data_tx_packets = 0;
  data_rx_packets = 0;
  control_tx_bytes = 0;
  control_rx_bytes = 0;
  control_tx_pkts = 0;
  control_rx_pkts = 0;
  send_errors = 0;
  decrypt_errors = 0;
  replay_drops = 0;
  no_session_drops = 0;
  tun_read_errors = 0;
}

abbrev pub new_state : State
new_state = record {
  session = none;
  pending = replicate 32 0;
  pending_set = false;
  hellos = [];
  probe_ack = none;
  metrics = no_metrics;
}

abbrev pub psk : Bytes
psk = replicate 32 9

abbrev pub cn : Bytes
cn = replicate 32 1

abbrev pub sn : Bytes
sn = replicate 32 2

abbrev pub at : ℕ → ℕ
at s = s * second

abbrev pub key_up : Bytes
key_up = replicate 32 3

abbrev pub key_down : Bytes
key_down = replicate 32 4

abbrev pub iran_end : Session
iran_end = record (session_with key_up key_down "kharej:1" true 8 (at 991)) { metered = true }

abbrev pub kharej_end : Session
kharej_end = record (session_with key_up key_down "iran:1" false 7 (at 990)) { metered = true }

abbrev pub kharej_state : State
kharej_state = record new_state { session = some kharej_end }

pub keys_match : kharej_end.rx_aead ≡ iran_end.tx_aead
unfolding session_with
keys_match = refl

pub window_is_empty : Represents [] kharej_end.replay
unfolding session_with
window_is_empty = empty-Represents
