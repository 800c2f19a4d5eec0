-- ===== src/Main/Tests.antt =====
-- A run of the Iran node, and the program's start.
use hashshashin.Base.{
  ℕ, ◌≡◌, refl, String, Bool, true, false, List, [], ◌∷◌, none, some, replicate, ap, get_elem?,
}
use hashshashin.Base.Int.{ℤ}
use hashshashin.Config.Sample.{loaded}
use hashshashin.Shell.{ok}
use hashshashin.Main.{Fate}
use hashshashin.Main.Program.{Flags, Host, config_summary}

abbrev itoa : ℤ → String
itoa n = "0"

abbrev fate : Fate
fate = record { tun_opens = true; carrier_opens = true; listens = true; ticks = []; outcome = ok }

abbrev flags : Flags
flags = record {
  check = false;
  cleanup = false;
  keygen = false;
  show_version = false;
  show_summary = false;
  menu = false;
}

abbrev host : Host
host = record {
  has_manager = false;
  manager_succeeds = false;
  random_key = some (replicate 32 1);
  encode_key = λ b. "AQEB";
  build_ref = "source";
  is_root = true;
}

-- The ports of the summary.
summary_ports : get_elem? (config_summary itoa loaded) 13 ≡ some "service_ports=0/tcp,0/both"
unfolding config_summary
summary_ports = refl
