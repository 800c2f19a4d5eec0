-- ===== src/Main/Program.antt =====
-- main.go, `main`, `launchManager` and `printConfigSummary`. The flags, the file's content and what the
-- host answers are arguments; each line that is printed is a text.
use Prim.Native.String
use hashshashin.Base.{
  ℕ, String, str_eq, Bool, not, List, [], ◌∷◌, ◌++◌, Option, none, some, if◌then◌else◌, map,
}
use hashshashin.Base.Int.{ℤ}
use hashshashin.Base.Bytes.{Bytes}
use hashshashin.Config.{Config, Library, Checked, passed, refused}
use hashshashin.Config.Load.{load_config}
use hashshashin.Shell.{Shell, Log, Status, ok, command_failed, refused, running}
use hashshashin.Routing.Setup.{clean}
use hashshashin.Main.{Fate, run}

pub record Flags : Type 0 where
  pub check : Bool
  pub cleanup : Bool
  pub keygen : Bool
  pub show_version : Bool
  pub show_summary : Bool
  pub menu : Bool

-- Whether the management panel is there and ends well, 32 random bytes, their base64 text, the build's
-- reference, and whether the user is root.
pub record Host : Type 0 where
  pub has_manager : Bool
  pub manager_succeeds : Bool
  pub random_key : Option Bytes
  pub encode_key : Bytes → String
  pub build_ref : String
  pub is_root : Bool

-- How the process ends: from `main`, or by log.Fatal; or not yet.
pub data Exit : Type 0 where
  clean_exit fatal unfinished : Exit

abbrev pub Ending : Type 0
Ending = Exit × List String × Log

abbrev version : String
version = "0.3.0-alpha"

infixr 6 ◌<>◌
abbrev ◌<>◌ : String → String → String
◌<>◌ = String.◌++◌

-- strings.Join.
unfoldable pub join : String → List String → String
join sep [] = ""
join sep (x ∷ []) = x
join sep (x ∷ y ∷ xs) = x <> sep <> join sep (y ∷ xs)

abbrev truth : Bool → String
truth b = if b then "true" else "false"

abbrev pub of_status : Status → Exit
of_status ok = clean_exit
of_status (command_failed c) = fatal
of_status refused = fatal
of_status running = unfinished

abbrev after_clean : Status → Exit
after_clean ok = clean_exit
after_clean (command_failed c) = clean_exit
after_clean refused = clean_exit
after_clean running = unfinished

module _ (itoa : ℤ → String) where
  unfoldable pub config_summary : Config → List String
  unfolding join
  config_summary c =
      ("role=" <> c.role)
      ∷ ("mode=" <> c.mode)
      ∷ ("transport=" <> c.transport.kind)
      ∷ ("tun_name=" <> c.tun.name)
      ∷ ("tun_cidr=" <> c.tun.local_cidr)
      ∷ ("tun_peer=" <> c.tun.peer_ip)
      ∷ ("mtu=" <> itoa c.tun.mtu)
      ∷ ("public_interface=" <> c.network.public_interface)
      ∷ ("public_ip=" <> c.network.public_ip)
      ∷ ("foreign_public_ip=" <> c.network.foreign_public_ip)
      ∷ ("iran_public_ip=" <> c.network.iran_public_ip)
      ∷ ("carrier_listen=" <> c.transport.listen)
      ∷ ("carrier_peer=" <> (if str_eq c.transport.peer "" then "-" else c.transport.peer))
      ∷ ("service_ports=" <> join "," (map (λ p. itoa p.port <> "/" <> p.protocol) c.ports))
      ∷ ("performance_profile=" <> c.performance.profile)
      ∷ ("tun_queues=" <> itoa c.performance.tun_queues)
      ∷ ("receive_workers=" <> itoa c.performance.receive_workers)
      ∷ ("tx_queue_len=" <> itoa c.performance.tx_queue_len)
      ∷ ("qdisc=" <> c.performance.qdisc)
      ∷ ("socket_buffer=" <> itoa c.performance.socket_buffer)
      ∷ ("smart_return=" <> truth c.smart_return.enabled)
      ∷ ((if c.smart_return.enabled
            then ("smart_probe_port=" <> itoa c.smart_return.probe_port)
              ∷ ("smart_interval=" <> itoa c.smart_return.interval_seconds)
              ∷ ("smart_timeout=" <> itoa c.smart_return.timeout_seconds)
              ∷ ("smart_thresholds="
                  <> itoa c.smart_return.fail_threshold
                  <> "/"
                  <> itoa c.smart_return.recover_threshold)
              ∷ []
            else [])
          ++ (if str_eq c.transport.kind "kcp"
              then ("kcp_fec="
                  <> itoa c.transport.kcp.data_shards
                  <> "/"
                  <> itoa c.transport.kcp.parity_shards)
                ∷ ("kcp_window="
                    <> itoa c.transport.kcp.send_window
                    <> "/"
                    <> itoa c.transport.kcp.receive_window)
                ∷ []
              else []))

  unfoldable pub check_line : Config → String
  check_line c =
      "Hashshashin "
      <> version
      <> ": config ok (transport="
      <> c.transport.kind
      <> " profile="
      <> c.performance.profile
      <> " queues="
      <> itoa c.performance.tun_queues
      <> ")"

  unfoldable pub launch_manager : Host → Exit
  launch_manager host =
      if not host.has_manager then fatal else if host.manager_succeeds then clean_exit else fatal

  unfoldable pub print_key : Host → Option Bytes → Exit × List String
  print_key host none = (fatal, [])
  print_key host (some b) = (clean_exit, host.encode_key b ∷ [])

  module _ (l : Library) (host : Host) (fate : Fate) (fuel : ℕ) (sh : Shell) (log : Log) where
    -- The part of `main` that needs root.
    unfoldable pub act : Bool → Config → Ending
    act cleanup c =
        if cleanup
        then (let (s, log') = clean fuel c sh log in (after_clean s, [], log'))
        else (let (s, log') = run itoa l fuel c fate sh log in (of_status s, [], log'))

    unfoldable pub with_config : Flags → Checked Config → Ending
    unfolding act config_summary check_line
    with_config flags (refused e) = (fatal, [], log)
    with_config flags (passed c) =
        if flags.show_summary
        then (clean_exit, config_summary c, log)
        else if flags.check
        then (clean_exit, check_line c ∷ [], log)
        else if not host.is_root
        then (fatal, [], log)
        else act flags.cleanup c

    -- The file is none if it cannot be read or decoded.
    unfoldable pub load_file : Flags → Option Config → Ending
    unfolding with_config
    load_file flags none = (fatal, [], log)
    load_file flags (some raw) = with_config flags (load_config l raw)

    -- No flags at all if the process has no arguments.
    unfoldable pub main : Option Flags → Option Config → Ending
    unfolding launch_manager print_key load_file
    main none file = (launch_manager host, [], log)
    main (some flags) file =
        if flags.menu
        then (launch_manager host, [], log)
        else if flags.show_version
        then (clean_exit, ("Hashshashin " <> version <> " (" <> host.build_ref <> ")") ∷ [], log)
        else if flags.keygen
        then (let (exit, out) = print_key host host.random_key in (exit, out, log))
        else load_file flags file
