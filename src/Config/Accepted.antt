-- ===== src/Config/Accepted.antt =====
-- What `loadConfig` guarantees of a configuration that it returns.
use hashshashin.Base.{
  ap, subst, ◌∙◌, ◌≤◌, ◌≡◌, ◌≢◌, refl, sym, str_eq, Bool, true, false, not, ◌||◌, Option, none,
  some, arith, ◌⊎◌, leb, length, if◌then◌else◌,
}
use text.Mathlib.TextEquality.{eq_iff}
use hashshashin.Base.Bytes.{Bytes}
use hashshashin.Base.Int.{pos, ltb_ℤ, ◌≤ℤ◌, ◌*ℤ◌}
use hashshashin.Config.{
  Config, KcpConfig, SmartReturnConfig, smart_needs_direct, smart_needs_ports, Library, passed,
  ◌>>◌, guard, within,
}
use hashshashin.Config.Defaults.{
  validate_performance, validate_kcp, apply_kcp_defaults, validate_smart_return,
  apply_smart_return_defaults,
}
use hashshashin.Config.Load.{
  fill_basics, check_basics, byte_len, is_key, check_addresses, validate_transport_address,
  has_ports, check_smart_return, check_services, fill_performance_of, check_kcp, load_config,
}
use hashshashin.Config.Bounds.{
  Between, within→Between, guard_passed, guard_last, text_cases₂, text_cases₃, IsPerformance,
  validate_performance-IsPerformance, IsKcp, validate_kcp-IsKcp, IsSmartReturn,
  validate_smart_return-IsSmartReturn,
}
use hashshashin.Config.Addresses.{Resolves, validate_transport_address-Resolves}
use hashshashin.Config.Passed.{bind_passed, step_passed, passed_inj}
use hashshashin.Config.Serving.{IsServing, check_services-IsServing}

pub record IsBasic (c : Config) : Type 0 where
  pub kind : (c.transport.kind ≡ "udp") ⊎ ((c.transport.kind ≡ "tcp") ⊎ (c.transport.kind ≡ "kcp"))
  pub name : byte_len c.tun.name ≤ 15
  pub mtu : Between 900 1400 c.tun.mtu
  pub keepalive : Between 2 60 c.transport.keepalive_seconds
  pub timeout : c.transport.keepalive_seconds *ℤ pos 2 ≤ℤ c.transport.session_timeout_seconds
  pub rekey : Between 5 1440 c.transport.rekey_minutes

check_basics-IsBasic : (c : Config) → check_basics c ≡ passed tt → IsBasic c
unfolding check_basics
check_basics-IsBasic c h =
    let t = c.transport in
    let (kind, h1) =
      guard_passed (str_eq t.kind "udp" || (str_eq t.kind "tcp" || str_eq t.kind "kcp")) _ h in
    let (name, h2) = guard_passed (leb (byte_len c.tun.name) 15) _ h1 in
    let (mtu, h3) = guard_passed (within 900 1400 c.tun.mtu) _ h2 in
    let (keep, h4) = guard_passed (within 2 60 t.keepalive_seconds) _ h3 in
    let (timeout, h5) =
      guard_passed (not (ltb_ℤ t.session_timeout_seconds (t.keepalive_seconds *ℤ pos 2))) _ h4 in
    let rekey = guard_last (within 5 1440 t.rekey_minutes) _ h5 in
    record {
      kind = text_cases₃ t.kind "udp" "tcp" "kcp" kind;
      name = ground arith;
      mtu = within→Between 900 1400 _ mtu;
      keepalive = within→Between 2 60 _ keep;
      timeout = ground arith;
      rekey = within→Between 5 1440 _ rekey;
    }

pub record IsAddressed (l : Library) (c : Config) : Type 0 where
  pub key : (k : Bytes) × ((l.decode_key c.transport.key ≡ some k) × (length k ≡ 32))
  pub listen : Resolves l c.transport.kind c.transport.listen
  pub peer :
      c.role ≡ "iran" → (c.transport.peer ≢ "") × Resolves l c.transport.kind c.transport.peer
  pub cidr : l.parses_cidr c.tun.local_cidr ≡ true
  pub peer_ip : l.parses_ipv4 c.tun.peer_ip ≡ true

key_length :
    (key : Option Bytes) → is_key key ≡ true → (k : Bytes) × ((key ≡ some k) × (length k ≡ 32))
unfolding is_key
key_length none h = cc
key_length (some k) h = (k, (refl, ground arith))

check_addresses-IsAddressed :
    (l : Library) (c : Config) → check_addresses l c ≡ passed tt → IsAddressed l c
unfolding check_addresses
check_addresses-IsAddressed l c h =
    let t = c.transport in
    let (key, h1) = guard_passed (is_key (l.decode_key t.key)) _ h in
    let (listen, h2) = guard_passed (validate_transport_address l t.kind t.listen) _ h1 in
    let (peer, h3) = guard_passed (not (str_eq c.role "iran") || not (str_eq t.peer "")) _ h2 in
    let (peer_ok, h4) =
      guard_passed (not (str_eq c.role "iran") || validate_transport_address l t.kind t.peer) _
        h3 in
    let (cidr, h5) = guard_passed (l.parses_cidr c.tun.local_cidr) _ h4 in
    record {
      key = key_length (l.decode_key t.key) key;
      listen = validate_transport_address-Resolves l t.kind t.listen listen;
      peer = λ e. (
        (λ b. ground (arith, eq_iff c.role "iran", eq_iff t.peer "")),
        validate_transport_address-Resolves l t.kind t.peer (ground (arith, eq_iff c.role "iran")),
      );
      cidr = cidr;
      peer_ip = guard_last (l.parses_ipv4 c.tun.peer_ip) _ h5;
    }

-- The KCP section alone changes, and is good if it is in use.
check_kcp_passed :
    (c d : Config)
    → check_kcp c ≡ passed d
    → (d ≡ record c { transport = record c.transport { kcp = d.transport.kcp } })
      × (d.transport.kind ≡ "kcp" → IsKcp d.transport.kcp)
unfolding check_kcp
check_kcp_passed c d h = go (str_eq c.transport.kind "kcp") refl h
  where
    tuned : KcpConfig
    tuned = apply_kcp_defaults c.transport.kcp

    go :
        (b : Bool)
        → str_eq c.transport.kind "kcp" ≡ b
        → (if b
            then (validate_kcp tuned
                >> passed (record c { transport = record c.transport { kcp = tuned } }))
            else passed c)
          ≡ passed d
        → (d ≡ record c { transport = record c.transport { kcp = d.transport.kcp } })
          × (d.transport.kind ≡ "kcp" → IsKcp d.transport.kcp)
    go true e h =
        let (good, done) = step_passed (validate_kcp tuned) h in
        subst
          (λ x.
            (x ≡ record c { transport = record c.transport { kcp = x.transport.kcp } })
            × (x.transport.kind ≡ "kcp" → IsKcp x.transport.kcp))
          (passed_inj done) (refl, λ k. validate_kcp-IsKcp tuned good)
    go false e h =
        subst
          (λ x.
            (x ≡ record c { transport = record c.transport { kcp = x.transport.kcp } })
            × (x.transport.kind ≡ "kcp" → IsKcp x.transport.kcp))
          (passed_inj h) (refl, λ k. absurd (ground (arith, eq_iff c.transport.kind "kcp")))

pub record IsReturning (c : Config) : Type 0 where
  pub mode : c.mode ≡ "direct-return"
  pub has_ports : has_ports c.ports ≡ true
  pub numbers : IsSmartReturn c.smart_return

check_smart_return_passed :
    (c d : Config)
    → check_smart_return c ≡ passed d
    → (d ≡ record c { smart_return = d.smart_return })
      × (d.smart_return.enabled ≡ true → IsReturning d)
unfolding check_smart_return
check_smart_return_passed c d h = go c.smart_return.enabled refl h
  where
    filled : SmartReturnConfig
    filled = apply_smart_return_defaults c.smart_return

    go :
        (b : Bool)
        → c.smart_return.enabled ≡ b
        → (if b
            then (guard (str_eq c.mode "direct-return") smart_needs_direct
                >> (guard (has_ports c.ports) smart_needs_ports
                    >> (validate_smart_return filled
                        >> passed (record c { smart_return = filled }))))
            else passed c)
          ≡ passed d
        → (d ≡ record c { smart_return = d.smart_return })
          × (d.smart_return.enabled ≡ true → IsReturning d)
    go true e h =
        let (direct, h1) = guard_passed (str_eq c.mode "direct-return") _ h in
        let (ports, h2) = guard_passed (has_ports c.ports) _ h1 in
        let (good, done) = step_passed (validate_smart_return filled) h2 in
        let returning : IsReturning (record c { smart_return = filled }) = record {
          mode = (eq_iff c.mode "direct-return").0 direct;
          has_ports = ports;
          numbers = validate_smart_return-IsSmartReturn filled good;
        } in
        subst
          (λ x.
            (x ≡ record c { smart_return = x.smart_return })
            × (x.smart_return.enabled ≡ true → IsReturning x))
          (passed_inj done) (refl, λ k. returning)
    go false e h =
        subst
          (λ x.
            (x ≡ record c { smart_return = x.smart_return })
            × (x.smart_return.enabled ≡ true → IsReturning x))
          (passed_inj h) (refl, λ k. cc)

pub record IsValid (l : Library) (c : Config) : Type 0 where
  pub role : (c.role ≡ "iran") ⊎ (c.role ≡ "kharej")
  pub mode : (c.mode ≡ "full") ⊎ (c.mode ≡ "direct-return")
  pub basic : IsBasic c
  pub performance : IsPerformance c.performance
  pub kcp : c.transport.kind ≡ "kcp" → IsKcp c.transport.kcp
  pub addressed : IsAddressed l c
  pub returning : c.smart_return.enabled ≡ true → IsReturning c
  pub serving : has_ports c.ports ≡ true → IsServing l c

-- The two sections that the checks fill in late leave what holds of the others as it was.
carried :
    (P : Config → Type 0) (t k s : Config)
    → k ≡ record t { transport = record t.transport { kcp = k.transport.kcp } }
    → s ≡ record k { smart_return = s.smart_return }
    → P (record t {
      transport = record t.transport { kcp = k.transport.kcp };
      smart_return = s.smart_return;
    })
    → P s
carried P t k s e f p =
    subst P
      (sym (f ∙ ap {A = Config} {B = Config} (λ x. record x { smart_return = s.smart_return }) e)) p

-- A configuration that loadConfig returns has passed every check, its defaults filled in first: role, mode
-- and kind of transport are known ones, the numbers of each section in use are in their ranges, the key has
-- 32 bytes, the addresses in use resolve or parse. With service ports the interface and three IPv4 addresses
-- are named, no pair of port and protocol is listed twice, none clashes with the carrier's port or the
-- probe's, and these two differ unless the carrier is TCP.
pub load_config-IsValid : (l : Library) (c d : Config) → load_config l c ≡ passed d → IsValid l d
unfolding load_config fill_basics check_basics fill_performance_of check_addresses
load_config-IsValid l c d h =
    let (role, h1) = guard_passed (str_eq c.role "iran" || str_eq c.role "kharej") _ h in
    let (mode, h2) = guard_passed (str_eq c.mode "full" || str_eq c.mode "direct-return") _ h1 in
    let (basic, h3) = step_passed (check_basics (fill_basics c)) h2 in
    let tuned = fill_performance_of l (fill_basics c) in
    let (perf, h4) = step_passed (validate_performance tuned.performance) h3 in
    let (k, (kcp, h5)) = bind_passed (check_kcp tuned) h4 in
    let (addressed, h6) = step_passed (check_addresses l k) h5 in
    let (s, (smart, h7)) = bind_passed (check_smart_return k) h6 in
    let (services, done) = step_passed (check_services l s) h7 in
    let (kept, kcp_good) = check_kcp_passed tuned k kcp in
    let (kept_too, returning) = check_smart_return_passed k s smart in
    let valid : IsValid l s = record {
      role =
          carried (λ x. (x.role ≡ "iran") ⊎ (x.role ≡ "kharej")) tuned k s kept kept_too
            (text_cases₂ c.role "iran" "kharej" role);
      mode =
          carried (λ x. (x.mode ≡ "full") ⊎ (x.mode ≡ "direct-return")) tuned k s kept kept_too
            (text_cases₂ c.mode "full" "direct-return" mode);
      basic =
          check_basics-IsBasic s
            (carried (λ x. check_basics x ≡ passed tt) tuned k s kept kept_too basic);
      performance =
          carried (λ x. IsPerformance x.performance) tuned k s kept kept_too
            (validate_performance-IsPerformance tuned.performance perf);
      kcp = subst (λ x. x.transport.kind ≡ "kcp" → IsKcp x.transport.kcp) (sym kept_too) kcp_good;
      addressed =
          check_addresses-IsAddressed l s
            (subst (λ x. check_addresses l x ≡ passed tt) (sym kept_too) addressed);
      returning = returning;
      serving = check_services-IsServing l s services;
    } in
    subst (λ x. IsValid l x) (passed_inj done) valid
