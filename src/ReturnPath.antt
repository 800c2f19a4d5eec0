-- ===== src/ReturnPath.antt =====
-- smart_return.go, `returnPathController`: the hysteresis that picks the download path, and the
-- bounded channel on which probe acknowledgements arrive.
pub mod Hysteresis
pub mod Flapping
pub mod Mailbox
mod Tests
use hashshashin.Base.{ℕ, suc, ◌+◌, String, Bool, true, false, List, [], ◌∷◌, leb, if◌then◌else◌}

-- `returnPath` is a string; a value that is neither constant is `other`.
pub data ReturnPath : Type 0 where
  direct tunnel : ReturnPath
  other : String → ReturnPath

-- The thresholds come from a checked configuration, 1 to 20; the counters stay below them.
pub record Controller : Type 0 where
  pub path : ReturnPath
  pub failures : ℕ
  pub successes : ℕ
  pub fail_threshold : ℕ
  pub recover_threshold : ℕ

unfoldable pub new_controller : ℕ → ℕ → Controller
new_controller fail_threshold recover_threshold = record {
  path = direct;
  failures = 0;
  successes = 0;
  fail_threshold = fail_threshold;
  recover_threshold = recover_threshold;
}

-- One failed probe on the direct path.
direct_failed : Controller → Controller × ReturnPath × Bool
direct_failed r =
    let failures = r.failures + 1 in
    if leb r.fail_threshold failures
    then (record r { path = tunnel; failures = 0; successes = 0 }, tunnel, true)
    else (record r { failures = failures }, r.path, false)

-- One good probe while the download goes through the tunnel.
tunnel_passed : Controller → Controller × ReturnPath × Bool
tunnel_passed r =
    let successes = r.successes + 1 in
    if leb r.recover_threshold successes
    then (record r { path = direct; successes = 0; failures = 0 }, direct, true)
    else (record r { successes = successes }, r.path, false)

-- The `switch` of `observe`.
dispatch : ReturnPath → Bool → Controller → Controller × ReturnPath × Bool
unfolding direct_failed tunnel_passed
dispatch direct true r = (record r { failures = 0 }, r.path, false)
dispatch direct false r = direct_failed r
dispatch tunnel false r = (record r { successes = 0 }, r.path, false)
dispatch tunnel true r = tunnel_passed r
dispatch (other s) ok r = (r, r.path, false)

-- The new state, and what the caller is told: the path and whether it changed.
unfoldable pub observe : Controller → Bool → Controller × ReturnPath × Bool
unfolding dispatch
observe r ok = dispatch r.path ok r

-- A sequence of probes, oldest first, with the number of switches made.
unfoldable pub observe_all : Controller → ℕ → List Bool → Controller × ℕ
observe_all r switches [] = (r, switches)
observe_all r switches (ok ∷ oks) =
    let (r', path, changed) = observe r ok in
    observe_all r' (if changed then suc switches else switches) oks
