-- ===== src/ReturnPath/Hysteresis.antt =====
-- The controller against the history of probes: which path is in use is decided by the runs of
-- equal results that the history ends in.
use hashshashin.Base.{
  ℕ, suc, ◌≤◌, ◌<◌, ◌≡◌, refl, ◌⊎◌, inl, Bool, true, false, List, [], ◌∷◌, ◌∙◌, arith, leb,
  if◌then◌else◌,
}
use hashshashin.ReturnPath.{
  ReturnPath, direct, tunnel, Controller, new_controller, observe, observe_all,
}

-- How many of the newest results (newest first) are `b`.
unfoldable pub streak : Bool → List Bool → ℕ
streak b [] = 0
streak true (true ∷ oks) = suc (streak true oks)
streak true (false ∷ oks) = 0
streak false (false ∷ oks) = suc (streak false oks)
streak false (true ∷ oks) = 0

-- The path that a history (newest first) calls for: it changes only on the result that completes a
-- run of the threshold's length.
unfoldable pub path_after : ℕ → ℕ → List Bool → ReturnPath
path_after f m [] = direct
path_after f m (true ∷ oks) =
    if leb m (streak true (true ∷ oks)) then direct else path_after f m oks
path_after f m (false ∷ oks) =
    if leb f (streak false (false ∷ oks)) then tunnel else path_after f m oks

-- The controller's state after a history.
pub record Follows (f m : ℕ) (oks : List Bool) (r : Controller) : Type 0 where
  pub fail_threshold : r.fail_threshold ≡ f
  pub recover_threshold : r.recover_threshold ≡ m
  pub path : r.path ≡ path_after f m oks
  pub on_direct : r.path ≡ direct → (r.failures ≡ streak false oks) × (r.failures < f)
  pub on_tunnel : r.path ≡ tunnel → (r.successes ≡ streak true oks) × (r.successes < m)

pub new-Follows : (f m : ℕ) → 0 < f → 0 < m → Follows f m [] (new_controller f m)
unfolding new_controller path_after streak
new-Follows f m pf pm = ground arith

path_after-cases :
    (f m : ℕ) (oks : List Bool) → (path_after f m oks ≡ direct) ⊎ (path_after f m oks ≡ tunnel)
unfolding path_after
path_after-cases f m [] = inl refl
path_after-cases f m (true ∷ oks) = ground (arith, path_after-cases f m oks)
path_after-cases f m (false ∷ oks) = ground (arith, path_after-cases f m oks)

pub observe-Follows :
    (f m : ℕ) (oks : List Bool) (r : Controller) (ok : Bool)
    → 0 < f
    → 0 < m
    → Follows f m oks r
    → Follows f m (ok ∷ oks) (observe r ok).0
unfolding observe path_after streak
observe-Follows f m oks r true pf pm h = ground (arith, path_after-cases f m oks)
observe-Follows f m oks r false pf pm h = ground (arith, path_after-cases f m oks)

-- Results from a new controller, oldest first, as the history they leave.
unfoldable pub history : List Bool → List Bool → List Bool
history past [] = past
history past (ok ∷ oks) = history (ok ∷ past) oks

observe_all-Follows :
    (f m : ℕ) (past oks : List Bool) (r : Controller) (k : ℕ)
    → 0 < f
    → 0 < m
    → Follows f m past r
    → Follows f m (history past oks) (observe_all r k oks).0
unfolding observe_all history
observe_all-Follows f m past [] r k pf pm h = h
observe_all-Follows f m past (ok ∷ oks) r k pf pm h =
    let (r', path, changed) = observe r ok in
    observe_all-Follows f m (ok ∷ past) oks r' (if changed then suc k else k) pf pm
      (observe-Follows f m past r ok pf pm h)

-- After any sequence of probes, from a new controller with positive thresholds: the path is the one
-- that the history calls for, it is `direct` or `tunnel`, and the counter in use is the length of
-- the run that the history ends in, below its threshold.
pub observe_all-history :
    (f m : ℕ) (oks : List Bool)
    → 0 < f
    → 0 < m
    → Follows f m (history [] oks) (observe_all (new_controller f m) 0 oks).0
observe_all-history f m oks pf pm =
    observe_all-Follows f m [] oks (new_controller f m) 0 pf pm (new-Follows f m pf pm)

path_after-failing :
    (f m : ℕ) (oks : List Bool) → 0 < f → f ≤ streak false oks → path_after f m oks ≡ tunnel
unfolding path_after streak
path_after-failing f m [] pf h = absurd (omega arith)
path_after-failing f m (true ∷ oks) pf h = absurd (omega arith)
path_after-failing f m (false ∷ oks) pf h = ground arith

path_after-passing :
    (f m : ℕ) (oks : List Bool) → 0 < m → m ≤ streak true oks → path_after f m oks ≡ direct
unfolding path_after streak
path_after-passing f m [] pm h = absurd (omega arith)
path_after-passing f m (false ∷ oks) pm h = absurd (omega arith)
path_after-passing f m (true ∷ oks) pm h = ground arith

-- The fall-back happens: once the last `f` probes failed the path is `tunnel`, whatever came
-- before.
pub observe_all-falls_back :
    (f m : ℕ) (oks : List Bool)
    → 0 < f
    → 0 < m
    → f ≤ streak false (history [] oks)
    → (observe_all (new_controller f m) 0 oks).0.path ≡ tunnel
observe_all-falls_back f m oks pf pm failing =
    (observe_all-history f m oks pf pm).path ∙ path_after-failing f m (history [] oks) pf failing

-- The recovery happens: once the last `m` probes passed the path is `direct`, whatever came before.
pub observe_all-recovers :
    (f m : ℕ) (oks : List Bool)
    → 0 < f
    → 0 < m
    → m ≤ streak true (history [] oks)
    → (observe_all (new_controller f m) 0 oks).0.path ≡ direct
observe_all-recovers f m oks pf pm passing =
    (observe_all-history f m oks pf pm).path ∙ path_after-passing f m (history [] oks) pm passing

-- A switch is announced only by the probe that completes a run: to `tunnel` when the last `f`
-- results failed, to `direct` when the last `m` passed. Otherwise the path stays. The new state's
-- path is the one announced.
pub observe-changed :
    (f m : ℕ) (past : List Bool) (r : Controller) (ok : Bool)
    → Follows f m past r
    → let (r', path, changed) = observe r ok in
      (r'.path ≡ path)
      × (((changed ≡ true) × (path ≡ tunnel) × (r.path ≡ direct) × (f ≤ streak false (ok ∷ past)))
          ⊎ ((changed ≡ true) × (path ≡ direct) × (r.path ≡ tunnel) × (m ≤ streak true (ok ∷ past)))
          ⊎ ((changed ≡ false) × (path ≡ r.path)))
unfolding observe streak
observe-changed f m past r true h = ground arith
observe-changed f m past r false h = ground arith
