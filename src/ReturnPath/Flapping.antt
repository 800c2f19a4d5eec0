-- ===== src/ReturnPath/Flapping.antt =====
-- How often the path can change.
use hashshashin.Base.{
  ℕ, suc, ◌+◌, ◌*◌, ◌≤◌, ◌≡◌, Bool, true, false, List, [], ◌∷◌, arith, if◌then◌else◌, length,
}
use hashshashin.ReturnPath.{direct, tunnel, other, Controller, new_controller, observe, observe_all}

-- Results already counted towards the next switch.
abbrev progress : Controller → ℕ
progress r = elim r.path [ direct ↦ r.failures | tunnel ↦ r.successes | other s ↦ 0 ]

abbrev bump : Bool → ℕ → ℕ
bump true n = suc n
bump false n = n

-- One result adds one to the progress, or completes a run of at least `n`.
observe-progress :
    (n : ℕ) (r : Controller) (ok : Bool)
    → n ≤ r.fail_threshold
    → n ≤ r.recover_threshold
    → let (r', path, changed) = observe r ok in
      (progress r' + (if changed then n else 0) ≤ suc (progress r))
      × (r'.fail_threshold ≡ r.fail_threshold)
      × (r'.recover_threshold ≡ r.recover_threshold)
unfolding observe
observe-progress n r ok hf hm = ground arith

times_if : (n k : ℕ) (b : Bool) → n * (if b then suc k else k) ≡ n * k + (if b then n else 0)
times_if n k true = omega arith
times_if n k false = omega arith

observe_all-switches :
    (n : ℕ) (r : Controller) (k : ℕ) (oks : List Bool)
    → n ≤ r.fail_threshold
    → n ≤ r.recover_threshold
    → n * (observe_all r k oks).1 ≤ n * k + progress r + length oks
unfolding observe_all
observe_all-switches n r k [] hf hm = omega arith
observe_all-switches n r k (ok ∷ oks) hf hm =
    let (fewer, same_f, same_m) = observe-progress n r ok hf hm in
    let rest =
      observe_all-switches n (observe r ok).0 (if (observe r ok).2 then suc k else k) oks
        (rw same_f hf) (rw same_m hm) in
    omega (arith, times_if n k (observe r ok).2, fewer, rest)

-- If both thresholds are at least `n`, any sequence of probes makes at most one switch for every
-- `n` results: the path cannot flap faster than that.
pub observe_all-flaps :
    (n f m : ℕ) (oks : List Bool)
    → n ≤ f
    → n ≤ m
    → n * (observe_all (new_controller f m) 0 oks).1 ≤ length oks
unfolding new_controller
observe_all-flaps n f m oks hf hm =
    omega (arith, observe_all-switches n (new_controller f m) 0 oks hf hm)
