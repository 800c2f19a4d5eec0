-- ===== src/Replay/Traces.antt =====
-- A whole session's counters: what `accept_all` lets through, in any order of arrival.
use hashshashin.Base.{ℕ, ◌≡◌, refl, List, [], ◌∷◌}
use hashshashin.Replay.{ReplayWindow, empty_window, accept, accept_all}
use hashshashin.Replay.Spec.{is_fresh, IsDistinct}
use hashshashin.Replay.Window.{Represents, empty-Represents, note_fresh, accept-Refines}

-- The contract's run over a list of counters.
pub fresh_all : List ℕ → List ℕ → List ℕ
fresh_all seen [] = seen
fresh_all seen (c ∷ cs) = fresh_all (note_fresh seen c) cs

accept_all-step :
    (r : ReplayWindow) (seen : List ℕ) (c : ℕ) (cs : List ℕ)
    → Represents seen r
    → accept_all r seen (c ∷ cs) ≡ accept_all (accept r c).0 (note_fresh seen c) cs
unfolding accept_all
accept_all-step r seen c cs rep =
    let same : (accept r c).1 ≡ is_fresh seen c = (accept-Refines seen r c rep).0 in rw same

accept_all-Represents :
    (r : ReplayWindow) (seen cs : List ℕ)
    → Represents seen r
    → ((accept_all r seen cs).1 ≡ fresh_all seen cs)
      × Represents (fresh_all seen cs) (accept_all r seen cs).0
unfolding accept_all fresh_all
accept_all-Represents r seen [] rep = (refl, rep)
accept_all-Represents r seen (c ∷ cs) rep =
    rw (accept_all-step r seen c cs rep)
      (accept_all-Represents (accept r c).0 (note_fresh seen c) cs (accept-Refines seen r c rep).1)

-- From an empty window, whatever counters arrive in whatever order: the window of 64 bits lets
-- through exactly those that the contract's full record of accepted counters lets through, and no
-- counter is let through twice.
pub accept_all-exact :
    (cs : List ℕ)
    → let (r, seen) = accept_all empty_window [] cs in
      (seen ≡ fresh_all [] cs) × IsDistinct seen × Represents seen r
accept_all-exact cs =
    let (same, rep) = accept_all-Represents empty_window [] cs empty-Represents in
    rw same (refl, rep.distinct, rep)
