-- ===== src/Replay/Tests.antt =====
-- Runs of the window, and the theorems at concrete counters.
use hashshashin.Base.{ℕ, ◌≡◌, refl, List, [], ◌∷◌}
use hashshashin.Replay.{empty_window, slide, mark_old, accept, accept_all}
use hashshashin.Replay.Spec.{IsDistinct, contains, newest}
use hashshashin.Replay.Window.{Represents, Refines, empty-Represents, accept-Refines}
use hashshashin.Replay.Traces.{fresh_all, accept_all-exact}

-- Out of order, repeated, ahead by more than the window, and too old.
abbrev arrivals : List ℕ
arrivals = 5 ∷ 3 ∷ 5 ∷ 0 ∷ 100 ∷ 37 ∷ 36 ∷ 37 ∷ 101 ∷ []

arrivals_accepted : (accept_all empty_window [] arrivals).1 ≡ 101 ∷ 37 ∷ 100 ∷ 3 ∷ 5 ∷ []
unfolding accept_all accept slide mark_old
arrivals_accepted = refl

accept_all-exact_example :
    let (r, seen) = accept_all empty_window [] arrivals in
    (seen ≡ fresh_all [] arrivals) × IsDistinct seen × Represents seen r
accept_all-exact_example = accept_all-exact arrivals

after_five-Represents : Represents (5 ∷ []) (accept empty_window 5).0
unfolding contains newest
after_five-Represents = (accept-Refines [] empty_window 5 empty-Represents).1

accept-Refines_example : Refines (5 ∷ []) 3 (accept (accept empty_window 5).0 3)
accept-Refines_example = accept-Refines (5 ∷ []) (accept empty_window 5).0 3 after_five-Represents
