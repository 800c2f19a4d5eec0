-- ===== src/Main/Guarded.antt =====
-- When the program runs commands at all, and that it runs those that take back what they made.
use hashshashin.Base.{ℕ, ◌≡◌, ◌≢◌, ◌⊎◌, String, Bool, true, false, ◌||◌, [], Option, some}
use hashshashin.Base.Int.{ℤ}
use hashshashin.Config.{Config, Library, passed}
use hashshashin.Config.Load.{load_config}
use hashshashin.Shell.{Shell}
use hashshashin.Shell.Emits.{Emits}
use hashshashin.Main.{Fate}
use hashshashin.Main.Undone.{IsUndone}
use hashshashin.Main.Program.{Flags, Host, unfinished, Ending}

-- No flag that only asks for something to be printed or for the panel.
abbrev pub only_prints : Flags → Bool
only_prints f = f.menu || (f.show_version || (f.keygen || (f.show_summary || f.check)))

-- A root user's process that was given a configuration which loadConfig lets through.
pub record IsRooted (l : Library) (host : Host) (flags : Option Flags) (file : Option Config)
    : Type 0 where
  pub given : Flags
  pub raw : Config
  pub loaded : Config
  pub flagged : flags ≡ some given
  pub acting : only_prints given ≡ false
  pub read : file ≡ some raw
  pub checked : load_config l raw ≡ passed loaded
  pub root : host.is_root ≡ true

module _ (itoa : ℤ → String) (l : Library) (host : Host) (fate : Fate) (fuel : ℕ) (sh : Shell) where
  module _ (flags : Option Flags) (file : Option Config) where
    -- Nothing was run, or by right, and the commands that take it back too.
    abbrev Guarded : Ending → Type 0
    Guarded r = r.0 ≢ unfinished → (r.2 ≡ []) ⊎ (IsRooted l host flags file × IsUndone [] r.2)
