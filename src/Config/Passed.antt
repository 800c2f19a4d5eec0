-- ===== src/Config/Passed.antt =====
-- Chains of the checks of config.go that succeed.
use hashshashin.Base.{ap, ◌≡◌, refl}
use hashshashin.Config.{Checked, passed, refused, ◌>>=◌, ◌>>◌}

-- A chain that succeeds has a first result.
pub bind_passed {ℓ κ} :
    {A : Type ℓ} {B : Type κ} (m : Checked A) {f : A → Checked B} {v : B}
    → (m >>= f) ≡ passed v
    → (a : A) × ((m ≡ passed a) × (f a ≡ passed v))
bind_passed (passed a) h = (a, (refl, h))
bind_passed (refused e) h = cc

pub step_passed {ℓ} :
    {B : Type ℓ} (m : Checked (Unit {0})) {n : Checked B} {v : B}
    → (m >> n) ≡ passed v
    → (m ≡ passed tt) × (n ≡ passed v)
step_passed (passed u) h = (refl, h)
step_passed (refused e) h = cc

pub passed_inj {ℓ} : {A : Type ℓ} {a b : A} → passed a ≡ passed b → a ≡ b
passed_inj {a} e = ap (λ r. elim r [ passed x ↦ x | refused y ↦ a ]) e
