-- ===== src/Base/Maps.antt =====
-- Maps with one entry written: what stands at a key afterwards.
use Prim.Native.Nat.{ℕ}
use mathlib.Core.Path.{◌≡◌, sym, ap, ◌∙◌}
use mathlib.Core.Logic.{◌≢◌, ◌⊎◌}
use mathlib.Core.Option.{Option, some}
use native.Mathlib.Omega.{arith}
use sol_mesh.Base.Tests.{update}

module _ {A : Type 0} (f g : ℕ → Option A) (key : ℕ) (v : A) (e : g ≡ update f key (some v)) where
  -- An entry is the one written, or an old one.
  pub update-cases :
      (j : ℕ) (a : A) → g j ≡ some a → ((j ≡ key) × (v ≡ a)) ⊎ ((j ≢ key) × (f j ≡ some a))
  update-cases j a h =
      let at_j : update f key (some v) j ≡ some a = sym (ap (λ (m : ℕ → Option A). m j) e) ∙ h in
      ground arith

  -- An old entry is there still, or was overwritten.
  pub update-old : (j : ℕ) (a : A) → f j ≡ some a → (g j ≡ some a) ⊎ ((j ≡ key) × (g j ≡ some v))
  update-old j a h =
      let at_j : g j ≡ update f key (some v) j = ap (λ (m : ℕ → Option A). m j) e in ground arith
