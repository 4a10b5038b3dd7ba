-- ===== src/Common/Maps.antt =====
-- A map as a function from its keys.
use Prim.Native.Nat.{ℕ}
use mathlib.Core.Path.{◌≡◌, sym, ap, subst}
use mathlib.Core.Logic.{◌≢◌, inl, inr}
use native.Mathlib.Omega.{arith}
use watcher_ts.Common.Tests.{◌==◌, if◌then◌else◌, Bool-cases}

module _ {ℓ} {V : Type ℓ} where
  abbrev pub set_at : ℕ → V → (ℕ → V) → ℕ → V
  set_at k v f n = if n == k then v else f n

  pub set_at-cases {κ} :
      (P : V → Type κ) (k : ℕ) (v : V) (f : ℕ → V) (n : ℕ)
      → (n ≡ k → P v)
      → (n ≢ k → P (f n))
      → P (set_at k v f n)
  set_at-cases P k v f n there elsewhere = elim (Bool-cases (n == k)) [
    | inl same ↦ subst P (sym (ap (λ b. if b then v else f n) same)) (there (ground (arith, same)))
    | inr other ↦
        subst P (sym (ap (λ b. if b then v else f n) other))
          (elsewhere (λ e. ground (arith, other, e)))
  ]
