-- ===== src/Common/Outcome.antt =====
-- Calls that end without an error, in a state of which something holds.
use mathlib.Core.Path.{◌≡◌, refl, ap, ◌∙◌}
use watcher_ts.Common.Effects.{
  Error, modify, ◌>>◌, Action, Result, ok, err, pure, modify, ◌>>◌, ◌>>=◌,
}

-- `m` ends in `state` with `value`, and `P` holds of them.
pub record Ends {A S : Type 0} (P : A → S → Type 0) (m : Action S A) (s : S) : Type 0 where
  pub value : A
  pub state : S
  pub runs : m s ≡ (ok value, state)
  pub holds : P value state

module _ {A S : Type 0} where
  pub Ends-pure : (P : A → S → Type 0) (a : A) (s : S) → P a s → Ends P (pure a) s
  Ends-pure P a s p = record { value = a; state = s; runs = refl; holds = p }

  pub Ends-weaken :
      {P Q : A → S → Type 0} (m : Action S A) (s : S)
      → Ends P m s
      → ((a : A) (t : S) → P a t → Q a t)
      → Ends Q m s
  Ends-weaken m s k f = record {
    value = k.value;
    state = k.state;
    runs = k.runs;
    holds = f k.value k.state k.holds;
  }

module _ {A B S : Type 0} where
  pub Ends-bind :
      (P : A → S → Type 0) (Q : B → S → Type 0) (m : Action S A) (f : A → Action S B) (s : S)
      → Ends P m s
      → ((a : A) (t : S) → P a t → Ends Q (f a) t)
      → Ends Q (m >>= f) s
  Ends-bind P Q m f s k next =
      let n = next k.value k.state k.holds in
      record {
        value = n.value;
        state = n.state;
        runs =
            ap
              (λ (p : Result A × S). elim p.0 as (λ _. Result B × S) [
                | ok a ↦ f a p.1
                | err e ↦ (err e, p.1)
              ])
              k.runs
            ∙ n.runs;
        holds = n.holds;
      }

module _ {B S : Type 0} where
  pub Ends-modify :
      (Q : B → S → Type 0) (g : S → S) (k : Action S B) (s : S)
      → Ends Q k (g s)
      → Ends Q (modify g >> k) s
  Ends-modify Q g k s e = record {
    value = e.value;
    state = e.state;
    runs = e.runs;
    holds = e.holds;
  }

  pub Ends-same :
      {Q : B → S → Type 0} (m k : Action S B) (s t : S) → m s ≡ k t → Ends Q k t → Ends Q m s
  Ends-same m k s t same e = record {
    value = e.value;
    state = e.state;
    runs = same ∙ e.runs;
    holds = e.holds;
  }

module _ {A B S : Type 0} where
  -- What follows a call that ends with a value, and one that throws.
  pub bind_ok :
      (m : Action S A) (f : A → Action S B) {s t : S} {a : A}
      → m s ≡ (ok a, t)
      → (m >>= f) s ≡ f a t
  bind_ok m f e =
      ap
        (λ (p : Result A × S). elim p.0 as (λ _. Result B × S) [
          | ok a ↦ f a p.1
          | err e ↦ (err e, p.1)
        ])
        e

  pub bind_err :
      (m : Action S A) (f : A → Action S B) {s t : S} {e : Error}
      → m s ≡ (err e, t)
      → (m >>= f) s ≡ (err e, t)
  bind_err m f e =
      ap
        (λ (p : Result A × S). elim p.0 as (λ _. Result B × S) [
          | ok a ↦ f a p.1
          | err e ↦ (err e, p.1)
        ])
        e
