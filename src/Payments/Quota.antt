-- ===== src/Payments/Quota.antt =====
-- The free queries of an account.
use watcher_ts.Common.{
  ℕ, suc, ◌-◌, ltb, leb, ◌==◌, Bool, true, false, List, [], ◌∷◌, ◌≡◌, ◌≢◌, refl, ap, subst, ◌∙◌,
  arith, if◌then◌else◌,
}
use watcher_ts.Payments.{
  Lru, Payment, Payments, RatesConfig, Served, served, refused, or_default, free_limit,
  use_free_query,
}
use watcher_ts.Common.Int.{ℤ}

-- How many of the requests are of the account.
abbrev pub requests_of : ℕ → List ℕ → ℕ
requests_of account [] = 0
requests_of account (a ∷ signers) =
    let rest = requests_of account signers in if a == account then suc rest else rest

abbrev pub min_ℕ : ℕ → ℕ → ℕ
min_ℕ m n = if leb m n then m else n

module _ (outer : Lru ℕ) (inner : Lru Payment) (amounts : Lru ℤ) (rates : RatesConfig) where
  -- How many free queries an account has left.
  abbrev pub free_left : ℕ → Payments outer inner amounts → ℕ
  free_left account s = or_default (s.remaining_free_queries account) (free_limit rates)

  abbrev served_one : Served → ℕ → ℕ
  served_one served n = suc n
  served_one (refused _) n = n

  -- How many requests of the account are served, of the free requests of many accounts one after
  -- another.
  unfoldable pub free_served : ℕ → List ℕ → Payments outer inner amounts → ℕ
  unfolding use_free_query
  free_served account [] s = 0
  free_served account (a ∷ signers) s =
      let (r, t) = use_free_query outer inner amounts rates a s in
      let rest = free_served account signers t in if a == account then served_one r rest else rest

  use_free_query-left :
      (a : ℕ) (s : Payments outer inner amounts)
      → free_left a (use_free_query outer inner amounts rates a s).1 ≡ free_left a s - 1
  unfolding use_free_query
  use_free_query-left a s = ground arith

  use_free_query-other :
      (a b : ℕ) (s : Payments outer inner amounts)
      → a ≢ b
      → free_left b (use_free_query outer inner amounts rates a s).1 ≡ free_left b s
  unfolding use_free_query
  use_free_query-other a b s ne = ground arith

  use_free_query-served :
      (a n : ℕ) (s : Payments outer inner amounts)
      → served_one (use_free_query outer inner amounts rates a s).0 n
        ≡ (if ltb 0 (free_left a s) then suc n else n)
  unfolding use_free_query
  use_free_query-served a n s = ground arith

  -- The free queries of an account. Of the free requests of many accounts one after another, each
  -- account has as many served as it makes, at most those that it had left, which are the limit of
  -- the configuration for an account that made none before.
  pub free_served-min :
      (account : ℕ) (signers : List ℕ) (s : Payments outer inner amounts)
      → free_served account signers s ≡ min_ℕ (requests_of account signers) (free_left account s)
  unfolding free_served
  free_served-min account [] s = ground arith
  free_served-min account (a ∷ signers) s =
      step (a == account) refl (free_served-min account signers t)
    where
      t : Payments outer inner amounts
      t = (use_free_query outer inner amounts rates a s).1

      rest : ℕ
      rest = free_served account signers t

      n : ℕ
      n = requests_of account signers

      same_account : (a == account) ≡ true → a ≡ account
      same_account e = ground (arith, e)

      mine : a ≡ account → free_left account t ≡ free_left account s - 1
      mine e = subst (λ b. free_left b t ≡ free_left b s - 1) e (use_free_query-left a s)

      step :
          (same : Bool)
          → (a == account) ≡ same
          → rest ≡ min_ℕ n (free_left account t)
          → (if same
              then served_one (use_free_query outer inner amounts rates a s).0 rest
              else rest)
            ≡ min_ℕ (if same then suc n else n) (free_left account s)
      step true e ih =
          use_free_query-served a rest s
          ∙ ground (arith, ih, mine (same_account e), ap (λ b. free_left b s) (same_account e))
      step false e ih =
          ih ∙ ap (min_ℕ n) (use_free_query-other a account s (λ k. ground (arith, e, k)))
