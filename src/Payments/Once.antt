-- ===== src/Payments/Once.antt =====
-- A voucher pays once, whatever else happens.
use watcher_ts.Common.{set_at, ℕ, ◌-◌, ltb, if◌then◌else◌, Bool, true, false, some, ◌≡◌}
use watcher_ts.Common.Int.{ℤ}
use watcher_ts.Payments.{
  Lru, Voucher, Payment, Payments, RatesConfig, or_default, free_limit, Served, served, refused,
  free_quota_exhausted, receive_voucher, accept_received_payment, use_free_query,
}
use watcher_ts.Payments.Caches.{LruLaws}
use watcher_ts.Payments.Spent.{
  IsOwned, Shrinks, Shrinks-IsOwned, Shrinks-Spent, accept-Shrinks, accept-Spent, Spent-accept,
}
use watcher_ts.Payments.Received.{IsOther, Keeps, receive_voucher-Keeps}

module _ {outer : Lru ℕ} {inner : Lru Payment} {amounts : Lru ℤ} (O : LruLaws outer)
    (I : LruLaws inner) where
  use_free_query-Keeps :
      (hash signer : ℕ) (rates : RatesConfig) (account : ℕ) (s : Payments outer inner amounts)
      → Keeps O I hash signer s
      → Keeps O I hash signer (use_free_query outer inner amounts rates account s).1
  unfolding use_free_query
  use_free_query-Keeps hash signer rates account s (w, spent) =
      step (ltb 0 (or_default (s.remaining_free_queries account) (free_limit rates)))
    where
      used : Payments outer inner amounts
      used = record s {
        remaining_free_queries =
            set_at account
              (some (or_default (s.remaining_free_queries account) (free_limit rates) - 1))
              s.remaining_free_queries;
      }

      pick : Bool → Served × Payments outer inner amounts
      pick b = if b then (served, used) else (refused free_quota_exhausted, s)

      step : (b : Bool) → Keeps O I hash signer (pick b).1
      step true = (record { fresh = w.fresh; own = w.own; single = w.single }, spent)
      step false = (w, spent)

  -- What may happen after a voucher of the signer was accepted: anybody's requests, other vouchers,
  -- and entries that a cache loses.
  pub data Step (hash signer : ℕ)
      : Payments outer inner amounts → Payments outer inner amounts → Type 0 where
    accepts :
        (h account : ℕ) (value : ℤ) (s : Payments outer inner amounts)
        → Step hash signer s (accept_received_payment outer inner amounts h account value s).1
    receives :
        (payer : ℕ) (v : Voucher) (s : Payments outer inner amounts)
        → IsOther hash signer (payer, v)
        → Step hash signer s (receive_voucher outer inner amounts payer v s).1
    serves_free :
        (rates : RatesConfig) (account : ℕ) (s : Payments outer inner amounts)
        → Step hash signer s (use_free_query outer inner amounts rates account s).1
    loses : (s t : Payments outer inner amounts) → Shrinks O I s t → Step hash signer s t

  pub data Reach (hash signer : ℕ) (s : Payments outer inner amounts)
      : Payments outer inner amounts → Type 0 where
    here : Reach hash signer s s
    next :
        {t u : Payments outer inner amounts}
        → Reach hash signer s t
        → Step hash signer t u
        → Reach hash signer s u

  pub accept-Keeps :
      (hash signer h account : ℕ) (value : ℤ) (s : Payments outer inner amounts)
      → Keeps O I hash signer s
      → Keeps O I hash signer (accept_received_payment outer inner amounts h account value s).1
  accept-Keeps hash signer h account value s (w, spent) =
      let t = (accept_received_payment outer inner amounts h account value s).1 in
      let smaller = accept-Shrinks O I h account value s in
      (Shrinks-IsOwned O I s t smaller w, Shrinks-Spent O I hash signer s t smaller spent)

  Step-Keeps :
      (hash signer : ℕ) {s t : Payments outer inner amounts}
      → Step hash signer s t
      → Keeps O I hash signer s
      → Keeps O I hash signer t
  Step-Keeps hash signer (accepts h account value s) k =
      accept-Keeps hash signer h account value s k
  Step-Keeps hash signer (receives payer v s other) k =
      receive_voucher-Keeps O I hash signer payer v s other k
  Step-Keeps hash signer (serves_free rates account s) k =
      use_free_query-Keeps hash signer rates account s k
  Step-Keeps hash signer (loses s t smaller) (w, spent) =
      (Shrinks-IsOwned O I s t smaller w, Shrinks-Spent O I hash signer s t smaller spent)

  Reach-Keeps :
      (hash signer : ℕ) {s t : Payments outer inner amounts}
      → Keeps O I hash signer s
      → Reach hash signer s t
      → Keeps O I hash signer t
  Reach-Keeps hash signer k here = k
  Reach-Keeps hash signer k (next r step) =
      Step-Keeps hash signer step (Reach-Keeps hash signer k r)

  -- A voucher pays once. After it was accepted for its signer, it is not found again for any value,
  -- whatever requests are served, whatever vouchers of other payers or with other hashes are
  -- received, and whatever entries the caches lose in between. The caches have at most what was set
  -- and not deleted, and to begin with each account has a reference of its own.
  pub accept-once :
      (hash signer : ℕ) (value value' : ℤ) (s u : Payments outer inner amounts)
      → IsOwned O I s
      → (accept_received_payment outer inner amounts hash signer value s).0 ≡ (true, true)
      → Reach hash signer (accept_received_payment outer inner amounts hash signer value s).1 u
      → (accept_received_payment outer inner amounts hash signer value' u).0 ≡ (false, false)
  accept-once hash signer value value' s u owned accepted reach =
      let t = (accept_received_payment outer inner amounts hash signer value s).1 in
      let owned' = Shrinks-IsOwned O I s t (accept-Shrinks O I hash signer value s) owned in
      let spent = accept-Spent O I hash signer value s owned accepted in
      Spent-accept O I hash signer value' u (Reach-Keeps hash signer (owned', spent) reach).1
