-- ===== src/Payments/Request.antt =====
-- A request with several paid selections.
use watcher_ts.Common.{
  ℕ, Bool, true, false, ◌==◌, Option, List, [], ◌∷◌, All, ◌≡◌, ◌≢◌, refl, sym, ap, ◌∙◌, subst,
  arith, if◌then◌else◌,
}
use watcher_ts.Common.Int.{ℤ}
use watcher_ts.Payments.{
  Lru, Voucher, Payment, Payments, RatesConfig, PaymentError, served, refused, payment_not_received,
  header, empty_voucher_hash, authenticate_payment, use_free_query, allow_request, paid_selections,
  allow_all, is_introspection, validate_gql_request,
}
use watcher_ts.Payments.Caches.{LruLaws}
use watcher_ts.Payments.Spent.{IsOwned}
use watcher_ts.Payments.Received.{IsOther}
use watcher_ts.Payments.Wait.{Answer, After, authenticate-After, authenticate-refused}

module _ {outer : Lru ℕ} {inner : Lru Payment} {amounts : Lru ℤ} (O : LruLaws outer)
    (I : LruLaws inner) (hash signer : ℕ) where
  -- A request is authenticated when its voucher is not the empty one.
  allow_request-paid :
      (rates : RatesConfig) (value : ℤ) (arriving : List (ℕ × Voucher))
      (s : Payments outer inner amounts)
      → hash ≢ empty_voucher_hash
      → allow_request outer inner amounts rates hash signer value arriving s
        ≡ authenticate_payment outer inner amounts hash signer value arriving s
  unfolding allow_request
  allow_request-paid rates value arriving s paid = step (hash == empty_voucher_hash) refl
    where
      step :
          (b : Bool)
          → (hash == empty_voucher_hash) ≡ b
          → (if b
              then (let (r, t) = use_free_query outer inner amounts rates signer s in
                  (r, arriving, t))
              else authenticate_payment outer inner amounts hash signer value arriving s)
            ≡ authenticate_payment outer inner amounts hash signer value arriving s
      step true e = absurd (paid (ground (arith, e)))
      step false e = refl

  -- The rest of the selections, after the answer for the first one.
  abbrev onward : RatesConfig → List ℤ → Answer outer inner amounts → Answer outer inner amounts
  onward rates costs a = elim a.0 [
    | served ↦ allow_all outer inner amounts rates hash signer costs a.1 a.2
    | refused e ↦ (refused e, a.1, a.2)
  ]

  onward-stops :
      (rates : RatesConfig) (costs : List ℤ) (a : Answer outer inner amounts) (e : PaymentError)
      → a.0 ≡ refused e
      → (onward rates costs a).0 ≢ served
  onward-stops rates costs (served, later, t) e r = λ k. ground (arith, r)
  onward-stops rates costs (refused e', later, t) e r = λ k. ground (arith, k)

  -- A second selection finds the voucher spent.
  onward-refused :
      (rates : RatesConfig) (cost : ℤ) (costs : List ℤ) (a : Answer outer inner amounts)
      → hash ≢ empty_voucher_hash
      → (a.0 ≡ served → After O I hash signer a)
      → (onward rates (cost ∷ costs) a).0 ≢ served
  unfolding allow_all
  onward-refused rates cost costs (refused e, later, t) paid after = λ e. ground (arith, e)
  onward-refused rates cost costs (served, later, t) paid after =
      onward-stops rates costs (allow_request outer inner amounts rates hash signer cost later t)
        payment_not_received
        (ap (λ (b : Answer outer inner amounts). b.0) (allow_request-paid rates cost later t paid)
          ∙ authenticate-refused O I hash signer cost later t (after refl).0 (after refl).1)

  allow_all-refused :
      (rates : RatesConfig) (cost cost' : ℤ) (costs : List ℤ) (arriving : List (ℕ × Voucher))
      (s : Payments outer inner amounts)
      → hash ≢ empty_voucher_hash
      → IsOwned O I s
      → All (IsOther hash signer) arriving
      → (allow_all outer inner amounts rates hash signer (cost ∷ cost' ∷ costs) arriving s).0
        ≢ served
  unfolding allow_all
  allow_all-refused rates cost cost' costs arriving s paid owned others =
      onward-refused rates cost' costs
        (allow_request outer inner amounts rates hash signer cost arriving s) paid
        (subst (λ (a : Answer outer inner amounts). a.0 ≡ served → After O I hash signer a)
          (sym (allow_request-paid rates cost arriving s paid))
          (authenticate-After O I hash signer cost arriving s owned others))

  -- A voucher pays for one selection. A request that is not the introspection query, whose voucher
  -- is not the empty one and of whose selections two or more have to be paid is not served,
  -- whatever the voucher is worth, where the vouchers that arrive meanwhile are of other payers or
  -- have other hashes. The caches have at most what was set and not deleted, and to begin with each
  -- account has a reference of its own.
  pub validate_gql_request-two_paid :
      (rates : RatesConfig) (operation_name : Option ℕ) (selections : List ℕ) (cost cost' : ℤ)
      (costs : List ℤ) (arriving : List (ℕ × Voucher)) (s : Payments outer inner amounts)
      → is_introspection operation_name selections ≡ false
      → paid_selections rates selections ≡ cost ∷ cost' ∷ costs
      → hash ≢ empty_voucher_hash
      → IsOwned O I s
      → All (IsOther hash signer) arriving
      → (validate_gql_request outer inner amounts rates operation_name selections
          (header hash signer)
          arriving
          s).0
        ≢ served
  unfolding validate_gql_request
  validate_gql_request-two_paid rates operation_name selections cost cost' costs arriving s no_intro
        selected paid owned others served_all =
      allow_all-refused rates cost cost' costs arriving s paid owned others (
        subst (λ cs. (pick false cs).0 ≡ served) selected
          (subst (λ b. (pick b (paid_selections rates selections)).0 ≡ served) no_intro served_all))
    where
      pick : Bool → List ℤ → Answer outer inner amounts
      pick b cs = if b then (served, arriving, s) else elim cs [
        | [] ↦ (served, arriving, s)
        | cost ∷ costs ↦ allow_all outer inner amounts rates hash signer (cost ∷ costs) arriving s
      ]
