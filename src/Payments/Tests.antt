-- ===== src/Payments/Tests.antt =====
-- A cache as an association list, runs on inputs, and the theorems at them.
use watcher_ts.Common.{
  ℕ, zero, suc, ◌==◌, Bool, true, false, Option, none, some, List, [], ◌∷◌, ◌≡◌, ◌≢◌, refl, sym,
  ◌∙◌, subst, ◌⊎◌, inl, inr, arith, if◌then◌else◌, take,
}
use watcher_ts.Common.Int.{ℤ, pos, ◌-ℤ◌, ◌+ℤ◌}
use watcher_ts.Payments.{
  Lru, Voucher, Payment, Payments, RatesConfig, served, refused, payment_not_received, header,
  account_cache, pay_on_channel, receive_voucher, accept_received_payment, await_payment,
  authenticate_payment, allow_request, paid_selections, allow_all, validate_gql_request,
}
use watcher_ts.Payments.Caches.{LruLaws}
use watcher_ts.Payments.Spent.{IsOwned}
use watcher_ts.Payments.Received.{receive_voucher-IsOwned}
use watcher_ts.Payments.Once.{here, next, receives, accept-once}
use watcher_ts.Payments.Request.{validate_gql_request-two_paid}
use watcher_ts.Payments.Credit.{forgotten, latest_amount, latest_amount, credited, credited_lem}
use watcher_ts.Payments.Quota.{min_ℕ, free_served, free_served-min}

module _ {V : Type 0} where
  abbrev find_entry : ℕ → List (ℕ × V) → Option V
  find_entry k [] = none
  find_entry k ((j, v) ∷ entries) =
      let rest = find_entry k entries in if j == k then some v else rest

  abbrev drop_entry : ℕ → List (ℕ × V) → List (ℕ × V)
  drop_entry k [] = []
  drop_entry k ((j, v) ∷ entries) =
      let rest = drop_entry k entries in if j == k then rest else (j, v) ∷ rest

  find-drop : (k : ℕ) (entries : List (ℕ × V)) → find_entry k (drop_entry k entries) ≡ none
  find-drop k [] = refl
  find-drop k ((j, v) ∷ entries) = ground (arith, find-drop k entries)

  find-drop_other :
      (k j : ℕ) (entries : List (ℕ × V))
      → k ≢ j
      → find_entry k (drop_entry j entries) ≡ find_entry k entries
  find-drop_other k j [] ne = refl
  find-drop_other k j ((i, v) ∷ entries) ne = ground (arith, find-drop_other k j entries ne, ne)

  find-take :
      (max k : ℕ) (v : V) (entries : List (ℕ × V))
      → find_entry k (take max entries) ≡ some v
      → find_entry k entries ≡ some v
  find-take zero k v entries = λ e. absurd (ground (arith, e))
  find-take (suc max) k v [] = λ e. e
  find-take (suc max) k v ((j, w) ∷ entries) = step (j == k) (find-take max k v entries)
    where
      step :
          (same : Bool)
          → (find_entry k (take max entries) ≡ some v → find_entry k entries ≡ some v)
          → (if same then some w else find_entry k (take max entries)) ≡ some v
          → (if same then some w else find_entry k entries) ≡ some v
      step true ih e = e
      step false ih e = ih e

  find-set :
      (k j : ℕ) (v w : V) (entries : List (ℕ × V))
      → find_entry k ((j, w) ∷ drop_entry j entries) ≡ some v
      → ((k ≡ j) × (v ≡ w)) ⊎ ((k ≢ j) × (find_entry k entries ≡ some v))
  find-set k j v w entries = step (j == k) refl
    where
      step :
          (same : Bool)
          → (j == k) ≡ same
          → (if same then some w else find_entry k (drop_entry j entries)) ≡ some v
          → ((k ≡ j) × (v ≡ w)) ⊎ ((k ≢ j) × (find_entry k entries ≡ some v))
      step true same e = inl (ground (arith, same), ground (arith, e))
      step false same e = inr (other, sym (find-drop_other k j entries other) ∙ e)
        where
          other : k ≢ j
          other f = ground (arith, same, f)

  find-drop_some :
      (k j : ℕ) (v : V) (entries : List (ℕ × V))
      → find_entry k (drop_entry j entries) ≡ some v
      → (k ≢ j) × (find_entry k entries ≡ some v)
  find-drop_some k j v entries e = (other, sym (find-drop_other k j entries other) ∙ e)
    where
      some_none : (v : V) → some v ≢ none
      some_none v f = ground (arith, f)

      other : k ≢ j
      other f =
          some_none v (
            sym e ∙ subst (λ i. find_entry k (drop_entry i entries) ≡ none) f (find-drop k entries))

-- A cache with at most so many entries.
abbrev list_cache : ℕ → (V : Type 0) → Lru V
list_cache max V = record {
  Cache = List (ℕ × V);
  empty = [];
  get = λ k c. (find_entry k c, c);
  set = λ k v c. take max ((k, v) ∷ drop_entry k c);
  delete = drop_entry;
}

list_cache-LruLaws : (max : ℕ) (V : Type 0) → LruLaws (list_cache max V)
list_cache-LruLaws max V = record {
  Has = λ k v c. find_entry k c ≡ some v;
  empty_has_none = λ k v e. ground (arith, e);
  get_gives = λ k v c e. e;
  get_keeps = λ k j v c e. e;
  set_has = λ k j v w c e. find-set k j v w c (find-take max k v ((j, w) ∷ drop_entry j c) e);
  delete_has = find-drop_some;
}

abbrev accounts_cache : Lru ℕ
accounts_cache = list_cache 9 ℕ

abbrev vouchers_cache : Lru Payment
vouchers_cache = list_cache 9 Payment

abbrev amounts_cache : Lru ℤ
amounts_cache = list_cache 9 ℤ

abbrev no_payments : (amounts : Lru ℤ) → Payments accounts_cache vouchers_cache amounts
no_payments amounts = record {
  remaining_free_queries = λ account. none;
  received_payments = [];
  vouchers = λ r. [];
  next_reference = 0;
  paid_so_far_on_channel = amounts.empty;
}

abbrev voucher_of : ℕ → ℤ → ℕ → Voucher
voucher_of channel amount hash = record { channel_id = channel; amount = some amount; hash = hash }

-- A voucher for 100 of the account 5, on the channel 7.
abbrev one_payment : Payments accounts_cache vouchers_cache amounts_cache
unfolding receive_voucher account_cache pay_on_channel
one_payment =
    (receive_voucher accounts_cache vouchers_cache amounts_cache 5 (voucher_of 7 (pos 100) 11)
      (no_payments amounts_cache)).1

abbrev two_rates : RatesConfig
two_rates = record {
  free_queries_limit = some 2;
  free_queries_list = none;
  queries = λ q. if q == 3 then some (pos 10) else if q == 4 then some (pos 20) else none;
}

no_payments-IsOwned :
    IsOwned (list_cache-LruLaws 9 ℕ) (list_cache-LruLaws 9 Payment) (no_payments amounts_cache)
no_payments-IsOwned = record {
  fresh = λ a r e. absurd ((list_cache-LruLaws 9 ℕ).empty_has_none a r e);
  own = λ a b r e f. absurd ((list_cache-LruLaws 9 ℕ).empty_has_none a r e);
  single = λ a r r' e f. absurd ((list_cache-LruLaws 9 ℕ).empty_has_none a r e);
}

one_payment-IsOwned : IsOwned (list_cache-LruLaws 9 ℕ) (list_cache-LruLaws 9 Payment) one_payment
unfolding receive_voucher account_cache pay_on_channel
one_payment-IsOwned =
    receive_voucher-IsOwned (list_cache-LruLaws 9 ℕ) (list_cache-LruLaws 9 Payment) 5
      (voucher_of 7 (pos 100) 11) (no_payments amounts_cache) no_payments-IsOwned

accept-once_example :
    (accept_received_payment accounts_cache vouchers_cache amounts_cache 11 5
      (pos 1)
      (receive_voucher accounts_cache vouchers_cache amounts_cache 5
        (voucher_of 7 (pos 150) 12)
        (accept_received_payment accounts_cache vouchers_cache amounts_cache 11 5
          (pos 80)
          one_payment).1).1).0
    ≡ (false, false)
unfolding accept_received_payment one_payment ◌-ℤ◌
accept-once_example =
    accept-once (list_cache-LruLaws 9 ℕ) (list_cache-LruLaws 9 Payment) 11 5 (pos 80) (pos 1)
      one_payment
      (receive_voucher accounts_cache vouchers_cache amounts_cache 5 (voucher_of 7 (pos 150) 12)
        (accept_received_payment accounts_cache vouchers_cache amounts_cache 11 5 (pos 80)
          one_payment).1).1
      one_payment-IsOwned refl
      (next here (
        receives 5 (voucher_of 7 (pos 150) 12)
          (accept_received_payment accounts_cache vouchers_cache amounts_cache 11 5 (pos 80)
            one_payment).1
          (inr (λ e. ground (arith, e)))))

-- The first selection uses the voucher up, and the wait of the second ends with nothing.
two_paid_test :
    (validate_gql_request accounts_cache vouchers_cache amounts_cache two_rates none
      (3 ∷ 4 ∷ [])
      (header 11 5)
      []
      one_payment).0
    ≡ refused payment_not_received
unfolding validate_gql_request paid_selections allow_all allow_request authenticate_payment
    await_payment accept_received_payment ◌-ℤ◌
two_paid_test = refl

one_paid_test :
    (validate_gql_request accounts_cache vouchers_cache amounts_cache two_rates none
      (4 ∷ 9 ∷ [])
      (header 11 5)
      []
      one_payment).0
    ≡ served
unfolding validate_gql_request paid_selections allow_all allow_request authenticate_payment
    await_payment accept_received_payment ◌-ℤ◌
one_paid_test = refl

validate_gql_request-two_paid_example :
    (validate_gql_request accounts_cache vouchers_cache amounts_cache two_rates none
      (3 ∷ 4 ∷ [])
      (header 11 5)
      ((5, voucher_of 7 (pos 150) 12) ∷ [])
      one_payment).0
    ≢ served
unfolding paid_selections
validate_gql_request-two_paid_example =
    validate_gql_request-two_paid (list_cache-LruLaws 9 ℕ) (list_cache-LruLaws 9 Payment) 11 5
      two_rates none (3 ∷ 4 ∷ []) (pos 10) (pos 20) [] ((5, voucher_of 7 (pos 150) 12) ∷ [])
      one_payment refl refl (λ e. ground (arith, e)) one_payment-IsOwned
      (inr (λ e. ground (arith, e)), tt)

abbrev three_vouchers : List (ℕ × Voucher)
three_vouchers =
    (5, voucher_of 7 (pos 100) 11)
    ∷ (6, voucher_of 8 (pos 30) 21)
    ∷ (5, voucher_of 7 (pos 150) 12)
    ∷ []

-- The cache of the channels has room for one: what was paid on the first is forgotten, and credited
-- again.
abbrev one_channel : Lru ℤ
one_channel = list_cache 1 ℤ

forgotten_test :
    (forgotten accounts_cache vouchers_cache one_channel 7
        (pos 0)
        three_vouchers
        (no_payments one_channel)
      ≡ pos 100)
    × (credited accounts_cache vouchers_cache one_channel 7 three_vouchers (no_payments one_channel)
        ≡ pos 250)
unfolding credited forgotten receive_voucher account_cache pay_on_channel ◌-ℤ◌ ◌+ℤ◌
forgotten_test = (refl, refl)

credited_example :
    credited accounts_cache vouchers_cache one_channel 7 three_vouchers (no_payments one_channel)
    ≡ (latest_amount 7 (pos 0) three_vouchers -ℤ pos 0)
      +ℤ forgotten accounts_cache vouchers_cache one_channel 7
          (pos 0)
          three_vouchers
          (no_payments one_channel)
credited_example =
    credited_lem (list_cache-LruLaws 1 ℤ) 7 (pos 0) three_vouchers (no_payments one_channel)
      (λ n e. absurd ((list_cache-LruLaws 1 ℤ).empty_has_none 7 n e))

free_served-min_example :
    free_served accounts_cache vouchers_cache amounts_cache two_rates 5
      (5 ∷ 6 ∷ 5 ∷ 5 ∷ [])
      (no_payments amounts_cache)
    ≡ min_ℕ 3 2
free_served-min_example =
    free_served-min accounts_cache vouchers_cache amounts_cache two_rates 5 (5 ∷ 6 ∷ 5 ∷ 5 ∷ [])
      (no_payments amounts_cache)
