-- ===== src/Payments.antt =====
-- Payments for queries, packages/util/src/payments.ts: the received vouchers, the free queries of an
-- account, and the check of a request. The caches are of the package lru-cache, the nodes and the
-- signatures of nitro-node; a hash, an account, a channel and a query are numbers.
pub mod Caches
pub mod Spent
pub mod Received
pub mod Once
pub mod Wait
pub mod Request
pub mod Credit
pub mod Quota
mod Tests
use watcher_ts.Common.{
  ℕ, zero, suc, ◌+◌, ◌-◌, ltb, Bool, true, false, not, ◌&&◌, ◌||◌, ◌==◌, Option, none, some, List,
  [], ◌∷◌, filter, any, if◌then◌else◌, set_at,
}
use watcher_ts.Common.Int.{ℤ, pos, eqb_ℤ, ltb_ℤ, ◌-ℤ◌}

-- What is used of an `LRUCache` whose keys are numbers. Reading a key notes its use, and may drop what
-- is too old.
pub record Lru (V : Type 0) : Type 1 where
  pub Cache : Type 0
  pub empty : Cache
  pub get : ℕ → Cache → Option V × Cache
  pub set : ℕ → V → Cache → Cache
  pub delete : ℕ → Cache → Cache

pub record Voucher : Type 0 where
  pub channel_id : ℕ
  pub amount : Option ℤ
  pub hash : ℕ

pub record Payment : Type 0 where
  pub voucher : Voucher
  pub amount : ℤ

-- `BaseRatesConfig`: the rates of queries, those that are free, and how many free ones an account has.
pub record RatesConfig : Type 0 where
  pub free_queries_limit : Option ℕ
  pub free_queries_list : Option (List ℕ)
  pub queries : ℕ → Option ℤ

pub data PaymentError : Type 0 where
  free_quota_exhausted payment_not_received amount_insufficient : PaymentError
  header_missing invalid_payment_header : PaymentError

pub data Served : Type 0 where
  served : Served
  refused : PaymentError → Served

abbrev pub default_free_queries_limit : ℕ
default_free_queries_limit = 10

-- `latestBlock`
abbrev pub latest_block_query : ℕ
latest_block_query = 0

-- `IntrospectionQuery` and `__schema`
abbrev pub introspection_query : ℕ
introspection_query = 1

abbrev pub introspection_selection : ℕ
introspection_selection = 1

abbrev pub is_introspection : Option ℕ → List ℕ → Bool
is_introspection (some name) (q ∷ []) = name == introspection_query && q == introspection_selection
is_introspection _ _ = false

-- `keccak256('0x')`
abbrev pub empty_voucher_hash : ℕ
empty_voucher_hash = 0

abbrev pub or_default : {A : Type 0} → Option A → A → A
or_default none a = a
or_default (some b) a = b

abbrev pub free_limit : RatesConfig → ℕ
free_limit rates = or_default rates.free_queries_limit default_free_queries_limit

abbrev pub free_list : RatesConfig → List ℕ
free_list rates = or_default rates.free_queries_list (latest_block_query ∷ [])

-- An amount that is not there, or 0.
abbrev pub no_amount : Option ℤ → Option ℤ
no_amount none = none
no_amount (some n) = if eqb_ℤ n (pos 0) then none else some n

abbrev pub served_if : Bool → Served
served_if b = if b then served else refused amount_insufficient

-- The selections that have to be paid, each with its cost.
unfoldable pub paid_selections : RatesConfig → List ℕ → List ℤ
paid_selections rates [] = []
paid_selections rates (q ∷ selections) =
    let rest = paid_selections rates selections in
    if any (λ free. free == q) (free_list rates)
    then rest
    else elim (rates.queries q) [ none ↦ rest | some cost ↦ cost ∷ rest ]

-- The header: not there, of another form, or with a hash and a signature, whose signer is given.
pub data Header : Type 0 where
  no_header : Header
  other_header : Header
  header : (vhash signer : ℕ) → Header

module _ (outer : Lru ℕ) (inner : Lru Payment) (amounts : Lru ℤ) where
  -- An account has a reference to the cache of its vouchers, which is changed in place.
  pub record Payments : Type 0 where
    pub remaining_free_queries : ℕ → Option ℕ
    pub received_payments : outer.Cache
    pub vouchers : ℕ → inner.Cache
    pub next_reference : ℕ
    pub paid_so_far_on_channel : amounts.Cache

  -- The cache of an account, or a new one.
  abbrev pub account_found : ℕ → Option ℕ → Payments → ℕ × Payments
  account_found payer (some r) s = (r, s)
  account_found payer none s = (
    s.next_reference,
    record s {
      received_payments = outer.set payer s.next_reference s.received_payments;
      vouchers = set_at s.next_reference inner.empty s.vouchers;
      next_reference = suc s.next_reference;
    },
  )

  unfoldable pub account_cache : ℕ → Payments → ℕ × Payments
  account_cache payer s =
      let (found, received) = outer.get payer s.received_payments in
      account_found payer found (record s { received_payments = received })

  -- What a voucher adds to what was paid on its channel before.
  unfoldable pub pay_on_channel : ℕ → ℤ → Payments → ℤ × Payments
  pay_on_channel channel amount s =
      let (before, paid) = amounts.get channel s.paid_so_far_on_channel in
      (
        amount -ℤ or_default before (pos 0),
        record s { paid_so_far_on_channel = amounts.set channel amount paid },
      )

  abbrev pub put_voucher : ℕ → Voucher → ℤ → Payments → Payments
  put_voucher r v amount s = record s {
    vouchers =
        set_at r (inner.set v.hash (record { voucher = v; amount = amount }) (s.vouchers r))
          s.vouchers;
  }

  -- A round of `subscribeToVouchers`, and the payment that it takes down.
  abbrev pub receive_amount : ℕ → Voucher → Option ℤ → Payments → Option ℤ × Payments
  receive_amount payer v none s = (none, s)
  receive_amount payer v (some amount) s =
      let (paid, t) = pay_on_channel v.channel_id amount s in
      let (r, u) = account_cache payer t in (some paid, put_voucher r v paid u)

  unfoldable pub receive_voucher : ℕ → Voucher → Payments → Option ℤ × Payments
  unfolding account_cache pay_on_channel
  receive_voucher payer v s = receive_amount payer v (no_amount v.amount) s

  -- A payment that is enough is used up.
  abbrev pub spend_unless : Bool → ℕ → ℕ → Payments → (Bool × Bool) × Payments
  spend_unless true r hash s = ((true, false), s)
  spend_unless false r hash s =
      ((true, true), record s { vouchers = set_at r (inner.delete hash (s.vouchers r)) s.vouchers })

  -- Whether a voucher was found, and whether it was enough.
  abbrev pub check_value : ℕ → ℕ → ℤ → Option Payment → Payments → (Bool × Bool) × Payments
  check_value r hash min_required_value none s = ((false, false), s)
  check_value r hash min_required_value (some p) s =
      spend_unless (ltb_ℤ p.amount min_required_value) r hash s

  abbrev pub accept_found : ℕ → ℤ → Option ℕ → Payments → (Bool × Bool) × Payments
  accept_found hash min_required_value none s = ((false, false), s)
  accept_found hash min_required_value (some r) s =
      let (payment, c) = inner.get hash (s.vouchers r) in
      check_value r hash min_required_value payment (record s { vouchers = set_at r c s.vouchers })

  unfoldable pub accept_received_payment : ℕ → ℕ → ℤ → Payments → (Bool × Bool) × Payments
  accept_received_payment hash signer min_required_value s =
      let (found, received) = outer.get signer s.received_payments in
      accept_found hash min_required_value found (record s { received_payments = received })

  -- Vouchers with their payers that are received while a request waits, each of which it sees before
  -- the next one comes; with none left, the wait ends.
  unfoldable pub await_payment :
      ℕ → ℕ → ℤ → List (ℕ × Voucher) → Payments → Served × List (ℕ × Voucher) × Payments
  unfolding receive_voucher accept_received_payment
  await_payment hash signer value [] s = (refused payment_not_received, [], s)
  await_payment hash signer value ((payer, v) ∷ arriving) s =
      let (noticed, t) = receive_voucher payer v s in
      let ((found, enough), u) = accept_received_payment hash signer value t in
      let is_noticed = elim noticed as (λ _. Bool) [ none ↦ false | some _ ↦ payer == signer ] in
      let rest = await_payment hash signer value arriving in
      if not is_noticed then rest t else if found then (served_if enough, arriving, u) else rest u

  unfoldable pub authenticate_payment :
      ℕ → ℕ → ℤ → List (ℕ × Voucher) → Payments → Served × List (ℕ × Voucher) × Payments
  unfolding accept_received_payment await_payment
  authenticate_payment hash signer value arriving s =
      let ((found, enough), t) = accept_received_payment hash signer value s in
      if found then (served_if enough, arriving, t) else await_payment hash signer value arriving t

  unfoldable pub use_free_query : RatesConfig → ℕ → Payments → Served × Payments
  use_free_query rates signer s =
      let remaining = or_default (s.remaining_free_queries signer) (free_limit rates) in
      if ltb 0 remaining
      then (
        served,
        record s {
          remaining_free_queries = set_at signer (some (remaining - 1)) s.remaining_free_queries;
        },
      )
      else (refused free_quota_exhausted, s)

  -- A request has a cost where it comes here.
  unfoldable pub allow_request :
      RatesConfig
      → ℕ
      → ℕ
      → ℤ
      → List (ℕ × Voucher)
      → Payments
      → Served × List (ℕ × Voucher) × Payments
  unfolding use_free_query authenticate_payment
  allow_request rates hash signer cost arriving s =
      if hash == empty_voucher_hash
      then (let (r, t) = use_free_query rates signer s in (r, arriving, t))
      else authenticate_payment hash signer cost arriving s

  unfoldable pub allow_all :
      RatesConfig
      → ℕ
      → ℕ
      → List ℤ
      → List (ℕ × Voucher)
      → Payments
      → Served × List (ℕ × Voucher) × Payments
  unfolding allow_request
  allow_all rates hash signer [] arriving s = (served, arriving, s)
  allow_all rates hash signer (cost ∷ costs) arriving s =
      let (r, later, t) = allow_request rates hash signer cost arriving s in
      elim r [
        | served ↦ allow_all rates hash signer costs later t
        | refused e ↦ (refused e, later, t)
      ]

  -- With no paid selection, or for an introspection query alone, the header is not looked at.
  unfoldable pub validate_gql_request :
      RatesConfig
      → Option ℕ
      → List ℕ
      → Header
      → List (ℕ × Voucher)
      → Payments
      → Served × List (ℕ × Voucher) × Payments
  unfolding paid_selections allow_all
  validate_gql_request rates operation_name selections h arriving s =
      if is_introspection operation_name selections
      then (served, arriving, s)
      else elim (paid_selections rates selections) [
        | [] ↦ (served, arriving, s)
        | cost ∷ costs ↦ elim h [
          | no_header ↦ (refused header_missing, arriving, s)
          | other_header ↦ (refused invalid_payment_header, arriving, s)
          | header vhash signer ↦ allow_all rates vhash signer (cost ∷ costs) arriving s
        ]
      ]

-- `GQLPaymentError.status`
abbrev pub status_of : PaymentError → ℕ
status_of header_missing = 400
status_of invalid_payment_header = 400
status_of _ = 402
