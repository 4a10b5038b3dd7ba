-- ===== src/Payments/Credit.antt =====
-- What is credited for the vouchers of a channel.
use watcher_ts.Common.{
  ℕ, ◌==◌, Bool, true, false, Option, none, some, inl, inr, List, [], ◌∷◌, ◌≡◌, ◌≢◌, refl, ap, sym,
  subst, ◌∙◌, arith, if◌then◌else◌,
}
use watcher_ts.Common.Int.{ℤ, pos, ◌+ℤ◌, ◌-ℤ◌, +ℤ_parts, -ℤ_parts, eq_of_parts, pos_part, neg_part}
use watcher_ts.Payments.Caches.{LruLaws}
use watcher_ts.Payments.{
  Lru, Voucher, Payment, Payments, or_default, no_amount, account_found, account_cache,
  pay_on_channel, receive_amount, receive_voucher,
}

-- The last amount on the channel, or the one before.
abbrev pub latest_amount : ℕ → ℤ → List (ℕ × Voucher) → ℤ
latest_amount channel before [] = before
latest_amount channel before ((payer, v) ∷ vouchers) =
    latest_amount channel
      (if v.channel_id == channel then or_default (no_amount v.amount) before else before) vouchers

-- What is credited again for a voucher with an amount, when the cache has lost what was last paid.
abbrev pub lost : Option ℤ → Option ℤ → ℤ → ℤ
lost none found last = pos 0
lost (some amount) none last = last
lost (some amount) (some n) last = pos 0

paid_sum :
    (amount last : ℤ) (found : Option ℤ)
    → ((n : ℤ) → found ≡ some n → n ≡ last)
    → or_default found (pos 0) +ℤ lost (some amount) found last ≡ last
paid_sum amount last none known =
    eq_of_parts (pos 0 +ℤ last) last (omega (arith, +ℤ_parts (pos 0) last))
paid_sum amount last (some n) known =
    eq_of_parts (n +ℤ pos 0) last
      (omega (arith, +ℤ_parts n (pos 0), ap pos_part (known n refl), ap neg_part (known n refl)))

credit_sum :
    (amount paid again before last rest more : ℤ)
    → paid +ℤ again ≡ before
    → rest ≡ (last -ℤ amount) +ℤ more
    → (amount -ℤ paid) +ℤ rest ≡ (last -ℤ before) +ℤ (again +ℤ more)
credit_sum amount paid again before last rest more sum e =
    eq_of_parts ((amount -ℤ paid) +ℤ rest) ((last -ℤ before) +ℤ (again +ℤ more)) (
      omega (
        arith,
        ap pos_part sum,
        ap neg_part sum,
        ap pos_part e,
        ap neg_part e,
        +ℤ_parts paid again,
        +ℤ_parts again more,
        +ℤ_parts (amount -ℤ paid) rest,
        +ℤ_parts (last -ℤ before) (again +ℤ more),
        +ℤ_parts (last -ℤ amount) more,
        -ℤ_parts amount paid,
        -ℤ_parts last amount,
        -ℤ_parts last before,
      ))

none_sum : (n : ℤ) → pos 0 ≡ (n -ℤ n) +ℤ pos 0
none_sum n =
    eq_of_parts (pos 0) ((n -ℤ n) +ℤ pos 0) (omega (arith, +ℤ_parts (n -ℤ n) (pos 0), -ℤ_parts n n))

zero_sum : (n m k : ℤ) → n ≡ m +ℤ k → pos 0 +ℤ n ≡ m +ℤ (pos 0 +ℤ k)
zero_sum n m k e = eq_of_parts (pos 0 +ℤ n) (m +ℤ (pos 0 +ℤ k)) (
    omega (
      arith,
      +ℤ_parts (pos 0) n,
      +ℤ_parts (pos 0) k,
      +ℤ_parts m (pos 0 +ℤ k),
      +ℤ_parts m k,
      ap pos_part e,
      ap neg_part e,
    ))

module _ (outer : Lru ℕ) (inner : Lru Payment) (amounts : Lru ℤ) where
  abbrev pub paid_at : ℕ → Payments outer inner amounts → ℤ
  paid_at channel s = or_default (amounts.get channel s.paid_so_far_on_channel).0 (pos 0)

  -- The sum of what is credited for those vouchers that are on the channel.
  unfoldable pub credited : ℕ → List (ℕ × Voucher) → Payments outer inner amounts → ℤ
  unfolding receive_voucher
  credited channel [] s = pos 0
  credited channel ((payer, v) ∷ vouchers) s =
      let (paid, t) = receive_voucher outer inner amounts payer v s in
      let rest = credited channel vouchers t in
      if v.channel_id == channel then or_default paid (pos 0) +ℤ rest else rest

  -- The sum of what is credited again: at each voucher with an amount on the channel that finds no
  -- entry, the last amount before it.
  unfoldable pub forgotten : ℕ → ℤ → List (ℕ × Voucher) → Payments outer inner amounts → ℤ
  unfolding receive_voucher
  forgotten channel last [] s = pos 0
  forgotten channel last ((payer, v) ∷ vouchers) s =
      let t = (receive_voucher outer inner amounts payer v s).1 in
      let more = forgotten channel (latest_amount channel last ((payer, v) ∷ [])) vouchers t in
      if v.channel_id == channel
      then lost (no_amount v.amount) (amounts.get v.channel_id s.paid_so_far_on_channel).0 last
        +ℤ more
      else more

  account_found-paid :
      (payer : ℕ) (found : Option ℕ) (s : Payments outer inner amounts)
      → (account_found outer inner amounts payer found s).1.paid_so_far_on_channel
        ≡ s.paid_so_far_on_channel
  account_found-paid payer none s = refl
  account_found-paid payer (some r) s = refl

  -- What a voucher makes of the amounts that were paid.
  receive_amount-paid :
      (payer : ℕ) (v : Voucher) (amount : ℤ) (s : Payments outer inner amounts)
      → (receive_amount outer inner amounts payer v (some amount) s).1.paid_so_far_on_channel
        ≡ amounts.set v.channel_id amount (amounts.get v.channel_id s.paid_so_far_on_channel).1
  unfolding account_cache pay_on_channel
  receive_amount-paid payer v amount s =
      account_found-paid payer (outer.get payer s.received_payments).0 (record s {
        paid_so_far_on_channel =
            amounts.set v.channel_id amount (amounts.get v.channel_id s.paid_so_far_on_channel).1;
        received_payments = (outer.get payer s.received_payments).1;
      })

  receive_amount-credit :
      (payer : ℕ) (v : Voucher) (amount : ℤ) (s : Payments outer inner amounts)
      → (receive_amount outer inner amounts payer v (some amount) s).0
        ≡ some (amount -ℤ paid_at v.channel_id s)
  unfolding pay_on_channel
  receive_amount-credit payer v amount s = refl

module _ {outer : Lru ℕ} {inner : Lru Payment} {amounts : Lru ℤ} (L : LruLaws amounts) where
  -- What the cache may have for the channel is its last amount.
  abbrev pub Remembers : ℕ → ℤ → Payments outer inner amounts → Type 0
  Remembers channel last s = (n : ℤ) → L.Has channel n s.paid_so_far_on_channel → n ≡ last

  receive_amount-Remembers :
      (channel payer : ℕ) (v : Voucher) (amount : ℤ) (s : Payments outer inner amounts)
      → v.channel_id ≡ channel
      → Remembers channel amount (receive_amount outer inner amounts payer v (some amount) s).1
  receive_amount-Remembers channel payer v amount s same n has =
      elim (L.set_has channel v.channel_id n amount
        (amounts.get v.channel_id s.paid_so_far_on_channel).1
        (subst (L.Has channel n) (receive_amount-paid outer inner amounts payer v amount s) has)) [
          | inl (_, e) ↦ e
          | inr (ne, _) ↦ absurd (ne (sym same))
        ]

  receive_amount-other :
      (channel payer : ℕ) (v : Voucher) (amount last : ℤ) (s : Payments outer inner amounts)
      → v.channel_id ≢ channel
      → Remembers channel last s
      → Remembers channel last (receive_amount outer inner amounts payer v (some amount) s).1
  receive_amount-other channel payer v amount last s ne known n has =
      elim (L.set_has channel v.channel_id n amount
        (amounts.get v.channel_id s.paid_so_far_on_channel).1
        (subst (L.Has channel n) (receive_amount-paid outer inner amounts payer v amount s) has)) [
          | inl (e, _) ↦ absurd (ne (sym e))
          | inr (_, old) ↦ known n (L.get_keeps channel v.channel_id n s.paid_so_far_on_channel old)
        ]

  -- What is credited for the vouchers of a channel, of those that are received one after another on
  -- any channels, is in sum the last amount on the channel less the one before, and what is credited
  -- again: whenever the cache has dropped the entry of the channel, the next voucher is credited the
  -- last amount once more. The cache may drop entries at any time, and begins with no other amount
  -- for the channel than the one before.
  pub credited_lem :
      (channel : ℕ) (before : ℤ) (vouchers : List (ℕ × Voucher)) (s : Payments outer inner amounts)
      → Remembers channel before s
      → credited outer inner amounts channel vouchers s
        ≡ (latest_amount channel before vouchers -ℤ before)
          +ℤ forgotten outer inner amounts channel before vouchers s
  unfolding credited forgotten receive_voucher
  credited_lem channel before [] s known = none_sum before
  credited_lem channel before ((payer, v) ∷ vouchers) s known =
      step (no_amount v.amount) (v.channel_id == channel) refl
        (λ last t. credited_lem channel last vouchers t)
    where
      same_channel : (v.channel_id == channel) ≡ true → v.channel_id ≡ channel
      same_channel e = ground (arith, e)

      after : Option ℤ → Payments outer inner amounts
      after amount = (receive_amount outer inner amounts payer v amount s).1

      found : Option ℤ
      found = (amounts.get v.channel_id s.paid_so_far_on_channel).0

      found_known : v.channel_id ≡ channel → (n : ℤ) → found ≡ some n → n ≡ before
      found_known same n e = known n (
          subst (λ c. L.Has c n s.paid_so_far_on_channel) same
            (L.get_gives v.channel_id n s.paid_so_far_on_channel e))

      last_of : Bool → Option ℤ → ℤ
      last_of same amount = if same then or_default amount before else before

      step :
          (amount : Option ℤ) (same : Bool)
          → (v.channel_id == channel) ≡ same
          → ((last : ℤ) (t : Payments outer inner amounts)
              → Remembers channel last t
              → credited outer inner amounts channel vouchers t
                ≡ (latest_amount channel last vouchers -ℤ last)
                  +ℤ forgotten outer inner amounts channel last vouchers t)
          → (if same
              then or_default (receive_amount outer inner amounts payer v amount s).0 (pos 0)
                +ℤ credited outer inner amounts channel vouchers (after amount)
              else credited outer inner amounts channel vouchers (after amount))
            ≡ (latest_amount channel (last_of same amount) vouchers -ℤ before)
              +ℤ (if same
                  then lost amount found before
                    +ℤ forgotten outer inner amounts channel
                        (last_of same amount)
                        vouchers
                        (after amount)
                  else forgotten outer inner amounts channel
                      (last_of same amount)
                      vouchers
                      (after amount))
      step none true e ih =
          zero_sum (credited outer inner amounts channel vouchers s)
            (latest_amount channel before vouchers -ℤ before)
            (forgotten outer inner amounts channel before vouchers s) (ih before s known)
      step none false e ih = ih before s known
      step (some amount) true e ih =
          ap
            (λ n.
              or_default n (pos 0)
              +ℤ credited outer inner amounts channel vouchers (after (some amount)))
            (receive_amount-credit outer inner amounts payer v amount s)
          ∙ credit_sum amount (paid_at outer inner amounts v.channel_id s)
              (lost (some amount) found before) before (latest_amount channel amount vouchers)
              (credited outer inner amounts channel vouchers (after (some amount)))
              (forgotten outer inner amounts channel amount vouchers (after (some amount)))
              (paid_sum amount before found (found_known (same_channel e)))
              (ih amount (after (some amount))
                (receive_amount-Remembers channel payer v amount s (same_channel e)))
      step (some amount) false e ih =
          ih before (after (some amount))
            (receive_amount-other channel payer v amount before s (λ k. ground (arith, e, k)) known)
