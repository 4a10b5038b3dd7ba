-- ===== src/Payments/Received.antt =====
-- Vouchers that are received leave a spent one spent.
use watcher_ts.Common.{
  set_at-cases, ℕ, Option, none, some, ◌≡◌, ◌≢◌, refl, sym, ◌∙◌, subst, ◌⊎◌, inl, inr, arith,
}
use watcher_ts.Common.Int.{ℤ}
use watcher_ts.Payments.{
  Lru, Voucher, Payment, Payments, no_amount, account_found, account_cache, pay_on_channel,
  put_voucher, receive_amount, receive_voucher,
}
use watcher_ts.Payments.Caches.{LruLaws}
use watcher_ts.Payments.Spent.{
  IsOwned, Spent, Shrinks-IsOwned, Shrinks-Spent, read_account, read_account-Shrinks,
}

-- A voucher of another payer, or with another hash.
abbrev pub IsOther : ℕ → ℕ → ℕ × Voucher → Type 0
IsOther hash signer (payer, v) = (payer ≢ signer) ⊎ (v.hash ≢ hash)

module _ {outer : Lru ℕ} {inner : Lru Payment} {amounts : Lru ℤ} (O : LruLaws outer)
    (I : LruLaws inner) where
  -- The reference is that of the account alone.
  abbrev BelongsTo : ℕ → ℕ → Payments outer inner amounts → Type 0
  BelongsTo payer r s = (a : ℕ) → O.Has a r s.received_payments → a ≡ payer

  new_account-IsOwned :
      (payer : ℕ) (s : Payments outer inner amounts)
      → IsOwned O I s
      → IsOwned O I (account_found outer inner amounts payer none s).1
  new_account-IsOwned payer s w = record {
    fresh = λ a r h. elim (O.set_has a payer r s.next_reference s.received_payments h) [
      | inl (_, e) ↦ omega (arith, e)
      | inr (_, k) ↦ omega (arith, w.fresh a r k)
    ];
    own = λ a b r h k. elim (O.set_has a payer r s.next_reference s.received_payments h) [
      | inl (e, n) ↦ elim (O.set_has b payer r s.next_reference s.received_payments k) [
        | inl (f, _) ↦ e ∙ sym f
        | inr (_, old) ↦ absurd (omega (arith, n, w.fresh b r old))
      ]
      | inr (_, old) ↦ elim (O.set_has b payer r s.next_reference s.received_payments k) [
        | inl (_, n) ↦ absurd (omega (arith, n, w.fresh a r old))
        | inr (_, old') ↦ w.own a b r old old'
      ]
    ];
    single = λ a r r' h k. elim (O.set_has a payer r s.next_reference s.received_payments h) [
      | inl (e, n) ↦ elim (O.set_has a payer r' s.next_reference s.received_payments k) [
        | inl (_, m) ↦ n ∙ sym m
        | inr (ne, _) ↦ absurd (ne e)
      ]
      | inr (ne, old) ↦ elim (O.set_has a payer r' s.next_reference s.received_payments k) [
        | inl (e, _) ↦ absurd (ne e)
        | inr (_, old') ↦ w.single a r r' old old'
      ]
    ];
  }

  new_account-Spent :
      (hash signer payer : ℕ) (s : Payments outer inner amounts)
      → IsOwned O I s
      → Spent O I hash signer s
      → Spent O I hash signer (account_found outer inner amounts payer none s).1
  new_account-Spent hash signer payer s w spent q p h =
      set_at-cases (λ d. I.Has hash p d → ⊥) s.next_reference inner.empty s.vouchers q
        (λ _ k. I.empty_has_none hash p k)
        (λ ne k. elim (O.set_has signer payer q s.next_reference s.received_payments h) [
          | inl (_, e) ↦ ne e
          | inr (_, old) ↦ spent q p old k
        ])

  new_account-BelongsTo :
      (payer : ℕ) (s : Payments outer inner amounts)
      → IsOwned O I s
      → BelongsTo payer s.next_reference (account_found outer inner amounts payer none s).1
  new_account-BelongsTo payer s w a h =
      elim (O.set_has a payer s.next_reference s.next_reference s.received_payments h) [
        | inl (e, _) ↦ e
        | inr (_, old) ↦ absurd (omega (arith, w.fresh a s.next_reference old))
      ]

  put_voucher-IsOwned :
      (r : ℕ) (v : Voucher) (amount : ℤ) (s : Payments outer inner amounts)
      → IsOwned O I s
      → IsOwned O I (put_voucher outer inner amounts r v amount s)
  put_voucher-IsOwned r v amount s w = record { fresh = w.fresh; own = w.own; single = w.single }

  put_voucher-Spent :
      (hash signer payer r : ℕ) (v : Voucher) (amount : ℤ) (s : Payments outer inner amounts)
      → BelongsTo payer r s
      → IsOther hash signer (payer, v)
      → Spent O I hash signer s
      → Spent O I hash signer (put_voucher outer inner amounts r v amount s)
  put_voucher-Spent hash signer payer r v amount s belongs other spent q p h =
      set_at-cases (λ d. I.Has hash p d → ⊥) r
        (inner.set v.hash (record { voucher = v; amount = amount }) (s.vouchers r)) s.vouchers q
        (λ e k.
          here e
            (I.set_has hash v.hash p (record { voucher = v; amount = amount }) (s.vouchers r) k)
            other)
        (λ _ k. spent q p h k)
    where
      owner : q ≡ r → signer ≡ payer
      owner e = belongs signer (subst (λ n. O.Has signer n s.received_payments) e h)

      here :
          q ≡ r
          → ((hash ≡ v.hash) × (p ≡ record { voucher = v; amount = amount }))
            ⊎ ((hash ≢ v.hash) × I.Has hash p (s.vouchers r))
          → IsOther hash signer (payer, v)
          → ⊥
      here e (inl (same, _)) (inl other_payer) = other_payer (sym (owner e))
      here e (inl (same, _)) (inr other_hash) = other_hash (sym same)
      here e (inr (_, old)) other =
          spent r p (subst (λ n. O.Has signer n s.received_payments) e h) old

  -- What the invariants say after a voucher was put into the cache of an account.
  abbrev pub Keeps : ℕ → ℕ → Payments outer inner amounts → Type 0
  Keeps hash signer s = IsOwned O I s × Spent O I hash signer s

  put_found-Keeps :
      (hash signer payer : ℕ) (v : Voucher) (amount : ℤ) (found : Option ℕ)
      (s : Payments outer inner amounts)
      → ((r : ℕ) → found ≡ some r → BelongsTo payer r s)
      → IsOther hash signer (payer, v)
      → Keeps hash signer s
      → Keeps hash signer (
          put_voucher outer inner amounts
            (account_found outer inner amounts payer found s).0
            v
            amount
            (account_found outer inner amounts payer found s).1)
  put_found-Keeps hash signer payer v amount (some r) s belongs other (w, spent) = (
    put_voucher-IsOwned r v amount s w,
    put_voucher-Spent hash signer payer r v amount s (belongs r refl) other spent,
  )
  put_found-Keeps hash signer payer v amount none s belongs other (w, spent) =
      let t = (account_found outer inner amounts payer none s).1 in
      (
        put_voucher-IsOwned s.next_reference v amount t (new_account-IsOwned payer s w),
        put_voucher-Spent hash signer payer s.next_reference v amount t
            (new_account-BelongsTo payer s w) other (new_account-Spent hash signer payer s w spent),
      )

  receive_amount-IsOwned :
      (payer : ℕ) (v : Voucher) (amount : Option ℤ) (s : Payments outer inner amounts)
      → IsOwned O I s
      → IsOwned O I (receive_amount outer inner amounts payer v amount s).1
  unfolding account_cache pay_on_channel read_account
  receive_amount-IsOwned payer v none s w = w
  receive_amount-IsOwned payer v (some amount) s w = step (outer.get payer t.received_payments).0 (
      Shrinks-IsOwned O I t (read_account O I payer t) (read_account-Shrinks O I payer t)
        (record { fresh = w.fresh; own = w.own; single = w.single }))
    where
      t : Payments outer inner amounts
      t = (pay_on_channel outer inner amounts v.channel_id amount s).1

      paid : ℤ
      paid = (pay_on_channel outer inner amounts v.channel_id amount s).0

      step :
          (found : Option ℕ)
          → IsOwned O I (read_account O I payer t)
          → IsOwned O I (
              put_voucher outer inner amounts
                (account_found outer inner amounts payer found (read_account O I payer t)).0
                v
                paid
                (account_found outer inner amounts payer found (read_account O I payer t)).1)
      step none w =
          put_voucher-IsOwned t.next_reference v paid
            (account_found outer inner amounts payer none (read_account O I payer t)).1
            (new_account-IsOwned payer (read_account O I payer t) w)
      step (some r) w = put_voucher-IsOwned r v paid (read_account O I payer t) w

  pub receive_voucher-IsOwned :
      (payer : ℕ) (v : Voucher) (s : Payments outer inner amounts)
      → IsOwned O I s
      → IsOwned O I (receive_voucher outer inner amounts payer v s).1
  unfolding receive_voucher
  receive_voucher-IsOwned payer v s = receive_amount-IsOwned payer v (no_amount v.amount) s

  receive_amount-Keeps :
      (hash signer payer : ℕ) (v : Voucher) (amount : Option ℤ) (s : Payments outer inner amounts)
      → IsOther hash signer (payer, v)
      → Keeps hash signer s
      → Keeps hash signer (receive_amount outer inner amounts payer v amount s).1
  unfolding account_cache pay_on_channel read_account
  receive_amount-Keeps hash signer payer v none s other keeps = keeps
  receive_amount-Keeps hash signer payer v (some amount) s other (w, spent) =
      put_found-Keeps hash signer payer v
        (pay_on_channel outer inner amounts v.channel_id amount s).0
        (outer.get payer t.received_payments).0 (read_account O I payer t)
        (λ r e a h.
          w.own a payer r (O.get_keeps a payer r s.received_payments h)
            (O.get_gives payer r s.received_payments e))
        other
        (
          Shrinks-IsOwned O I t (read_account O I payer t) (read_account-Shrinks O I payer t)
              (record { fresh = w.fresh; own = w.own; single = w.single }),
          Shrinks-Spent O I hash signer t (read_account O I payer t)
              (read_account-Shrinks O I payer t) spent,
        )
    where
      t : Payments outer inner amounts
      t = (pay_on_channel outer inner amounts v.channel_id amount s).1

  -- Another voucher leaves it spent.
  pub receive_voucher-Keeps :
      (hash signer payer : ℕ) (v : Voucher) (s : Payments outer inner amounts)
      → IsOther hash signer (payer, v)
      → Keeps hash signer s
      → Keeps hash signer (receive_voucher outer inner amounts payer v s).1
  unfolding receive_voucher
  receive_voucher-Keeps hash signer payer v s =
      receive_amount-Keeps hash signer payer v (no_amount v.amount) s
