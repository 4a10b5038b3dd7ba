-- ===== src/Payments/Spent.antt =====
-- A voucher pays once.
use watcher_ts.Common.{
  set_at, set_at-cases, ℕ, ◌<◌, Bool, true, false, Option, none, some, ◌≡◌, refl, sym, ◌∙◌, subst,
  arith,
}
use watcher_ts.Common.Int.{ℤ, ltb_ℤ}
use watcher_ts.Payments.{
  Lru, Payment, Payments, set_at, spend_unless, check_value, accept_found, accept_received_payment,
}
use watcher_ts.Payments.Caches.{LruLaws}

module _ {outer : Lru ℕ} {inner : Lru Payment} {amounts : Lru ℤ} (O : LruLaws outer)
    (I : LruLaws inner) where
  -- References belong to one account each, and an account has one at a time.
  pub record IsOwned (s : Payments outer inner amounts) : Type 0 where
    pub fresh : (a r : ℕ) → O.Has a r s.received_payments → r < s.next_reference
    pub own : (a b r : ℕ) → O.Has a r s.received_payments → O.Has b r s.received_payments → a ≡ b
    pub single :
        (a r r' : ℕ) → O.Has a r s.received_payments → O.Has a r' s.received_payments → r ≡ r'

  -- No voucher with the hash is there for the signer.
  abbrev pub Spent : ℕ → ℕ → Payments outer inner amounts → Type 0
  Spent hash signer s =
      (r : ℕ) (p : Payment) → O.Has signer r s.received_payments → I.Has hash p (s.vouchers r) → ⊥

  -- Entries are only lost.
  pub record Shrinks (s t : Payments outer inner amounts) : Type 0 where
    pub accounts : (a r : ℕ) → O.Has a r t.received_payments → O.Has a r s.received_payments
    pub payments : (r h : ℕ) (p : Payment) → I.Has h p (t.vouchers r) → I.Has h p (s.vouchers r)
    pub references : t.next_reference ≡ s.next_reference

  Shrinks-refl : (s : Payments outer inner amounts) → Shrinks s s
  Shrinks-refl s = record { accounts = λ a r h. h; payments = λ r h p k. k; references = refl }

  Shrinks-trans : (s t u : Payments outer inner amounts) → Shrinks s t → Shrinks t u → Shrinks s u
  Shrinks-trans s t u f g = record {
    accounts = λ a r h. f.accounts a r (g.accounts a r h);
    payments = λ r h p k. f.payments r h p (g.payments r h p k);
    references = g.references ∙ f.references;
  }

  pub Shrinks-IsOwned : (s t : Payments outer inner amounts) → Shrinks s t → IsOwned s → IsOwned t
  Shrinks-IsOwned s t f w = record {
    fresh = λ a r h. subst (λ n. r < n) (sym f.references) (w.fresh a r (f.accounts a r h));
    own = λ a b r h k. w.own a b r (f.accounts a r h) (f.accounts b r k);
    single = λ a r r' h k. w.single a r r' (f.accounts a r h) (f.accounts a r' k);
  }

  pub Shrinks-Spent :
      (hash signer : ℕ) (s t : Payments outer inner amounts)
      → Shrinks s t
      → Spent hash signer s
      → Spent hash signer t
  Shrinks-Spent hash signer s t f spent r p h k =
      spent r p (f.accounts signer r h) (f.payments r hash p k)

  -- Reading the accounts.
  unfoldable pub read_account : ℕ → Payments outer inner amounts → Payments outer inner amounts
  read_account a s = record s { received_payments = (outer.get a s.received_payments).1 }

  pub read_account-Shrinks :
      (a : ℕ) (s : Payments outer inner amounts) → Shrinks s (read_account a s)
  unfolding read_account
  read_account-Shrinks a s = record {
    accounts = λ b r h. O.get_keeps b a r s.received_payments h;
    payments = λ r h p k. k;
    references = refl;
  }

  set_at-Shrinks :
      (q : ℕ) (c : inner.Cache) (s : Payments outer inner amounts)
      → ((h : ℕ) (p : Payment) → I.Has h p c → I.Has h p (s.vouchers q))
      → Shrinks s (record s { vouchers = set_at q c s.vouchers })
  set_at-Shrinks q c s smaller = record {
    accounts = λ a r h. h;
    payments = λ r h p.
        set_at-cases (λ d. I.Has h p d → I.Has h p (s.vouchers r)) q c s.vouchers r
          (λ e k. subst (λ n. I.Has h p (s.vouchers n)) (sym e) (smaller h p k)) (λ ne k. k);
    references = refl;
  }

  check_value-Shrinks :
      (r hash : ℕ) (value : ℤ) (found : Option Payment) (s : Payments outer inner amounts)
      → Shrinks s (check_value outer inner amounts r hash value found s).1
  check_value-Shrinks r hash value none s = Shrinks-refl s
  check_value-Shrinks r hash value (some p) s = step (ltb_ℤ p.amount value)
    where
      step : (b : Bool) → Shrinks s (spend_unless outer inner amounts b r hash s).1
      step true = Shrinks-refl s
      step false =
          set_at-Shrinks r (inner.delete hash (s.vouchers r)) s
            (λ h p k. (I.delete_has h hash p (s.vouchers r) k).1)

  accept_found-Shrinks :
      (hash : ℕ) (value : ℤ) (found : Option ℕ) (s : Payments outer inner amounts)
      → Shrinks s (accept_found outer inner amounts hash value found s).1
  accept_found-Shrinks hash value none s = Shrinks-refl s
  accept_found-Shrinks hash value (some r) s =
      let c = (inner.get hash (s.vouchers r)).1 in
      let t = record s { vouchers = set_at r c s.vouchers } in
      Shrinks-trans s t
        (check_value outer inner amounts r hash value (inner.get hash (s.vouchers r)).0 t).1
        (set_at-Shrinks r c s (λ h p k. I.get_keeps h hash p (s.vouchers r) k))
        (check_value-Shrinks r hash value (inner.get hash (s.vouchers r)).0 t)

  -- Accepting only loses entries.
  pub accept-Shrinks :
      (hash signer : ℕ) (value : ℤ) (s : Payments outer inner amounts)
      → Shrinks s (accept_received_payment outer inner amounts hash signer value s).1
  unfolding accept_received_payment read_account
  accept-Shrinks hash signer value s =
      let found = (outer.get signer s.received_payments).0 in
      Shrinks-trans s (read_account signer s)
        (accept_found outer inner amounts hash value found (read_account signer s)).1
        (read_account-Shrinks signer s)
        (accept_found-Shrinks hash value found (read_account signer s))

  check_value-Spent :
      (r hash signer : ℕ) (value : ℤ) (found : Option Payment) (s : Payments outer inner amounts)
      → ((q : ℕ) → O.Has signer q s.received_payments → q ≡ r)
      → (check_value outer inner amounts r hash value found s).0 ≡ (true, true)
      → Spent hash signer (check_value outer inner amounts r hash value found s).1
  check_value-Spent r hash signer value none s only accepted = absurd (ground (arith, accepted))
  check_value-Spent r hash signer value (some p) s only accepted =
      step (ltb_ℤ p.amount value) accepted
    where
      step :
          (b : Bool)
          → (spend_unless outer inner amounts b r hash s).0 ≡ (true, true)
          → Spent hash signer (spend_unless outer inner amounts b r hash s).1
      step true e = absurd (ground (arith, e))
      step false e = λ q x h.
          set_at-cases (λ d. I.Has hash x d → ⊥) r (inner.delete hash (s.vouchers r)) s.vouchers q
            (λ _ k. (I.delete_has hash hash x (s.vouchers r) k).0 refl)
            (λ ne. absurd (ne (only q h)))

  -- A voucher that was accepted is spent.
  pub accept-Spent :
      (hash signer : ℕ) (value : ℤ) (s : Payments outer inner amounts)
      → IsOwned s
      → (accept_received_payment outer inner amounts hash signer value s).0 ≡ (true, true)
      → Spent hash signer (accept_received_payment outer inner amounts hash signer value s).1
  unfolding accept_received_payment read_account
  accept-Spent hash signer value s owned accepted =
      step (outer.get signer s.received_payments).0 refl accepted
    where
      t : Payments outer inner amounts
      t = read_account signer s

      step :
          (found : Option ℕ)
          → (outer.get signer s.received_payments).0 ≡ found
          → (accept_found outer inner amounts hash value found t).0 ≡ (true, true)
          → Spent hash signer (accept_found outer inner amounts hash value found t).1
      step none e accepted = absurd (ground (arith, accepted))
      step (some r) e accepted =
          check_value-Spent r hash signer value (inner.get hash (t.vouchers r)).0
            (record t { vouchers = set_at r (inner.get hash (t.vouchers r)).1 t.vouchers })
            (λ q h.
              owned.single signer q r (O.get_keeps signer signer q s.received_payments h)
                (O.get_gives signer r s.received_payments e))
            accepted

  -- A spent voucher is not found.
  pub Spent-accept :
      (hash signer : ℕ) (value : ℤ) (s : Payments outer inner amounts)
      → Spent hash signer s
      → (accept_received_payment outer inner amounts hash signer value s).0 ≡ (false, false)
  unfolding accept_received_payment
  Spent-accept hash signer value s spent = step (outer.get signer s.received_payments).0 refl
    where
      t : Payments outer inner amounts
      t = record s { received_payments = (outer.get signer s.received_payments).1 }

      check :
          (r : ℕ) (found : Option Payment)
          → O.Has signer r s.received_payments
          → (inner.get hash (s.vouchers r)).0 ≡ found
          → (u : Payments outer inner amounts)
          → (check_value outer inner amounts r hash value found u).0 ≡ (false, false)
      check r none h e u = refl
      check r (some p) h e u = absurd (spent r p h (I.get_gives hash p (s.vouchers r) e))

      step :
          (found : Option ℕ)
          → (outer.get signer s.received_payments).0 ≡ found
          → (accept_found outer inner amounts hash value found t).0 ≡ (false, false)
      step none e = refl
      step (some r) e =
          check r (inner.get hash (s.vouchers r)).0 (O.get_gives signer r s.received_payments e)
            refl (record t { vouchers = set_at r (inner.get hash (t.vouchers r)).1 t.vouchers })
