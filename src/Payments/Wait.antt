-- ===== src/Payments/Wait.antt =====
-- A request that waits for its voucher.
use watcher_ts.Common.{
  ℕ, Bool, true, false, not, ◌==◌, none, some, List, [], ◌∷◌, All, ◌≡◌, refl, ap, ◌∙◌, arith,
  if◌then◌else◌,
}
use watcher_ts.Common.Int.{ℤ}
use watcher_ts.Payments.{
  Lru, Voucher, Payment, Payments, Served, served, refused, payment_not_received, receive_voucher,
  accept_received_payment, served_if, await_payment, authenticate_payment,
}
use watcher_ts.Payments.Caches.{LruLaws}
use watcher_ts.Payments.Spent.{IsOwned, Shrinks-IsOwned, accept-Shrinks, accept-Spent, Spent-accept}
use watcher_ts.Payments.Received.{IsOther, Keeps, receive_voucher-Keeps, receive_voucher-IsOwned}
use watcher_ts.Payments.Once.{accept-Keeps}

module _ (outer : Lru ℕ) (inner : Lru Payment) (amounts : Lru ℤ) where
  abbrev pub Answer : Type 0
  Answer = Served × List (ℕ × Voucher) × Payments outer inner amounts

  -- `accept` as it found the voucher, before the rest of a wait.
  abbrev decide :
      List (ℕ × Voucher) → (Bool × Bool) × Payments outer inner amounts → Answer → Answer
  decide arriving a rest = if a.0.0 then (served_if a.0.1, arriving, a.1) else rest

module _ {outer : Lru ℕ} {inner : Lru Payment} {amounts : Lru ℤ} (O : LruLaws outer)
    (I : LruLaws inner) (hash signer : ℕ) where
  -- After it the voucher is spent, and only others are still to arrive.
  abbrev pub After : Served × List (ℕ × Voucher) × Payments outer inner amounts → Type 0
  After (r, later, t) = Keeps O I hash signer t × All (IsOther hash signer) later

  decide-After :
      (value : ℤ) (arriving : List (ℕ × Voucher)) (s : Payments outer inner amounts)
      (rest : Answer outer inner amounts)
      → IsOwned O I s
      → All (IsOther hash signer) arriving
      → (rest.0 ≡ served → After rest)
      → (decide outer inner amounts arriving
          (accept_received_payment outer inner amounts hash signer value s)
          rest).0
        ≡ served
      → After (
          decide outer inner amounts arriving
            (accept_received_payment outer inner amounts hash signer value s)
            rest)
  decide-After value arriving s rest owned others ih e =
      step (accept_received_payment outer inner amounts hash signer value s).0.0
        (accept_received_payment outer inner amounts hash signer value s).0.1 refl refl e
    where
      a : (Bool × Bool) × Payments outer inner amounts
      a = accept_received_payment outer inner amounts hash signer value s

      step :
          (found enough : Bool)
          → a.0.0 ≡ found
          → a.0.1 ≡ enough
          → (decide outer inner amounts arriving ((found, enough), a.1) rest).0 ≡ served
          → After (decide outer inner amounts arriving ((found, enough), a.1) rest)
      step false enough f g e = ih e
      step true false f g e = absurd (ground (arith, e))
      step true true f g e = (
        (
          Shrinks-IsOwned O I s a.1 (accept-Shrinks O I hash signer value s) owned,
          accept-Spent O I hash signer value s owned (λ i. (f i, g i)),
        ),
        others,
      )

  await-After :
      (value : ℤ) (arriving : List (ℕ × Voucher)) (s : Payments outer inner amounts)
      → IsOwned O I s
      → All (IsOther hash signer) arriving
      → (await_payment outer inner amounts hash signer value arriving s).0 ≡ served
      → After (await_payment outer inner amounts hash signer value arriving s)
  unfolding await_payment
  await-After value [] s owned others = λ e. absurd (ground (arith, e))
  await-After value ((payer, v) ∷ arriving) s owned (other, others) =
      step
        (elim (receive_voucher outer inner amounts payer v s).0 as (λ _. Bool) [
          | none ↦ false
          | some _ ↦ payer == signer
        ])
        (await-After value arriving t owned' others) (await-After value arriving u owned'' others)
    where
      t : Payments outer inner amounts
      t = (receive_voucher outer inner amounts payer v s).1

      u : Payments outer inner amounts
      u = (accept_received_payment outer inner amounts hash signer value t).1

      owned' : IsOwned O I t
      owned' = receive_voucher-IsOwned O I payer v s owned

      owned'' : IsOwned O I u
      owned'' = Shrinks-IsOwned O I t u (accept-Shrinks O I hash signer value t) owned'

      rest : Payments outer inner amounts → Answer outer inner amounts
      rest = await_payment outer inner amounts hash signer value arriving

      pick : Bool → Answer outer inner amounts
      pick noticed =
          if not noticed
          then rest t
          else decide outer inner amounts arriving
              (accept_received_payment outer inner amounts hash signer value t) (rest u)

      step :
          (noticed : Bool)
          → ((rest t).0 ≡ served → After (rest t))
          → ((rest u).0 ≡ served → After (rest u))
          → (pick noticed).0 ≡ served
          → After (pick noticed)
      step false at_t at_u e = at_t e
      step true at_t at_u e = decide-After value arriving t (rest u) owned' others at_u e

  -- With the voucher spent the wait ends with nothing.
  await-refused :
      (value : ℤ) (arriving : List (ℕ × Voucher)) (s : Payments outer inner amounts)
      → Keeps O I hash signer s
      → All (IsOther hash signer) arriving
      → (await_payment outer inner amounts hash signer value arriving s).0
        ≡ refused payment_not_received
  unfolding await_payment
  await-refused value [] s keeps others = refl
  await-refused value ((payer, v) ∷ arriving) s keeps (other, others) =
      step
        (elim (receive_voucher outer inner amounts payer v s).0 as (λ _. Bool) [
          | none ↦ false
          | some _ ↦ payer == signer
        ])
        (await-refused value arriving t keeps' others)
        (await-refused value arriving u (accept-Keeps O I hash signer hash signer value t keeps')
          others)
    where
      t : Payments outer inner amounts
      t = (receive_voucher outer inner amounts payer v s).1

      u : Payments outer inner amounts
      u = (accept_received_payment outer inner amounts hash signer value t).1

      keeps' : Keeps O I hash signer t
      keeps' = receive_voucher-Keeps O I hash signer payer v s other keeps

      rest : Payments outer inner amounts → Answer outer inner amounts
      rest = await_payment outer inner amounts hash signer value arriving

      step :
          (noticed : Bool)
          → (rest t).0 ≡ refused payment_not_received
          → (rest u).0 ≡ refused payment_not_received
          → (if not noticed
              then rest t
              else decide outer inner amounts arriving
                  (accept_received_payment outer inner amounts hash signer value t)
                  (rest u)).0
            ≡ refused payment_not_received
      step false at_t at_u = at_t
      step true at_t at_u =
          ap (λ (b : Bool × Bool). (decide outer inner amounts arriving (b, u) (rest u)).0)
            (Spent-accept O I hash signer value t keeps'.1)
          ∙ at_u

  pub authenticate-After :
      (value : ℤ) (arriving : List (ℕ × Voucher)) (s : Payments outer inner amounts)
      → IsOwned O I s
      → All (IsOther hash signer) arriving
      → (authenticate_payment outer inner amounts hash signer value arriving s).0 ≡ served
      → After (authenticate_payment outer inner amounts hash signer value arriving s)
  unfolding authenticate_payment
  authenticate-After value arriving s owned others =
      decide-After value arriving s (await_payment outer inner amounts hash signer value arriving t)
        owned others
        (await-After value arriving t
          (Shrinks-IsOwned O I s t (accept-Shrinks O I hash signer value s) owned) others)
    where
      t : Payments outer inner amounts
      t = (accept_received_payment outer inner amounts hash signer value s).1

  pub authenticate-refused :
      (value : ℤ) (arriving : List (ℕ × Voucher)) (s : Payments outer inner amounts)
      → Keeps O I hash signer s
      → All (IsOther hash signer) arriving
      → (authenticate_payment outer inner amounts hash signer value arriving s).0
        ≡ refused payment_not_received
  unfolding authenticate_payment
  authenticate-refused value arriving s keeps others =
      let t = (accept_received_payment outer inner amounts hash signer value s).1 in
      ap
        (λ (b : Bool × Bool).
          (decide outer inner amounts arriving (b, t)
            (await_payment outer inner amounts hash signer value arriving t)).0)
        (Spent-accept O I hash signer value s keeps.1)
      ∙ await-refused value arriving t (accept-Keeps O I hash signer hash signer value s keeps)
          others
