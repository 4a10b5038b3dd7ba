-- ===== src/Common/Lists.antt =====
-- Lists measured by native numbers, and predicates on every element.
use Prim.Native.Nat.{ℕ, zero, suc, ◌+◌, ◌-◌, min}
use mathlib.Core.Path.{◌≡◌, refl, sym, ap, ◌∙◌}
use mathlib.Core.Bool.{Bool, true, false, ◌&&◌, ◌||◌}
use mathlib.Core.List.{List, [], ◌∷◌, ◌++◌, map}
use mathlib.Core.Option.{Option, none, some}
use native.Mathlib.Omega.{arith}
use watcher_ts.Common.Tests.{if◌then◌else◌}

-- `x` is an element.
pub data Has {ℓ} {A : Type ℓ} (x : A) : List A → Type ℓ where
  first : {y : A} {xs : List A} → x ≡ y → Has x (y ∷ xs)
  later : {y : A} {xs : List A} → Has x xs → Has x (y ∷ xs)

module _ {ℓ} {A : Type ℓ} where
  abbrev pub length : List A → ℕ
  length [] = 0
  length (x ∷ xs) = suc (length xs)

  abbrev pub head? : List A → Option A
  head? [] = none
  head? (x ∷ xs) = some x

  abbrev pub get_elem? : List A → ℕ → Option A
  get_elem? [] i = none
  get_elem? (x ∷ xs) zero = some x
  get_elem? (x ∷ xs) (suc i) = get_elem? xs i

  abbrev pub take : ℕ → List A → List A
  take zero xs = []
  take (suc n) [] = []
  take (suc n) (x ∷ xs) = x ∷ take n xs

  abbrev pub drop : ℕ → List A → List A
  drop zero xs = xs
  drop (suc n) [] = []
  drop (suc n) (x ∷ xs) = drop n xs

  -- `xs.filter(p)`
  abbrev pub filter : (A → Bool) → List A → List A
  filter p [] = []
  filter p (x ∷ xs) = let rest = filter p xs in if p x then x ∷ rest else rest

  -- `xs.find(p)`
  abbrev pub find : (A → Bool) → List A → Option A
  find p [] = none
  find p (x ∷ xs) = if p x then some x else find p xs

  -- `xs.some(p)` and `xs.every(p)`
  abbrev pub any : (A → Bool) → List A → Bool
  any p [] = false
  any p (x ∷ xs) = p x || any p xs

  abbrev pub all : (A → Bool) → List A → Bool
  all p [] = true
  all p (x ∷ xs) = p x && all p xs

  abbrev pub All {κ} : (A → Type κ) → List A → Type κ
  All P [] = Unit
  All P (x ∷ xs) = P x × All P xs

  pub filter-append :
      (p : A → Bool) (xs ys : List A) → filter p (xs ++ ys) ≡ filter p xs ++ filter p ys
  filter-append p [] ys = refl
  filter-append p (x ∷ xs) ys = ground (arith, filter-append p xs ys)

  pub length-append : (xs ys : List A) → length (xs ++ ys) ≡ length xs + length ys
  length-append [] ys = omega arith
  length-append (x ∷ xs) ys = omega (arith, length-append xs ys)

module _ {ℓ} {A : Type ℓ} where
  pub take-append-drop : (n : ℕ) (xs : List A) → take n xs ++ drop n xs ≡ xs
  take-append-drop zero xs = refl
  take-append-drop (suc n) [] = refl
  take-append-drop (suc n) (x ∷ xs) = ap (λ l. x ∷ l) (take-append-drop n xs)

  pub length-take : (n : ℕ) (xs : List A) → length (take n xs) ≡ min n (length xs)
  length-take zero xs = omega arith
  length-take (suc n) [] = omega arith
  length-take (suc n) (x ∷ xs) = omega (arith, length-take n xs)

  pub length-drop : (n : ℕ) (xs : List A) → length (drop n xs) ≡ length xs - n
  length-drop zero xs = omega arith
  length-drop (suc n) [] = omega arith
  length-drop (suc n) (x ∷ xs) = omega (arith, length-drop n xs)

  pub Has-map {κ} :
      {B : Type κ} (f : A → B) (y : B) (xs : List A)
      → Has y (map f xs)
      → (x : A) × Has x xs × (y ≡ f x)
  Has-map f y [] h = elim h [ ]
  Has-map f y (x ∷ xs) (first e) = (x, first refl, e)
  Has-map f y (x ∷ xs) (later h) = let (z, k, e) = Has-map f y xs h in (z, later k, e)

  pub Has-any : (q : A → Bool) (x : A) (xs : List A) → Has x xs → q x ≡ true → any q xs ≡ true
  Has-any q x [] h qx = elim h [ ]
  Has-any q x (y ∷ ys) (first e) qx = ground (arith, ap q e)
  Has-any q x (y ∷ ys) (later h) qx = ground (arith, Has-any q x ys h qx)

  pub any-Has : (q : A → Bool) (xs : List A) → any q xs ≡ true → (x : A) × Has x xs × (q x ≡ true)
  any-Has q [] e = absurd (ground (arith, e))
  any-Has q (y ∷ ys) e = step (q y) refl (any-Has q ys) e
    where
      step :
          (b : Bool)
          → q y ≡ b
          → (any q ys ≡ true → (x : A) × Has x ys × (q x ≡ true))
          → (b || any q ys) ≡ true
          → (x : A) × Has x (y ∷ ys) × (q x ≡ true)
      step true qy ih e = (y, first refl, qy)
      step false qy ih e = let (x, h, qx) = ih e in (x, later h, qx)

  pub filter-Has :
      (p : A → Bool) (x : A) (xs : List A) → Has x xs → p x ≡ true → Has x (filter p xs)
  filter-Has p x [] h px = elim h [ ]
  filter-Has p x (y ∷ ys) (first e) px = rw (sym (ap p e) ∙ px) (first e)
  filter-Has p x (y ∷ ys) (later h) px = step (p y) (filter-Has p x ys h px)
    where
      step : (b : Bool) → Has x (filter p ys) → Has x (if b then y ∷ filter p ys else filter p ys)
      step true k = later k
      step false k = k

  pub Has-filter :
      (p : A → Bool) (x : A) (xs : List A) → Has x (filter p xs) → Has x xs × (p x ≡ true)
  Has-filter p x [] h = elim h [ ]
  Has-filter p x (y ∷ ys) h = step (p y) refl (Has-filter p x ys) h
    where
      step :
          (b : Bool)
          → p y ≡ b
          → (Has x (filter p ys) → Has x ys × (p x ≡ true))
          → Has x (if b then y ∷ filter p ys else filter p ys)
          → Has x (y ∷ ys) × (p x ≡ true)
      step true e ih (first same) = (first same, ap p same ∙ e)
      step true e ih (later k) = let (m, px) = ih k in (later m, px)
      step false e ih k = let (m, px) = ih k in (later m, px)

suc_plus : (m n : ℕ) → suc (m + n) ≡ suc m + n
suc_plus m n = omega arith

module _ {ℓ} {A : Type ℓ} where
  pub drop_nil : (n : ℕ) → drop {A = A} n [] ≡ []
  drop_nil zero = refl
  drop_nil (suc n) = refl

  pub drop-drop : (m n : ℕ) (xs : List A) → drop n (drop m xs) ≡ drop (m + n) xs
  drop-drop zero n xs = ap (λ k. drop k xs) (omega arith)
  drop-drop (suc m) n [] = drop_nil n ∙ sym (drop_nil (suc m + n))
  drop-drop (suc m) n (x ∷ xs) = drop-drop m n xs ∙ ap (λ k. drop k (x ∷ xs)) (suc_plus m n)

  pub length_zero : (xs : List A) → length xs ≡ 0 → xs ≡ []
  length_zero [] p = refl
  length_zero (x ∷ xs) p = absurd (omega arith)
