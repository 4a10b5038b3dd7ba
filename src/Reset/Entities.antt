-- ===== src/Reset/Entities.antt =====
-- The tables of entities after a reset.
use watcher_ts.Common.{
  ◌||◌, ℕ, ◌==◌, Bool, true, false, not, List, [], ◌∷◌, filter, any, ok, modify, ◌≡◌, refl, sym, ap,
  ◌∙◌, arith, if◌then◌else◌,
}
use watcher_ts.Events.{for_each}
use watcher_ts.Reset.{EntityRow, Watcher, set_table, delete_entities}

abbrev pub is_kept : (EntityRow → Bool) → EntityRow → Bool
is_kept remove e = not (remove e)

abbrev pub entities_after : (EntityRow → Bool) → List ℕ → (ℕ → List EntityRow) → ℕ → List EntityRow
entities_after remove [] tables = tables
entities_after remove (name ∷ names) tables =
    entities_after remove names (set_table name (filter (is_kept remove) (tables name)) tables)

module _ {A : Type 0} where
  filter-filter : (p : A → Bool) (xs : List A) → filter p (filter p xs) ≡ filter p xs
  filter-filter p [] = refl
  filter-filter p (x ∷ xs) = step (p x) refl (filter-filter p xs)
    where
      step :
          (b : Bool)
          → p x ≡ b
          → filter p (filter p xs) ≡ filter p xs
          → filter p (if b then x ∷ filter p xs else filter p xs)
            ≡ (if b then x ∷ filter p xs else filter p xs)
      step true e ih =
          ap (λ b. if b then x ∷ filter p (filter p xs) else filter p (filter p xs)) e
          ∙ ap (λ l. x ∷ l) ih
      step false e ih = ih

pub entities_after_lem :
    (remove : EntityRow → Bool) (names : List ℕ) (tables : ℕ → List EntityRow) (n : ℕ)
    → entities_after remove names tables n
      ≡ (if any (λ m. n == m) names then filter (is_kept remove) (tables n) else tables n)
entities_after_lem remove [] tables n = refl
entities_after_lem remove (m ∷ names) tables n =
    entities_after_lem remove names (set_table m (filter (is_kept remove) (tables m)) tables) n
    ∙ step (n == m) refl (any (λ k. n == k) names)
  where
    kept : ℕ → List EntityRow
    kept k = filter (is_kept remove) (tables k)

    step :
        (b : Bool)
        → (n == m) ≡ b
        → (q : Bool)
        → (if q
            then filter (is_kept remove) (if b then kept m else tables n)
            else (if b then kept m else tables n))
          ≡ (if b || q then kept n else tables n)
    step true e true = filter-filter (is_kept remove) (tables m) ∙ ap kept (sym (ground (arith, e)))
    step true e false = ap kept (sym (ground (arith, e)))
    step false e true = refl
    step false e false = refl

module _ {Bytes : Type 0} where
  pub for_each-entities :
      (remove : EntityRow → Bool) (names : List ℕ) (w : Watcher Bytes)
      → for_each (λ name. modify (delete_entities remove name)) names w
        ≡ (ok tt, record w { entities = entities_after remove names w.entities })
  unfolding delete_entities
  for_each-entities remove [] w = refl
  for_each-entities remove (name ∷ names) w =
      for_each-entities remove names (delete_entities remove name w)
