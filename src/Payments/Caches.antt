-- ===== src/Payments/Caches.antt =====
-- What the payments rely on of a cache: it has at most what was set and not deleted since. It may
-- lose entries at any time.
use watcher_ts.Common.{ℕ, some, ◌≡◌, ◌≢◌, ◌⊎◌}
use watcher_ts.Payments.{Lru}

pub record LruLaws {V : Type 0} (lru : Lru V) : Type 1 where
  -- A reading of the cache, now or later, may give the value for the key.
  pub Has : ℕ → V → lru.Cache → Type 0
  pub empty_has_none : (k : ℕ) (v : V) → Has k v lru.empty → ⊥
  pub get_gives : (k : ℕ) (v : V) (c : lru.Cache) → (lru.get k c).0 ≡ some v → Has k v c
  pub get_keeps : (k j : ℕ) (v : V) (c : lru.Cache) → Has k v (lru.get j c).1 → Has k v c
  pub set_has :
      (k j : ℕ) (v w : V) (c : lru.Cache)
      → Has k v (lru.set j w c)
      → ((k ≡ j) × (v ≡ w)) ⊎ ((k ≢ j) × Has k v c)
  pub delete_has :
      (k j : ℕ) (v : V) (c : lru.Cache) → Has k v (lru.delete j c) → (k ≢ j) × Has k v c
