-- ===== src/EntityCache/Pruned.antt =====
-- Pruning of the cache leaves what the blocks above the canonical block see.
use watcher_ts.Common.{
  ℕ, zero, suc, ◌<◌, Option, none, some, ◌≡◌, refl, sym, ap, subst, ◌∙◌, inl, inr, arith,
  Option-cases,
}
use watcher_ts.Common.Int.{ℤ, pos, negsuc, pos_part, neg_part, ◌+ℤ◌, ◌≤ℤ◌, ◌<ℤ◌}
use watcher_ts.Entity.{Version}
use watcher_ts.EntityCache.{
  Entities, entity_at, over, entities_of, keep_above, FrothyBlock, EntityCache,
  prune_entity_cache_frothy_blocks, Walk, hit, below, no_fuel, walk_frothy, walk_rounds,
}

-- What the cache alone answers.
abbrev pub answer : EntityCache → ℕ → ℕ → Walk → Option Version
answer c table id (hit v) = some v
answer c table id no_fuel = none
answer c table id (below _) = entity_at c.latest_pruned_entities table id

abbrev pub cached_answer : EntityCache → ℕ → ℕ → ℕ → Option Version
cached_answer c table id hash =
    answer c table id (walk_frothy (walk_rounds (c.frothy_blocks hash)) c table id hash (negsuc 0))

-- Numbers of parents in the cache are lower, and none is negative.
pub record IsFalling (c : EntityCache) : Type 0 where
  pub lower :
      (h p : ℕ) (fb fp : FrothyBlock)
      → c.frothy_blocks h ≡ some fb
      → c.frothy_blocks fb.parent_hash ≡ some fp
      → fp.block_number <ℤ fb.block_number
  pub nonneg : (h : ℕ) (fb : FrothyBlock) → c.frothy_blocks h ≡ some fb → pos 0 ≤ℤ fb.block_number

-- A block of the cache above a block, by parents in the cache.
pub data IsAbove (c : EntityCache) (hash : ℕ) : ℕ → FrothyBlock → Type 0 where
  child :
      (h : ℕ) (fb : FrothyBlock)
      → c.frothy_blocks h ≡ some fb
      → fb.parent_hash ≡ hash
      → IsAbove c hash h fb
  higher :
      (h : ℕ) (fb fp : FrothyBlock)
      → c.frothy_blocks h ≡ some fb
      → IsAbove c hash fb.parent_hash fp
      → IsAbove c hash h fb

entity_at-over :
    (new old : Entities) (table id : ℕ)
    → entity_at (over new old) table id
      ≡ elim (entity_at new table id) [ some v ↦ some v | none ↦ entity_at old table id ]
entity_at-over none old table id = refl
entity_at-over (some at) old table id = refl

IsAbove-there :
    {c : EntityCache} {hash h : ℕ} {fb : FrothyBlock}
    → IsAbove c hash h fb
    → c.frothy_blocks h ≡ some fb
IsAbove-there (child h fb there _) = there
IsAbove-there (higher h fb fp there _) = there

pos_part_lt : (a b : ℤ) → a <ℤ b → pos 0 ≤ℤ a → pos_part a < pos_part b
pos_part_lt a b lt nonneg = ground (arith, lt, nonneg)

answer-walk :
    (c : EntityCache) (table id h rounds : ℕ) (n : ℤ) (fb : FrothyBlock)
    → c.frothy_blocks h ≡ some fb
    → answer c table id (walk_frothy (suc rounds) c table id h n)
      ≡ elim (entity_at fb.entities table id) [
        | some v ↦ some v
        | none ↦
            answer c table id
              (walk_frothy rounds c table id fb.parent_hash (fb.block_number +ℤ pos 1))
      ]
unfolding walk_frothy
answer-walk c table id h rounds n fb there = elim (Option-cases (entity_at fb.entities table id)) [
  | inl missing ↦ ground (arith, there, missing)
  | inr (v, own) ↦ ground (arith, there, own)
]

module _ (c : EntityCache) (falling : IsFalling c) (hash : ℕ) (number : ℤ) (fh : FrothyBlock)
    (canonical : c.frothy_blocks hash ≡ some fh) (at_number : fh.block_number ≡ number)
    (last : c.frothy_blocks fh.parent_hash ≡ none) (table id : ℕ) where
  abbrev pruned : EntityCache
  unfolding prune_entity_cache_frothy_blocks
  pruned = prune_entity_cache_frothy_blocks hash number c

  IsAbove-number : {h : ℕ} {fb : FrothyBlock} → IsAbove c hash h fb → number <ℤ fb.block_number
  IsAbove-number (child h fb there parent) =
      let less = falling.lower h hash fb fh there (ap c.frothy_blocks parent ∙ canonical) in
      subst (λ n. n <ℤ fb.block_number) at_number less
  IsAbove-number (higher h fb fp there up) =
      let less = falling.lower h hash fb fp there (IsAbove-there up) in
      omega (arith, less, IsAbove-number up)

  keep_above-IsAbove :
      {h : ℕ} {fb : FrothyBlock}
      → IsAbove c hash h fb
      → keep_above number (c.frothy_blocks h) ≡ some fb
  keep_above-IsAbove {h} {fb} up = ground (arith, IsAbove-there up, IsAbove-number up)

  -- At the canonical block: it is gone, and its entities are the latest ones.
  overlaid : Option Version
  overlaid = elim (entity_at fh.entities table id) [
    | some v ↦ some v
    | none ↦ entity_at c.latest_pruned_entities table id
  ]

  before_canonical :
      (rounds : ℕ) (n : ℤ)
      → answer c table id (walk_frothy (suc (suc rounds)) c table id hash n) ≡ overlaid
  unfolding walk_frothy overlaid
  before_canonical rounds n = ground (arith, canonical, last)

  after_canonical :
      (rounds : ℕ) (m : ℤ)
      → answer pruned table id (walk_frothy (suc rounds) pruned table id hash m) ≡ overlaid
  unfolding walk_frothy overlaid pruned prune_entity_cache_frothy_blocks
  after_canonical rounds m =
      ap (answer pruned table id)
        (gone (keep_above number (c.frothy_blocks hash)) (ground (arith, canonical, at_number)))
      ∙ ap (λ o. entity_at (over (entities_of o) c.latest_pruned_entities) table id) canonical
      ∙ entity_at-over fh.entities c.latest_pruned_entities table id
    where
      gone :
          (there : Option FrothyBlock)
          → there ≡ none
          → (elim there as (λ _. Walk) [
            | none ↦ below m
            | some fb ↦ elim (entity_at fb.entities table id) [
              | none ↦ walk_frothy rounds pruned table id fb.parent_hash (fb.block_number +ℤ pos 1)
              | some v ↦ hit v
            ]
          ])
            ≡ below m
      gone none e = refl
      gone (some fb) e = absurd (ground (arith, e))

  pruned_there : {h : ℕ} {fb : FrothyBlock} → IsAbove c hash h fb → pruned.frothy_blocks h ≡ some fb
  unfolding pruned prune_entity_cache_frothy_blocks
  pruned_there up = keep_above-IsAbove up

  -- A block above is the same in both caches.
  answer-above :
      {h : ℕ} {fb : FrothyBlock} (up : IsAbove c hash h fb) (rounds : ℕ) (n m : ℤ)
      → answer c table id (walk_frothy rounds c table id fb.parent_hash (fb.block_number +ℤ pos 1))
        ≡ answer pruned table id
            (walk_frothy rounds pruned table id fb.parent_hash (fb.block_number +ℤ pos 1))
      → answer c table id (walk_frothy (suc rounds) c table id h n)
        ≡ answer pruned table id (walk_frothy (suc rounds) pruned table id h m)
  answer-above {h} {fb} up rounds n m same =
      answer-walk c table id h rounds n fb (IsAbove-there up)
      ∙ ap
          (λ o. elim (entity_at fb.entities table id) as (λ _. Option Version) [
            | some v ↦ some v
            | none ↦ o
          ])
          same
      ∙ sym (answer-walk pruned table id h rounds m fb (pruned_there up))

  answer-pruned :
      {h : ℕ} {fb : FrothyBlock} (up : IsAbove c hash h fb) (rounds : ℕ) (n m : ℤ)
      → suc (pos_part fb.block_number) < rounds
      → answer c table id (walk_frothy rounds c table id h n)
        ≡ answer pruned table id (walk_frothy rounds pruned table id h m)
  answer-pruned up zero n m enough = absurd (omega (arith, enough))
  answer-pruned (child h fb there parent) (suc zero) n m enough = absurd (omega (arith, enough))
  answer-pruned (child h fb there parent) (suc (suc zero)) n m enough =
      let less = IsAbove-number (child h fb there parent) in
      absurd (
        omega (
          arith,
          enough,
          less,
          falling.nonneg hash fh canonical,
          ap pos_part at_number,
          ap neg_part at_number,
        ))
  answer-pruned (child h fb there parent) (suc (suc (suc rounds))) n m enough =
      answer-above (child h fb there parent) (suc (suc rounds)) n m (
        subst
          (λ k.
            answer c table id
              (walk_frothy (suc (suc rounds)) c table id k (fb.block_number +ℤ pos 1))
            ≡ answer pruned table id
                (walk_frothy (suc (suc rounds)) pruned table id k (fb.block_number +ℤ pos 1)))
          (sym parent)
          (before_canonical rounds (fb.block_number +ℤ pos 1)
            ∙ sym (after_canonical (suc rounds) (fb.block_number +ℤ pos 1))))
  answer-pruned (higher h fb fp there up) (suc rounds) n m enough =
      answer-above (higher h fb fp there up) rounds n m (
        answer-pruned up rounds (fb.block_number +ℤ pos 1) (fb.block_number +ℤ pos 1) (
          omega (
            arith,
            enough,
            pos_part_lt fp.block_number fb.block_number
                (falling.lower h fb.parent_hash fb fp there (IsAbove-there up))
                (falling.nonneg fb.parent_hash fp (IsAbove-there up)),
          )))

  -- Pruning the cache to the canonical block loses nothing: what the cache answers for an entity at
  -- a block above the canonical one, through parents in the cache, is the same before and after,
  -- although the canonical block and all that are not above it are gone. In the cache, numbers of
  -- parents are lower and none is negative, the canonical block is there with its number, and its
  -- parent is not.
  pub prune_entity_cache-answer :
      (h : ℕ) (fb : FrothyBlock)
      → IsAbove c hash h fb
      → cached_answer (prune_entity_cache_frothy_blocks hash number c) table id h
        ≡ cached_answer c table id h
  unfolding pruned
  prune_entity_cache-answer h fb up = sym (
      subst
        (λ o.
          answer c table id (walk_frothy (walk_rounds o) c table id h (negsuc 0))
          ≡ answer pruned table id
              (walk_frothy (walk_rounds (pruned.frothy_blocks h)) pruned table id h (negsuc 0)))
        (sym (IsAbove-there up))
        (subst
          (λ o.
            answer c table id
              (walk_frothy (suc (suc (pos_part fb.block_number))) c table id h (negsuc 0))
            ≡ answer pruned table id (walk_frothy (walk_rounds o) pruned table id h (negsuc 0)))
          (sym (pruned_there up))
          (answer-pruned up (suc (suc (pos_part fb.block_number))) (negsuc 0) (negsuc 0)
            (omega arith))))
