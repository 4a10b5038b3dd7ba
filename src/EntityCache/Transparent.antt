-- ===== src/EntityCache/Transparent.antt =====
-- A read through the cache gives what the database gives.
use watcher_ts.Common.{
  ℕ, zero, suc, ◌≤◌, ◌<◌, Option, none, some, List, [], ◌∷◌, All, ◌≡◌, ◌≢◌, refl, sym, ap, subst,
  ◌∙◌, inl, inr, arith, Option-cases, ok,
}
use watcher_ts.Common.Int.{ℤ, pos, negsuc, pos_part, ◌+ℤ◌}
use watcher_ts.Tables.{BlockProgress}
use watcher_ts.Blocks.{find_block, parent_of, ancestry, last_of}
use watcher_ts.Blocks.Ancestor.{IsLinked, find_block-hash, find_block_self}
use watcher_ts.Entity.{Version, find_version, get_latest_pruned_entity, get_prev_entity_version}
use watcher_ts.Entity.Nearest.{first_version, get_prev_entity_version-walk}
use watcher_ts.EntityCache.{
  Entities, FrothyBlock, Store, walk_frothy, walk_rounds, hit, read_walked, read_cached,
  get_model_entity,
}
use watcher_ts.EntityCache.Coherent.{IsAt, IsCoherent}
use watcher_ts.EntityCache.Steps.{Reach, Reach-IsCoherent}

abbrev pub IsCached : Store → BlockProgress → Type 0
IsCached s b = s.cache.frothy_blocks b.block_hash ≢ none

-- Looking at more parents finds the same version.
first_version-more :
    (rows : List BlockProgress) (versions : List Version) (id k n : ℕ) (b : BlockProgress)
    (v : Version)
    → k ≤ n
    → first_version versions id (ancestry k rows b) ≡ some v
    → first_version versions id (ancestry n rows b) ≡ some v
unfolding ancestry
first_version-more rows versions id zero zero b v le = λ e. e
first_version-more rows versions id (suc k) zero b v le = absurd (omega (arith, le))
first_version-more rows versions id zero (suc n) b v le = elim (Option-cases (parent_of rows b)) [
  | inl no_parent ↦ λ e. ground (arith, e, no_parent)
  | inr (p, parent) ↦ λ e. ground (arith, e, parent)
]
first_version-more rows versions id (suc k) (suc n) b v le =
    elim (Option-cases (parent_of rows b)) [
      | inl no_parent ↦ λ e. ground (arith, e, no_parent)
      | inr (p, parent) ↦ λ e.
          ground (arith, e, parent, first_version-more rows versions id k n p v (omega (arith, le)))
    ]

All-ancestry :
    (P : BlockProgress → Type 0) (k : ℕ) (rows : List BlockProgress) (b : BlockProgress)
    → All P (ancestry k rows b)
    → P b
unfolding ancestry
All-ancestry P zero rows b = λ h. h.0
All-ancestry P (suc k) rows b = step (parent_of rows b)
  where
    step :
        (parent : Option BlockProgress)
        → All P (elim parent [ none ↦ b ∷ [] | some p ↦ b ∷ ancestry k rows p ])
        → P b
    step none h = h.0
    step (some p) h = h.0

module _ (s : Store) (c : IsCoherent s) (linked : IsLinked s.blocks) (table id : ℕ) where
  walk_frothy-hit :
      (fuel k : ℕ) (b : BlockProgress) (canonical : ℤ) (v : Version) (fb : FrothyBlock)
      → s.cache.frothy_blocks b.block_hash ≡ some fb
      → find_block b.block_hash s.blocks ≡ some b
      → pos_part fb.block_number < fuel
      → All (IsCached s) (ancestry k s.blocks b)
      → first_version (s.versions table) id (ancestry k s.blocks b) ≡ some v
      → walk_frothy fuel s.cache table id b.block_hash canonical ≡ hit v
  unfolding walk_frothy ancestry
  walk_frothy-hit zero k b canonical v fb there known enough cached e =
      absurd (omega (arith, enough))
  walk_frothy-hit (suc fuel) zero b canonical v fb there known enough cached e =
      ground (arith, there, (c b.block_hash fb there).same table id, e)
  walk_frothy-hit (suc fuel) (suc k) b canonical v fb there known enough cached e =
      seen (parent_of s.blocks b) refl (find_version (s.versions table) id b.block_hash) refl
        (walk_frothy-hit fuel k) cached e
    where
      a : IsAt s b.block_hash fb
      a = c b.block_hash fb there

      own : a.block ≡ b
      own = ground (arith, a.known, known)

      above : ℤ
      above = fb.block_number +ℤ pos 1

      same_block :
          (p : BlockProgress) (fp : FrothyBlock) (at_p : IsAt s p.block_hash fp)
          → find_block p.block_hash s.blocks ≡ some p
          → at_p.block ≡ p
      same_block p fp at_p self = ground (arith, at_p.known, self)

      lower :
          (p : BlockProgress) (fp : FrothyBlock)
          → IsAt s p.block_hash fp
          → find_block p.block_hash s.blocks ≡ some p
          → parent_of s.blocks b ≡ some p
          → pos_part fp.block_number < fuel
      lower p fp at_p self parent =
          let less = linked b p known parent in
          let same = ap (λ (r : BlockProgress). r.block_number) own in
          let at_self = ap (λ (r : BlockProgress). r.block_number) (same_block p fp at_p self) in
          ground (arith, less, same, at_self, at_p.number, a.number, at_p.nonneg, a.nonneg, enough)

      onward :
          (p : BlockProgress)
          → parent_of s.blocks b ≡ some p
          → ((q : BlockProgress) (n : ℤ) (w : Version) (fq : FrothyBlock)
              → s.cache.frothy_blocks q.block_hash ≡ some fq
              → find_block q.block_hash s.blocks ≡ some q
              → pos_part fq.block_number < fuel
              → All (IsCached s) (ancestry k s.blocks q)
              → first_version (s.versions table) id (ancestry k s.blocks q) ≡ some w
              → walk_frothy fuel s.cache table id q.block_hash n ≡ hit w)
          → All (IsCached s) (ancestry k s.blocks p)
          → first_version (s.versions table) id (ancestry k s.blocks p) ≡ some v
          → walk_frothy fuel s.cache table id fb.parent_hash above ≡ hit v
      onward p parent ih cached e = elim (Option-cases (s.cache.frothy_blocks p.block_hash)) [
        | inl missing ↦ absurd (All-ancestry (IsCached s) k s.blocks p cached missing)
        | inr (fp, found) ↦
            let at_p = c p.block_hash fp found in
            let self = find_block_self b.parent_hash s.blocks p parent in
            subst (λ h. walk_frothy fuel s.cache table id h above ≡ hit v)
              (find_block-hash b.parent_hash s.blocks p parent
                ∙ ap (λ (r : BlockProgress). r.parent_hash) (sym own)
                ∙ a.parent)
              (ih p above v fp found self (lower p fp at_p self parent) cached e)
      ]

      seen :
          (parent : Option BlockProgress)
          → parent_of s.blocks b ≡ parent
          → (mine : Option Version) → find_version (s.versions table) id b.block_hash ≡ mine
          → ((q : BlockProgress) (n : ℤ) (w : Version) (fq : FrothyBlock)
              → s.cache.frothy_blocks q.block_hash ≡ some fq
              → find_block q.block_hash s.blocks ≡ some q
              → pos_part fq.block_number < fuel
              → All (IsCached s) (ancestry k s.blocks q)
              → first_version (s.versions table) id (ancestry k s.blocks q) ≡ some w
              → walk_frothy fuel s.cache table id q.block_hash n ≡ hit w)
          → All (IsCached s) (elim parent [ none ↦ b ∷ [] | some p ↦ b ∷ ancestry k s.blocks p ])
          → first_version
              (s.versions table)
              id
              (elim parent [ none ↦ b ∷ [] | some p ↦ b ∷ ancestry k s.blocks p ])
            ≡ some v
          → walk_frothy (suc fuel) s.cache table id b.block_hash canonical ≡ hit v
      seen none q (some w) m ih cached e = ground (arith, there, a.same table id, m, e)
      seen none q none m ih cached e = absurd (ground (arith, m, e))
      seen (some p) q (some w) m ih cached e = ground (arith, there, a.same table id, m, e)
      seen (some p) q none m ih cached e =
          ground (arith, there, a.same table id, m, onward p q ih cached.1 (ground (arith, m, e)))

-- What the database gives where a near block has a version.
pub get_prev_entity_version-near :
    (s : Store) (table id hash k : ℕ) (b : BlockProgress) (v : Version)
    → IsLinked s.blocks
    → k ≤ 15
    → find_block hash s.blocks ≡ some b
    → first_version (s.versions table) id (ancestry k s.blocks b) ≡ some v
    → get_prev_entity_version s.blocks (s.versions table) hash id ≡ ok (some v)
get_prev_entity_version-near s table id hash k b v linked le found e =
    get_prev_entity_version-walk s.blocks (s.versions table) hash id b linked found
    ∙ ap
        (λ o. ok (elim o [
          | some v ↦ some v
          | none ↦
              get_latest_pruned_entity (s.versions table) id
                ((last_of b (ancestry 15 s.blocks b)).block_number +ℤ pos 1)
        ]))
        (first_version-more s.blocks (s.versions table) id k 15 b v le e)

-- A read through the cache gives what the database gives. In every state that is reached from one
-- with no cached blocks, where blocks are cached before they have versions, a saved row that was
-- there is neither pruned nor removed unless it is saved as such, and other changes leave the
-- cached blocks with their numbers and parents, and their versions: if a block and its parents up to a depth of at most fifteen are
-- all in the cache and one of them has a version of the entity, then `getModelEntity` at the block
-- gives the version of the nearest of them, and so does `getPrevEntityVersion` without the cache.
-- Every block of the table has a higher number than its parent there.
pub get_model_entity-transparent :
    (s0 s : Store) (table id hash k : ℕ) (b : BlockProgress) (v : Version)
    → ((h : ℕ) → s0.cache.frothy_blocks h ≡ none)
    → Reach s0 s
    → IsLinked s.blocks
    → k ≤ 15
    → find_block hash s.blocks ≡ some b
    → All (IsCached s) (ancestry k s.blocks b)
    → first_version (s.versions table) id (ancestry k s.blocks b) ≡ some v
    → ((get_model_entity table id (some hash) s).0 ≡ ok (some v))
      × (get_prev_entity_version s.blocks (s.versions table) hash id ≡ ok (some v))
unfolding get_model_entity
get_model_entity-transparent s0 s table id hash k b v empty reach linked le found cached e =
    (step s.cache.latest_pruned_entities, direct)
  where
    c : IsCoherent s
    c = Reach-IsCoherent reach (λ h fb there. absurd (ground (arith, there, empty h)))

    direct : get_prev_entity_version s.blocks (s.versions table) hash id ≡ ok (some v)
    direct = get_prev_entity_version-near s table id hash k b v linked le found e

    hash_of : b.block_hash ≡ hash
    hash_of = find_block-hash hash s.blocks b found

    walked :
        walk_frothy (walk_rounds (s.cache.frothy_blocks hash)) s.cache table id hash (negsuc 0)
        ≡ hit v
    walked = elim (Option-cases (s.cache.frothy_blocks hash)) [
      | inl missing ↦ absurd (
          All-ancestry (IsCached s) k s.blocks b cached
            (ap s.cache.frothy_blocks hash_of ∙ missing))
      | inr (fb, there) ↦
          subst (λ o. walk_frothy (walk_rounds o) s.cache table id hash (negsuc 0) ≡ hit v)
            (sym there)
            (subst
              (λ h.
                walk_frothy (suc (suc (pos_part fb.block_number))) s.cache table id h (negsuc 0)
                ≡ hit v)
              hash_of
              (walk_frothy-hit s c linked table id (suc (suc (pos_part fb.block_number))) k b
                (negsuc 0) v fb (ap s.cache.frothy_blocks hash_of ∙ there)
                (find_block_self hash s.blocks b found) (omega arith) cached e))
    ]

    step : (latest : Entities) → (read_cached table id hash latest s).0 ≡ ok (some v)
    step none = direct
    step (some _) = ap (λ w. (read_walked table id hash w s).0) walked
