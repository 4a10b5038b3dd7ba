-- ===== src/Entity/Seen.antt =====
-- What a block sees of an entity, said by the rows alone.
use watcher_ts.Common.{
  ℕ, ◌≡◌, ◌≢◌, refl, sym, ap, subst, Bool, true, false, ◌&&◌, ◌==◌, Option, none, some, List, [],
  ◌∷◌, Has, first, later, filter, filter-Has, Has-filter, ◌⊎◌, inl, inr, arith, ok, Bool-cases,
  if◌then◌else◌,
}
use watcher_ts.Common.Int.{ℤ, pos, ◌+ℤ◌, ◌≤ℤ◌, leb_ℤ}
use watcher_ts.Tables.{BlockProgress}
use watcher_ts.Blocks.{find_block, last_of, ancestry}
use watcher_ts.Blocks.Ancestor.{IsLinked}
use watcher_ts.Entity.{
  Version, find_version, highest_version, is_unpruned_upto, get_latest_pruned_entity,
  get_prev_entity_version,
}
use watcher_ts.Entity.Nearest.{first_version, get_prev_entity_version-walk}

-- An unpruned version of the entity that is not above the number.
pub record IsCandidate (versions : List Version) (id : ℕ) (number : ℤ) (v : Version) : Type 0 where
  pub there : Has v versions
  pub of_entity : v.id ≡ id
  pub unpruned : v.is_pruned ≡ false
  pub upto : v.block_number ≤ℤ number

-- The one with the greatest number, or none if there is no such version.
abbrev pub IsLatest : List Version → ℕ → ℤ → Option Version → Type 0
IsLatest versions id number none = (v : Version) → IsCandidate versions id number v → ⊥
IsLatest versions id number (some v) =
    IsCandidate versions id number v
    × ((w : Version) → IsCandidate versions id number w → w.block_number ≤ℤ v.block_number)

-- A version of the first of the blocks that has one, or else the latest unpruned one.
abbrev pub Sees : List Version → ℕ → ℤ → List BlockProgress → Option Version → Type 0
Sees versions id number [] o = IsLatest versions id number o
Sees versions id number (b ∷ blocks) o =
    ((v : Version) × (o ≡ some v) × Has v versions × (v.id ≡ id) × (v.block_hash ≡ b.block_hash))
    ⊎ (((v : Version) → Has v versions → v.id ≡ id → v.block_hash ≢ b.block_hash)
        × Sees versions id number blocks o)

data Highest (versions : List Version) : Type 0 where
  empty : highest_version versions ≡ none → versions ≡ [] → Highest versions
  greatest :
      (v : Version)
      → highest_version versions ≡ some v
      → Has v versions
      → ((w : Version) → Has w versions → w.block_number ≤ℤ v.block_number)
      → Highest versions

Has-nil : {w : Version} {versions : List Version} → versions ≡ [] → Has w versions → ⊥
Has-nil {w} e h = elim (subst (Has w) e h) [ ]

-- A bound on all versions, from one on the first and one on the others.
bounded :
    (x : Version) (versions : List Version) (n : ℤ)
    → x.block_number ≤ℤ n
    → ((w : Version) → Has w versions → w.block_number ≤ℤ n)
    → (w : Version) → Has w (x ∷ versions)
    → w.block_number ≤ℤ n
bounded x versions n le rest w (first e) = subst (λ (y : Version). y.block_number ≤ℤ n) (sym e) le
bounded x versions n le rest w (later h) = rest w h

versions-Highest : (versions : List Version) → Highest versions
versions-Highest [] = empty refl refl
versions-Highest (x ∷ versions) = elim (versions-Highest versions) [
  | empty e nil ↦
      greatest x (ground (arith, e)) (first refl)
        (bounded x versions x.block_number (omega arith) (λ w h. absurd (Has-nil nil h)))
  | greatest v e there top ↦ elim (Bool-cases (leb_ℤ v.block_number x.block_number)) [
    | inl above ↦
        greatest x (ground (arith, e, above)) (first refl)
          (bounded x versions x.block_number (omega arith) (λ w h. ground (arith, top w h, above)))
    | inr under ↦
        greatest v (ground (arith, e, under)) (later there)
          (bounded x versions v.block_number (ground (arith, under)) top)
  ]
]

pub find_version-Has :
    (versions : List Version) (id hash : ℕ) (v : Version)
    → find_version versions id hash ≡ some v
    → Has v versions × (v.id ≡ id) × (v.block_hash ≡ hash)
find_version-Has [] id hash v = λ e. absurd (ground (arith, e))
find_version-Has (x ∷ versions) id hash v =
    step (x.id == id && x.block_hash == hash) refl (find_version-Has versions id hash v)
  where
    step :
        (b : Bool)
        → (x.id == id && x.block_hash == hash) ≡ b
        → (find_version versions id hash ≡ some v
            → Has v versions × (v.id ≡ id) × (v.block_hash ≡ hash))
        → (if b then some x else find_version versions id hash) ≡ some v
        → Has v (x ∷ versions) × (v.id ≡ id) × (v.block_hash ≡ hash)
    step true same ih e =
        (first (ground (arith, e)), ground (arith, e, same), ground (arith, e, same))
    step false other ih e = let (there, of_id, of_hash) = ih e in (later there, of_id, of_hash)

pub find_version-none :
    (versions : List Version) (id hash : ℕ)
    → find_version versions id hash ≡ none
    → (v : Version) → Has v versions
    → v.id ≡ id
    → v.block_hash ≢ hash
find_version-none [] id hash missing v h = elim h [ ]
find_version-none (x ∷ versions) id hash missing v (first e) = λ of_id of_hash. ground (
  arith,
  missing,
  ap (λ (w : Version). w.id) e,
  ap (λ (w : Version). w.block_hash) e,
  of_id,
  of_hash,
)
find_version-none (x ∷ versions) id hash missing v (later h) =
    find_version-none versions id hash (ground (arith, missing)) v h

candidate-test :
    (id : ℕ) (number : ℤ) (v : Version)
    → is_unpruned_upto id number v ≡ true
    → (v.id ≡ id) × (v.is_pruned ≡ false) × (v.block_number ≤ℤ number)
candidate-test id number v e = (ground (arith, e), ground (arith, e), ground (arith, e))

test-candidate :
    (id : ℕ) (number : ℤ) (v : Version)
    → v.id ≡ id
    → v.is_pruned ≡ false
    → v.block_number ≤ℤ number
    → is_unpruned_upto id number v ≡ true
test-candidate id number v of_entity unpruned upto = ground (arith, of_entity, unpruned, upto)

get_latest_pruned_entity-IsLatest :
    (versions : List Version) (id : ℕ) (number : ℤ)
    → IsLatest versions id number (get_latest_pruned_entity versions id number)
unfolding get_latest_pruned_entity
get_latest_pruned_entity-IsLatest versions id number = elim (versions-Highest kept) [
  | empty e nil ↦ subst (IsLatest versions id number) (sym e) (λ v c. Has-nil nil (chosen v c))
  | greatest v e there top ↦
      let (m, passes) = Has-filter (is_unpruned_upto id number) v versions there in
      let (of_entity, unpruned, upto) = candidate-test id number v passes in
      subst (IsLatest versions id number) (sym e) (
        record { there = m; of_entity = of_entity; unpruned = unpruned; upto = upto },
        (λ w c. top w (chosen w c)),
      )
]
  where
    kept : List Version
    kept = filter (is_unpruned_upto id number) versions

    chosen : (w : Version) → IsCandidate versions id number w → Has w kept
    chosen w c =
        filter-Has (is_unpruned_upto id number) w versions c.there
          (test-candidate id number w c.of_entity c.unpruned c.upto)

first_version-Sees :
    (versions : List Version) (id : ℕ) (number : ℤ) (blocks : List BlockProgress)
    → Sees versions id number blocks (elim (first_version versions id blocks) [
      | some v ↦ some v
      | none ↦ get_latest_pruned_entity versions id number
    ])
first_version-Sees versions id number [] = get_latest_pruned_entity-IsLatest versions id number
first_version-Sees versions id number (b ∷ blocks) =
    step (find_version versions id b.block_hash) refl (first_version-Sees versions id number blocks)
  where
    seen : Option Version → Option Version
    seen o = elim o [ some v ↦ some v | none ↦ get_latest_pruned_entity versions id number ]

    step :
        (found : Option Version)
        → find_version versions id b.block_hash ≡ found
        → Sees versions id number blocks (seen (first_version versions id blocks))
        → Sees versions id number
            (b ∷ blocks)
            (seen (elim found [ some v ↦ some v | none ↦ first_version versions id blocks ]))
    step (some v) e ih =
        let (there, of_id, of_hash) = find_version-Has versions id b.block_hash v e in
        inl (v, refl, there, of_id, of_hash)
    step none e ih = inr (find_version-none versions id b.block_hash e, ih)

-- A block sees a version that the nearest block has, among itself and its parents, at most sixteen
-- blocks in all. Where none of them has one, it sees the version with the greatest number among
-- those of the entity that are not pruned and not above the number after that of the last of these
-- blocks, and none only if there is no such version. The query does not fail. Every block of the
-- table has a higher number than its parent there.
pub get_prev_entity_version-Sees :
    (rows : List BlockProgress) (versions : List Version) (hash id : ℕ) (b : BlockProgress)
    → IsLinked rows
    → find_block hash rows ≡ some b
    → (o : Option Version) × (get_prev_entity_version rows versions hash id ≡ ok o)
      × Sees versions id
          ((last_of b (ancestry 15 rows b)).block_number +ℤ pos 1)
          (ancestry 15 rows b)
          o
get_prev_entity_version-Sees rows versions hash id b linked found = (
  elim (first_version versions id (ancestry 15 rows b)) [
    | some v ↦ some v
    | none ↦
        get_latest_pruned_entity versions id
          ((last_of b (ancestry 15 rows b)).block_number +ℤ pos 1)
  ],
  get_prev_entity_version-walk rows versions hash id b linked found,
  first_version-Sees versions id ((last_of b (ancestry 15 rows b)).block_number +ℤ pos 1)
      (ancestry 15 rows b),
)
