-- ===== src/Events/Loop.antt =====
-- A loop over pages of events against one call of its body on all of them.
use watcher_ts.Common.{
  ℕ, zero, suc, ◌+◌, ◌-◌, ◌*◌, ◌≤◌, ◌<◌, true, false, List, [], ◌++◌, length, ltb, ltb→lt, take,
  drop, drop-drop, length-take, length-drop, take-append-drop, length_zero, Bool-cases, inl, inr,
  ◌≡◌, refl, sym, ap, ◌∙◌, Action, Result, ok, err, pure, ◌>>◌, arith,
}
use watcher_ts.Tables.{Event}
use watcher_ts.Events.{Handlers, Work, get_events_batch}
use watcher_ts.Events.Keeps.{Keeps, KeepsEvents}
use watcher_ts.Events.Table.{Reads, Reads-Keeps, get_events_batch-take, next_page}

-- The loop at some fuel, page, number of events fetched, and value gathered.
abbrev pub Loop : Type 0 → Type 0 → Type 0
Loop A R = ℕ → ℕ → ℕ → A → Action Work R

module _ {A R : Type 0} (h : Handlers) (keeps : KeepsEvents h) (n : ℕ) (loop : Loop A R)
    (body : List Event → Action Work Unit) (gather : A → List Event → A) (out : A → R) where
  -- A round, the end of the loop, and a body and a gathering that go event by event.
  pub record Rounds : Type 0 where
    pub done :
        (fuel page fetched : ℕ) (a : A) (w : Work)
        → ltb fetched w.block.num_events ≡ false
        → loop (suc fuel) page fetched a w ≡ (ok (out a), w)
    pub more :
        (fuel page fetched : ℕ) (a : A) (w : Work)
        → ltb fetched w.block.num_events ≡ true
        → loop (suc fuel) page fetched a w
          ≡ (let events = get_events_batch w.block.block_hash n page w.indexer.db in
                body events >> loop fuel (page + 1) (fetched + length events) (gather a events))
              w
    pub body_nil : (w : Work) → body [] w ≡ (ok tt, w)
    pub body_append : (xs ys : List Event) (w : Work) → body (xs ++ ys) w ≡ (body xs >> body ys) w
    pub body_Keeps : (es : List Event) (w : Work) → Keeps w (body es w).1
    pub gather_nil : (a : A) → gather a [] ≡ a
    pub gather_append : (a : A) (xs ys : List Event) → gather a (xs ++ ys) ≡ gather (gather a xs) ys

  abbrev from_page : ℕ → List Event → List Event
  from_page page all = drop (page * n) all

  two_parts :
      Rounds
      → (a : A) (xs ys : List Event) (w : Work)
      → (body xs >> (body ys >> pure (out (gather (gather a xs) ys)))) w
        ≡ (body (xs ++ ys) >> pure (out (gather a (xs ++ ys)))) w
  two_parts rounds a xs ys w =
      step (body xs w)
      ∙ ap
          (λ (p : Result Unit × Work). elim p.0 as (λ _. Result R × Work) [
            | ok _ ↦ (ok (out (gather (gather a xs) ys)), p.1)
            | err e ↦ (err e, p.1)
          ])
          (sym (rounds.body_append xs ys w))
      ∙ ap (λ b. (body (xs ++ ys) >> pure (out b)) w) (sym (rounds.gather_append a xs ys))
    where
      step :
          (p : Result Unit × Work)
          → ((λ (v : Work). p) >> (body ys >> pure (out (gather (gather a xs) ys)))) w
            ≡ (((λ (v : Work). p) >> body ys) >> pure (out (gather (gather a xs) ys))) w
      step (ok _, v) = refl
      step (err e, v) = refl

  nothing_left :
      Rounds → (a : A) (w : Work) → (ok (out a), w) ≡ (body [] >> pure (out (gather a []))) w
  nothing_left rounds a w =
      ap (λ b. (ok (out b), w)) (sym (rounds.gather_nil a))
      ∙ ap
          (λ (p : Result Unit × Work). elim p.0 as (λ _. Result R × Work) [
            | ok _ ↦ (ok (out (gather a [])), p.1)
            | err e ↦ (err e, p.1)
          ])
          (sym (rounds.body_nil w))

  pub loop-body :
      Rounds
      → (all : List Event) (fuel page fetched : ℕ) (a : A) (w : Work) → 0 < n
      → Reads h keeps all w
      → fetched ≡ length all - length (drop (page * n) all)
      → length (drop (page * n) all) < fuel
      → loop fuel page fetched a w
        ≡ (body (drop (page * n) all) >> pure (out (gather a (drop (page * n) all)))) w
  loop-body rounds all zero page fetched a w pn r e enough = absurd (omega arith)
  loop-body rounds all (suc fuel) page fetched a w pn r e enough =
      elim (Bool-cases (ltb fetched w.block.num_events)) [
        | inl more ↦
            rounds.more fuel page fetched a w more
            ∙ ap (λ es. (body es >> loop fuel (page + 1) (fetched + length es) (gather a es)) w)
                (get_events_batch-take h keeps n page all w pn r)
            ∙ step (body (take n (from_page page all)) w)
                (rounds.body_Keeps (take n (from_page page all)) w)
                (λ v r'.
                  loop-body rounds all fuel (page + 1)
                    (fetched + length (take n (from_page page all)))
                    (gather a (take n (from_page page all))) v pn r' (counted more) (shorter more))
            ∙ two_parts rounds a (take n (from_page page all)) (drop n (from_page page all)) w
            ∙ ap (λ es. (body es >> pure (out (gather a es))) w)
                (take-append-drop n (from_page page all))
        | inr no_more ↦
            rounds.done fuel page fetched a w no_more
            ∙ nothing_left rounds a w
            ∙ ap (λ es. (body es >> pure (out (gather a es))) w) (sym (no_rest no_more))
      ]
    where
      next : drop n (from_page page all) ≡ drop ((page + 1) * n) all
      next = drop-drop (page * n) n all ∙ ap (λ k. drop k all) (sym (next_page page n))

      below : length (from_page page all) ≤ length all
      below = omega (arith, length-drop (page * n) all)

      no_rest : ltb fetched w.block.num_events ≡ false → (from_page page all) ≡ []
      no_rest no_more =
          length_zero (from_page page all) (ground (arith, r.count, e, below, no_more))

      counted :
          ltb fetched w.block.num_events ≡ true
          → fetched + length (take n (from_page page all))
            ≡ length all - length (drop ((page + 1) * n) all)
      counted more = omega (
        arith,
        length-take n (from_page page all),
        length-drop n (from_page page all),
        ap length next,
        e,
        below,
      )

      shorter : ltb fetched w.block.num_events ≡ true → length (drop ((page + 1) * n) all) < fuel
      shorter more = omega (
        arith,
        length-drop n (from_page page all),
        ap length next,
        e,
        below,
        pn,
        enough,
        r.count,
        ltb→lt fetched w.block.num_events more,
      )

      step :
          (p : Result Unit × Work)
          → Keeps w p.1
          → ((v : Work)
              → Reads h keeps all v
              → loop fuel
                  (page + 1)
                  (fetched + length (take n (from_page page all)))
                  (gather a (take n (from_page page all)))
                  v
                ≡ (body (drop ((page + 1) * n) all)
                      >> pure (
                          out (
                            gather
                              (gather a (take n (from_page page all)))
                              (drop ((page + 1) * n) all))))
                    v)
          → ((λ (v : Work). p)
                >> loop fuel
                    (page + 1)
                    (fetched + length (take n (from_page page all)))
                    (gather a (take n (from_page page all))))
              w
            ≡ ((λ (v : Work). p)
                  >> (body (drop n (from_page page all))
                      >> pure (
                          out (
                            gather
                              (gather a (take n (from_page page all)))
                              (drop n (from_page page all))))))
                w
      step (err error, v) k ih = refl
      step (ok _, v) k ih =
          ih v (Reads-Keeps h keeps all w v r k)
          ∙ ap
              (λ es. (body es >> pure (out (gather (gather a (take n (from_page page all))) es))) v)
              (sym next)
