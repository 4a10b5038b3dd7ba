-- ===== src/State/Saved.antt =====
-- What is in the table after a state has been prepared and saved.
use watcher_ts.Common.{
  refl, true, ap, filter, filter-append, bind_ok, ◌>>◌, ℕ, ◌+◌, false, none, some, [], ◌∷◌, ◌++◌,
  any, ok, pure, ◌≡◌, ◌∙◌, arith,
}
use watcher_ts.Tables.{BlockProgress}
use watcher_ts.State.Query.{get_states, is_state_of}
use watcher_ts.State.{
  StateRow, same_kind, diff, init, diff_staged, checkpoint, StateKind, StateData, Codec,
  StateStatus, set_status_of, set_status, StateIndexer,
}
use watcher_ts.State.Entry.{
  StateEntry, row_of, conflicts, prepare_state_entry, save_or_update_state, insert_state,
  create_or_update_state_data, current_states, new_meta,
}
use watcher_ts.State.Create.{save_new_state}

same_kind_refl : (kind : StateKind) → same_kind kind kind ≡ true
same_kind_refl diff = refl
same_kind_refl init = refl
same_kind_refl diff_staged = refl
same_kind_refl checkpoint = refl

module _ {Json Bytes : Type 0} (codec : Codec Json Bytes) where
  -- The content with the meta-data of a new state.
  abbrev pub full_content :
      BlockProgress → ℕ → StateData Json → StateKind → StateIndexer Bytes → StateData Json
  full_content block address content kind s = record content {
    meta = some (new_meta block address kind s);
  }

  abbrev pub new_entry :
      BlockProgress → ℕ → StateData Json → StateKind → StateIndexer Bytes → StateEntry Bytes
  new_entry block address content kind s = record {
    id = none;
    block = block;
    contract_address = address;
    cid = codec.cid_of (codec.encode (full_content block address content kind s));
    kind = kind;
    bytes = codec.encode (full_content block address content kind s);
  }

  -- The block, contract and kind have no state that is looked for, and the table takes a new one.
  pub record IsFresh (block : BlockProgress) (address : ℕ) (content : StateData Json)
      (kind : StateKind) (status : StateStatus) (s : StateIndexer Bytes) : Type 0 where
    pub known : s.state_status_map address ≡ some status
    pub none_there : current_states block address kind status s ≡ []
    pub no_conflict : any (conflicts (new_entry block address content kind s)) s.states ≡ false

  abbrev pub after_save :
      BlockProgress
      → ℕ
      → StateData Json
      → StateKind
      → StateStatus
      → StateIndexer Bytes
      → StateIndexer Bytes
  after_save block address content kind status s = record s {
    states = s.states ++ row_of s.next_state_id (new_entry block address content kind s) ∷ [];
    next_state_id = s.next_state_id + 1;
    state_status_map =
        set_status address (set_status_of kind block.block_number status) s.state_status_map;
  }

  prepare_state_entry-new :
      (block : BlockProgress) (address : ℕ) (content : StateData Json) (kind : StateKind)
      (status : StateStatus) (s : StateIndexer Bytes)
      → IsFresh block address content kind status s
      → prepare_state_entry codec block address content kind s
        ≡ (ok (new_entry block address content kind s), s)
  unfolding prepare_state_entry create_or_update_state_data
  prepare_state_entry-new block address content kind status s fresh =
      ground (arith, fresh.known, fresh.none_there)

  save_or_update_state-new :
      (block : BlockProgress) (address : ℕ) (content : StateData Json) (kind : StateKind)
      (status : StateStatus) (s : StateIndexer Bytes)
      → IsFresh block address content kind status s
      → save_or_update_state (new_entry block address content kind s) s ≡ (
        ok (row_of s.next_state_id (new_entry block address content kind s)),
        after_save block address content kind status s,
      )
  unfolding save_or_update_state insert_state
  save_or_update_state-new block address content kind status s fresh =
      ground (arith, fresh.no_conflict, fresh.known)

  save_new_state-after_save :
      (block : BlockProgress) (address : ℕ) (content : StateData Json) (kind : StateKind)
      (status : StateStatus) (s : StateIndexer Bytes)
      → IsFresh block address content kind status s
      → save_new_state codec block address content kind s
        ≡ (ok tt, after_save block address content kind status s)
  save_new_state-after_save block address content kind status s fresh =
      bind_ok (prepare_state_entry codec block address content kind)
        (λ entry. save_or_update_state entry >> pure tt)
        (prepare_state_entry-new block address content kind status s fresh)
      ∙ bind_ok (save_or_update_state (new_entry block address content kind s)) (λ _. pure tt)
          (save_or_update_state-new block address content kind status s fresh)

  -- What is encoded is decoded again.
  abbrev pub RoundTrip : Type 0
  RoundTrip = (content : StateData Json) → codec.decode (codec.encode content) ≡ content

  -- If the codec decodes what it encodes, and the block, contract and kind have no state and the
  -- table takes a new one, then preparing and saving a state ends; after it the block, contract and
  -- kind have exactly one state, which decodes to the content with its meta-data, and the status of
  -- the contract has the block's number for the kind.
  pub save_new_state-get_states :
      (block : BlockProgress) (address : ℕ) (content : StateData Json) (kind : StateKind)
      (status : StateStatus) (s : StateIndexer Bytes)
      → RoundTrip
      → IsFresh block address content kind status s
      → get_states block address kind s ≡ []
      → (t : StateIndexer Bytes) × (row : StateRow Bytes) × (save_new_state codec block address
            content kind s
          ≡ (ok tt, t))
        × (get_states block address kind t ≡ row ∷ [])
        × (codec.decode row.bytes ≡ full_content block address content kind s)
        × (t.state_status_map address ≡ some (set_status_of kind block.block_number status))
  unfolding get_states
  save_new_state-get_states block address content kind status s round fresh nothing = (
    after_save block address content kind status s,
    row_of s.next_state_id (new_entry block address content kind s),
    save_new_state-after_save block address content kind status s fresh,
    filter-append (is_state_of block address kind) s.states
          (row_of s.next_state_id (new_entry block address content kind s) ∷ [])
        ∙ ap
            (λ l.
              l
              ++ filter (is_state_of block address kind)
                  (row_of s.next_state_id (new_entry block address content kind s) ∷ []))
            nothing
        ∙ ground (arith, same_kind_refl kind),
    round (full_content block address content kind s),
    ground arith,
  )
