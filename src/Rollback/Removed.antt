-- ===== src/Rollback/Removed.antt =====
-- What the calls of the database that `rollbackEventHandler` of
-- nightfall-optimist/src/event-handlers/rollback.mjs makes do to the blocks and the trees, in any order.
use nightfall.Common.{Among, ℕ, ◌≡◌, refl, sym, subst, inl, inr, List, [], ◌∷◌}
use nightfall.Rollback.Handler.{
  StoredBlock, Collections, DatabaseCall, deletion, return_to_mempool, removal, take_effect,
  all_take_effect,
}
use nightfall.Rollback.Blocks.{
  NoBlock, Differ, NoBlock-delete_block, Differ-delete_block, delete_block-NoBlock,
  delete_block-Among,
}

take_effect-Differ :
    (c : DatabaseCall) (db : Collections) → Differ db.blocks → Differ (take_effect c db).blocks
unfolding take_effect
take_effect-Differ (deletion hashes) db differ = differ
take_effect-Differ (return_to_mempool hashes number) db differ = differ
take_effect-Differ (removal number) db differ = Differ-delete_block number db.blocks differ

take_effect-NoBlock :
    (c : DatabaseCall) (db : Collections) (k : ℕ)
    → NoBlock k db.blocks
    → NoBlock k (take_effect c db).blocks
unfolding take_effect
take_effect-NoBlock (deletion hashes) db k gone = gone
take_effect-NoBlock (return_to_mempool hashes number) db k gone = gone
take_effect-NoBlock (removal number) db k gone = NoBlock-delete_block k number db.blocks gone

still_gone :
    (cs : List DatabaseCall) (db : Collections) (k : ℕ)
    → NoBlock k db.blocks
    → NoBlock k (all_take_effect cs db).blocks
unfolding all_take_effect
still_gone [] db k gone = gone
still_gone (c ∷ cs) db k gone = still_gone cs (take_effect c db) k (take_effect-NoBlock c db k gone)

-- A block that is removed is gone.
pub all_take_effect-NoBlock :
    (cs : List DatabaseCall) (db : Collections) (k : ℕ)
    → Differ db.blocks
    → Among (removal k) cs
    → NoBlock k (all_take_effect cs db).blocks
unfolding all_take_effect take_effect
all_take_effect-NoBlock [] db k differ there = absurd there
all_take_effect-NoBlock (c ∷ cs) db k differ (inl e) = still_gone cs (take_effect c db) k (
    subst (λ x. NoBlock k (take_effect x db).blocks) (sym e)
      (delete_block-NoBlock k db.blocks differ))
all_take_effect-NoBlock (c ∷ cs) db k differ (inr later) =
    all_take_effect-NoBlock cs (take_effect c db) k (take_effect-Differ c db differ) later

take_effect-blocks :
    (c : DatabaseCall) (db : Collections) (b : StoredBlock)
    → Among b (take_effect c db).blocks
    → Among b db.blocks
unfolding take_effect
take_effect-blocks (deletion hashes) db b among = among
take_effect-blocks (return_to_mempool hashes number) db b among = among
take_effect-blocks (removal number) db b among = delete_block-Among number b db.blocks among

pub all_take_effect-blocks :
    (cs : List DatabaseCall) (db : Collections) (b : StoredBlock)
    → Among b (all_take_effect cs db).blocks
    → Among b db.blocks
unfolding all_take_effect
all_take_effect-blocks [] db b among = among
all_take_effect-blocks (c ∷ cs) db b among =
    take_effect-blocks c db b (all_take_effect-blocks cs (take_effect c db) b among)

pub all_take_effect-trees :
    (cs : List DatabaseCall) (db : Collections) → (all_take_effect cs db).trees ≡ db.trees
unfolding all_take_effect take_effect
all_take_effect-trees [] db = refl
all_take_effect-trees (deletion hashes ∷ cs) db =
    all_take_effect-trees cs (take_effect (deletion hashes) db)
all_take_effect-trees (return_to_mempool hashes number ∷ cs) db =
    all_take_effect-trees cs (take_effect (return_to_mempool hashes number) db)
all_take_effect-trees (removal number ∷ cs) db =
    all_take_effect-trees cs (take_effect (removal number) db)
