-- ===== src/BlockAssembler/Proposals.antt =====
-- The loop of `conditionalMakeBlock` in nightfall-optimist/src/services/block-assembler.mjs that proposes
-- the blocks and takes their transactions out of the mempool.
use nightfall.Common.{
  ℕ, suc, ◌≡◌, refl, sym, ap, ◌∙◌, subst, inl, inr, List, [], ◌∷◌, ◌++◌, concat, Bool, true, false,
  Bool-cases, append_assoc,
}
use nightfall.BlockAssembler.Mempool.{
  Transaction, remove_transactions_from_mempool, get_mempool_transactions,
}
use nightfall.BlockAssembler.Assembly.{Assembler, propose}
use nightfall.BlockAssembler.Sizes.{Proposable}
use nightfall.BlockAssembler.Removal.{
  hashes_of, Waiting, DistinctHashes, Waiting-remove, DistinctHashes-rest, remove_block,
}

-- The state in which the loop goes on.
abbrev next : List Transaction → Assembler → Assembler
next block st = record st {
  make_now = false;
  transactions = remove_transactions_from_mempool (hashes_of block) st.transactions;
}

-- What the loop may rely on: the mempool has the blocks, then the rest.
pub record Ahead (blocks : List (List Transaction)) (rest : List Transaction) (st : Assembler)
    : Type 0 where
  pub waiting : Waiting st.transactions
  pub same : get_mempool_transactions st.transactions ≡ concat blocks ++ rest
  pub distinct : DistinctHashes (concat blocks ++ rest)

Ahead-next :
    (block : List Transaction) (blocks : List (List Transaction)) (rest : List Transaction)
    (st : Assembler)
    → Ahead (block ∷ blocks) rest st
    → Ahead blocks rest (next block st)
Ahead-next block blocks rest st a =
    let assoc = append_assoc block (concat blocks) rest in
    let distinct : DistinctHashes (block ++ (concat blocks ++ rest)) =
      subst DistinctHashes assoc a.distinct in
    record {
      waiting = Waiting-remove (hashes_of block) st.transactions a.waiting;
      same =
          remove_block block (concat blocks ++ rest) st.transactions a.waiting (a.same ∙ assoc)
            distinct;
      distinct = DistinctHashes-rest block (concat blocks ++ rest) distinct;
    }

pub propose-conserves :
    (connects : ℕ → Bool) (i : ℕ) (blocks : List (List Transaction)) (rest : List Transaction)
    (st : Assembler)
    → Ahead blocks rest st
    → let done = propose connects i blocks st in
      concat done.0 ++ get_mempool_transactions done.1.transactions ≡ concat blocks ++ rest
unfolding propose
propose-conserves connects i [] rest st a = a.same
propose-conserves connects i (block ∷ blocks) rest st a = elim (Bool-cases (connects i)) [
  | inl t ↦ rw t (
      append_assoc block (concat (propose connects (suc i) blocks (next block st)).0)
        (get_mempool_transactions (propose connects (suc i) blocks (next block st)).1.transactions)
      ∙ ap (λ l. block ++ l)
          (propose-conserves connects (suc i) blocks rest (next block st)
            (Ahead-next block blocks rest st a))
      ∙ sym (append_assoc block (concat blocks) rest))
  | inr f ↦ rw f a.same
]

-- With a websocket that always connects every block is sent, and the rest is left.
pub propose-all :
    (connects : ℕ → Bool) (i : ℕ) (blocks : List (List Transaction)) (rest : List Transaction)
    (st : Assembler)
    → ((n : ℕ) → connects n ≡ true)
    → Ahead blocks rest st
    → let done = propose connects i blocks st in
      (done.0 ≡ blocks) × (get_mempool_transactions done.1.transactions ≡ rest)
unfolding propose
propose-all connects i [] rest st always a = (refl, a.same)
propose-all connects i (block ∷ blocks) rest st always a =
    let (sent, left_over) =
      propose-all connects (suc i) blocks rest (next block st) always
        (Ahead-next block blocks rest st a) in
    rw (always i) (ap (λ bs. block ∷ bs) sent, left_over)

pub propose-Proposable :
    (limit : ℕ) (connects : ℕ → Bool) (i : ℕ) (blocks : List (List Transaction)) (st : Assembler)
    → Proposable limit blocks
    → Proposable limit (propose connects i blocks st).0
unfolding propose
propose-Proposable limit connects i [] st proposable = tt
propose-Proposable limit connects i (block ∷ blocks) st (one, all) =
    elim (Bool-cases (connects i)) [
      | inl t ↦ rw t (one, propose-Proposable limit connects (suc i) blocks (next block st) all)
      | inr f ↦ rw f tt
    ]
