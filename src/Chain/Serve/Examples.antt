-- ===== src/Chain/Serve/Examples.antt =====
-- The theorem on the answer to SyncBlocks at a node with three blocks, one of them in the database.
use gsenetwork.Prelude.{ℕ, ◌+◌, ◌-◌, List, [], ◌∷◌, none, ◌≡◌, arith}
use gsenetwork.Prelude.Int.{pos}
use gsenetwork.Core.Block.{Block, empty_block}
use gsenetwork.Chain.BlockState.{BlockState, new_block_state}
use gsenetwork.Chain.Serve.{Archive, sync_blocks, Answer, reply_blocks}
use gsenetwork.Chain.Serve.Reply.{IsNumbered, Run, sync_blocks-Run}

abbrev numbered : ℕ → Block
numbered n = record empty_block { hash = n + 100; number = n }

abbrev empty_state : BlockState
empty_state = new_block_state 0 (record { timestamp = pos 0; producers = [] }) empty_block

abbrev archive : Archive
archive = record {
  latest_number = 14;
  rollback = record { index = []; head = none; solidify_number = 12 };
  queue = numbered 13 ∷ numbered 14 ∷ [];
  db = record {
    accounts = [];
    producers = [];
    transactions = [];
    blocks = [];
    block_index = (12, numbered 12) ∷ [];
  };
  state_index = [];
}

archive-IsNumbered : IsNumbered archive.db
archive-IsNumbered n full = ground arith

-- The sizes: the third block does not go with the other two.
abbrev size : Block → ℕ
size b = 20000

sync_blocks-Run_example :
    (bs : List Block) × (rest : List Answer) × (sync_blocks size empty_state 12 14 archive
      ≡ reply_blocks bs ∷ rest)
    × Run size (14 + 1 - 12) 12 0 archive bs
sync_blocks-Run_example =
    sync_blocks-Run size empty_state 12 14 archive archive-IsNumbered (omega arith) (omega arith)
