-- ===== src/Chain/Dispatch/Examples.antt =====
-- The theorems on messages as bytes, at a small node over the code of Wire/Model.
use gsenetwork.Prelude.{List, [], ◌∷◌, true, false, none, ◌≡◌, refl, arith}
use gsenetwork.Prelude.Int.{pos}
use gsenetwork.Core.Block.{empty_block}
use gsenetwork.Storage.Repository.Fixtures.{repo, repo-Shows, repo-Lists, repo-IsOrderly}
use gsenetwork.Chain.BlockState.{BlockState, new_block_state}
use gsenetwork.Chain.Execute.{item}
use gsenetwork.Chain.Execute.Fixtures.{no_ballot}
use gsenetwork.Chain.Execute.Shown.{BackSound, account_of, producer_of, transaction_of}
use gsenetwork.Wire.Rlp.{text, items}
use gsenetwork.Wire.Model.{plain, plain_laws}
use gsenetwork.Wire.Blocks.{Header, Packet}
use gsenetwork.Wire.Statuses.{Status, unknown_type, reply_blocks}
use gsenetwork.Chain.Dispatch.{Receiver, Outside, process_msg, Delivery, deliver_all}
use gsenetwork.Chain.Dispatch.Streamed.{
  Content, status, block, number_of, stream, handled, process_msg-stream,
}
use gsenetwork.Chain.Dispatch.Untouched.{ids, deliver_all-untouched}

abbrev header : Header
header = record {
  chain_id = 0;
  producer = 4;
  parent_hash = 100;
  mkl_root = 1;
  transactions_root = 2;
  receipt_root = 3;
  number = 5;
  timestamp = pos 1000;
  extra = [];
  v = 27;
  r = 5;
  s = 6;
}

abbrev no_state : BlockState
no_state = new_block_state 0 (record { producers = []; timestamp = pos 0 }) empty_block

abbrev fresh : Status
fresh = record { status_type = unknown_type; height = 0; start = 0; end = 0; blocks = [] }

abbrev outside : Outside
outside = record {
  rlp = plain;
  sha3 = λ _. 77;
  new_header = header;
  new_status = fresh;
  new_state = no_state;
  empty_state = no_state;
  size = λ _. 100;
  ballot_of = no_ballot;
  valid_tx = λ _. true;
  valid_block = λ _. true;
}

abbrev node : Receiver
node = record {
  inbox = record {
    chain_id = 0;
    history_txs = [];
    history_blocks = [];
    tx_cache = [];
    block_cache = [];
    back = item repo;
    queue_blocks = [];
    last_number = 4;
    solidify_number = 3;
  };
  index = record no_state { block_id = 40; block_number = 4 } ∷ [];
  head = none;
  state_index = [];
  heights = [];
}

-- A block, and the reply to a synchronisation with it.
abbrev packet : Packet
packet = record { header = header; transactions = []; receipts = []; sync_block = false }

abbrev reply : Content
reply = status (record fresh { status_type = reply_blocks; blocks = packet ∷ [] })

process_msg-stream_example :
    process_msg outside 9 (number_of reply) (items (stream outside reply ∷ [])) node
    ≡ handled outside 9 reply node
process_msg-stream_example =
    process_msg-stream outside plain_laws 9 reply node
      (
        omega arith,
        omega arith,
        omega arith,
        (
          (
            (
              omega arith,
              omega arith,
              omega arith,
              omega arith,
              omega arith,
              omega arith,
              omega arith,
              omega arith,
              omega arith,
              omega arith,
              omega arith,
            ),
            tt,
            refl,
            refl,
          ),
          tt,
        ),
      )
      refl refl refl

node-BackSound : BackSound (item repo)
node-BackSound = record {
  accounts = repo-Shows.sound;
  producers = repo-Lists.sound;
  transactions = repo-IsOrderly.sound;
  accounts_keyed = repo-Shows.keyed;
  producers_keyed = repo-Lists.keyed;
  transactions_keyed = repo-IsOrderly.keyed;
}

-- Two messages with blocks, and two that are not understood.
abbrev deliveries : List Delivery
deliveries =
    record { from = 9; number = 34; rlp = items (stream outside (block packet) ∷ []) }
    ∷ record { from = 8; number = 32; rlp = items (stream outside reply ∷ []) }
    ∷ record { from = 8; number = 33; rlp = items ((1 ∷ []) ∷ []) }
    ∷ record { from = 7; number = 35; rlp = text }
    ∷ []

deliver_all-untouched_example :
    let d = deliver_all outside deliveries node in
    BackSound d.inbox.back
    × (account_of 1 d.inbox.back ≡ account_of 1 (item repo))
    × (producer_of 1 d.inbox.back ≡ producer_of 1 (item repo))
    × (transaction_of 1 d.inbox.back ≡ transaction_of 1 (item repo))
    × (ids d.index ≡ 40 ∷ [])
    × (d.head ≡ none)
deliver_all-untouched_example = deliver_all-untouched outside deliveries node 1 node-BackSound
