-- ===== src/Chain/Messages/Examples.antt =====
-- The theorems on messages at small inboxes.
use gsenetwork.Prelude.{[], Bool, true, false, none, ◌≡◌, refl, inl}
use gsenetwork.Prelude.Action.{ok}
use gsenetwork.Core.Transaction.{Transaction}
use gsenetwork.Core.Block.{Block}
use gsenetwork.Chain.Execute.{Back, no_item, do_process_block}
use gsenetwork.Chain.Execute.Fixtures.{paid, db, no_ballot, at, done, db-BackOrderly, paid_full}
use gsenetwork.Chain.Messages.{Inbox, rpc_tx, tx, add_rpc_tx, process_tx_message, receive}
use gsenetwork.Chain.Messages.Refused.{tx_once, executed_refused}

abbrev over : Back → Inbox
over m = record {
  chain_id = 0;
  history_txs = [];
  history_blocks = [];
  tx_cache = [];
  block_cache = [];
  back = m;
  queue_blocks = [];
  last_number = 4;
  solidify_number = 3;
}

abbrev signed : Transaction → Bool
signed _ = true

abbrev sealed : Block → Bool
sealed _ = true

abbrev after_tx : Inbox
after_tx = receive no_ballot signed sealed (tx paid) (over (no_item db))

abbrev after_rpc : Inbox
after_rpc = receive no_ballot signed sealed (rpc_tx paid) (over (no_item db))

tx_once_example :
    ((add_rpc_tx no_ballot signed sealed paid after_tx ≡ (false, after_tx))
      × (process_tx_message no_ballot signed sealed paid after_tx ≡ (ok none, after_tx)))
    × ((add_rpc_tx no_ballot signed sealed paid after_rpc ≡ (false, after_rpc))
        × (process_tx_message no_ballot signed sealed paid after_rpc ≡ (ok none, after_rpc)))
tx_once_example = tx_once no_ballot signed sealed paid paid (over (no_item db)) refl

abbrev executed : Back
executed = (do_process_block no_ballot (at 5) (no_item db)).1

executed_refused_example :
    ((add_rpc_tx no_ballot signed sealed paid (over executed)).0 ≡ false)
    × ((process_tx_message no_ballot signed sealed paid (over executed)).0 ≡ ok none)
executed_refused_example =
    executed_refused no_ballot signed sealed (at 5) (no_item db) paid (over executed) db-BackOrderly
      (paid_full, tt) done refl (inl refl)
