-- ===== src/Chain/Node/Examples.antt =====
-- The theorems on `doProcessBlock` at a block of one transfer and a node with two producers. The block 140
-- begins a term.
use gsenetwork.Prelude.{
  ℕ, List, [], ◌∷◌, Bool, true, false, some, none, ◌≡◌, ◌≢◌, refl, sym, arith, All, if◌then◌else◌,
}
use mathlib.Core.Path.{subst}
use gsenetwork.Prelude.Int.{pos}
use gsenetwork.Core.Producer.{Producer}
use gsenetwork.Core.Transaction.{transaction_eq}
use gsenetwork.Core.Account.{account_eq}
use gsenetwork.Core.Block.{empty_block}
use gsenetwork.Schedule.{sort, insert_sorted, get_address}
use gsenetwork.Slots.{position, slot_taken}
use gsenetwork.Storage.Cache.{read, read_parent, read_db, put}
use gsenetwork.Storage.Repository.{
  burn, transfer, get_account, put_account, found_account, after_account, store_account,
  store_transaction, put_transaction,
}
use gsenetwork.Storage.Repository.Branch.{get_producer_list}
use gsenetwork.Storage.Attributes.{Genesis}
use gsenetwork.Storage.Attributes.Restored.{founded}
use gsenetwork.Runtime.{execute_transfer, execute_action, excute, run}
use gsenetwork.Wire.Model.{plain}
use gsenetwork.Wire.Accounts.RoundTrip.{ProducerFits}
use gsenetwork.Chain.BlockState.{HeaderConfirmation}
use gsenetwork.Chain.Admission.{check_producer}
use gsenetwork.Chain.Execute.{no_item, item, any_exists, is_exist_in_repo, add_memory_item}
use gsenetwork.Chain.Execute
use gsenetwork.Chain.Execute.Fixtures.{db, no_ballot, at}
use gsenetwork.Chain.Terms.{get_producer_list_from_repo}
use gsenetwork.Chain.Terms.Running.{IsRunning}
use gsenetwork.Chain.Node.{Node, gate, do_process_block}
use gsenetwork.Chain.Node.Processed.{do_process_block-executes}
use gsenetwork.Chain.Node.Slot.{do_process_block-slot}

abbrev producer : ℕ → ℕ → Producer
producer a votes = record { address = a; timestamp = pos 5; votes = votes; voters = [] }

abbrev pair : List Producer
pair = producer 8 60 ∷ producer 9 50 ∷ []

abbrev genesis : Genesis
genesis = record {
  init_accounts = [];
  init_producers = pair;
  snapshot = record { timestamp = pos 5; producers = pair };
  block = empty_block;
}

abbrev node : Node
node = record {
  chain_id = 1;
  key = 8;
  back = no_item db;
  terms = record {
    prev_ps = genesis.snapshot;
    current_ps = genesis.snapshot;
    schedule = record {
      prev_timestamp = pos 0;
      prev_producers = [];
      current_timestamp = pos 5;
      current_producers = pair;
    };
    controller = founded plain genesis db;
  };
  producer_record = [];
  schedule_update_timestamp = pos 0;
  active = record { timestamp = pos 0; producers = [] };
  rollback = record { index = []; head = none; solidify_number = 0 };
  tx_cache = [];
  latest_number = 139;
  latest_block = empty_block;
  sent = [];
}

node-IsRunning : IsRunning plain 0 node.terms
unfolding sort insert_sorted
node-IsRunning = record {
  inited = refl;
  clean = refl;
  counted = refl;
  solid = none;
  active = refl;
  active_fits = tt;
  dirty_type = refl;
  height_type = refl;
  active_type = refl;
  prev_type = refl;
  current_type = refl;
  turns = refl;
  fits = omega arith;
}

abbrev sign : HeaderConfirmation → ℕ
sign c = 0

turn : check_producer (at 140) (gate node) ≡ true
unfolding check_producer get_address position slot_taken
turn = refl

fresh : (any_exists (at 140).transactions node.back).0 ≡ false
unfolding any_exists is_exist_in_repo transaction_eq
fresh = refl

abbrev executed : List Producer
executed = get_producer_list_from_repo (
    item
      (run no_ballot (at 140).transactions
        (add_memory_item (at 140) (any_exists (at 140).transactions node.back).1)).1)

executed-none : executed ≡ []
unfolding get_producer_list_from_repo get_producer_list any_exists is_exist_in_repo run excute
    execute_action execute_transfer put_transaction burn transfer get_account put_account
    found_account after_account store_account store_transaction read read_parent read_db put
    account_eq transaction_eq
executed-none = refl

executed-fits : All ProducerFits executed
executed-fits = subst (All ProducerFits) (sym executed-none) tt

zero_free : (at 140).producer ≢ 0
zero_free h = omega arith

do_process_block-executes_example :
    (e : Bool) × (n' : Node) × (do_process_block no_ballot sign plain empty_block (at 140) node
      ≡ some (e, n'))
    × ((e, n'.back) ≡ gsenetwork.Chain.Execute.do_process_block no_ballot (at 140) (no_item db))
    × IsRunning plain 0 n'.terms
    × (n'.latest_number ≡ (if e then 140 else 139))
do_process_block-executes_example =
    do_process_block-executes no_ballot sign plain empty_block (at 140) node 0 turn zero_free
      (omega arith) executed-fits node-IsRunning

do_process_block-slot_example :
    (e : Bool) × (n' : Node) × (do_process_block no_ballot sign plain empty_block (at 140) node
      ≡ some (e, n'))
    × (check_producer (at 141) (gate n') ≡ false)
do_process_block-slot_example =
    do_process_block-slot no_ballot sign plain empty_block (at 140) (at 141) node 0 1538352002000
      1538352002000 turn zero_free fresh executed-fits node-IsRunning refl refl refl (omega arith)
      (omega arith) (omega arith) (omega arith)
