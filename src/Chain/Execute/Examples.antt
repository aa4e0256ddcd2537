-- ===== src/Chain/Execute/Examples.antt =====
-- The theorem on `doProcessBlock` at a block of one transfer over a database of three accounts.
use gsenetwork.Prelude.{false, ◌≡◌, refl, inl}
use gsenetwork.Chain.Execute.{no_item, do_process_block}
use gsenetwork.Chain.Execute.Once.{do_process_block_once}
use gsenetwork.Chain.Execute.Fixtures.{db, no_ballot, at, done, db-BackOrderly, paid_full}

do_process_block_once_example :
    (do_process_block no_ballot (at 6) (do_process_block no_ballot (at 5) (no_item db)).1).0 ≡ false
do_process_block_once_example =
    do_process_block_once no_ballot (at 5) (at 6) (no_item db) 77 db-BackOrderly (paid_full, tt)
      done (inl refl) (inl refl)
