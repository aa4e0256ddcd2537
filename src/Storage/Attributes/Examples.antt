-- ===== src/Storage/Attributes/Examples.antt =====
-- Tests on the attributes: a start over the stores of an earlier run keeps the height.
use gsenetwork.Prelude.{ℕ, [], Option, some, none, ◌≡◌, refl}
use gsenetwork.Prelude.Int.{pos}
use gsenetwork.Core.Block.{empty_block}
use gsenetwork.Storage.Database.{Database}
use gsenetwork.Wire.Rlp.{◌>>=◌}
use gsenetwork.Wire.Model.{plain}
use gsenetwork.Storage.Attributes.{
  block_height, Genesis, init, increment_block_height, decrement_block_height, opened,
  check_genesis_existed, get_attribute, init_genesis, put_attribute, load,
}
use gsenetwork.Wire.Accounts.{write_snapshot}
use gsenetwork.Wire.Statuses.{read_attribute, write_attribute, attribute_of_items}

abbrev db : Database
db = record { accounts = []; producers = []; transactions = []; blocks = []; block_index = [] }

abbrev genesis : Genesis
genesis = record {
  init_accounts = [];
  init_producers = [];
  snapshot = record { timestamp = pos 5; producers = [] };
  block = empty_block;
}

abbrev height_after : ℕ → ℕ → Option ℕ
height_after up down = do
  c ← init plain genesis (opened db (λ _. []))
  c1 ← increment_block_height plain up c
  c2 ← decrement_block_height plain down c1
  c3 ← init plain genesis (opened c2.db c2.attributes)
  some (c3.globals block_height).value

raised : height_after 3 1 ≡ some 2
unfolding init increment_block_height decrement_block_height check_genesis_existed get_attribute
    init_genesis put_attribute load read_attribute write_attribute attribute_of_items write_snapshot
raised = refl

too_deep : height_after 3 4 ≡ none
unfolding init increment_block_height decrement_block_height check_genesis_existed get_attribute
    init_genesis put_attribute load read_attribute write_attribute attribute_of_items write_snapshot
too_deep = refl
