-- ===== src/Lib.antt =====
-- gsenetwork: a verification library for the node of the GSE network.
--
-- The program keeps accounts and producers behind chains of caches over a database, executes
-- the transactions of blocks on them, and lets the producers with the most votes make blocks in
-- turn.
--
-- core/ (Core): Account.cpp is Core/Account, Producer.cpp is Core/Producer and Core/Snapshot,
-- Transaction.cpp, Ballot.cpp and Block.cpp are Core/Transaction and Core/Block. Objects are
-- records of the fields that the program reads; addresses and hashes are numbers, and a hash
-- stands for the SHA-3 of the object's other fields. `operator==` and `operator=` are modelled
-- field by field, since they leave fields out.
--
-- runtime/storage/Repository.cpp (Storage): Storage/Cache has the macros GET_FROM_... and
-- COMMIT_REPO for one kind of object, as a chain of std::map layers over a store;
-- Storage/Repository has the repository, with getAccount, put, transfer, burn, bonus,
-- voteIncrease, clearVote and the rest as state-passing actions that keep what was changed
-- before an exception; Storage/Repository/Branch has commit and getProducerList.
-- Storage/Database has the stores of database/DatabaseController.cpp; a store holds what a read
-- makes of the stored bytes, so that a commit into it changes the code of an account, and
-- accounts whose balance or votes reach 2^63, which cannot be read back, are beyond the model.
-- The specification is a function from addresses to accounts (Ledger, Book) and one to
-- producers (Roster).
--
-- runtime/action, runtime/common/Runtime.cpp, runtime/correlator/Correlation.cpp (Runtime): the
-- handlers of the three kinds of transactions, and the run over a block. The decoding of a
-- ballot is a parameter.
--
-- producer/Schedule.cpp (Schedule), producer/ProducerServer.cpp (Slots, Server): the order of
-- the producers, the time slots, and when the node makes which block. The clock, the answers of
-- the event handler and the hash of a block are arguments.
--
-- chain/BlockChain.cpp: Chain/Admission has checkDuplicateTx, checkProducer and
-- updateProducerRecord; Chain/Caches has the caches of transactions and blocks, which are
-- unique by timestamp and by number, and the choice of the next block in doWork; Chain/Solidify
-- has onSolidifiable over the memory queue, the database and the rollback state; Chain/Fork has
-- processBlock and checkBifurcation, with the execution of a block and onSolidifiable as
-- parameters; Chain/Execute has what doProcessBlock does to the repositories; Core/Queue has
-- the FixedQueue of what was seen already (core/include/core/Queue.h).
--
-- Chain/Messages has the handlers of transactions and blocks that come in (processTxMessage,
-- addRPCTx, processBlockMessage, processSyncBlockMessage), with the repository that they try
-- transactions on; Chain/Serve has getBlockByNumber, getBlockStateByNumber and the answers of
-- processStatusMessage. Signatures are checked by arguments.
--
-- Chain/Dispatch has Dispatch::processMsg with processStatusMessage, processConfirmationMessage
-- and processBlockStateMessage, from the bytes of a message on, and what chain/Controller.cpp
-- streams.
--
-- Chain/Terms has schedule, pushSchedule, init and initializeRollbackState, and the start of
-- chain/Controller.cpp over the stores of an earlier run; Storage/Attributes has the attributes
-- and the init of database/DatabaseController.cpp; Chain/Active has updateActiveProducers;
-- Chain/Node has the whole of doProcessBlock, with the records of producers, the node's
-- confirmation and the term that begins. Chain/Queue has doProcessBlock and cancelMemoryItem on
-- the whole memory queue.
--
-- chain/Sync.cpp (Chain/Sync): the ranges of blocks that are asked for. The heights come as a
-- list in the order of std::sort.
--
-- chain/BlockState.cpp (Chain/BlockState) and chain/RollbackState.cpp (Chain/Rollback): the
-- blocks that are not solidified yet, with their confirmations. The multi-index container is a
-- list, the last inserted first. `remove`, `rollbackTo` and `fetchBranchFrom` recur on fuel,
-- one unit for each entry of the index (and one more for the latter two); that is enough when
-- no entry is the parent of an older one, as `add` keeps it.
--
-- Wire: `streamRLP` and the constructors from bytes, of core/Account.cpp and core/Producer.cpp
-- (Wire/Accounts), core/Transaction.cpp and core/Ballot.cpp (Wire/Transactions), core/Block.cpp
-- and core/TransactionReceipt.cpp (Wire/Blocks), chain/BlockState.cpp (Wire/States),
-- core/Status.cpp and core/AttributeState.cpp (Wire/Statuses). The calls of the RLP library are
-- the record Rlp, and IsRlp has what is documented of them; Wire/Model is a code that keeps
-- these laws.
--
-- Numbers of uint64_t are natural numbers with the wrap-around written out (Prelude: add64,
-- sub64, mul64); int64_t timestamps are integers, whose overflow is not modelled. Every other
-- loop is a structural recursion over the list that it walks. Locks are not modelled: each
-- operation runs by itself.
--
-- Not modelled: the network, RPC, cryptography, tries, the RLP encoding itself, the database
-- engine, logging, and the virtual machine, which no handler of a transaction calls.
pub mod Prelude
pub mod Core
pub mod Storage
pub mod Runtime
pub mod Schedule
pub mod Slots
pub mod Chain
pub mod Server
pub mod Wire
