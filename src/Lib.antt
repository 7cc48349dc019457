-- ===== src/Lib.antt =====
-- The game "mine with friends" of judica-vm: the board that every host and player runs on the same
-- messages, the signed envelopes that carry them, the sequencer that puts them in order, the sessions
-- of the daemons that exchange them, and the contract that pays by the board that they lead to.
--
-- The board is the deterministic state machine of common/mine-with-friends-board.
-- A message is a `MoveEnvelope` signed by a key. `play` (common/mine-with-friends-board/src/game/mod.rs)
-- finds the user of the key, rejects the message when the game is finished, drops it when it is out
-- of sequence, sanitizes its move, moves the game's time, runs the callbacks that are due, logs the
-- move and plays it by `play_inner`. Moves and callbacks act on the board's tokens, markets, NFTs and
-- sales.
--
-- The files, with the sources under common/mine-with-friends-board/src:
--   Base          names of the library, panics, u64 and u128 arithmetic (Base.Word), methods of a
--                 state that may panic (Base.Exec), sorted maps (Base.Map), sorting, byte strings
--   Entity        entity.rs: ids, their allocator, their text form
--   Tokens        tokens/mod.rs: the basic token and the registry
--   TradingPair   tokens/token_swap.rs: pairs of tokens and their text form
--   Nfts          nfts/mod.rs, and the data of nfts/sale.rs and nfts/instances/powerplant
--   Moves         game/game_move.rs, lib.rs and the errors: moves, rejections, log entries
--   Board         the `GameBoard` record of game/mod.rs and how its methods read and write it
--   Quote         the amounts of a trade (tokens/token_swap.rs), without the board
--   Market        markets, deposits and the constant-product swap (tokens/token_swap.rs)
--   Trade         do_buy_trade and do_sell_trade (tokens/token_swap.rs), and the coins that they move
--   Schedule      the scheduling half of callbacks.rs, and nfts/instances/lockup.rs
--   Producers     tokens/instances: the four bots that open the markets
--   Plants        nfts/instances/powerplant/mod.rs: power plants and their hashrate
--   Minting       nfts/instances/powerplant/mod.rs: `PowerPlantProducer`
--   Payout        nfts/instances/powerplant/events.rs: the mining rounds
--   Callbacks     callbacks.rs: `CallbackRegistry::run`
--   Sales         nfts/sale.rs
--   Sanitize      sanitize.rs
--   Clock, Finish, Game, Setup, NewGame
--                 game/mod.rs: time, end of the game, messages and moves, set-up, first board
--   Views         game/mod.rs: what the interface is shown, and the simulated trades
--   Money         invariants of the coins, for every method of the board
-- and of the other crates:
--   Envelope      common/attest-messages/src: envelopes, their hash, signing and the check
--   Messages      common/game-host-messages and common/game-player-messages: what envelopes carry
--   Sequencer     common/game-sequencer/src: the offline sequencer, the batcher of the running one
--                 (Sequencer.Batcher), the moves (Sequencer.Extract) and the routing by kind
--                 (Sequencer.Demux)
--   Session       common/attest/src/attestations: a session of two daemons, one turn of its loop at
--                 a time (server/protocol.rs); its jar of challenges and the role that a daemon
--                 prefers (Session.Cookies); the handshake (Session.Handshake, server/protocol/
--                 authentication_handshake.rs); the connections (Session.Connections, client.rs and
--                 client/connection_creation.rs); and how a session begins (Session.SetUp)
--   MsgDb         common/attest-database/src: the tables of the messages (MsgDb), insertions
--                 (MsgDb.Insert), the attachment of disconnected messages (MsgDb.Connect), reads
--                 (MsgDb.Get), groups and peers (MsgDb.Groups), nonces (MsgDb.Nonces), a key from a
--                 reused nonce (MsgDb.Keys) and the next message of a chain (MsgDb.Create)
--   Contract      contracts/modules/mining_game/src/mining_game.rs: the replay of the game and the
--                 payments, with GameKernel of common/simps
--   Tests         runs, and each theorem at work on one
--
-- The state is the record `GameBoard`, with the fields of the source; a `&mut` method is a function
-- from the board to a result with the next board, or a panic. Arithmetic is that of a build with
-- overflow checks: what leaves u64 or u128, falls below zero or divides by zero panics, as do a
-- missing key of an index, `unwrap` and `expect`. Entity ids and the pointers that wrap them are
-- numbers, strings, keys, hashes and signatures are lists of bytes, a `BTreeMap` is a list in the
-- order of its keys and a `HashMap` is a list in the order of an iteration. The four bots have the
-- same fields and share a record.
-- `transaction` and `end_transaction` do nothing outside of the crate's tests, and tracing does
-- nothing to the board; both are left out. The only fuel is that of the digits of a number: n + 1
-- digits are enough for n, which the round trip of an id shows for all u64.
--
-- What the other crates take from libraries is a parameter: canonical JSON, sha256 and secp256k1 are
-- the record Envelope.Crypto, the statements of the database Session.Serve.Database, the decoding of
-- a message the argument `from_str`, the hash, hex and JSON of a handshake Session.Handshake.Coding,
-- keys as text and transaction templates Contract.Sapio. What is
-- assumed of them is a record too: IsScheme of the signatures, Pays of the templates. A task is a
-- function from what it finds to what it leaves, and concurrency is the order of the events: the
-- batcher's are batches, envelopes, the end of the program and runs, and a session's are messages of its peer, requests of
-- the other tasks and the end of the connection. A channel with a receiver that lives as long as the
-- sender takes all that is sent. The text of a message is taken to be made without an error.
-- In a handshake the socket gives a list of messages, errors and minutes without either, and takes a
-- number of messages and then no more. Channels of a session are numbers, and one whose receiver is not
-- in the list of those alive is closed. A turn of `get_conn` reads the connections in one state and
-- writes them in a later one, as the lock is free in between.
--
-- The SQL of the message database is translated: a table is the list of its rows, a statement a
-- function on the tables, and a row of `messages` holds the envelope whose text its body is. The
-- recursive query of do_connect.sql is taken a generation at a time, as often as there are rows, which
-- is enough. The rounds of a retried insertion are a list of attempts.
--
-- Not modelled: `todo!()` methods, serialization and JSON schemas; the tasks of OnlineDBFetcher, which
-- poll a database; the services and the configuration of the daemon; the contract's guards and
-- subscriptions; and the log of events, the host, the litigator and the interface.
pub mod Base
pub mod Entity
pub mod Tokens
pub mod TradingPair
pub mod Nfts
pub mod Moves
pub mod Board
pub mod Quote
pub mod Market
pub mod Trade
pub mod Schedule
pub mod Producers
pub mod Plants
pub mod Minting
pub mod Payout
pub mod Callbacks
pub mod Sales
pub mod Sanitize
pub mod Clock
pub mod Finish
pub mod Game
pub mod Setup
pub mod NewGame
pub mod Tests
pub mod Money
pub mod Envelope
pub mod Messages
pub mod Sequencer
pub mod Contract
pub mod Session
pub mod MsgDb
pub mod Views
