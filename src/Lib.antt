-- ===== src/Lib.antt =====
-- The satoxcoin DNS seeder: a crawler that speaks the peer-to-peer protocol with the nodes it
-- knows, keeps a database of their addresses, and answers DNS queries with those that are good.
--
-- Net (crates/seeder-core/src/net.rs): addresses, their classes, and how they are dialled. An
--   address is its list of bytes; `IsNetAddr` says that these are sixteen.
--   Net/Display prints addresses as the standard library does, and splits hosts and ports.
-- Text: what the sources use of `str` and of the parsers of numbers, over lists of characters.
-- Toml, Config (crates/seeder-core/src/config.rs): the reader of the settings file, `toml::from_str`
--   line by line into a table, and `Config::from_table`. A result is a value, an error or a panic.
--   Config/Written is a writer of settings files, which the program does not have.
-- Serialize (crates/seeder-core/src/serialize.rs): compact sizes and strings. A reader answers a
--   value or an error with the position after it, or that the thread aborts.
-- App (crates/seeder-core/src/lib.rs): the process-wide state, an argument of what reads it.
-- Message (crates/seeder-core/src/p2p/message.rs): headers, addresses and the version payload,
--   written and read with Serialize.
-- Handshake (crates/seeder-core/src/p2p/handshake.rs): the conversation with one node. `pass` is
--   one pass of the inner loop of `test_node`, `inner_loop` and `outer_loop` its loops. The
--   inner loop runs on fuel, one more than the bytes in the buffer, which is enough because every
--   pass that goes on takes bytes off. The outer loop follows the list of chunks that the socket
--   returns; that list ends where the stream or the deadline does.
-- Db (crates/seeder-core/src/db.rs): the database of addresses. Maps are association lists, sets
--   lists without repetitions, ids are integers that wrap at 32 bits. Db/Stat holds one entry and
--   its statistics, over an interface for `f64`; Db the operations that change the database;
--   Db/Crawl the choice of nodes to test; Db/Serve the readers. Clocks and random numbers are
--   arguments. `get_one` has as many turns as the source's loop; the loop of `get_ips` that draws
--   distinct ids is over the list of numbers drawn, and answers `none` if they do not suffice.
-- Publish (crates/seeder-publish/src/reconcile.rs): which DNS records to delete, keep and add.
-- Dump (crates/seeder-publish/src/parser.rs): the reader of dnsseed.dump, over its text.
-- Publisher (crates/seeder-publish/src/api.rs, bin/dnsseed-publish/src/main.rs): the requests to the
--   provider of the DNS zone, which is a parameter with a state, and the plan that is carried out.
--   The loops over the pages run on fuel, since the provider says how many pages there are;
--   with a fixed number of pages, one more than that number is enough.
-- Dns (crates/dns-server/src/server.rs): names and records on the wire, and in Dns/Server the answer
--   of `run` to one datagram. `parse_name` runs on fuel, which a label or a reference uses up; a
--   buffer without references needs as much as it has bytes, and one more. The output buffer
--   is the list of its bytes that are sent.
-- Crawler (bin/seeder/src/main.rs): what the tasks do with a handshake, an answer of the explorers
--   or a name. Crawler/System is the process as a step relation: the database, the crawlers with
--   their batches, the file, and the steps that its tasks take under the lock, in any order; a crawler
--   may panic, and the process may end and start again with the file at any time. A step that
--   adds addresses needs room for their ids, which are `i32`. The ids `lost` and `missing` are
--   told for the proofs only. Crawler/Dumper writes dnsseed.dump. The set of untested ids has an iteration
--   order from outside, of which only that its last entry is one of the set is used.
-- Prelude: Boolean tests, lists, bytes in words, machine integers, and dictionaries.
--
-- Not modelled: the parsers of addresses in the standard library and the resolution of names, the
-- command lines, how JSON and URLs are written, when the tasks sleep, and what only calls the network
-- or the file system. SHA-256, base32, the printing of `f64`, the peers and the DNS provider are parameters.
pub mod Prelude
pub mod Net
pub mod Text
pub mod Toml
pub mod Config
pub mod Serialize
pub mod App
pub mod Message
pub mod Handshake
pub mod Db
pub mod Publish
pub mod Dump
pub mod Publisher
pub mod Dns
pub mod Crawler
