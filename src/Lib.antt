-- ===== src/Lib.antt =====
-- The crates of bip-rs, for applications that use bittorrent technologies. This library models the
-- parts that carry their logic and no input or output.
--
-- Parts and files:
--
-- bip_bencode: Bencode/Value.antt has the values of bip_bencode/src/reference/bencode_ref.rs and
-- bip_bencode/src/mutable/bencode_mut.rs as one type over what a value carries besides
-- (`BencodeRef`: the bytes that it was read from). Bencode/Encode.antt is
-- bip_bencode/src/mutable/encode.rs (`encode`, `encode_int`, `encode_bytes`, `encode_list`;
-- `encode_dict` is `encode_pairs`, `sort_pairs`, `concat_pairs`). Bencode/Decode.antt is
-- bip_bencode/src/reference/decode.rs (`decode`, `decode_int`, `decode_bytes`, `decode_list`,
-- `decode_dict`, `peek_byte`), bip_bencode/src/reference/decode_opt.rs, and `BencodeRef::decode`
-- as `decode_ref`. Bencode/Decimal.antt is what both use of the standard library's integer text.
-- bip_util: Util/Sha.antt is bip_util/src/sha/mod.rs (xor of hashes, `Bits`), Util/Convert.antt is
-- bip_util/src/convert.rs, Util/Shuffle.antt is `fisher_shuffle` of bip_util/src/lib.rs,
-- Util/Trans.antt is the two generators of bip_util/src/trans.
-- bip_dht: Dht/Routing/Node.antt, Bucket.antt and Table.antt are bip_dht/src/routing/node.rs,
-- bip_dht/src/routing/bucket.rs and bip_dht/src/routing/table.rs. A table calls
-- `Bucket::add_node`, a bucket asks nodes for their status. In Table.antt `add_node_by` is
-- `RoutingTable::add_node` over the `bucket_node` that it calls, and `add_node` closes the
-- recursion. Table/Find.antt is the iterator `Buckets` and `find_node`, Table/Closest.antt the
-- order in which `ClosestNodes` visits buckets. Dht/Token.antt is bip_dht/src/token.rs,
-- Dht/Storage.antt is bip_dht/src/storage.rs, Dht/Transaction.antt is bip_dht/src/transaction.rs
-- (`AIDGenerator::generate` is `generate_action`, `MIDGenerator::generate` is `generate`; the
-- length of their blocks is a parameter, positive where that matters).
-- bip_disk: Disk/Accessor.antt is bip_disk/src/disk/tasks/helpers/piece_accessor.rs, over the trait
-- of bip_disk/src/disk/fs/mod.rs in Disk/FileSystem.antt; Disk/Checker.antt and Checker/Run.antt are
-- bip_disk/src/disk/tasks/helpers/piece_checker.rs, the first the state with its merging, the second
-- what reads the files; Disk/Tasks.antt is bip_disk/src/disk/tasks/mod.rs with context.rs beside it
-- (`DiskManagerContext::remove_torrent` is `delete_torrent`), and Disk/Manager.antt the sink and the
-- stream of bip_disk/src/disk/manager.rs. A block that is processed is written by the accessor, noted
-- in the checker's state, and checked; the manager takes it if there is capacity, which the stream
-- gives back. Disk/Block.antt is bip_disk/src/memory/block.rs, Metainfo.antt the part of
-- bip_metainfo/src/metainfo.rs that all of these read.
-- bip_utracker: Tracker/Contact.antt, Options.antt, Announce.antt and Scrape.antt are contact.rs,
-- option.rs, announce.rs and scrape.rs of bip_utracker/src; Tracker/Messages.antt is request.rs,
-- response.rs and error.rs there, the envelopes of the other messages. The functions `write_bytes` and
-- `from_bytes` carry the name of what they write and read (`write_options`, `options_from_bytes`).
-- bip_peer: Peer/Message.antt has the messages of bip_peer/src/message, Message/Standard.antt is
-- bip_peer/src/message/standard.rs with bits_ext/port.rs, Message/Whole.antt is
-- bip_peer/src/message/mod.rs with bits_ext/mod.rs (`parse_wire` and `write_wire` are `parse_bytes` and
-- `write_bytes` there). Peer.antt has the trait of bip_peer/src/protocol/mod.rs, Peer/Protocol.antt is
-- wire.rs beside it, and Peer/Codec.antt is bip_peer/src/codec.rs. The extended handshake message and
-- the nested protocol are arguments.
-- Peer/BitField.antt is the iterator over a bit field of standard.rs.
-- bip_handshake: Handshake/Message.antt is bip_handshake/src/bittorrent/message.rs with protocol.rs and
-- extensions.rs of bip_handshake/src/message, Handshake/Framed.antt the stream half of
-- bip_handshake/src/bittorrent/framed.rs, which asks the former how long a message is; the socket is
-- an argument.
-- Wire.antt has the crates nom and byteorder, which these are written with, as records of parsers and
-- writers with the laws of their documentation, which are instance arguments; Tests/Wire.antt gives
-- functions that obey them.
-- Base.antt and its children: byte strings, lists and numbers that the parts share. Tests.antt and its
-- children: the theorems at concrete inputs.
--
-- Conventions. State is passed explicitly: an operation on `&mut self` returns the new value. A byte is
-- a number, a byte string a list. The clock stands still within one operation, which takes its time as
-- the argument `now`, in nanoseconds since the epoch. Random draws are arguments, of
-- which a secret takes 32 bits, SHA-1 is a
-- parameter about which nothing is assumed. A hash map is a function from keys where only lookups
-- matter, and the list of its entries, in the order in which it yields them, where it is walked; that
-- order is an argument, a permutation of the entries (`EntryOrder`). What
-- reads or writes files is a function of the state behind the file system, with a result that may be
-- an error or a panic; writing to a buffer in memory cannot fail and yields the bytes.
--
-- Bounds and fuel. The decoder runs on `enough_fuel`, twice the length of the input and two more:
-- each call consumes a byte or starts from one that was consumed. Adding a node to a table runs on
-- one step for each bucket that a table can have and one more, since each split adds a bucket. The
-- search for the assorted bucket has fuel for the 161 items of the iterator and one more. A
-- generator of identifiers calls itself once, after it has drawn a new block, so it runs on two
-- steps. The loop over the options of an announce request runs on one round more than there are bytes,
-- since each round but the last takes one. The iterator over a bit field has a round for
-- each bit and one more. The stream of a handshake has one round more than the message has bytes and
-- one for the parse, since each round but these reads a byte. Indices and
-- lengths are far below the machine's bounds and are unbounded here; where bits are cut off (`as u8`, a
-- shift of a `u16`, the sums of 64 bits in bip_disk, which wrap as in a release build), the remainder is
-- written out.
--
-- Not modelled: sockets, timers, threads and channels (the workers of bip_dht, the
-- handshaker and the filters of bip_handshake and the writing half of its stream, the manager of bip_peer, the client and the server of bip_utracker), the calls of the operating system
-- behind the file systems of bip_disk, the poisoning of a lock by a panic, the accessors and conversions of bip_bencode, formatting of
-- errors, the reading and building of torrent files in bip_metainfo, and the crates bip_magnet and
-- bip_select.
pub mod Base
pub mod Util
pub mod Dht
pub mod Bencode
pub mod Metainfo
pub mod Disk
pub mod Wire
pub mod Peer
pub mod Tracker
pub mod Handshake
mod Tests
