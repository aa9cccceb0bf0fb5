-- ===== src/Lib.antt =====
-- A model of the data protection core: deduplicating backups of directories into a repository, over a
-- chunker, an object store, text manifests with commit markers, a write-ahead log and a packet
-- protocol.
--
-- The parts, and the files that model them (paths are from the repository's root):
--   Base       native numbers, lists, byte strings and bit operations; no code of the program
--   Common     include/dpc/common: Error.hpp, Types.hpp, the hex encodings of Hash.hpp, the path tests
--              of FileUtils.hpp; Text and Stream model what is used of C++ streams
--   Wal        src/metadata/WalLog.cpp: crc32, encodeRecord, decodeRecord, append, readAll, replaceWith
--   Packet     src/network/PacketCodec.cpp: encode, decode, and Socket for readPacket and writePacket,
--              with writeAll of FileUtils.hpp; Session for the hash of a session
--   Chunker    src/core/FixedChunker.cpp and src/core/ContentDefinedChunker.cpp
--   Repo       the repository directory as a record of directories, and operations that may throw
--   Manifest   src/core/ManifestStore.cpp (serialize, parse, and the versions) and
--              src/metadata/CommitMarker.cpp
--   Metadata   Checkpoint.cpp, FaultInjector.cpp, RecoveryManager.cpp, MetadataCompactor.cpp
--   Store      src/core/ObjectStore.cpp and src/core/Compressor.cpp
--   Engine     src/core/BackupEngine.cpp, VerifyEngine.cpp and RestoreEngine.cpp
--   Session    src/network/SessionIndex.cpp: the lines of a session file, appendChunk and buildManifest
--   Server     src/network/BackupServer.cpp: payload fields, handlePacket, handleConnection
--   Client     src/network/BackupClient.cpp and TransferSession.cpp: prepareChunks, payloads, upload
--   Cli        src/cli/backupctl_main.cpp: options, commands and exit codes; Bench for the options and
--              sizes of src/bench/backup_bench_main.cpp
--   Concurrency  include/dpc/concurrency/BoundedQueue.hpp and src/concurrency/ThreadPool.cpp
--   Tests      the theorems at concrete inputs
--
-- How they interact: the engines call the store, the manifests and the log on one `Repo`, through
-- `Action`, which keeps what was written before an exception. A text of a C++ string or byte vector is
-- a list of numbers; 64-bit and 32-bit values wrap around where the code lets them. A `std::map` is the
-- list of its entries in the order of the keys (Common/Map). The server's handler is an `Action` that
-- answers a packet with a packet; a connection reads packets from a list of socket events and ends by a
-- return or by an exception that nothing catches. The client talks through a `Wire`: what it has sent
-- and the events of its socket. The thread pool is a relation between states, one step for each
-- critical section; a wait is a step that is not enabled.
--
-- Loops run on lists, or on fuel: `readAll` has one unit for each byte of the file and an iteration
-- takes at least the 16 bytes of a header, the fixed chunker has one unit for each byte, and the
-- numbers of a checkpoint, the lines of a session file and those of a status one for each character and
-- one more. The rounds of a connection are no fuel: their number is when the server's stop flag is set.
-- Printed numbers have at most 20 digits, which is enough for 64 bits.
--
-- SHA-256 and zstd are the fields of `Libraries`, and what they document is `Documented`. Not modelled:
-- failures of system calls, apart from reads and writes of sockets; memory that runs out; connecting,
-- accepting and address lookup; what a restore's writes do to a repository that holds the target, which
-- is an argument; requests of several connections that interleave inside one request; the order that
-- `std::sort` gives to chunks of one file with the same index; the file scanner, which only walks
-- directories, and the mains of the client, the server and the corruption tool, which pass arguments on;
-- the printed texts of backupctl and the ratios of its `stats`; the files and clocks of the benchmark.
pub mod Base
pub mod Common
pub mod Wal
pub mod Packet
pub mod Repo
pub mod Chunker
pub mod Manifest
pub mod Metadata
pub mod Store
pub mod Engine
pub mod Session
pub mod Server
pub mod Client
pub mod Cli
pub mod Concurrency
pub mod Tests
