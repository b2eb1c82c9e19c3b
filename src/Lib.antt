-- ===== src/Lib.antt =====
-- hassh: an SSH proxy that fingerprints clients by their KEXINIT packet and refuses those whose
-- fingerprint is blocked.
--
-- A client that connects is greeted with the cached banner of the server behind the proxy. The
-- proxy reads its banner and its first packet, parses the packet and digests the algorithms in it.
-- If the fingerprint is on the blocklist, the connection is closed before the server is dialled.
-- Otherwise the server is dialled, its own banner is compared with the cached one and dropped, the
-- bytes read so far are replayed, and both directions are copied.
--
-- The parts, and the files that model them:
--   * pkg/hassh/hassh.go. Hassh/Names: the limits, the sentinel errors, isValidAlgorithmName,
--     sanitizeAlgorithmNames. Hassh/NameList: parseNameList. Hassh/KexInit: parseKexInitImpl with
--     its closure parseAndTrack, ParseKexInit, ParseKexInitWithContext. Hassh/Fingerprint:
--     Calculate, CalculateWithHash. The children Totality, RoundTrip, Valid, Sanitized, Shape and
--     Separation hold what is proved of them.
--   * pkg/filter/blocklist.go. Filter: BlocklistFilter and its methods; Filter/Laws.
--   * pkg/proxy/sshconn.go. Proxy/Handshake: tryParseHandshake. Proxy/Reader: CaptureHandshake and
--     readIdentificationLine.
--   * pkg/proxy/server.go. Proxy/Server: handleConnection. Proxy/Lifecycle: NewServer, the reload of
--     the blocklist and the banner, and the accept loop of Start with its goroutines as a step
--     relation; Lifecycle/Accept: acceptWithContext and the turns of the loop.
--   * pkg/proxy/syslog.go. Proxy/Syslog: SyslogWriter and its methods. Proxy/Audit: the entries
--     that a handled connection leaves.
--   * cmd/sshproxy/main.go. Proxy/Main: from the database to a server that runs.
--   * pkg/storage/db.go. Storage/Rows: the tables. Storage/Database: the database as gorm offers it,
--     with its laws. Storage/Repository: the addresses, getOrCreateIPAddress, getOrCreateHASSH,
--     getOrCreateBanner, RecordConnection, LoadBlockedHashes, BlockHASH, UnblockHASH.
--     Storage/Queries: the list and search queries. Storage/Statistics: GetStatistics.
--     Storage/Setup: NewRepository, GetBlockedFingerprints. Storage/Memory: a database in memory, for
--     the tests. Storage/Enforced, Sshctl/Enforced and Sshctl/Main/Started: from the database, from
--     the command, and from the two programs, to a refused client.
--   * cmd/sshctl/command. Sshctl/Blocks: block.go, unblock.go. Sshctl/Lists: list.go, log.go.
--     Sshctl/Stats: stats.go, reload.go. Sshctl/Main: cmd/sshctl/main.go, where the command tui is
--     one call.
--   * cmd/sshctl/tui/tui.go. Sshctl/Tui: model, newModel, switchView, refreshData and the rows of the
--     tables; Tui/Changes: the four operations on a selection; Tui/Keys: Update,
--     handleNormalKeys, handleSearchKeys, performSearch; Tui/View: View, Init, Run.
--     Sshctl/Repository: the repository as the commands and the interface call it, with what they
--     rely on.
--   * Common: Booleans, lists, and the results of Go functions. Text: the functions of strings,
--     bytes and encoding/hex that the sources use, and the decimals of fmt. Tests: runs of
--     the model on concrete bytes.
--
-- A byte is a natural number. A parser reads any list of them; that they are below 256 is asked
-- only of what is written. A Go function that may fail or panic returns a Result: ok, err with a
-- value, or panics. Slicing and indexing panic out of range, and recover is modelled where a
-- function defers it, so that a missing test of a bound shows as a panic. The texts of errors and
-- the messages of package log are left out, but not those that go to the system's logger.
--
-- A connection is the list of what its reads bring, each some bytes and perhaps an error; past the
-- list it is closed. The loops recurse on that list, so no fuel is needed. A handler is a function
-- from a World, which holds the connections, the blocklist, the banner at each time that it is
-- read, and whether a write or the dial succeeds, to the list of its actions on the outside. The
-- two copies of a joined connection run side by side in the source; they are one action with what
-- each direction carries, as the two do not depend on each other. A write that fails within a copy
-- is not told apart from the end of what its reads bring.
--
-- A Server is a record of the fields that change, with the place of the accept loop and the number
-- of handlers. The accept loop, the handlers and the two halves of a reload interleave in any
-- order; a run is a list of such steps, labelled with what the database and the probes answered. A
-- turn of the loop says which case each select takes and what the accept brings; between two turns
-- the other goroutines take their steps. A handler that runs may return at any step: that a copy
-- blocks forever is not expressed.
--
-- The database is a state of unknown form with the calls of gorm on it, each of which may fail.
-- Its laws say what a statement reads and writes inside and outside a transaction, and that a
-- transaction commits what it saw or nothing. A query for a list is what the source varies in it:
-- conditions, order and limit; the database answers it as it likes, and where a theorem needs it,
-- with rows that meet the conditions. Connections of the pool and of a transaction are told apart,
-- as the source mixes them. The join of LoadBlockedHashes is one call, and what it selects is a law.
--
-- The widgets of the terminal interface are a state of unknown form too. A message is one step on
-- the model and the database; range over a map visits it in an order that is a parameter. Status
-- messages are constructors with what they tell. Loops recurse on their lists; a decimal has one
-- digit of fuel more than its number.
--
-- The digests of crypto/md5 and crypto/sha256 are a parameter with their documented sizes. Not
-- modelled: the deadline that acceptWithContext sets on the listener, which is seen in its time-outs
-- only; what cobra and viper make of flags and configuration, and the signals, which are arguments;
-- the joined tables of the queries; the styles of the interface. Timeouts are a read error of the
-- model.
pub mod Common
pub mod Text
pub mod Hassh
pub mod Filter
pub mod Proxy
pub mod Storage
pub mod Sshctl
pub mod Tests
