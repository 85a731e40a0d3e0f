-- ===== src/Lib.antt =====
-- Verification library for NEON-WORLD-OS, a simulated operating system in C++: a shell over a virtual
-- file system, with a scheduler and a memory manager beside it.
--
-- The shell (src/shell.cpp, include/neon/shell.hpp) reads a line, cuts it into words and calls the
-- other parts. The file system (src/vfs.cpp, include/neon/vfs.hpp) keeps a tree of nodes and, by
-- normalised path, metadata, extended attributes, locks and quotas. The scheduler (src/scheduler.cpp)
-- runs queued tasks, the memory manager (src/memory.cpp) accounts for blocks, src/util.cpp and
-- include/neon/base64.hpp hold functions on text, include/neon/crypto.hpp and include/neon/merkle.hpp hash
-- texts and trees. The program (apps/neon.cpp) reads a configuration and gives lines to the shell.
--
-- Which file models what:
--   Base          byte strings, dictionaries and Boolean tests that all modules share
--   Vfs.Path      `Vfs::NormalizePath`; Normal and Parent: rendered paths and their names
--   Vfs.Tree      `Node`, its map of children, `calc_used_`; Map: the laws of the map; View: the files
--                 that a tree holds; Used: the bytes that `calc_used_` counts in it
--   Vfs.Walk      `Traverse`, `EnsureDir`; Laws: both against recursions over the names of a path;
--                 Ensure: what `EnsureDir` leaves alone
--   Vfs.State     the fields of `class Vfs`
--   Vfs.Files     `Exists`, `Read`, `ReadRange`, `Stat`, `List`, `Mkdir`, `Touch`, `Write`, `UsedBytes`;
--                 Placed: the tree after a write, by recursion over the names of the path
--   Vfs.Locks     `clean_locks_`, `locked_`, `Lock`, `Unlock`
--   Vfs.Links     `Remove`, `clone_node`, `Copy`, `Move`; Remove, Copy and Move: the files they leave
--   Util          `Split`, `Join`
--   Scheduler     `Submit`, `RunOnce`, `Stop`, `Snapshot`
--   Memory        `Allocate`, `Free`, `Used`
--   Base64        `Base64Encode`, `Base64Decode`
--   Glob          `glob_match` of src/shell.cpp
--   Vfs.Metadata  `touch_meta_`, `Utime`, the extended attributes, `PruneOrphans`, the umask
--   Vfs.Visit     `Walk` and the counts of `FsckJson`
--   Vfs.Quota     `best_quota_prefix_`, `QuotaSet`, `QuotaDel`, `SetQuota`, `Seal`
--   Vfs.Cache     the cache and its operations; Entries: its entries and nodes; Books: what
--                 is consistent, and the loop that evicts; Consistent: `cache_put_`
--   Vfs.Dump      `SaveDump`, `LoadDump` (src/vfs_dump.cpp), `BeginTx`, `CommitTx`, `RollbackTx`;
--                 Decimal, Entries and RoundTrip: what is printed is read back
--   Shell.State   the fields of `class Shell`, and what a command is
--   Shell.Exec    `Exec` of src/shell.cpp; Refused: what it refuses; Policy: the rules; Kept: what it keeps;
--                 Passed: a command that nothing stands in the way of
--   Shell.Json    `JsonEscape` and `JsonArray`; Reading: a reader of JSON
--   Shell.Listing the block for `-l`
--   Shell.Schemas `JsonSchema` of include/neon/schemas.hpp
--   Shell.Builtins the table of commands, and `Exec` with it; Files and Controls: the commands; Saved,
--                 Steady, Runs, EchoCat and Ends: what lines do
--   Plugin        `LoadPlugin` of include/neon/plugin.hpp; Trusted: what a plugin is before it runs
--   Shell.Permissions what `has_perm_` grants, bit by bit
--   Shell.Index   the index of words and `parse_duration_s_` of src/shell.cpp
--   Telemetry     `class Telemetry` of include/neon/telemetry.hpp; Commands: `cmd_metrics`, `cmd_trace`,
--                 `neon_print_metrics` and src/api_c.cpp
--   Shell         `Tokenize`, `expand_vars_`, `levenshtein_`, `ns_apply_`, `has_perm_` and `perm_for_cmd_`
--                 of src/shell.cpp
--   Vfs.Edits     `quota_reserve_`, `quota_apply_`, `Append`, `Truncate`, `SetMode`, `SetImmutable`
--   Vfs.Reports   `CacheStats`, `QuotaReport`, the text of `FsckJson`
--   Vfs.Runs      lists of calls of the file system; Trees, Linked and Reached: the trees they leave;
--                 Contents: a map from paths to contents; Files: runs against it
--   Crypto.Sha    `class Sha256`; Feed: byte by byte; Digest: over the whole text
--   Crypto.Hmac   `HmacSha256`
--   Crypto.Merkle the hashes of files and directories; Files: what is hashed of a file
--   Config        `neon_trim`, `neon_load_config`, the validation and the report of apps/neon.cpp
--   Cli           the loops of `main` that give lines to the shell, and the self test; Flags: its arguments
--   Trace         `Trace` of include/neon/trace.hpp
--   Tests         examples and tests
--
-- A string is a list of bytes, a `std::map` or `std::unordered_map` an association list, an operation
-- a function from a state to a state and a result. A `Node*` is the chain of keys from the root to the
-- node. Where the source branches on a pointer that it computed, the model has one function for what
-- comes before and one for what comes after (`write` and `write_in`). Arithmetic on `size_t` and
-- `uint64_t` wraps at 2 ^ 64. A mutex makes an operation one step. Readings of a clock and the results
-- of `operator new` are arguments.
--
-- Six loops run on fuel. `glob_match`: with n characters of text and m of pattern, n (m + 2) + m rounds
-- are enough, since each step back moves the mark on. `Walk`: one round for each node. `LoadDump`: one
-- round for each byte, since each round takes a line. `update` of `Sha256`: one round for each byte, since
-- each takes one or more. The blocks of `savefs`: one round for each byte. The walk of `MerklePath` ends at
-- once, since `List` returns no names.
-- `decimal` writes at most 20 digits, as many as a `size_t` has. All other loops are structural.
--
-- The source does not compile as a whole: several functions use names that are declared nowhere or
-- declare a local twice. A function is modelled where its body has one meaning all the same (`Remove`
-- declares `normR` three times with the same value), and with a name that nothing declares as an argument
-- (`normR` and `old` in `quota_reserve_`, `is_new` in `SetMode`, `delta` in `SetImmutable`).
--
-- `Exec` takes the table of commands, the search for a regular expression, the rate limits (which compute
-- in `double`) and its own call on the two lines of the scans as arguments. Building a regular expression
-- and searching for it may both throw. `run_line` ties the knot: the
-- commands, `time` among them, get `Exec` with one call less on fuel. A line of n bytes needs at most
-- n + 2 calls in each other if no variable is set. An exception is an answer of its own; one that leaves a
-- loop of `main` ends the program.
--
-- Not modelled: input and output, the lines in the file of the audit,
-- what a plugin registers, the signals of the program, and the log.
pub mod Base
pub mod Vfs
pub mod Util
pub mod Scheduler
pub mod Memory
pub mod Base64
pub mod Glob
pub mod Shell
pub mod Plugin
pub mod Trace
pub mod Crypto
pub mod Config
pub mod Cli
pub mod Telemetry
mod Tests
