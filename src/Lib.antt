-- ===== src/Lib.antt =====
-- The NeutrinoOS package repository: its package manager, `neupak`, its TCP service and its card game.
--
-- The repository holds the user programs of an operating system, one folder a package. `neupak`
-- (neupak/src/neupak.cpp) installs, updates and removes these packages. It reads the index of each
-- repository into a set of packages, resolves the dependencies of what is to be installed into a
-- queue, takes the archives in the order of the queue, and keeps two databases: what is installed,
-- and which files each package has put where. This development models the parts that decide what
-- is installed, where it goes and what is remembered of it.
--
-- Which file models what:
--   Text                userspace-support/helpers/text.cpp and args.cpp: strings that are appended
--                       to a buffer of a fixed size (`append_char`, `append_text`), `starts_with`,
--                       `skip_spaces`
--   Neupak              the constants and structures of neupak/src/neupak.cpp
--   Neupak/Packages     `valid_name`, `find_package`, `add_package`
--   Neupak/Resolve      `add_install_with_deps`, with its queue
--   Neupak/Lines        the line reader that all text formats share: `strip_comment`, `trim`,
--                       `parse_section_header`, `split_key_value`, `parse_quoted`, `parse_u64`,
--                       `append_u64`
--   Neupak/Arrays       `parse_string_list_line`, `parse_file_array`, `collect_array_value`
--   Neupak/Manifest     `parse_package_toml`, which reads indexes and the manifests in archives, with
--                       `validate_package` and `same_manifest_package`
--   Neupak/Indexes      `parse_repos_cfg`, `derive_package_url`, `load_indexes`: one set of packages of
--                       the indexes of all repositories
--   Neupak/Installed    `load_installed`, `write_installed_db`, `find_installed`,
--                       `remove_installed_record`
--   Neupak/Files        `load_files_db`, `write_files_db`, `find_package_files`,
--                       `remove_files_record`
--   Neupak/Archives     `plan_zip`, with `read_local_zip_entry` and `add_zip_entry`: the archive of a
--                       package, and which of its entries are installed
--   Neupak/Paths        `archive_path_to_final`, `destination_path`, `valid_offline_root`, and the
--                       names of the caches with their hash (`fnv1a32`, `append_hex8`)
--   Solitaire           solitaire/src/main.cpp: Cards, Deal, Moves, Select, Commands and Loop hold the
--                       code, and Rules the rules of the game, of which it knows nothing
--   Tcpd                network-services/src/tcpd.cpp: State holds the records, Tables the searches, Segments
--                       what is sent, Receive `handle_existing_connection`, and Handlers, Outbound,
--                       Requests, Retry and Service the handlers and what the main loop calls
-- Prelude holds what the parts share: tests on numbers, lists, `Outcome` for loops that fail or run
-- out of fuel.
--
-- How the state corresponds. A C string in a buffer is the list of its bytes; a call that is given
-- the size of the buffer takes it as an argument, and a write that does not fit is `none`. A
-- `PackageSet`, an `InstalledDb` and a `FilesDb` are lists of records, whose lengths the operations
-- compare with the source's limits. A file that cannot be opened is `none`. A text that is parsed is
-- the list of its lines: the source overwrites line feeds by NULs as it goes, and each round of its
-- loops takes one line or, for arrays, several.
--
-- In the card game a pile is the list of its cards, the top one first, and the state `App` is passed on
-- from call to call; the seed that a deal reads from the clock is an argument. A call that makes a move
-- returns whether it did and the state after it.
--
-- In the TCP service the state is the `ServerContext`, passed on from handler to handler; a pointer into
-- one of its tables is the index of the entry. What is written to a pipe, an endpoint, the network or
-- the registry is a list of effects, `out`; the answers of the outside to one message, such as whether
-- a segment is taken or a pipe can be opened, are a `Net`, which every handler has as an argument.
--
-- Fuel. A loop or a recursion that the source does not bound runs on fuel and is `running` when it
-- is used up. The array parsers give one unit for each byte and one more, the reading of a manifest
-- one for each line and one more; theorems below state that this is enough. The recursion of the
-- resolution and the loop that reads the file database take their fuel as an argument, because no
-- fuel is enough for every input: a cycle of dependencies, or a `files` line without `=`, keeps the
-- source running. For other inputs theorems give a fuel that is enough.
-- The loop that writes a payload to an endpoint has as many rounds as there are bytes, since each takes
-- one at least; a write that would block is tried again by the source, and the answer in the model is
-- the first other one.
--
-- Not modelled: the messages that are printed; the system calls (files are given as their content);
-- in `neupak`, the lock, the extraction of archives, the SHA-256 digest, the download and the
-- install transactions; in `tcpd`, the start-up and the log; and the other programs of the
-- repository, most of which are drivers, drawing or calls of the kernel. The code under bearssl,
-- doom, ffmpeg, openjdk-8 and sdl2 is that of other projects or builds it.
pub mod Neupak
pub mod Prelude
pub mod Solitaire
pub mod Tcpd
pub mod Text
