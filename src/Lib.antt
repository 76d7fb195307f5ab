-- ===== src/Lib.antt =====
-- near-git-storage keeps git repositories in contracts on the NEAR chain. Each repository is a contract
-- that holds packfiles and refs; a factory creates them; a server and a remote helper translate git's
-- wire protocol and packfiles to and from the contract's calls.
--
-- Packfile      git-core/src/packfile.rs. Packfile/Delta is apply_delta and read_delta_size, and
--               Packfile/ComputeDelta is compute_delta with its nested functions. Packfile/Parse is
--               parse with the resolution of the deltas of a pack; Packfile/Entries is the head of an
--               entry, as parse reads it and the builder writes it, and Packfile/Build is
--               build_with_bases: the choice of the bases, then the writing; Packfile/Build/Thin
--               puts parse behind it. Packfile/Chains applies deltas one after the other.
-- PktLine       git-core/src/pktline.rs: encode, flush and read_until_flush. PktLine/Sections says of any
--               bytes what a section of packets is.
-- Contract      src/lib.rs: the state GitStorage and each method. Contract/Spec is what the contract
--               promises, an append-only list of packs and refs that change by compare-and-swap;
--               Contract/Refinement, Clearing and History relate the two, Clients draws what the
--               callers rely on.
-- Factory       factory/src/lib.rs: the state GitFactory and each method.
-- Server        git-server/src/main.rs: the bodies that handle_info_refs and
--               make_receive_pack_response write. Server/Receive is handle_receive_pack, from git's
--               request to the report; Server/Upload is what handle_upload_pack reads and answers, and
--               Server/Merge how it merges the packs of the contract into one, which Server/Merge/Clone
--               follows to the client, and Server/Merge/Covers what its map of objects
--               covers. Server/Http has the responses with their headers, Server/Call the
--               handlers that speak JSON, Server/ParsePackfile handle_parse_packfile, and Server/Setup the
--               calls of the factory in main.
-- Remote        git-remote-near/src/main.rs: Remote/Session is run, which first reads the contract's ID
--               and the environment, with its commands, list_refs and
--               do_fetch; Remote/Push is do_push with the functions that it calls. What is outside the
--               program is the record Host; Remote/Push/Landing sets it in front of the contract.
--               Remote/Credentials is resolve_network and resolve_credentials.
-- Wasm          wasm-lib/src/lib.rs: Wasm/Borsh has the readers and writers of borsh, Wasm/Json the JSON
--               around them and the objects of the pack builders, Wasm/Packs the functions that call
--               git-core, and Wasm/Transaction create_signed_transaction; the reader of NEAR transactions
--               in Wasm/Transaction/Reader is independent of the code.
-- Json          the values of serde_json, and the packfiles that the server and the browser's library
--               write as such values.
-- Hex, Near,    the parts of Rust's standard library (hexadecimal text, strings) and of near_sdk
-- Text          (promises) that these files use.
-- Prelude       Boolean tests, results, lists and bits that the rest shares.
--
-- A byte slice is a list of numbers, and a position in it is the suffix from there on. A failure is a
-- value of Result: an error text, or a panic where the code has one. A call of the contract that
-- panics has no new state, as the runtime discards its changes. The workspace is built with overflow
-- checks, so that an addition that overflows is a panic; a usize has 64 bits, and 32 in the browser.
--
-- Fuel: a loop over a slice has as much fuel as the slice has bytes, as each round takes one byte at
-- least; encode_size has ten rounds, for 64 bits in groups of seven; a hexadecimal number has sixteen
-- digits at most, for the same 64 bits. parse nests as many calls of resolve as there are entries, more
-- only where an offset is 0. The rounds of the server's merge are at most one more than the deltas, and
-- the rounds of the remote helper at most as many as the lines.
--
-- The collections of near_sdk are the records RefMap and PackMap of Contract/Collections, with the
-- laws that its documentation gives; Contract/Runs has collections that fulfil them.
-- AccountId::from_str and String::from_utf8_lossy are parameters, and so are zlib, SHA-1, SHA-256,
-- ed25519, base58, base64 and serde_json, near_api, reqwest, the programs of git, the environment and
-- the crate borsh.
--
-- Not modelled: the rest of the server's main, which starts a sandbox, funds accounts and routes the
-- requests; the messages that the programs log; zlib_compress and zlib_decompress, which hand their bytes
-- to zlib; the integration tests. The browser's library is compiled with a usize of 32 bits, so that
-- git-core is a parameter there; the theorem about its packfiles is for one of 64 bits.
pub mod Contract
pub mod Factory
pub mod Hex
pub mod Json
pub mod Near
pub mod Packfile
pub mod PktLine
pub mod Prelude
pub mod Remote
pub mod Server
pub mod Text
pub mod Wasm
