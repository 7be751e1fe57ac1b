-- ===== src/Lib.antt =====
-- Verification of CS2 BotHider's native plugin: the part of the C++ program that gives bots the
-- identities of players, keeps track of them, and serves them to the managed side.
--
-- The program's parts, and the files that model them. The plugin hooks the engine: when a bot
-- connects, it picks an identity from the configuration that is free, stores it in the manager's
-- slot, and writes it to the engine's client; when the client leaves, the identity is given back.
-- The managed side reads the slots and changes them through exported functions, which are guarded by
-- the slot's incarnation. What cannot be done inside a hook is queued and done in the frame.
--
--   Random        the xorshift64* step of src/features/identity/fake_client_manager.cpp,
--                 src/features/botinfo/bot_info.cpp and src/features/ping/ping_display.cpp
--   Ping          PingDisplay and PingJitter of src/features/ping/ping_display.h and .cpp;
--                 Ping/Window (the ring buffer), Ping/Range (bounds) and
--                 Ping/Turns (tick by tick)
--   Text          CopyText, CopyInput and the C strings that are read back
--   BotInfo       BotInfoStore of src/features/botinfo/bot_info.h and .cpp; BotInfo/AccountId
--                 (ParseAccountId), BotInfo/Load (Load, and ParseClanTag of
--                 src/features/clantag/clan_tag.cpp), BotInfo/Pick (PickForBot)
--   Snapshot      the records and sizes of src/bridge/bridge.h
--   Manager       FakeClientManager of src/features/identity/fake_client_manager.h and .cpp;
--                 Manager/Slots (adoption and release), Manager/Pings (the shown pings),
--                 Manager/Calls (its calls in any order), Manager/Kept (the shown avatars)
--   Config        src/core/config.h and .cpp; Config/Range (the range of the pings)
--   Engine        the engine's memory as src/core/entity/serversideclient_ref.h and
--                 src/core/entity/entity_access.cpp read and write it
--   Png           HasPngStructure of src/bridge/exports.cpp; Png/Chunks (its loop), Png/Size
--   World         the state behind the hooks, with src/features/identity/identity_state.h and .cpp;
--                 World/Identities (what each change of the manager does to the SteamIDs)
--   Runtime       src/features/identity/identity_runtime.cpp; Runtime/Occupied (the SteamIDs in
--                 use), Runtime/Removals and Runtime/Handles (the queue of controllers),
--                 Runtime/Pawns (the bot flag of the pawns while entities are packed)
--   Avatar        src/features/avatar/avatar_override.cpp; Avatar/Owners (which slot owns an entry
--                 of the string table), Avatar/Shown, Avatar/Pass and Avatar/Runs (what a slot
--                 shows), Avatar/Identities (the SteamIDs stay)
--   Detours       src/features/identity/identity_hooks.cpp: the scopes and the transactions;
--                 Detours/State (its globals), Detours/Frames (the callbacks),
--                 Detours/Install (installation). A scope's round trip: Detours/Skeleton and
--                 Detours/Captured, Restored, Loops (its turns), Detours/FlagLaws,
--                 Detours/Saved and Detours/RoundTrip. The nesting: Detours/Calls, an abstract
--                 stack of frames, with Calls/Stacks, Transactions, Population, Scopes,
--                 Commands and Calls/Refines; Detours/Still (what all this leaves alone)
--   ClientHooks   src/features/identity/client_hooks.cpp; ClientHooks/Unique and ClientHooks/Outcome
--   Commands      src/features/identity/command_hooks.cpp; Commands/Dispatch (the hooks
--                 of commands, level changes and frames), Commands/Kicks, Commands/Outcome and
--                 Commands/Unique
--   Offsets       src/core/offsets.cpp: which offsets are required, and which are found
--   Plugin        src/plugin.cpp: levels and the virtual hooks; Plugin/Load (load and unload),
--                 Plugin/Hooked (the hook of the level change), Plugin/Failure (failed loads)
--   Exports       src/bridge/exports.cpp; Exports/Guards and Exports/Unique
--   Server        the hooks, detours, exports and frames as steps of one relation; Server/Unique,
--                 with Server/Detours and Server/Frame
--   Base          shared names, Boolean tests, lists over the native numbers, integers,
--                 the digits of numbers (Base/Bits)
--   Tests         concrete runs
--
-- State and operations. A C++ object is a record, and a method is a function from the state to the
-- state, with its result beside it; methods keep their names in lower case with underscores. The
-- singletons (Manager(), BotInfo(), the arrays and queues of identity_state.cpp, the plugin's modes)
-- are fields of `World`. Each early return is a branch. Clients, entities and controllers are named
-- by address, and a null pointer is `none`. A call into the engine is noted in the engine's `calls`,
-- and what the engine then does to its own memory is the parameter `react`, any function at all;
-- that a call comes back into the plugin's hooks is not modelled in `react`, but hooks may be called
-- in any order as steps. Readings of the clock and the calling thread are arguments.
--
-- Integers. 64-bit generators and counters wrap at 2^64, the avatar sequence at 2^32, the PNG step
-- at 2^32. Signed arguments of the bridge are integers; latencies are natural numbers, as the clamp
-- to a range from 1 keeps them.
--
-- Fuel. Only the chunk loop of HasPngStructure uses it, with the number of bytes of the file, which is
-- enough: each turn passes 12 bytes or more. Other loops run over a list or a number of slots.
--
-- Detours. The engine's functions run between a Pre and its Post, with any other hook inside; a run is a
-- sequence of Pres and Posts with other changes between them. The thread-local stacks are those of the
-- game thread. Restoring gives the memory back for reactions of the engine that change nothing, which
-- is what marking an entity's field as changed does.
--
-- Third-party code. The JSON library, the string tables, the protocol's disconnect reasons, the hook
-- library's answers and what the SDK resolves (`Environment`) are parameters.
--
-- Not modelled: signature scanning, the reading of the game data, the interfaces and KHook (src/core/gamedata.cpp,
-- src/core/interfaces.cpp, src/utils/hooks.h), which are glue over third-party code, but for what a load
-- makes of their outcome; logging and error texts; the default configuration file that is written;
-- the packing mutex; the managed side and the tools.
pub mod Base
pub mod Random
pub mod Ping
pub mod Text
pub mod BotInfo
pub mod Snapshot
pub mod Manager
pub mod Engine
pub mod Offsets
pub mod Plugin
pub mod Png
pub mod World
pub mod Runtime
pub mod ClientHooks
pub mod Commands
pub mod Exports
pub mod Server
pub mod Config
pub mod Avatar
pub mod Detours
mod Tests
