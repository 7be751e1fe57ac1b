-- ===== src/Tests.antt =====
-- Concrete runs of the theorems. The data: two bots, A and B, in the configuration and on the server,
-- at the slots 0 and 1, and an engine that reacts to nothing.
mod Identities
mod Bridge
mod Slots
mod Detours
mod Plugin
mod Avatars
use cs2_bot_hider.Base.{ℕ, ◌+◌, Bool, true, false, List, [], ◌∷◌, Option, none, some, replicate}
use cs2_bot_hider.Base.Int.{ℤ, pos, negsuc}
use cs2_bot_hider.BotInfo.{BotEntry, BotInfoStore, no_clan_tag}
use cs2_bot_hider.Engine.{Engine, controller_class, EngineCall, Client, Entity, Identity}
use cs2_bot_hider.Manager.{Manager, Persona, empty_slot, adopt_slot}
use cs2_bot_hider.Manager.Slots.{persona}
use cs2_bot_hider.ClientHooks.{Reasons}
use cs2_bot_hider.Avatar.{StringTables, empty_avatars}
use cs2_bot_hider.Detours.State.{no_detours}
use cs2_bot_hider.World.{World, IdentityMode}

abbrev pub quiet : EngineCall → Engine → Engine
quiet c e = e

abbrev pub reasons : Reasons
reasons = record {
  kicked = 39;
  ban_added = 40;
  kick_ban_added = 41;
  kicked_team_killing = 150;
  kicked_insecure_client = 160;
}

abbrev pub name_a : List ℕ
name_a = b'A' ∷ []

abbrev pub name_b : List ℕ
name_b = b'B' ∷ []

abbrev pub entry_of : List ℕ → ℕ → BotEntry
entry_of name id = record {
  name = name;
  account_id = id;
  steam_id64 = 76561197960265728 + id;
  crosshair_code = [];
  scoreboard_flair = 0;
  clan_tag = no_clan_tag;
}

abbrev pub store : BotInfoStore
store = record {
  entries = entry_of name_a 7 ∷ entry_of name_b 8 ∷ [];
  assigned = false ∷ false ∷ [];
  rng_state = 1;
}

abbrev pub client_of : ℕ → Client
client_of ptr = record {
  name = none;
  entity_index = pos (ptr + 1);
  connection_flags = 8;
  fake_player = 1;
  user_id = ptr + 2;
  steam_id = 0;
  steam_id_mirror = 0;
  is_hltv_byte = 0;
}

abbrev pub engine : Engine
engine = record {
  server_clients = some (some 100 ∷ some 101 ∷ []);
  client = client_of;
  entity_system = false;
  chunks = λ _. none;
  entity = λ _. record {
    has_identity = false;
    identity_flags = 0;
    handle = 0;
    flags = 0;
    pawn_handle = 0;
    idle_time = none;
  };
  deletion_flags = 3;
  entry_index = λ handle. pos handle;
  util_remove_target = true;
  has_pawn_handle = false;
  has_set_name = false;
  calls = [];
}

abbrev pub manager : Manager
manager = record {
  slots = λ _. empty_slot 5;
  signatures = [];
  rng_state = 5;
  next_incarnation = 5;
  signature_count = 0;
  ready = true;
  attached = true;
  fake_ping_enabled = true;
  fake_ping_minimum = 20;
  fake_ping_maximum = 60;
  bridge_thread = λ _. true;
}

abbrev pub world : World
world = record {
  manager = manager;
  info = store;
  engine = engine;
  slot_entries = λ _. none;
  original_slot_names = λ _. [];
  pending_controller_removals = [];
  pending_bot_kicks = [];
  identity_mode = IdentityMode.player;
  start_in_player_mode = false;
  use_bot_info_name = true;
  population_depth = 0;
  clock = 9;
  avatars = empty_avatars;
  detours = no_detours;
  plugin = record {
    hooked_game_server = none;
    level_hooks = λ _. false;
    is_loaded = true;
    tick_counter = 0;
  };
}

abbrev pub persona_a : Persona
persona_a = persona name_a [] [] 76561197960265735 3 0

-- String tables with one table, which takes everything.
abbrev pub tables : StringTables
tables = record {
  State = ℕ;
  find_table = λ st. some 1;
  num_strings = λ st table. 0;
  find_string_index = λ st table name. negsuc 0;
  user_data_size = λ st table. none;
  add_string = λ st table name bytes. (st + 1, pos st);
  set_user_data = λ st table index bytes. (st, true);
  reliable = λ st. true;
  get_reliable = λ st. true;
  set_reliable = λ st. st;
}

-- Bot A at slot 0, with its client and a controller.
abbrev pub managed_world : World
managed_world = record world {
  manager = adopt_slot manager 5 0 persona_a;
  engine = record engine {
    entity_system = true;
    chunks = λ _. some (λ _. record { class_name = some controller_class; instance_ptr = some 7 });
    entity = λ _. record {
      has_identity = true;
      identity_flags = 0;
      handle = 3;
      flags = 0x20;
      pawn_handle = 0;
      idle_time = none;
    };
  };
}
