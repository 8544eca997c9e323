-- ===== src/PolicyTask/Tests.antt =====
-- main/policy_task.cpp: a program that stores a value and switches a relay on.
use power.Prelude.{
  ℕ, ◌≡◌, ◌≢◌, refl, Bool, true, false, Option, none, some, List, [], ◌∷◌, ◌+◌, ◌-◌, leb, length,
  if◌then◌else◌, ltb, replicate, ◌%◌, ◌^◌, str_eq, Text, codes, Result, ok, err, not_found,
  not_supported, nvs_not_found, arith,
}
use power.Prelude.Int.{ℤ, pos, pos_part}
use power.BoardConfig.{default_config}
use power.RelayManager
use power.RelayManager.{RelayMessage, MessageType}
use power.RelayManager.Api.{relay_manager_count, relay_manager_on_for}
use power.TimeManager.Clock
use power.ConfigFlags.Store
use power.ConfigFlags.Store.{Config, no_more}
use power.PolicyStorage
use power.PolicyStorage.{PolicySlot, policy_storage_read_alloc, read_blob_alloc, key_for}
use power.Checksum.{checksum_sha1}
use power.PolicyState.{initial, get, set, begin_cycle, finish_cycle, valid_name, find_entry}
use power.PolicyTask.Lua.{LuaLibrary}
use power.PolicyTask.Moments.{Libraries, Moment, Policy}
use power.PolicyTask.Commands.{
  relay_on, policy_state_set, call_function, lua_relay_on, lua_policy_state_set,
  lua_policy_state_name,
}
use power.PolicyTask.Reading.{lua_check_relay}
use power.PolicyTask.Cycle.{
  Program, finished, call, Loaded, program, run_policy_cycle, run_program, run_lua_policy,
  next_delay,
}
use power.PolicyTask.Bounded.{Adds, run_policy_cycle-Adds}
use power.PolicyTask.Isolation.{run_policy_cycle-isolated}
use power.PolicyTask.Forgetting.{Completed, run_policy_cycle-Completed}
use power.PolicyTask.Waiting.{next_delay-unwrapped}

data Given : Type 0 where
  num : ℕ → Given
  txt : Text → Given
  flag : Bool → Given

abbrev as_integer : Given → Option ℤ
as_integer (num n) = some (pos n)
as_integer _ = none

abbrev as_text : Given → Option (List ℕ)
as_text (txt t) = some t
as_text _ = none

abbrev as_boolean : Given → Option Bool
as_boolean (flag b) = some b
as_boolean _ = none

abbrev given : LuaLibrary Given ℕ ℕ
given = record {
  to_integer = as_integer;
  to_text = as_text;
  is_nil = λ a. false;
  to_boolean = as_boolean;
  tolstring = λ a. [];
  narrow = λ d. d;
  wrap = λ z. z;
}

abbrev empty_flash : Store.Nvs Bool
empty_flash = record {
  nvs_open = λ space write s. ok tt;
  get_str = λ s key room. err nvs_not_found;
  set_str = λ s key text. (s, ok tt);
  get_u32 = λ s key. err nvs_not_found;
  set_u32 = λ s key n. (s, ok tt);
  erase_key = λ space s key. (s, err nvs_not_found);
  commit = λ space s. (s, ok tt);
  entries = λ space s. no_more;
}

abbrev libraries : Libraries Given ℕ ℕ Bool Bool Bool
libraries = record {
  lua = given;
  float = record {
    of_int = pos_part;
    add = λ a b. a + b;
    sub = λ a b. a - b;
    div = λ a b. a;
    lt = ltb;
  };
  numbers = record { strtoll = λ t. none; strtod = λ t. none; of_integer = pos_part };
  flags = empty_flash;
  banks = record {
    nvs_open = λ write s. ok tt;
    get_blob = λ s. err nvs_not_found;
    set_blob = λ s b. (s, ok tt);
    commit = λ s. (s, ok tt);
  };
  bus = record { read = λ c r n. err not_found; write = λ c r bytes. (c, ok tt) };
  calendar = record { gmtime = λ z. none; localtime = λ t z. none; zone_name = λ t tm. [] };
}

abbrev two_relays : RelayManager.RelayManager
two_relays = record RelayManager.initial {
  queue_created = true;
  hardware = record default_config.relay { count = 2 };
}

abbrev moment : ℕ → Moment ℕ Bool Bool Bool
moment i = record {
  relays = two_relays;
  sent = true;
  reply_queue = true;
  reply = none;
  inputs = record {
    status = record {
      present = false;
      initialized = false;
      initialization_result = err not_supported;
      count = 0;
    };
    hardware = default_config.digital_input;
  };
  level_of = λ pin. 0;
  rtc = record {
    status = record {
      present = false;
      initialized = false;
      initialization_result = err not_supported;
    };
    hardware = default_config.rtc;
  };
  chip = true;
  rtc_taken = true;
  time = Clock.initial;
  epoch = pos 0;
  time_taken = true;
  flags = true;
  banks = true;
  allocated = true;
  batteries = record { slots = []; mutex_created = true };
  batteries_taken = true;
  now_us = 0;
  ticks = i;
}

abbrev programs : PolicyStorage.Nvs (List ℕ) Bool
programs = record {
  flash_init = λ s. (s, ok tt);
  flash_erase = λ s. ([], ok tt);
  nvs_open = λ write s. ok tt;
  blob_length = λ s key. ok (length s);
  get_blob = λ s key n. ok s;
  set_blob = λ s key bytes. (bytes, ok tt);
  erase_key = λ s key. ([], ok tt);
  commit = λ s. (s, ok tt);
  get_stats = λ s. ok true;
  partition_size = some 65536;
}

-- policy_state_set("mode", true) relay_on(2, 60)
abbrev script : Program Given ℕ
script =
    call policy_state_set (txt (codes "mode") ∷ (flag true ∷ []))
      (λ o. call relay_on (num 2 ∷ (num 60 ∷ [])) (λ o'. finished true))

abbrev load : List ℕ → Loaded Given ℕ
load bytes = program script

abbrev hash : List ℕ → Result (List ℕ × ℕ)
hash bytes = ok (replicate 20 7, 20)

abbrev idle : Policy
idle = record { memory = initial; commands = [] }

abbrev no_flags : Config Bool
no_flags = record { flash = true; deadlines = [] }

abbrev cycle : Policy → Policy × Config Bool
cycle p = run_policy_cycle libraries moment 6000 load hash programs p no_flags (7 ∷ []) 0 true true

run_policy_cycle-Adds_example : Adds 2 idle (cycle idle).0
run_policy_cycle-Adds_example =
    run_policy_cycle-Adds libraries 2 moment (λ i. omega arith) 6000 load hash programs idle
      no_flags (7 ∷ []) 0 true true

stored-commands :
    (cycle idle).0.commands
    ≡ record { type = MessageType.on_for; relay = 2; seconds = 60; wants_reply = false } ∷ []
unfolding run_policy_cycle policy_storage_read_alloc read_blob_alloc checksum_sha1 run_lua_policy
    run_program call_function lua_relay_on lua_check_relay relay_manager_count relay_manager_on_for
    lua_policy_state_set lua_policy_state_name valid_name set begin_cycle
stored-commands = refl

abbrev mode : Option Text
mode = some (codes "mode")

stored-mode : get (cycle idle).0.memory mode false ≡ true
unfolding run_policy_cycle policy_storage_read_alloc read_blob_alloc checksum_sha1 run_lua_policy
    run_program call_function lua_relay_on lua_check_relay relay_manager_count relay_manager_on_for
    lua_policy_state_set lua_policy_state_name valid_name set begin_cycle finish_cycle get
    find_entry str_eq
stored-mode = refl

not-false : {b : Bool} → b ≡ true → b ≢ false
not-false h e = cc

run_policy_cycle-Completed_example :
    Completed libraries moment 6000 load hash idle
      (cycle idle).0
      true
      (policy_storage_read_alloc programs (7 ∷ []) PolicySlot.active true true)
run_policy_cycle-Completed_example =
    run_policy_cycle-Completed libraries moment 6000 load hash programs idle no_flags (7 ∷ []) 0
      true true mode false (not-false stored-mode)

-- The memory of another program.
abbrev other : Policy
other = record {
  memory = record initial { count = 1; digest = replicate 20 9; have_digest = true };
  commands = [];
}

run_policy_cycle-isolated_example :
    let after = (cycle other).0 in
    let fresh = (cycle (record other { memory = initial })).0 in
    (after.commands ≡ fresh.commands) × (get after.memory mode false ≡ get fresh.memory mode false)
unfolding policy_storage_read_alloc read_blob_alloc checksum_sha1 str_eq
run_policy_cycle-isolated_example =
    run_policy_cycle-isolated libraries moment 6000 load hash programs other no_flags (7 ∷ []) 0
      true true (7 ∷ []) (replicate 20 7) mode false (record { slots = refl; within = omega arith })
      refl refl refl

next_delay-unwrapped_example :
    next_delay (4294967000 % 2 ^ 32) (4294967500 % 2 ^ 32) (4294967501 % 2 ^ 32)
    ≡ (if leb (4294967000 + 6000) 4294967501 then none else some (4294967000 + 6000 - 4294967500))
next_delay-unwrapped_example =
    next_delay-unwrapped 4294967000 4294967500 4294967501 (omega arith) (omega arith) (omega arith)
