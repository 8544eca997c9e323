-- ===== src/Lib.antt =====
-- The firmware of the Power4 relay controller (main/), which switches relays for a time, reads
-- batteries over BLE, keeps a clock, and runs a policy program.
--
-- The parts and the files that model them:
--   * RelayManager: main/relay_manager.cpp. A task owns the relays: it takes messages from a queue
--     and ends timers. Driver models the calls of GPIO and of the TCA9554, Task the messages and
--     timers, Api the functions of other tasks and the start. What a driver returns is an argument
--     of each definition, and the calls that succeeded are kept, so that the level of an output
--     can be told from them. Wishes says, without the code's state, what the messages and the time
--     ask of a relay.
--   * BoardConfig: main/board_config.cpp, the description of a board, and in Validate which
--     descriptions are accepted. RelayManager, InputManager and RtcManager take it.
--   * InputManager: main/input_manager.cpp, the digital inputs.
--   * RtcManager: main/rtc_manager.cpp, the PCF85063A clock; the I2C bus with the chip is a
--     parameter.
--   * JbdProtocol: main/jbd_protocol.cpp, the frames of the batteries. BatteryStore:
--     main/battery_store.cpp, the last observation of each battery, in sixteen slots. BatteryBank:
--     main/battery_bank.cpp, the named banks of batteries, in NVS, a parameter, and in State what
--     the store says of a bank.
--   * BatteryScanner: main/battery_scanner.cpp, of which Adv reads the advertisements, Candidates
--     keeps what was seen, Probe has the callbacks of a connection and Sequence the steps of the
--     task between them, Probing the probe of one battery and the end of its connection, Scan the
--     scan and the loop of the task. What the BLE host answers at each step, and the callbacks it
--     runs while the task waits, are a parameter. It searches for packets with JbdProtocol and
--     records what it reads in BatteryStore.
--   * BleManager: main/ble_manager.cpp, the start of the BLE host and its
--     recovery; System has the task that asks for a reset beside the host task, in single steps.
--   * TimeManager: main/time_manager.cpp, the system time and its zone, over RtcManager.
--   * ConfigFlags: main/config_flags.cpp, the parameters of the policy program: texts and
--     lifetimes in NVS, and a table of deadlines. PolicyStorage: main/policy_storage.cpp, the
--     active and the staged program.
--   * PolicyState: main/policy_state.cpp, the Boolean memory of the policy program. Spec says what
--     that memory is, and Refine compares the two.
--   * NetworkConsole: main/network_console.cpp, the password of the TCP console, and in Authenticate
--     the challenge and the answer of a client; the HMAC and base64 are parameters. Line,
--     Challenge and Digits describe what is received and sent without the loops of the code.
--   * PolicyTask: main/policy_task.cpp, the task that runs the policy program once a minute. Lua has
--     what Lua gives and takes, Reading, Parameters and Commands the functions that a program can
--     call, over the parts above, and Cycle the run of a program, with PolicyStorage, Checksum and
--     PolicyState. Lua itself is a parameter: a program is any tree of calls and outcomes.
--   * BleDisconnect: main/ble_disconnect.cpp, which releases the connection to a peer; the BLE host
--     is a parameter.
--   * Checksum: main/checksum.cpp. LogBuffer: main/log_buffer.cpp.
--   * Prelude: the shared helpers: tests on numbers, lists, esp_err_t as a result, texts as lists
--     of character codes, float as a type with operations, memory behind a pointer.
-- A definition has the name of the function that it models. The globals of a file are one record,
-- which goes in and comes out. Time, the answers of FreeRTOS and of the drivers, and whether a
-- pointer is null are arguments; during one call the time is the same. NVS, the BLE host and the C
-- library are parameters, with records (IsKept, IsMemory) that say what a theorem needs of them.
--
-- Loops are structural: a loop over an index runs on the rounds that are left, which are as many
-- as the bound of the loop, so these cannot run out of fuel. The one loop without a bound, the wait
-- of BleDisconnect, runs on fuel; 21 rounds are enough, as each takes 250 of the 5000 ms that the
-- wait may last. The sizes of the sdkconfig (8 relays, 16 batteries, 4 banks) are constants.
-- Integers are natural numbers, with the wrap of a narrower type written out where the code can
-- reach it.
--
-- Not modelled: log output, the text of errors, and the arithmetic of float (its operations are
-- parameters). Of main/board_config.cpp the loading from NVS, of main/network_console.cpp the
-- sockets and the sessions. Callbacks of the BLE host that run while the scanner task is not
-- waiting are taken to run at its next wait. The parts
-- main/ethernet_manager.cpp, main/console.cpp, the GATT services, the reports and the programs for
-- a host are not modelled: they are larger state machines or calls of libraries.
pub mod Prelude
pub mod BoardConfig
pub mod InputManager
pub mod BatteryBank
pub mod BleDisconnect
pub mod BleManager
pub mod RelayManager
pub mod RtcManager
pub mod TimeManager
pub mod BatteryStore
pub mod BatteryScanner
pub mod Checksum
pub mod LogBuffer
pub mod NetworkConsole
pub mod JbdProtocol
pub mod PolicyState
pub mod PolicyTask
pub mod ConfigFlags
pub mod PolicyStorage
