-- ===== src/BatteryScanner/Observed.antt =====
-- main/battery_scanner.cpp: the observation of a probe is one that the battery store takes.
use power.Prelude.{ℕ, ◌≡◌, Bool, true, false, some, ◌==◌, Text, arith, Option-cases, inl, inr}
use power.Prelude.Float.{Float}
use power.Prelude.Memory.{Memory, shift}
use power.JbdProtocol.{JbdBasicInfo, JbdCellInfo, given, jbd_parse_cell_info, jbd_cell_info_command}
use power.BatteryStore.{battery_store_valid_name, accepts}
use power.BatteryScanner.Probe.{ProbeState}
use power.BatteryScanner.Sequence.{Step, Session, request_jbd_packet}
use power.BatteryScanner.Probing.{observe, basic_observation, with_cells, parse_cells}

jbd_parse_cell_info-count :
    (frame : Memory) (length expected : ℕ) (cells : JbdCellInfo)
    → jbd_parse_cell_info (some frame) length expected given ≡ some cells
    → (cells.count ≡ expected) × ((expected == 0) ≡ false)
unfolding jbd_parse_cell_info
jbd_parse_cell_info-count frame length expected cells h = ground arith

parse_cells-count :
    (p : ProbeState) (expected : ℕ) (answered : Bool) (cells : JbdCellInfo)
    → parse_cells p expected answered ≡ some cells
    → (cells.count ≡ expected) × ((expected == 0) ≡ false)
parse_cells-count p expected true cells h =
    jbd_parse_cell_info-count (shift p.rx p.packet_offset) p.packet_len expected cells h
parse_cells-count p expected false cells h = cc

module _ {F : Type 0} (f : Float F) (env : ℕ → Step) where
  -- Whatever the battery answers, the observation that a probe makes of it passes the checks of
  -- battery_store_record_observation: its cells are only valid where they are as many as the basic
  -- information says, and from 1 to 32. The name is valid for the store.
  pub observe-accepts :
      (s : Session F) (basic : JbdBasicInfo F) (name : Text)
      → battery_store_valid_name (some name) ≡ true
      → accepts (some name) (some (observe f env s basic).1) ≡ true
  unfolding accepts observe basic_observation with_cells
  observe-accepts s basic name named =
      let (s', answered) = request_jbd_packet env s jbd_cell_info_command in
      elim (Option-cases (parse_cells s'.probe basic.cell_count answered)) [
        | inl none_read ↦ ground (arith, named, none_read)
        | inr (cells, read) ↦
            ground
              (arith, named, read, parse_cells-count s'.probe basic.cell_count answered cells read)
      ]
