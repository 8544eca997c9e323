-- ===== src/PolicyTask/Moments.antt =====
-- main/policy_task.cpp: what a registered function reads of the other parts when it is called.
use power.Prelude.{ℕ, Bool, Option, List, Result}
use power.Prelude.Int.{ℤ}
use power.Prelude.Float.{Float}
use power.RelayManager.{RelayManager, RelayMessage, RelayStatus}
use power.InputManager.{InputManager}
use power.RtcManager.{RtcManager, Bus}
use power.TimeManager.Clock.{TimeManager, Calendar}
use power.ConfigFlags.{Numbers}
use power.ConfigFlags.Store
use power.BatteryBank
use power.BatteryStore.{BatteryStore}
use power.PolicyState.{PolicyState}
use power.PolicyTask.Lua.{LuaLibrary}

-- The libraries that the functions reach.
pub record Libraries (Arg F Double Flash Banks Chip : Type 0) : Type 0 where
  pub lua : LuaLibrary Arg F Double
  pub float : Float F
  pub numbers : Numbers Double
  pub flags : Store.Nvs Flash
  pub banks : BatteryBank.Nvs Banks
  pub bus : Bus Chip
  pub calendar : Calendar

pub record Moment (F Flash Banks Chip : Type 0) : Type 0 where
  pub relays : RelayManager
  pub sent : Bool
  pub reply_queue : Bool
  pub reply : Option (Result RelayStatus)
  pub inputs : InputManager
  pub level_of : ℕ → ℕ
  pub rtc : RtcManager
  pub chip : Chip
  pub rtc_taken : Bool
  pub time : TimeManager
  pub epoch : ℤ
  pub time_taken : Bool
  pub flags : Flash
  pub banks : Banks
  pub allocated : Bool
  pub batteries : BatteryStore F
  pub batteries_taken : Bool
  pub now_us : ℕ
  pub ticks : ℕ

-- What the policy task owns: the memory, and the commands that it has put in the queue of the
-- relays.
pub record Policy : Type 0 where
  pub memory : PolicyState
  pub commands : List RelayMessage
