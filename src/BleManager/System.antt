-- ===== src/BleManager/System.antt =====
-- main/ble_manager.cpp, ble_manager_reset: the task that asks for a reset beside the host task.
-- The caller's three calls before the wait are separate steps, between which the host task may run
-- its callbacks; a callback is one step. The scanner is the sole caller.
use power.Prelude.{
  Bool, true, false, ◌&&◌, not, Option, none, some, List, [], ◌∷◌, if◌then◌else◌, Result, ok, err,
  invalid_state, timeout,
}
use power.BleManager.{
  BleManager, SyncAnswers, ble_on_reset, ble_on_sync, ble_reset_requested, ble_manager_is_synced,
}

-- Where the caller stands in `ble_manager_reset`.
pub data Caller : Type 0 where
  outside exchanged cleared waiting : Caller

-- `queued` says that g_reset_event is in the queue of the host task.
pub record System : Type 0 where
  pub manager : BleManager
  pub caller : Caller
  pub queued : Bool

-- g_reset_pending.exchange(true)
unfoldable pub reset_exchange : System → System
reset_exchange s =
    if s.manager.reset_pending
    then record s { caller = waiting }
    else record s { manager = record s.manager { reset_pending = true }; caller = exchanged }

-- xEventGroupClearBits
unfoldable pub reset_clear : System → System
reset_clear s = record s {
  manager = record s.manager { synced_bit = false; recovery_done_bit = false };
  caller = cleared;
}

-- ble_npl_eventq_put
unfoldable pub reset_put : System → System
reset_put s = record s { queued = true; caller = waiting }

-- What `ble_manager_reset` returns when the wait ends, with the bits of that moment.
unfoldable pub reset_result : BleManager → Result (Unit {0})
reset_result m = if m.recovery_done_bit && ble_manager_is_synced m then ok tt else err timeout

-- The whole of `ble_manager_reset`, where nothing runs between its calls but `others`, what the
-- other tasks do during the wait.
unfoldable pub ble_manager_reset : System → (System → System) → System × Result (Unit {0})
ble_manager_reset s others =
    if not s.manager.started
    then (s, err invalid_state)
    else let asked =
        if s.manager.reset_pending
        then reset_exchange s
        else reset_put (reset_clear (reset_exchange s)) in
      let ended = others asked in (record ended { caller = outside }, reset_result ended.manager)

pub data Event : Type 0 where
  -- the caller's steps
  exchange clear put return : Event
  -- the host task's callbacks
  handle reset : Event
  sync : SyncAnswers → Event

-- The state after an event; `none` where the event cannot come.
unfoldable pub step : System → Event → Option System
step s exchange = elim s.caller [
  | outside ↦ if s.manager.started then some (reset_exchange s) else none
  | _ ↦ none
]
step s clear = elim s.caller [ exchanged ↦ some (reset_clear s) | _ ↦ none ]
step s put = elim s.caller [ cleared ↦ some (reset_put s) | _ ↦ none ]
step s return = elim s.caller [ waiting ↦ some (record s { caller = outside }) | _ ↦ none ]
step s handle =
    if s.queued
    then some (record s { manager = ble_reset_requested s.manager; queued = false })
    else none
step s reset = some (record s { manager = ble_on_reset s.manager })
step s (sync host) = some (record s { manager = ble_on_sync s.manager host })

unfoldable pub run : System → List Event → Option System
run s [] = some s
run s (e ∷ es) = elim (step s e) [ none ↦ none | some s' ↦ run s' es ]

-- The system when ble_manager_start has returned.
unfoldable pub started : BleManager → System
started m = record { manager = m; caller = outside; queued = false }
