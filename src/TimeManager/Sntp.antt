-- ===== src/TimeManager/Sntp.antt =====
-- main/time_manager.cpp: the start of SNTP, its callback, and the task that takes its messages.
-- What FreeRTOS and SNTP answer are arguments.
use power.Prelude.{
  Bool, true, not, Option, none, some, if◌then◌else◌, Result, ok, err, no_mem, not_supported, ◌>>◌,
}
use power.Prelude.Int.{ℤ}
use power.RtcManager.{RtcManager, Bus, rtc_manager_set}
use power.TimeManager.{Tm, epoch_to_rtc}
use power.TimeManager.Clock.{TimeManager, sntp}

module _ {Chip : Type 0} (bus : Bus Chip) where
  -- The chip is set to the time of a message, where it is present and works.
  unfoldable pub update_rtc :
      (ℤ → Option Tm) → RtcManager → Chip → ℤ → Bool → Chip × Result (Unit {0})
  update_rtc gmtime m chip seconds rtc_taken =
      if not m.status.present
      then (chip, err not_supported)
      else if not m.status.initialized
      then (chip, m.status.initialization_result)
      else elim (epoch_to_rtc gmtime seconds true) [
        | err e ↦ (chip, err e)
        | ok value ↦ rtc_manager_set bus m chip value rtc_taken
      ]

  -- A round of the loop of `sync_task_main`, when there is a message; the last part is logged.
  unfoldable pub sync_task_round :
      (ℤ → Option Tm)
      → TimeManager
      → RtcManager
      → Chip
      → Bool
      → Bool
      → TimeManager × Chip × Result (Unit {0})
  sync_task_round gmtime t m chip taken rtc_taken = elim t.message [
    | none ↦ (t, chip, ok tt)
    | some seconds ↦
        let received = record t { message = none } in
        let (chip', result) = update_rtc gmtime m chip seconds rtc_taken in
        (
          if taken
              then record received { clock_valid = true; source = sntp; last_sntp_sync = seconds }
              else received,
          chip',
          result,
        )
  ]

-- xQueueOverwrite
unfoldable pub sntp_sync_callback : TimeManager → Option ℤ → TimeManager
sntp_sync_callback t none = t
sntp_sync_callback t (some seconds) =
    if not t.has_queue then t else record t { message = some seconds }

abbrev pub start_queue : TimeManager → Bool → TimeManager × Result (Unit {0})
start_queue t created =
    if t.has_queue
    then (t, ok tt)
    else if created
    then (record t { has_queue = true; message = none }, ok tt)
    else (t, err no_mem)

abbrev pub start_task : TimeManager → Bool → TimeManager × Result (Unit {0})
start_task t created =
    if t.has_task
    then (t, ok tt)
    else if created
    then (record t { has_task = true }, ok tt)
    else (t, err no_mem)

unfoldable pub time_manager_start_sntp :
    TimeManager → Bool → Bool → Result (Unit {0}) → Bool → TimeManager × Result (Unit {0})
time_manager_start_sntp t queue_created task_created sntp_init taken =
    if t.sntp_started
    then (t, ok tt)
    else let (queued, queue_result) = start_queue t queue_created in
      let (tasked, task_result) = start_task queued task_created in
      elim queue_result [
        | err e ↦ (queued, err e)
        | ok _ ↦ elim (task_result >> sntp_init) [
          | err e ↦ (tasked, err e)
          | ok _ ↦ (if taken then record tasked { sntp_started = true } else tasked, ok tt)
        ]
      ]
