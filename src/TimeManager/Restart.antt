-- ===== src/TimeManager/Restart.antt =====
-- main/time_manager.cpp with main/rtc_manager.cpp: a time that is set survives a restart.
use power.Prelude.{◌≡◌, refl, true, ok}
use power.Prelude.Int.{pos}
use power.RtcManager.{
  RtcDateTime, RtcManager, Bus, rtc_datetime_valid, rtc_manager_set, rtc_manager_read,
  set_datetime_unlocked, read_datetime_unlocked,
}
use power.RtcManager.Device.{IsMemory, stored, set_datetime_unlocked-stores}
use power.TimeManager.{rtc_to_epoch}
use power.TimeManager.Civil.{seconds_since_1970, rtc_to_epoch-count}
use power.TimeManager.Clock.{
  TimeManager, rtc, manual, set_system_time, time_manager_set_utc, time_manager_seed_from_rtc,
}

rtc_to_epoch-stored : (v : RtcDateTime) → rtc_to_epoch (stored v) true ≡ rtc_to_epoch v true
unfolding rtc_to_epoch rtc_datetime_valid
rtc_to_epoch-stored v = refl

module _ {Chip : Type 0} (bus : Bus Chip) (mem : IsMemory bus) where
  rtc_manager_set-opened :
      (m : RtcManager) (chip : Chip) (v : RtcDateTime)
      → m.status.initialized ≡ true
      → rtc_datetime_valid v ≡ true
      → rtc_manager_set bus m chip v true ≡ set_datetime_unlocked bus m.hardware chip v
  unfolding rtc_manager_set
  rtc_manager_set-opened m chip v works valid = rw (works, valid) refl

  set_utc-stored :
      (t : TimeManager) (m : RtcManager) (chip : Chip) (v : RtcDateTime)
      → m.status.initialized ≡ true
      → rtc_datetime_valid v ≡ true
      → time_manager_set_utc bus t m chip v true true true ≡ (
        record t { system_time = pos (seconds_since_1970 v); clock_valid = true; source = manual },
        (set_datetime_unlocked bus m.hardware chip v).0,
        ok tt,
      )
  unfolding time_manager_set_utc set_system_time
  set_utc-stored t m chip v works valid =
      let (done, read, control) = set_datetime_unlocked-stores bus mem m.hardware chip v valid in
      rw
        (
          rtc_manager_set-opened m chip v works valid,
          done,
          rtc_to_epoch-count v valid,
          time_manager_set_utc,
        )
        (rw (rtc_manager_set-opened m chip v works valid) refl)

  seed-stored :
      (t : TimeManager) (m : RtcManager) (chip : Chip) (v : RtcDateTime)
      → m.status.initialized ≡ true
      → rtc_datetime_valid v ≡ true
      → read_datetime_unlocked bus chip ≡ ok (stored v)
      → time_manager_seed_from_rtc bus t m chip true true true ≡ (
        record t { system_time = pos (seconds_since_1970 v); clock_valid = true; source = rtc },
        ok tt,
      )
  unfolding time_manager_seed_from_rtc set_system_time rtc_manager_read
  seed-stored t m chip v works valid read =
      rw
        (works, read, rtc_to_epoch-stored v, rtc_to_epoch-count v valid, time_manager_seed_from_rtc)
        refl

  -- On a chip that answers and holds what is written, with both clock managers initialized, every
  -- mutex taken and settimeofday successful: setting a valid UTC time sets the system time to
  -- the seconds since 1970, from a manual source; and after a restart, with any other state
  -- of the time manager, the system time is seeded with the same seconds from that chip.
  pub set_utc-seed :
      (t t2 : TimeManager) (m m2 : RtcManager) (chip : Chip) (v : RtcDateTime)
      → m.status.initialized ≡ true
      → m2.status.initialized ≡ true
      → rtc_datetime_valid v ≡ true
      → let (t1, chip1, result) = time_manager_set_utc bus t m chip v true true true in
        let epoch = pos (seconds_since_1970 v) in
        (result ≡ ok tt)
        × (t1 ≡ record t { system_time = epoch; clock_valid = true; source = manual })
        × (time_manager_seed_from_rtc bus t2 m2 chip1 true true true
            ≡ (record t2 { system_time = epoch; clock_valid = true; source = rtc }, ok tt))
  set_utc-seed t t2 m m2 chip v works works2 valid =
      let (done, read, control) = set_datetime_unlocked-stores bus mem m.hardware chip v valid in
      rw (set_utc-stored t m chip v works valid)
        (refl, refl, seed-stored t2 m2 _ v works2 valid read)
