-- ===== src/LogBuffer/Tests.antt =====
-- Runs of main/log_buffer.cpp.
use power.Prelude.{◌≡◌, refl, true, List, [], ◌∷◌, ◌++◌, map, Text, codes, arith}
use power.LogBuffer.{LogBuffer, stored_line, log_buffer_snapshot, log_buffer_bytes}
use power.LogBuffer.Recent.{last, joined, log_all, log_all-snapshot}

abbrev opened : LogBuffer
opened = record { text = codes "boot"; mutex_created = true }

abbrev entries : List Text
entries = codes "relay 1 on" ∷ codes "relay 1 off" ∷ []

log_all-snapshot_example :
    log_buffer_snapshot (log_all opened entries) true 8 true
    ≡ last 8 (last log_buffer_bytes (codes "boot" ++ joined (map stored_line entries)))
log_all-snapshot_example = log_all-snapshot entries opened 8 refl (omega arith)
