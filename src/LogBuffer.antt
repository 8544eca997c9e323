-- ===== src/LogBuffer.antt =====
-- main/log_buffer.hpp and main/log_buffer.cpp: the most recent log text.
-- `text` is the first `g_length` bytes of `g_buffer`; no others are ever read. Whether the mutex
-- was created or taken is an argument.
pub mod Recent
mod Tests
use power.Prelude.{
  ℕ, zero, suc, ◌+◌, ◌-◌, Bool, true, false, ◌&&◌, not, Option, none, some, List, [], ◌∷◌, ◌++◌,
  ltb, leb, ◌==◌, if◌then◌else◌, length, take, drop, set, Text, Result, ok, err, no_mem,
}

abbrev pub log_buffer_bytes : ℕ
log_buffer_bytes = 16384

abbrev pub line_max_bytes : ℕ
line_max_bytes = 256

pub record LogBuffer : Type 0 where
  pub text : Text
  pub mutex_created : Bool

unfoldable pub append_locked : Text → Text → Text
append_locked buffer text =
    let kept =
      if ltb log_buffer_bytes (length text)
      then drop (length text - log_buffer_bytes) text
      else text in
    let shifted =
      if ltb log_buffer_bytes (length buffer + length kept)
      then drop (length buffer + length kept - log_buffer_bytes) buffer
      else buffer in
    shifted ++ kept

-- The line that is stored: `formatted` is the whole text of the entry, of which `vsnprintf` has
-- written the first 255 bytes.
unfoldable pub stored_line : Text → Text
stored_line formatted =
    let line = take (line_max_bytes - 1) formatted in
    if leb line_max_bytes (length formatted) then set line (line_max_bytes - 2) 10 else line

-- `taken`: the mutex was taken in time. Output through the previous logger is not modelled.
unfoldable pub log_buffer_vprintf : LogBuffer → Text → Bool → LogBuffer
log_buffer_vprintf b formatted taken =
    if ltb 0 (length formatted) && b.mutex_created && taken
    then record b { text = append_locked b.text (stored_line formatted) }
    else b

unfoldable pub log_buffer_init : LogBuffer → Bool → LogBuffer × Result (Unit {0})
log_buffer_init b mutex_ok =
    if b.mutex_created
    then (b, ok tt)
    else if not mutex_ok
    then (b, err no_mem)
    else (record b { mutex_created = true }, ok tt)

-- The bytes that are copied; `given` says that `dst` is not null.
unfoldable pub log_buffer_snapshot : LogBuffer → Bool → ℕ → Bool → Text
log_buffer_snapshot b given dst_size taken =
    if not given
    then []
    else if dst_size == 0
    then []
    else if not b.mutex_created
    then []
    else if not taken
    then []
    else let copied = if ltb (length b.text) dst_size then length b.text else dst_size in
      take copied (drop (length b.text - copied) b.text)
