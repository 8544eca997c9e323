-- ===== src/NetworkConsole.antt =====
-- main/network_console.hpp and main/network_console.cpp: the password of the TCP console, and how a
-- client is authenticated. NVS, the base64 and the HMAC of mbedtls are parameters. The commands of
-- a session and the task that accepts clients are not modelled. A buffer is cleared after its use
-- in the code; here it is gone.
pub mod Authenticate
pub mod Equal
pub mod Line
pub mod Challenge
pub mod Digits
pub mod Proof
mod Tests
use power.Prelude.{
  ℕ, zero, suc, ◌+◌, ◌-◌, Bool, true, false, ◌&&◌, ◌||◌, not, Option, none, some, List, [], ◌∷◌,
  ltb, leb, ◌==◌, if◌then◌else◌, length, Text, Result, ok, err, EspErr, fail, no_mem, invalid_arg,
  invalid_state, invalid_size, timeout, nvs_not_found, guard, ◌>>=◌, ◌>>◌,
}

abbrev pub network_console_password_min_bytes : ℕ
network_console_password_min_bytes = 16

abbrev pub network_console_password_max_bytes : ℕ
network_console_password_max_bytes = 128

abbrev pub challenge_text_bytes : ℕ
challenge_text_bytes = 43

-- The password is empty where none is configured; its length is that of the text.
pub record NetworkConsole : Type 0 where
  pub has_mutex : Bool
  pub password : Text
  pub started : Bool

abbrev pub initial : NetworkConsole
initial = record { has_mutex = false; password = []; started = false }

abbrev pub all_printable : Text → Bool
all_printable [] = true
all_printable (c ∷ rest) = not (ltb c b' ' || ltb b'~' c) && all_printable rest

unfoldable pub password_valid : Option Text → Bool
password_valid none = false
password_valid (some password) =
    not (
      ltb (length password) network_console_password_min_bytes
      || ltb network_console_password_max_bytes (length password))
    && all_printable password

-- What the code calls of NVS, for the one text that it keeps; `get_str` takes the buffer's size.
pub record Storage (Flash : Type 0) : Type 0 where
  pub nvs_open : Bool → Flash → Result (Unit {0})
  pub get_str : Flash → ℕ → Result Text
  pub set_str : Flash → Text → Flash × Result (Unit {0})
  pub commit : Flash → Flash × Result (Unit {0})

abbrev pub forget : NetworkConsole → NetworkConsole
forget n = record n { password = [] }

-- What `load_password` makes of the text that is read.
abbrev pub keep_valid : NetworkConsole → Result Text → NetworkConsole × Result (Unit {0})
keep_valid n (err nvs_not_found) = (forget n, ok tt)
keep_valid n (err e) = (n, err e)
keep_valid n (ok password) =
    if password_valid (some password)
    then (record n { password = password }, ok tt)
    else (forget n, err invalid_state)

abbrev pub invalid_ok : Result (Unit {0}) → Result (Unit {0})
invalid_ok (ok u) = ok u
invalid_ok (err invalid_state) = ok tt
invalid_ok (err e) = err e

module _ {Flash : Type 0} (nvs : Storage Flash) where
  unfoldable pub load_password : NetworkConsole → Flash → NetworkConsole × Result (Unit {0})
  load_password n flash = elim (nvs.nvs_open false flash) [
    | err nvs_not_found ↦ (n, ok tt)
    | err e ↦ (n, err e)
    | ok _ ↦ keep_valid n (nvs.get_str flash (network_console_password_max_bytes + 1))
  ]

  unfoldable pub save_password : Flash → Text → Flash × Result (Unit {0})
  save_password flash password = elim (nvs.nvs_open true flash) [
    | err e ↦ (flash, err e)
    | ok _ ↦
        let (written, result) = nvs.set_str flash password in
        elim result [ err e ↦ (written, err e) | ok _ ↦ nvs.commit written ]
  ]

  unfoldable pub network_console_init :
      NetworkConsole → Flash → Bool → NetworkConsole × Result (Unit {0})
  network_console_init n flash created =
      if n.has_mutex
      then (n, ok tt)
      else if not created
      then (n, err no_mem)
      else let (loaded, result) = load_password (record n { has_mutex = true }) flash in
        (loaded, invalid_ok result)

  -- The password is valid here.
  abbrev pub set_valid :
      NetworkConsole → Flash → Text → Bool → NetworkConsole × Flash × Result (Unit {0})
  set_valid n flash password taken =
      let (saved, result) = save_password flash password in
      elim result [
        | err e ↦ (n, saved, err e)
        | ok _ ↦
            if not taken
            then (n, saved, err timeout)
            else (record n { password = password }, saved, ok tt)
      ]

  unfoldable pub network_console_password_set :
      NetworkConsole → Flash → Option Text → Bool → NetworkConsole × Flash × Result (Unit {0})
  network_console_password_set n flash none taken = (n, flash, err invalid_arg)
  network_console_password_set n flash (some password) taken =
      if not (password_valid (some password))
      then (n, flash, err invalid_arg)
      else set_valid n flash password taken

  -- `encoded` is what base64url_encode writes for the random bytes; the password comes out.
  unfoldable pub network_console_password_generate :
      NetworkConsole → Flash → Bool → ℕ → Text → Bool → NetworkConsole × Flash × Result Text
  network_console_password_generate n flash given capacity encoded taken =
      if not (given && ltb challenge_text_bytes capacity)
      then (n, flash, err invalid_arg)
      else if not (length encoded == challenge_text_bytes)
      then (n, flash, err fail)
      else let (n', saved, result) = network_console_password_set n flash (some encoded) taken in
        (n', saved, result >>= λ done. ok encoded)

-- `none` where no password is configured.
unfoldable pub network_console_password_get :
    NetworkConsole → Bool → ℕ → Bool → Result (Option Text)
network_console_password_get n given capacity taken = do
  guard (given && ltb 0 capacity) invalid_arg
  guard taken timeout
  if length n.password == 0
      then ok none
      else (guard (ltb (length n.password) capacity) invalid_size >> ok (some n.password))

unfoldable pub network_console_start : NetworkConsole → Bool → NetworkConsole × Result (Unit {0})
network_console_start n created =
    if not n.has_mutex
    then (n, err invalid_state)
    else if n.started
    then (n, ok tt)
    else if created
    then (record n { started = true }, ok tt)
    else (n, err no_mem)

-- The copy that authentication works on.
unfoldable pub password_snapshot : NetworkConsole → ℕ → Bool → Option Text
password_snapshot n capacity taken =
    if taken && (ltb 0 (length n.password) && ltb (length n.password) capacity)
    then some n.password
    else none
