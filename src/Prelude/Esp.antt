-- ===== src/Prelude/Esp.antt =====
-- esp_err_t: ESP_OK is `ok`, with what the call hands out beside it; any other code is `err`.
use Prim.Native.Nat.{ℕ}
use mathlib.Core.Bool.{Bool, true, false}

-- The codes that the firmware names; `other` is any code it only passes on.
pub data EspErr : Type 0 where
  fail no_mem invalid_arg invalid_state invalid_size not_found not_supported : EspErr
  timeout invalid_response invalid_version nvs_not_found nvs_type_mismatch : EspErr
  nvs_no_free_pages nvs_new_version_found : EspErr
  other : ℕ → EspErr

pub data Result {ℓ} (A : Type ℓ) : Type ℓ where
  ok : A → Result A
  err : EspErr → Result A

-- On an error the steps that follow are skipped.
infixl 5 ◌>>=◌ ◌>>◌
abbrev pub ◌>>=◌ {ℓ κ} : {S : Type ℓ} {T : Type κ} → Result S → (S → Result T) → Result T
err code >>= next = err code
ok value >>= next = next value

abbrev pub ◌>>◌ {ℓ} : {T : Type ℓ} → Result (Unit {0}) → Result T → Result T
first >> second = first >>= λ done. second

-- ESP_RETURN_ON_FALSE
abbrev pub guard : Bool → EspErr → Result (Unit {0})
guard false code = err code
guard true code = ok tt
