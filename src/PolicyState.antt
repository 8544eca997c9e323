-- ===== src/PolicyState.antt =====
-- main/policy_state.hpp and main/policy_state.cpp: the Boolean memory of the policy program.
-- A name is a C string, or null; the two arrays keep their sizes, and what they hold behind
-- `count_` stays there. `memcmp` and `strcmp` compare the bytes.
pub mod Spec
pub mod Refine
mod Tests
use power.Prelude.{
  ℕ, zero, suc, ◌+◌, Bool, true, false, ◌&&◌, ◌||◌, not, Option, none, some, List, [], ◌∷◌, leb,
  ◌==◌, if◌then◌else◌, get_or, set as set_elem, replicate, Text, str_eq,
}
use mathlib.Core.Option

abbrev pub policy_state_capacity : ℕ
policy_state_capacity = 8

abbrev pub policy_state_name_max : ℕ
policy_state_name_max = 15

abbrev pub policy_state_digest_bytes : ℕ
policy_state_digest_bytes = 20

pub record Entry : Type 0 where
  pub name : Text
  pub value : Bool

pub record PolicyState : Type 0 where
  pub entries : List Entry
  pub count : ℕ
  pub digest : List ℕ
  pub have_digest : Bool

abbrev pub empty_entry : Entry
empty_entry = record { name = []; value = false }

abbrev pub initial : PolicyState
initial = record {
  entries = replicate policy_state_capacity empty_entry;
  count = 0;
  digest = replicate policy_state_digest_bytes 0;
  have_digest = false;
}

unfoldable pub is_name_char : ℕ → Bool
is_name_char c =
    (leb b'a' c && leb c b'z')
    || (leb b'A' c && leb c b'Z')
    || (leb b'0' c && leb c b'9')
    || c == b'_'
    || c == b'-'

-- The loop of `valid_name`, with the rounds left; the end of the list is the NUL.
unfoldable pub name_from : Text → ℕ → Bool
name_from text zero = false
name_from [] (suc left) = true
name_from (c ∷ rest) (suc left) =
    let continue = name_from rest left in if not (is_name_char c) then false else continue

unfoldable pub valid_name : Option Text → Bool
unfolding name_from is_name_char
valid_name none = false
valid_name (some []) = false
valid_name (some (c ∷ rest)) = name_from (c ∷ rest) (policy_state_name_max + 1)

unfoldable pub clear : PolicyState → PolicyState
clear s = record s { count = 0; have_digest = false }

unfoldable pub begin_cycle : PolicyState → List ℕ → PolicyState
unfolding clear
begin_cycle s digest =
    if not s.have_digest || not (str_eq s.digest digest)
    then record (clear s) { digest = digest; have_digest = true }
    else s

unfoldable pub finish_cycle : PolicyState → Bool → PolicyState
unfolding clear
finish_cycle s success = if not success then clear s else s

-- The loop over the first `n` entries: the index of the one with the name.
unfoldable pub find_entry : List Entry → ℕ → Text → Option ℕ
find_entry [] n name = none
find_entry (e ∷ es) zero name = none
find_entry (e ∷ es) (suc n) name =
    if str_eq e.name name then some 0 else Option.map suc (find_entry es n name)

unfoldable pub get : PolicyState → Option Text → Bool → Bool
unfolding valid_name find_entry
get s none default_value = default_value
get s (some name) default_value =
    if not (valid_name (some name))
    then default_value
    else elim (find_entry s.entries s.count name) [
      | none ↦ default_value
      | some i ↦ (get_or s.entries i empty_entry).value
    ]

-- The new state, and whether the value was stored.
unfoldable pub set : PolicyState → Option Text → Bool → PolicyState × Bool
unfolding valid_name find_entry
set s none value = (s, false)
set s (some name) value =
    if not (valid_name (some name)) then (s, false) else elim (find_entry s.entries s.count name) [
      | some i ↦ (
        record s {
          entries =
              set_elem s.entries i (record (get_or s.entries i empty_entry) { value = value });
        },
        true,
      )
      | none ↦ if s.count == policy_state_capacity then (s, false) else (
        record s {
          entries = set_elem s.entries s.count (record { name = name; value = value });
          count = s.count + 1;
        },
        true,
      )
    ]
