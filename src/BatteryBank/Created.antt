-- ===== src/BatteryBank/Created.antt =====
-- main/battery_bank.cpp: which banks are listed after one is created.
use power.Prelude.{
  ℕ, zero, suc, ◌+◌, ◌≤◌, ◌<◌, ◌≡◌, refl, ap, sym, subst, ◌≢◌, ◌⊎◌, ◌∙◌, Bool, true, false, Option,
  none, some, List, [], ◌∷◌, ◌++◌, map, leb, if◌then◌else◌, length, set, length-set, take, Text,
  str_eq, str_eq_iff, ok, arith, Option-cases, inl, inr,
}
use power.BatteryBank.{
  StoredBatteryBank, StoredBatteryBanks, BatteryBankDefinition, Nvs, validate_bank_definition,
  find_among, find_bank, new_bank, put_bank, text_of, load_banks, save_banks, battery_bank_create,
  battery_bank_list, definitions, banks_magic, banks_version, stored_bytes,
}

-- The batteries of the bank of a name, among those that are listed.
unfoldable pub bank_of : Text → List BatteryBankDefinition → Option (List Text)
bank_of name [] = none
bank_of name (d ∷ rest) = if str_eq d.name name then some d.batteries else bank_of name rest

abbrev content : StoredBatteryBank → List Text
content b = take b.battery_count b.batteries

set-found :
    (bs : List StoredBatteryBank) (n i : ℕ) (a q : Text) (v : StoredBatteryBank)
    → find_among bs n a ≡ some i
    → v.name ≡ a
    → bank_of q (definitions (set bs i v) n)
      ≡ (if str_eq a q then some (content v) else bank_of q (definitions bs n))
unfolding find_among bank_of
set-found [] n i a q v h e = cc
set-found (b ∷ bs) zero i a q v h e = cc
set-found (b ∷ bs) (suc n) zero a q v h e =
    ground (arith, str_eq_iff b.name a, str_eq_iff a q, str_eq_iff b.name q, str_eq_iff v.name q)
set-found (b ∷ bs) (suc n) (suc i) a q v h e =
    ground (arith, str_eq_iff b.name a, str_eq_iff a q, str_eq_iff b.name q, set-found bs n i a q v)

set-absent :
    (bs : List StoredBatteryBank) (n : ℕ) (a q : Text) (v : StoredBatteryBank)
    → find_among bs n a ≡ none
    → n < length bs
    → v.name ≡ a
    → bank_of q (definitions (set bs n v) (suc n))
      ≡ (if str_eq a q then some (content v) else bank_of q (definitions bs n))
unfolding find_among bank_of
set-absent [] n a q v h p e = absurd (omega arith)
set-absent (b ∷ []) zero a q v h p e = rw e refl
set-absent (b ∷ (c ∷ bs)) zero a q v h p e = rw e refl
set-absent (b ∷ bs) (suc n) a q v h p e =
    ground (arith, str_eq_iff b.name a, str_eq_iff a q, str_eq_iff b.name q, set-absent bs n a q v)

take-map :
    (names : List (Option Text)) (rest : List Text)
    → take (length names) (map text_of names ++ rest) ≡ map text_of names
take-map [] rest = refl
take-map (n ∷ names) rest = ap (λ ts. text_of n ∷ ts) (take-map names rest)

content-new_bank :
    (name : Text) (batteries : List (Option Text))
    → (content (new_bank name batteries) ≡ map text_of batteries)
      × ((new_bank name batteries).name ≡ name)
unfolding new_bank
content-new_bank name batteries = (take-map batteries _, refl)

-- Banks as `load_banks` accepts them.
pub record IsStored (s : StoredBatteryBanks) : Type 0 where
  pub magic : s.magic ≡ banks_magic
  pub version : s.version ≡ banks_version
  pub few : s.bank_count ≤ 4
  pub size : length s.banks ≡ 4

-- The bank is there, or there is room for one more.
abbrev pub HasRoom : StoredBatteryBanks → Text → Type 0
HasRoom s name = (find_bank s name ≢ none) ⊎ (s.bank_count < 4)

put_bank-found :
    (s : StoredBatteryBanks) (name : Text) (batteries : List (Option Text)) (i : ℕ)
    → find_among s.banks s.bank_count name ≡ some i
    → put_bank s name batteries
      ≡ some (record s { banks = set s.banks i (new_bank name batteries) })
unfolding put_bank find_bank
put_bank-found s name batteries i e = rw (e, put_bank)

put_bank-absent :
    (s : StoredBatteryBanks) (name : Text) (batteries : List (Option Text))
    → find_among s.banks s.bank_count name ≡ none
    → s.bank_count < 4
    → put_bank s name batteries
      ≡ some (record s {
        bank_count = s.bank_count + 1;
        banks = set s.banks s.bank_count (new_bank name batteries);
      })
unfolding put_bank find_bank
put_bank-absent s name batteries e below =
    let more : leb 4 s.bank_count ≡ false = ground arith in rw (e, put_bank, more)

put_bank-IsStored :
    (s : StoredBatteryBanks) (name q : Text) (batteries : List (Option Text))
    → IsStored s
    → HasRoom s name
    → (s' : StoredBatteryBanks) × (put_bank s name batteries ≡ some s')
      × IsStored s'
      × (bank_of q (definitions s'.banks s'.bank_count) ≡ (
          if str_eq name q
          then some (map text_of batteries)
          else bank_of q (definitions s.banks s.bank_count)))
unfolding find_bank
put_bank-IsStored s name q batteries v room =
    let size = v.size in
    let new = new_bank name batteries in
    let (whole, named) = content-new_bank name batteries in
    elim (Option-cases (find_among s.banks s.bank_count name)) [
      | inr (i, e) ↦ (
        record s { banks = set s.banks i new },
        put_bank-found s name batteries i e,
        record {
          magic = v.magic;
          version = v.version;
          few = v.few;
          size = length-set s.banks i new ∙ size;
        },
        rw (set-found s.banks s.bank_count i name q new e named, whole) refl,
      )
      | inl e ↦
          let below : s.bank_count < 4 = elim room [ inl h ↦ absurd (h e) | inr h ↦ h ] in
          let next : s.bank_count + 1 ≡ suc s.bank_count = omega arith in
          (
            record s { bank_count = s.bank_count + 1; banks = set s.banks s.bank_count new },
            put_bank-absent s name batteries e below,
            record {
              magic = v.magic;
              version = v.version;
              few = omega arith;
              size = length-set s.banks s.bank_count new ∙ size;
            },
            rw (next, set-absent s.banks s.bank_count name q new e (omega arith) named, whole) refl,
          )
    ]

-- A flash that opens, and holds what was written to it.
pub record IsKept {Store : Type 0} (nvs : Nvs Store) : Type 0 where
  pub contents : Store → StoredBatteryBanks
  pub opens : (write : Bool) (flash : Store) → nvs.nvs_open write flash ≡ ok tt
  pub reads : (flash : Store) → nvs.get_blob flash ≡ ok (contents flash, stored_bytes)
  pub writes :
      (flash : Store) (s : StoredBatteryBanks)
      → length s.banks ≡ 4
      → ((nvs.set_blob flash s).1 ≡ ok tt) × (contents (nvs.set_blob flash s).0 ≡ s)
  pub commits :
      (flash : Store)
      → ((nvs.commit flash).1 ≡ ok tt) × (contents (nvs.commit flash).0 ≡ contents flash)

module _ {Store : Type 0} (nvs : Nvs Store) (kept : IsKept nvs) where
  load-contents :
      (flash : Store)
      → IsStored (kept.contents flash)
      → load_banks nvs flash ≡ ok (kept.contents flash)
  unfolding load_banks
  load-contents flash v =
      let few = v.few in
      rw (kept.opens false flash, kept.reads flash) (ground (arith, v.magic, v.version, v.few))

  list-contents :
      (flash : Store)
      → IsStored (kept.contents flash)
      → battery_bank_list nvs flash true true
        ≡ ok (definitions (kept.contents flash).banks (kept.contents flash).bank_count)
  unfolding battery_bank_list
  list-contents flash v = rw (load-contents flash v)

  save-contents :
      (flash : Store) (s : StoredBatteryBanks)
      → IsStored s
      → let (flash', result) = save_banks nvs flash s in
        (result ≡ ok tt) × (kept.contents flash' ≡ s)
  unfolding save_banks
  save-contents flash s v =
      let (saved, held) = kept.writes flash s v.size in
      let (done, same) = kept.commits (nvs.set_blob flash s).0 in
      rw (kept.opens true flash, saved, save_banks) (done, same ∙ held)

  create-save :
      (flash : Store) (name : Text) (batteries : List (Option Text)) (s : StoredBatteryBanks)
      → IsStored (kept.contents flash)
      → validate_bank_definition (some name) (some batteries) ≡ true
      → put_bank (kept.contents flash) name batteries ≡ some s
      → battery_bank_create nvs flash (some name) (some batteries) true ≡ save_banks nvs flash s
  unfolding battery_bank_create
  create-save flash name batteries s v good put = ground (arith, load-contents flash v)

  -- On a flash that holds what is written, with stored banks that are accepted: creating a valid
  -- bank, which is there already or for which there is room, succeeds. Then the bank of that name
  -- is listed with the batteries given, and every other bank as before.
  pub battery_bank_create-list :
      (flash : Store) (name q : Text) (batteries : List (Option Text))
      → IsStored (kept.contents flash)
      → validate_bank_definition (some name) (some batteries) ≡ true
      → HasRoom (kept.contents flash) name
      → let (flash', result) = battery_bank_create nvs flash (some name) (some batteries) true in
        (result ≡ ok tt)
        × IsStored (kept.contents flash')
        × ((old : List BatteryBankDefinition) × (new : List BatteryBankDefinition)
            × (battery_bank_list nvs flash true true ≡ ok old)
            × (battery_bank_list nvs flash' true true ≡ ok new)
            × (bank_of q new
                ≡ (if str_eq name q then some (map text_of batteries) else bank_of q old)))
  battery_bank_create-list flash name q batteries v good room =
      let (s, put, stored, same) =
        put_bank-IsStored (kept.contents flash) name q batteries v room in
      let (result, held) = save-contents flash s stored in
      let stored' = subst IsStored (sym held) stored in
      rw (create-save flash name batteries s v good put) (
        result,
        stored',
        (
          _,
          _,
          list-contents flash v,
          list-contents (save_banks nvs flash s).0 stored'
              ∙ ap (λ x. ok (definitions x.banks x.bank_count)) held,
          same,
        ),
      )
