-- ===== src/PolicyState/Refine.antt =====
-- main/policy_state.cpp and the memory of PolicyState/Spec.
use power.Prelude.{
  ℕ, zero, suc, ◌≤◌, ◌<◌, ◌≡◌, refl, ap, ◌∙◌, Bool, Option, none, some, List, [], ◌∷◌,
  if◌then◌else◌, length, get_or, set as set_elem, length-set, Text, str_eq, arith, Bool-cases,
  Option-cases, inl, inr,
}
use mathlib.Core.Option
use native.Mathlib.Numerals.{add-one}
use power.PolicyState.{
  Entry, PolicyState, empty_entry, initial, valid_name, begin_cycle, finish_cycle, find_entry, get,
  set,
}
use power.PolicyState.Spec
use power.PolicyState.Spec.{Memo}

pub record IsValid (s : PolicyState) : Type 0 where
  pub slots : length s.entries ≡ 8
  pub within : s.count ≤ 8

-- The names and values of the first `n` entries.
abbrev pub bindings : List Entry → ℕ → List (Text × Bool)
bindings [] n = []
bindings (e ∷ es) zero = []
bindings (e ∷ es) (suc n) = (e.name, e.value) ∷ bindings es n

abbrev pub view : PolicyState → Memo
view s = record {
  program = if s.have_digest then some s.digest else none;
  values = bindings s.entries s.count;
}

length-bindings : (es : List Entry) (n : ℕ) → n ≤ length es → length (bindings es n) ≡ n
length-bindings [] n h = omega arith
length-bindings (e ∷ es) zero h = refl
length-bindings (e ∷ es) (suc n) h = ap suc (length-bindings es n (omega arith))

lookup-find_entry :
    (es : List Entry) (n : ℕ) (name : Text)
    → Spec.lookup name (bindings es n)
      ≡ Option.map (λ i. (get_or es i empty_entry).value) (find_entry es n name)
unfolding Spec.lookup find_entry
lookup-find_entry [] n name = refl
lookup-find_entry (e ∷ es) zero name = refl
lookup-find_entry (e ∷ es) (suc n) name = elim (Bool-cases (str_eq e.name name)) [
  | inl hit ↦ rw hit
  | inr miss ↦ rw miss (ground (arith, lookup-find_entry es n name))
]

insert-old :
    (es : List Entry) (n : ℕ) (name : Text) (v : Bool) (i : ℕ)
    → find_entry es n name ≡ some i
    → Spec.insert name v (bindings es n)
      ≡ bindings (set_elem es i (record (get_or es i empty_entry) { value = v })) n
unfolding Spec.insert find_entry
insert-old [] n name v i h = cc
insert-old (e ∷ es) zero name v i h = cc
insert-old (e ∷ es) (suc n) name v zero h = ground arith
insert-old (e ∷ es) (suc n) name v (suc i) h = ground (arith, insert-old es n name v i)

insert-new :
    (es : List Entry) (n : ℕ) (name : Text) (v : Bool)
    → find_entry es n name ≡ none
    → n < length es
    → Spec.insert name v (bindings es n)
      ≡ bindings (set_elem es n (record { name = name; value = v })) (suc n)
unfolding Spec.insert find_entry
insert-new [] n name v h p = absurd (omega arith)
insert-new (e ∷ []) zero name v h p = refl
insert-new (e ∷ (x ∷ es)) zero name v h p = refl
insert-new (e ∷ es) (suc n) name v h p = ground (arith, insert-new es n name v)

bindings-zero : (es : List Entry) → bindings es 0 ≡ []
bindings-zero [] = refl
bindings-zero (e ∷ es) = refl

pub begin_cycle-refines :
    (s : PolicyState) (program : List ℕ)
    → IsValid s
    → (view (begin_cycle s program) ≡ Spec.begin_cycle (view s) program)
      × IsValid (begin_cycle s program)
unfolding begin_cycle Spec.begin_cycle
begin_cycle-refines s program v = ground (arith, bindings-zero s.entries)

pub finish_cycle-refines :
    (s : PolicyState) (success : Bool)
    → IsValid s
    → (view (finish_cycle s success) ≡ Spec.finish_cycle (view s) success)
      × IsValid (finish_cycle s success)
unfolding finish_cycle Spec.finish_cycle
finish_cycle-refines s success v = ground (arith, bindings-zero s.entries)

pub get-refines :
    (s : PolicyState) (name : Option Text) (d : Bool) → get s name d ≡ Spec.get (view s) name d
unfolding get Spec.get
get-refines s none d = refl
get-refines s (some name) d = ground (arith, lookup-find_entry s.entries s.count name)

-- On well-formed arrays, `set` stores or refuses as the specification says of the memory that they
-- hold, and leaves them well formed.
pub set-refines :
    (s : PolicyState) (name : Option Text) (value : Bool)
    → IsValid s
    → let (s', stored) = set s name value in
      ((view s', stored) ≡ Spec.set (view s) name value) × IsValid s'
unfolding set Spec.set
set-refines s none value v = (refl, v)
set-refines s (some name) value v = elim (Bool-cases (valid_name (some name))) [
  | inr bad ↦ rw bad (refl, v)
  | inl good ↦ rw good (elim (Option-cases (find_entry s.entries s.count name)) [
    | inl absent ↦ ground (
      arith,
      absent,
      lookup-find_entry s.entries s.count name,
      insert-new s.entries s.count name value absent,
      length-bindings s.entries s.count,
      add-one s.count,
      length-set s.entries s.count (record { name = name; value = value }),
    )
    | inr (i, found) ↦ ground (
      arith,
      found,
      lookup-find_entry s.entries s.count name,
      insert-old s.entries s.count name value i found,
      length-set s.entries i (record (get_or s.entries i empty_entry) { value = value }),
    )
  ])
]

-- What the policy task does with the memory, in order.
pub data Event : Type 0 where
  begins : List ℕ → Event
  finishes : Bool → Event
  sets : Option Text → Bool → Event

unfoldable pub step : PolicyState → Event → PolicyState
step s (begins program) = begin_cycle s program
step s (finishes success) = finish_cycle s success
step s (sets name value) = (set s name value).0

unfoldable pub run : PolicyState → List Event → PolicyState
run s [] = s
run s (e ∷ es) = run (step s e) es

unfoldable pub spec_step : Memo → Event → Memo
spec_step m (begins program) = Spec.begin_cycle m program
spec_step m (finishes success) = Spec.finish_cycle m success
spec_step m (sets name value) = (Spec.set m name value).0

unfoldable pub spec_run : Memo → List Event → Memo
spec_run m [] = m
spec_run m (e ∷ es) = spec_run (spec_step m e) es

step-refines :
    (s : PolicyState) (e : Event)
    → IsValid s
    → (view (step s e) ≡ spec_step (view s) e) × IsValid (step s e)
unfolding step spec_step
step-refines s (begins program) v = begin_cycle-refines s program v
step-refines s (finishes success) v = finish_cycle-refines s success v
step-refines s (sets name value) v =
    let (same, valid) = set-refines s name value v in (ap (λ r. r.0) same, valid)

run-refines :
    (es : List Event) (s : PolicyState)
    → IsValid s
    → (view (run s es) ≡ spec_run (view s) es) × IsValid (run s es)
unfolding run spec_run
run-refines [] s v = (refl, v)
run-refines (e ∷ es) s v =
    let (same, valid) = step-refines s e v in
    let (rest, still) = run-refines es (step s e) valid in
    (rest ∙ ap (λ m. spec_run m es) same, still)

-- From the initial state, after any cycles and sets, a `get` returns what the specified memory
-- holds, and the arrays are well formed.
pub run-initial-refines :
    (es : List Event) (name : Option Text) (d : Bool)
    → (get (run initial es) name d ≡ Spec.get (spec_run Spec.forgotten es) name d)
      × IsValid (run initial es)
run-initial-refines es name d =
    let (same, valid) = run-refines es initial (record { slots = refl; within = omega arith }) in
    (get-refines (run initial es) name d ∙ ap (λ m. Spec.get m name d) same, valid)
