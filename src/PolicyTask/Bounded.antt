-- ===== src/PolicyTask/Bounded.antt =====
-- main/policy_task.cpp: what a program can ask of the relays.
use power.Prelude.{
  ℕ, suc, ◌≤◌, ◌≡◌, refl, sym, ap, ◌∙◌, length, Bool, true, false, some, List, [], ◌∷◌, ◌++◌,
  Result, ok, err, arith, Bool-cases, inl, inr,
}
use mathlib.Core.List.{append_assoc, append-nil}
use power.Prelude.Int.{ℤ, pos, negsuc}
use power.RelayManager.{RelayManager, RelayMessage, MessageType}
use power.RelayManager.Api.{relay_manager_on_for, send_command, send_message}
use power.PolicyState.{PolicyState, set}
use power.Checksum.{checksum_sha1}
use power.ConfigFlags.Store.{Config}
use power.PolicyStorage
use power.PolicyStorage.{PolicySlot, policy_storage_read_alloc}
use power.PolicyTask.Lua.{
  Value, Outcome, returned, raised, in_range, or_bad, check_integer, none_or_nil, ◌>>=◌,
}
use power.PolicyTask.Moments.{Libraries, Moment, Policy}
use power.PolicyTask.Reading.{Values, lua_check_relay}
use power.PolicyTask.Commands.{
  Function, relay_on, relay_off, policy_state_set, name_and_value, after, queued, stored,
  hold_seconds, relay_and_hold, lua_relay_on, lua_relay_off, lua_policy_state_set, call_function,
}
use power.PolicyTask.Cycle.{
  Program, finished, call, hooked, Loaded, program, refused, policy_lua_hook, forget, begun,
  source_of, run_program, run_loaded, run_lua_policy, run_identified, run_read, run_policy_cycle,
}

-- A message of relay_manager_on_for, for one of `n` relays and for a day at most.
pub record IsBounded (n : ℕ) (message : RelayMessage) : Type 0 where
  pub type : message.type ≡ MessageType.on_for
  pub not_zero : 1 ≤ message.relay
  pub relay : message.relay ≤ n
  pub seconds : message.seconds ≤ 86400

abbrev pub AllBounded : ℕ → List RelayMessage → Type 0
AllBounded n [] = Unit
AllBounded n (m ∷ ms) = IsBounded n m × AllBounded n ms

AllBounded-append :
    (n : ℕ) (a b : List RelayMessage) → AllBounded n a → AllBounded n b → AllBounded n (a ++ b)
AllBounded-append n [] b p q = q
AllBounded-append n (m ∷ a) b (p, ps) q = (p, AllBounded-append n a b ps q)

-- The commands of the one, and bounded ones behind.
pub record Adds (n : ℕ) (p q : Policy) : Type 0 where
  pub new : List RelayMessage
  pub extended : q.commands ≡ p.commands ++ new
  pub bounded : AllBounded n new

Adds-refl : (n : ℕ) (p q : Policy) → q.commands ≡ p.commands → Adds n p q
Adds-refl n p q same = record {
  new = [];
  extended = same ∙ sym (append-nil p.commands);
  bounded = tt;
}

Adds-trans : (n : ℕ) (p q r : Policy) → Adds n p q → Adds n q r → Adds n p r
Adds-trans n p q r a b = record {
  new = a.new ++ b.new;
  extended = b.extended ∙ (ap (λ c. c ++ b.new) a.extended ∙ append_assoc p.commands a.new b.new);
  bounded = AllBounded-append n a.new b.new a.bounded b.bounded;
}

relay_manager_on_for-IsBounded :
    (m : RelayManager) (relay seconds n : ℕ) (sent : Bool) (message : RelayMessage)
    → relay_manager_on_for m relay seconds sent ≡ ok message
    → m.hardware.count ≤ n
    → seconds ≤ 86400
    → IsBounded n message
unfolding relay_manager_on_for send_command send_message
relay_manager_on_for-IsBounded m relay seconds n sent message h few short = ground arith

queued-Adds :
    (V : Type 0) (n : ℕ) (p : Policy) (result : Result RelayMessage)
    → ((message : RelayMessage) → result ≡ ok message → IsBounded n message)
    → Adds n p (queued {V = V} p result).0
queued-Adds V n p (err e) h = Adds-refl n p p refl
queued-Adds V n p (ok message) h = record {
  new = message ∷ [];
  extended = refl;
  bounded = (h message refl, tt);
}

stored-Adds :
    (V : Type 0) (n : ℕ) (p : Policy) (result : PolicyState × Bool)
    → Adds n p (stored {V = V} p result).0
stored-Adds V n p (memory, true) = Adds-refl n p (record p { memory = memory }) refl
stored-Adds V n p (memory, false) = Adds-refl n p (record p { memory = memory }) refl

in_range_bound :
    (low high : ℕ) (z : ℤ) (i v : ℕ) → or_bad (in_range low high z) i ≡ returned v → v ≤ high
in_range_bound low high (pos n) i v h = ground arith
in_range_bound low high (negsuc n) i v h = cc

asked_bound :
    (asked : Outcome ℤ) (seconds : ℕ)
    → (asked >>= (λ z. or_bad (in_range 1 86400 z) 2)) ≡ returned seconds
    → seconds ≤ 86400
asked_bound (returned z) seconds h = in_range_bound 1 86400 z 2 seconds h
asked_bound (raised e) seconds h = cc

module _ {Arg F Double Flash Banks Chip : Type 0} (l : Libraries Arg F Double Flash Banks Chip)
    (n : ℕ) where
  after-Adds :
      {A : Type 0} (p : Policy) (o : Outcome A) (next : A → Policy × Outcome (Values l))
      → ((a : A) → o ≡ returned a → Adds n p (next a).0)
      → Adds n p (after l p o next).0
  after-Adds p (raised e) next h = Adds-refl n p p refl
  after-Adds p (returned a) next h = h a refl

  module _ (m : Moment F Flash Banks Chip) (few : m.relays.hardware.count ≤ n) where
    hold_seconds_bound :
        (args : List Arg) (seconds : ℕ) → hold_seconds l m args ≡ returned seconds → seconds ≤ 86400
    hold_seconds_bound args seconds h = elim (Bool-cases (none_or_nil l.lua args 2)) [
      | inl absent ↦ let default : 300 ≡ seconds = ground arith in omega (arith, default)
      | inr given ↦ asked_bound (check_integer l.lua args 2) seconds (ground arith)
    ]

    relay_and_hold_bound :
        (args : List Arg) (asked : ℕ × ℕ)
        → relay_and_hold l m args ≡ returned asked
        → asked.1 ≤ 86400
    relay_and_hold_bound args asked h = ground (arith, hold_seconds_bound args asked.1)

    call_function-Adds :
        (p : Policy) (function : Function) (args : List Arg)
        → Adds n p (call_function l m p function args).0
    unfolding call_function lua_relay_on lua_relay_off lua_policy_state_set
    call_function-Adds p relay_on args =
        after-Adds p (relay_and_hold l m args)
          (λ asked. queued p (relay_manager_on_for m.relays asked.0 asked.1 m.sent))
          (λ asked e.
            queued-Adds (Value Arg F) n p (relay_manager_on_for m.relays asked.0 asked.1 m.sent)
              (λ message sent.
                relay_manager_on_for-IsBounded m.relays asked.0 asked.1 n m.sent message sent few
                  (relay_and_hold_bound args asked e)))
    call_function-Adds p relay_off args =
        after-Adds p (lua_check_relay l m args 1)
          (λ relay. queued p (relay_manager_on_for m.relays relay 0 m.sent))
          (λ relay e.
            queued-Adds (Value Arg F) n p (relay_manager_on_for m.relays relay 0 m.sent)
              (λ message sent.
                relay_manager_on_for-IsBounded m.relays relay 0 n m.sent message sent few
                  (omega arith)))
    call_function-Adds p policy_state_set args =
        after-Adds p (name_and_value l args)
          (λ named. stored p (set p.memory (some named.0) named.1))
          (λ named e. stored-Adds (Value Arg F) n p (set p.memory (some named.0) named.1))
    call_function-Adds p other args = Adds-refl n p p refl

  run_program-Adds :
      (moments : ℕ → Moment F Flash Banks Chip)
      (few : (i : ℕ) → (moments i).relays.hardware.count ≤ n) (deadline k : ℕ) (p : Policy)
      (program : Program Arg F)
      → Adds n p (run_program l moments deadline k p program).0
  unfolding run_program
  run_program-Adds moments few deadline k p (finished success) = Adds-refl n p p refl
  run_program-Adds moments few deadline k p (call function args next) =
      let (p', outcome) = call_function l (moments k) p function args in
      Adds-trans n p p' (run_program l moments deadline (suc k) p' (next outcome)).0
        (call_function-Adds (moments k) (few k) p function args)
        (run_program-Adds moments few deadline (suc k) p' (next outcome))
  run_program-Adds moments few deadline k p (hooked next) =
      run_program-Adds moments few deadline (suc k) p
        (next (policy_lua_hook (some deadline) (moments k).ticks))

  module _ (moments : ℕ → Moment F Flash Banks Chip)
      (few : (i : ℕ) → (moments i).relays.hardware.count ≤ n) (deadline : ℕ)
      (load : List ℕ → Loaded Arg F) where
    run_loaded-Adds :
        (p : Policy) (loaded : Loaded Arg F) → Adds n p (run_loaded l moments deadline p loaded).0
    run_loaded-Adds p (refused message) = Adds-refl n p p refl
    run_loaded-Adds p (program script) = run_program-Adds moments few deadline 0 p script

    run_lua_policy-Adds :
        (p : Policy) (source : List ℕ) (created : Bool)
        → Adds n p (run_lua_policy l moments deadline load p source created).0
    unfolding run_lua_policy
    run_lua_policy-Adds p source false = Adds-refl n p p refl
    run_lua_policy-Adds p source true = run_loaded-Adds p (load source)

    run_identified-Adds :
        (p : Policy) (source : List ℕ) (created : Bool) (digest : Result (List ℕ))
        → Adds n p (run_identified l moments deadline load p source created digest)
    run_identified-Adds p source created (err e) = Adds-refl n p (forget p) refl
    run_identified-Adds p source created (ok digest) =
        let ran = run_lua_policy-Adds (begun p digest) source created in
        record { new = ran.new; extended = ran.extended; bounded = ran.bounded }

    module _ (hash : List ℕ → Result (List ℕ × ℕ)) where
      run_read-Adds :
          (p : Policy) (created : Bool) (active_source : Result (List ℕ))
          → Adds n p (run_read l moments deadline load hash p created active_source)
      run_read-Adds p created (err e) = Adds-refl n p (forget p) refl
      run_read-Adds p created (ok active_source) =
          let source = source_of active_source in
          run_identified-Adds p source created
            (checksum_sha1 hash (some source) (length source) true)

      module _ {Store Stats : Type 0} (programs : PolicyStorage.Nvs Store Stats) where
        -- Whatever the program does in a cycle, and whatever the other parts answer, the commands that
        -- the cycle puts in the queue of the relays come behind the earlier ones, and each is an
        -- `on_for` for a relay from 1 to `n`, for at most 86400 seconds. At each call there are at most
        -- `n` relays.
        pub run_policy_cycle-Adds :
            (p : Policy) (flags : Config Flash) (flash : Store) (now_s : ℕ)
            (allocated created : Bool)
            → Adds n p
                (run_policy_cycle l moments deadline load hash programs p flags flash now_s
                  allocated created).0
        unfolding run_policy_cycle
        run_policy_cycle-Adds p flags flash now_s allocated created =
            run_read-Adds p created
              (policy_storage_read_alloc programs flash PolicySlot.active true allocated)
