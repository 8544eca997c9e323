-- ===== src/PolicyTask/Isolation.antt =====
-- main/policy_task.cpp: a program does not see what another program stored.
use power.Prelude.{
  ℕ, suc, ◌≡◌, refl, sym, ap, ap₂, subst, ◌∙◌, length, Bool, true, false, Option, some, List, Text,
  Result, ok, arith,
}
use power.RelayManager.Api.{relay_manager_on_for}
use power.Checksum.{checksum_sha1}
use power.ConfigFlags.Store.{Config}
use power.PolicyStorage
use power.PolicyStorage.{PolicySlot, policy_storage_read_alloc}
use power.PolicyState.{initial, get, set}
use power.PolicyState.Spec
use power.PolicyState.Refine.{IsValid, view, begin_cycle-refines, finish_cycle-refines, get-refines}
use power.PolicyTask.Lua.{Value, Outcome, returned, raised}
use power.PolicyTask.Moments.{Libraries, Moment, Policy}
use power.PolicyTask.Reading.{Values, lua_check_relay}
use power.PolicyTask.Commands.{
  Function, relay_on, relay_off, policy_state_set, policy_state_bool, name_and_value, after, queued,
  stored, relay_and_hold, lua_policy_state_bool, lua_relay_on, lua_relay_off, lua_policy_state_set,
  call_function,
}
use power.PolicyTask.Cycle.{
  Program, finished, call, hooked, Loaded, program, refused, policy_lua_hook, begun, ended,
  source_of, run_program, run_loaded, run_lua_policy, run_policy_cycle,
}
use power.PolicyTask.Alike.{Alike, AlikeResult, queued-Alike, set-Alike}

module _ {Arg F Double Flash Banks Chip : Type 0}
    (l : Libraries Arg F Double Flash Banks Chip) where
  after-Alike :
      {A : Type 0} (p q : Policy) (o : Outcome A) (f g : A → Policy × Outcome (Values l))
      → Alike p q
      → ((x : A) → AlikeResult (f x) (g x))
      → AlikeResult (after l p o f) (after l q o g)
  after-Alike p q (raised e) f g a h = record { policies = a; outcomes = refl }
  after-Alike p q (returned x) f g a h = h x

  recall-Alike :
      (p q : Policy) (args : List Arg)
      → Alike p q
      → lua_policy_state_bool l p args ≡ lua_policy_state_bool l q args
  unfolding lua_policy_state_bool
  recall-Alike p q args a =
      let same : (name : Text) (d : Bool)
          → get p.memory (some name) d ≡ get q.memory (some name) d =
        λ name d.
          get-refines p.memory (some name) d
          ∙ (ap (λ m. Spec.get m (some name) d) a.memory
              ∙ sym (get-refines q.memory (some name) d)) in
      simp same

  call_function-Alike :
      (m : Moment F Flash Banks Chip) (p q : Policy) (function : Function) (args : List Arg)
      → Alike p q
      → AlikeResult (call_function l m p function args) (call_function l m q function args)
  unfolding call_function lua_relay_on lua_relay_off lua_policy_state_set
  call_function-Alike m p q relay_on args a =
      after-Alike p q (relay_and_hold l m args)
        (λ asked. queued p (relay_manager_on_for m.relays asked.0 asked.1 m.sent))
        (λ asked. queued q (relay_manager_on_for m.relays asked.0 asked.1 m.sent)) a
        (λ asked.
          queued-Alike (Value Arg F) p q (relay_manager_on_for m.relays asked.0 asked.1 m.sent) a)
  call_function-Alike m p q relay_off args a =
      after-Alike p q (lua_check_relay l m args 1)
        (λ relay. queued p (relay_manager_on_for m.relays relay 0 m.sent))
        (λ relay. queued q (relay_manager_on_for m.relays relay 0 m.sent)) a
        (λ relay. queued-Alike (Value Arg F) p q (relay_manager_on_for m.relays relay 0 m.sent) a)
  call_function-Alike m p q policy_state_set args a =
      after-Alike p q (name_and_value l args)
        (λ named. stored p (set p.memory (some named.0) named.1))
        (λ named. stored q (set q.memory (some named.0) named.1)) a
        (λ named. set-Alike (Value Arg F) p q named.0 named.1 a)
  call_function-Alike m p q policy_state_bool args a = record {
    policies = a;
    outcomes = recall-Alike p q args a;
  }
  call_function-Alike m p q other args a = record { policies = a; outcomes = refl }

  module _ (moments : ℕ → Moment F Flash Banks Chip) (deadline : ℕ) where
    run_program-Alike :
        (k : ℕ) (p q : Policy) (script : Program Arg F)
        → Alike p q
        → AlikeResult
            (run_program l moments deadline k p script)
            (run_program l moments deadline k q script)
    unfolding run_program
    run_program-Alike k p q (finished success) a = record { policies = a; outcomes = refl }
    run_program-Alike k p q (call function args next) a =
        let one = call_function-Alike (moments k) p q function args a in
        let (p', outcome) = call_function l (moments k) p function args in
        let (q', outcome') = call_function l (moments k) q function args in
        subst
          (λ o.
            AlikeResult (run_program l moments deadline (suc k) p' (next outcome))
              (run_program l moments deadline (suc k) q' (next o)))
          one.outcomes (run_program-Alike (suc k) p' q' (next outcome) one.policies)
    run_program-Alike k p q (hooked next) a =
        run_program-Alike (suc k) p q (next (policy_lua_hook (some deadline) (moments k).ticks)) a

    ended-Alike : (x y : Policy × Bool) → AlikeResult x y → Alike (ended x) (ended y)
    ended-Alike (p, success) (q, other) a =
        let (left, v) = finish_cycle-refines p.memory success a.policies.left in
        let (right, w) = finish_cycle-refines q.memory other a.policies.right in
        record {
          commands = a.policies.commands;
          memory =
              left ∙ (ap₂ (λ m s. Spec.finish_cycle m s) a.policies.memory a.outcomes ∙ sym right);
          left = v;
          right = w;
        }

    run_loaded-Alike :
        (p q : Policy) (loaded : Loaded Arg F)
        → Alike p q
        → AlikeResult
            (run_loaded l moments deadline p loaded)
            (run_loaded l moments deadline q loaded)
    run_loaded-Alike p q (refused message) a = record { policies = a; outcomes = refl }
    run_loaded-Alike p q (program script) a = run_program-Alike 0 p q script a

    -- Neither memory belongs to the program of the digest.
    begun-Alike :
        (p q : Policy) (digest : List ℕ)
        → p.commands ≡ q.commands
        → IsValid p.memory
        → IsValid q.memory
        → Spec.runs (view p.memory) digest ≡ false
        → Spec.runs (view q.memory) digest ≡ false
        → Alike (begun p digest) (begun q digest)
    unfolding Spec.begin_cycle
    begun-Alike p q digest same v w other other' =
        let (left, v') = begin_cycle-refines p.memory digest v in
        let (right, w') = begin_cycle-refines q.memory digest w in
        record {
          commands = same;
          memory = left ∙ (rw (other, other') refl ∙ sym right);
          left = v';
          right = w';
        }

    module _ (load : List ℕ → Loaded Arg F) where
      run_lua_policy-Alike :
          (p q : Policy) (source : List ℕ) (created : Bool)
          → Alike p q
          → AlikeResult
              (run_lua_policy l moments deadline load p source created)
              (run_lua_policy l moments deadline load q source created)
      unfolding run_lua_policy
      run_lua_policy-Alike p q source false a = record { policies = a; outcomes = refl }
      run_lua_policy-Alike p q source true a = run_loaded-Alike p q (load source) a

      module _ (hash : List ℕ → Result (List ℕ × ℕ)) {Store Stats : Type 0}
          (programs : PolicyStorage.Nvs Store Stats) where
        -- A cycle whose program is not the one that the memory belongs to does what it would do with
        -- the initial memory: it puts the same commands in the queue of the relays, and every name
        -- reads the same afterwards. The active program can be read and has a digest, and the arrays
        -- of the memory are well formed.
        pub run_policy_cycle-isolated :
            (p : Policy) (flags : Config Flash) (flash : Store) (now_s : ℕ)
            (allocated created : Bool) (active_source digest : List ℕ) (name : Option Text)
            (d : Bool)
            → IsValid p.memory
            → policy_storage_read_alloc programs flash PolicySlot.active true allocated
              ≡ ok active_source
            → checksum_sha1 hash
                (some (source_of active_source))
                (length (source_of active_source))
                true
              ≡ ok digest
            → Spec.runs (view p.memory) digest ≡ false
            → let cycle = λ (q : Policy).
              (run_policy_cycle l moments deadline load hash programs q flags flash now_s allocated
                created).0 in
              let after = cycle p in
              let fresh = cycle (record p { memory = initial }) in
              (after.commands ≡ fresh.commands)
              × (get after.memory name d ≡ get fresh.memory name d)
        unfolding run_policy_cycle
        run_policy_cycle-isolated p flags flash now_s allocated created active_source digest name d
              v read identified other =
            let fresh : Policy = record p { memory = initial } in
            let alike = ended-Alike _ _ (
              run_lua_policy-Alike (begun p digest) (begun fresh digest) (source_of active_source)
                created
                (begun-Alike p fresh digest refl v (record { slots = refl; within = omega arith })
                  other refl)) in
            rw (read, identified)
              (
                alike.commands,
                get-refines _ name d
                    ∙ (ap (λ m. Spec.get m name d) alike.memory ∙ sym (get-refines _ name d)),
              )
