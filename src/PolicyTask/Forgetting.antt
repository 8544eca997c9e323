-- ===== src/PolicyTask/Forgetting.antt =====
-- main/policy_task.cpp: a cycle that does not complete leaves nothing in the memory.
use power.Prelude.{
  ℕ, ◌≡◌, ◌≢◌, refl, length, Bool, true, false, Option, none, some, List, [], ◌∷◌, Text, Result, ok,
  err, arith, Bool-cases, inl, inr,
}
use power.Checksum.{checksum_sha1}
use power.ConfigFlags.Store.{Config}
use power.PolicyStorage
use power.PolicyStorage.{PolicySlot, policy_storage_read_alloc}
use power.PolicyState.{PolicyState, Entry, clear, finish_cycle, get, find_entry}
use power.PolicyTask.Moments.{Libraries, Moment, Policy}
use power.PolicyTask.Cycle.{
  Program, Loaded, program, refused, begun, ended, source_of, run_program, run_loaded,
  run_lua_policy, run_identified, run_read, run_policy_cycle,
}

find_entry-none : (es : List Entry) (name : Text) → find_entry es 0 name ≡ none
unfolding find_entry
find_entry-none [] name = refl
find_entry-none (e ∷ es) name = refl

get-clear : (s : PolicyState) (name : Option Text) (d : Bool) → get (clear s) name d ≡ d
unfolding get clear find_entry
get-clear s none d = refl
get-clear s (some name) d = ground (arith, find_entry-none s.entries name)

ended-done : (x : Policy × Bool) → x.1 ≡ true → x ≡ (ended x, true)
unfolding finish_cycle
ended-done (p, true) h = refl
ended-done (p, false) h = cc

module _ {Arg F Double Flash Banks Chip : Type 0} (l : Libraries Arg F Double Flash Banks Chip)
    (moments : ℕ → Moment F Flash Banks Chip) (deadline : ℕ) (load : List ℕ → Loaded Arg F)
    (hash : List ℕ → Result (List ℕ × ℕ)) where
  -- The cycle went through, with the program that was read.
  pub record Completed (p q : Policy) (created : Bool) (read : Result (List ℕ)) : Type 0 where
    pub active_source : List ℕ
    pub digest : List ℕ
    pub script : Program Arg F
    pub was_read : read ≡ ok active_source
    pub identified :
        checksum_sha1 hash (some (source_of active_source)) (length (source_of active_source)) true
        ≡ ok digest
    pub room : created ≡ true
    pub loaded : load (source_of active_source) ≡ program script
    pub ran : run_program l moments deadline 0 (begun p digest) script ≡ (q, true)

  run_loaded-Completed :
      (p : Policy) (active_source digest : List ℕ) (loaded : Loaded Arg F) (name : Option Text)
      (d : Bool)
      → checksum_sha1 hash (some (source_of active_source)) (length (source_of active_source)) true
        ≡ ok digest
      → load (source_of active_source) ≡ loaded
      → get (ended (run_loaded l moments deadline (begun p digest) loaded)).memory name d ≢ d
      → Completed p
          (ended (run_loaded l moments deadline (begun p digest) loaded))
          true
          (ok active_source)
  unfolding finish_cycle
  run_loaded-Completed p active_source digest (refused message) name d e e' h =
      absurd (h (get-clear (begun p digest).memory name d))
  run_loaded-Completed p active_source digest (program script) name d e e' h =
      let ran = run_program l moments deadline 0 (begun p digest) script in
      elim (Bool-cases ran.1) [
        | inl done ↦ record {
          active_source = active_source;
          digest = digest;
          script = script;
          was_read = refl;
          identified = e;
          room = refl;
          loaded = e';
          ran = ended-done ran done;
        }
        | inr failed ↦ absurd (h (rw failed (get-clear ran.0.memory name d)))
      ]

  run_identified-Completed :
      (p : Policy) (active_source : List ℕ) (created : Bool) (digest : Result (List ℕ))
      (name : Option Text) (d : Bool)
      → checksum_sha1 hash (some (source_of active_source)) (length (source_of active_source)) true
        ≡ digest
      → get
          (run_identified l moments deadline load p (source_of active_source) created digest).memory
          name
          d
        ≢ d
      → Completed p
          (run_identified l moments deadline load p (source_of active_source) created digest)
          created
          (ok active_source)
  unfolding run_lua_policy finish_cycle
  run_identified-Completed p active_source created (err code) name d e h =
      absurd (h (get-clear p.memory name d))
  run_identified-Completed p active_source false (ok digest) name d e h =
      absurd (h (get-clear (begun p digest).memory name d))
  run_identified-Completed p active_source true (ok digest) name d e h =
      run_loaded-Completed p active_source digest (load (source_of active_source)) name d e refl h

  run_read-Completed :
      (p : Policy) (created : Bool) (read : Result (List ℕ)) (name : Option Text) (d : Bool)
      → get (run_read l moments deadline load hash p created read).memory name d ≢ d
      → Completed p (run_read l moments deadline load hash p created read) created read
  run_read-Completed p created (err code) name d h = absurd (h (get-clear p.memory name d))
  run_read-Completed p created (ok active_source) name d h =
      run_identified-Completed p active_source created
        (checksum_sha1 hash (some (source_of active_source)) (length (source_of active_source))
          true)
        name d refl h

  -- Where a name reads other than the default after a cycle, the cycle went through: the active
  -- program was read and has a digest, there was room for a Lua state, the program loaded, and it ran
  -- to its end without an error, from the memory that begin_cycle leaves.
  pub run_policy_cycle-Completed :
      {Store Stats : Type 0} (programs : PolicyStorage.Nvs Store Stats) (p : Policy)
      (flags : Config Flash) (flash : Store) (now_s : ℕ) (allocated created : Bool)
      (name : Option Text) (d : Bool)
      → let q =
          (run_policy_cycle l moments deadline load hash programs p flags flash now_s allocated
            created).0 in
        get q.memory name d ≢ d
        → Completed p q created
            (policy_storage_read_alloc programs flash PolicySlot.active true allocated)
  unfolding run_policy_cycle
  run_policy_cycle-Completed programs p flags flash now_s allocated created name d h =
      run_read-Completed p created
        (policy_storage_read_alloc programs flash PolicySlot.active true allocated) name d h
