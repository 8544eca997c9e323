-- ===== src/PolicyTask/Alike.antt =====
-- main/policy_task.cpp: states that a program cannot tell apart.
use power.Prelude.{
  ◌≡◌, refl, sym, ap, ◌∙◌, Bool, true, false, some, [], ◌∷◌, ◌++◌, Text, Result, ok, err,
}
use power.RelayManager.{RelayMessage}
use power.PolicyState.{PolicyState, set}
use power.PolicyState.Spec
use power.PolicyState.Refine.{IsValid, view, set-refines}
use power.PolicyTask.Moments.{Policy}
use power.PolicyTask.Commands.{queued, stored}

-- The same commands, and memories that hold the same.
pub record Alike (p q : Policy) : Type 0 where
  pub commands : p.commands ≡ q.commands
  pub memory : view p.memory ≡ view q.memory
  pub left : IsValid p.memory
  pub right : IsValid q.memory

-- Two results of a call: the same outcome, and alike.
pub record AlikeResult {A : Type 0} (x y : Policy × A) : Type 0 where
  pub policies : Alike x.0 y.0
  pub outcomes : x.1 ≡ y.1

pub queued-Alike :
    (V : Type 0) (p q : Policy) (result : Result RelayMessage)
    → Alike p q
    → AlikeResult (queued {V = V} p result) (queued {V = V} q result)
queued-Alike V p q (err e) a = record { policies = a; outcomes = refl }
queued-Alike V p q (ok message) a = record {
  policies = record {
    commands = ap (λ c. c ++ (message ∷ [])) a.commands;
    memory = a.memory;
    left = a.left;
    right = a.right;
  };
  outcomes = refl;
}

stored-Alike :
    (V : Type 0) (p q : Policy) (x y : PolicyState × Bool)
    → p.commands ≡ q.commands
    → ◌≡◌ {A = Spec.Memo × Bool} (view x.0, x.1) (view y.0, y.1)
    → IsValid x.0
    → IsValid y.0
    → AlikeResult (stored {V = V} p x) (stored {V = V} q y)
stored-Alike V p q (s, true) (t, true) c e v w = record {
  policies = record { commands = c; memory = ap (λ r. r.0) e; left = v; right = w };
  outcomes = refl;
}
stored-Alike V p q (s, false) (t, false) c e v w = record {
  policies = record { commands = c; memory = ap (λ r. r.0) e; left = v; right = w };
  outcomes = refl;
}
stored-Alike V p q (s, true) (t, false) c e v w = cc (ap (λ r. r.1) e)
stored-Alike V p q (s, false) (t, true) c e v w = cc (ap (λ r. r.1) e)

pub set-Alike :
    (V : Type 0) (p q : Policy) (name : Text) (value : Bool)
    → Alike p q
    → AlikeResult
        (stored {V = V} p (set p.memory (some name) value))
        (stored {V = V} q (set q.memory (some name) value))
set-Alike V p q name value a =
    let (x, v) = set-refines p.memory (some name) value a.left in
    let (y, w) = set-refines q.memory (some name) value a.right in
    stored-Alike V p q (set p.memory (some name) value) (set q.memory (some name) value) a.commands
      (x ∙ (ap (λ m. Spec.set m (some name) value) a.memory ∙ sym y)) v w
