-- ===== src/Counters/Ahead.antt =====
-- The counters of a state, and the probe key that is followed beside them, from
-- .local/lib/monitor-controller/monitor_controller/reducer.py.
use desktop_config.Prelude.{
  Bool, Bool-cases, List, Option, [], add, arith, elem, false, false≢true, if◌then◌else◌, inl, inr,
  none, some, true, ℕ, ◌++◌, ◌+◌, ◌∷◌, ◌≡◌, ◌≢◌, ◌≤◌, ◌⊎◌,
}
use desktop_config.Model.Action.{ProbeAction}
use desktop_config.Model.Enums.{ActionLifecycle}
use desktop_config.Model.Identity.{ProbeAttemptKey, probe_attempt_key_eq}
use desktop_config.Model.State.{State}

-- The counters that a run began with, and a probe key that was attempted before it, if one is
-- followed.
pub record Counters : Type 0 where
  pub actions : ℕ
  pub transitions : ℕ
  pub physical : ℕ
  pub reconcile : ℕ
  pub spent : Option ProbeAttemptKey

-- No probe waits for its dispatch.
pub data Settled : Option ProbeAction → Type 0 where
  nothing : Settled none
  started : (b : ProbeAction) → b.lifecycle ≢ ActionLifecycle.admitted → Settled (some b)

-- A key that was attempted is so still, or is of an earlier epoch, and no probe under it waits for its
-- dispatch.
pub record Kept (k : ProbeAttemptKey) (p : ℕ) (keys : List ProbeAttemptKey) (o : Option ProbeAction)
    : Type 0 where
  pub opened : k.physical_epoch ≤ p
  pub kept : (k.physical_epoch + 1 ≤ p) ⊎ (elem k keys ≡ true)
  pub unused : (b : ProbeAction) → o ≡ some b → b.lifecycle ≡ ActionLifecycle.admitted → b.key ≢ k

-- Four numbers, none of which is behind its counter, and attempted keys that keep the followed one.
pub record AheadOf (c : Counters) (a t p r : ℕ) (keys : List ProbeAttemptKey)
    (o : Option ProbeAction) : Type 0 where
  pub actions : c.actions ≤ a
  pub transitions : c.transitions ≤ t
  pub physical : c.physical ≤ p
  pub reconcile : c.reconcile ≤ r
  pub spent : (k : ProbeAttemptKey) → c.spent ≡ some k → Kept k p keys o

-- The state is not behind the counters.
abbrev pub Ahead : Counters → State → Type 0
Ahead c s =
    AheadOf c s.action_sequence_high_water s.transition_sequence_high_water s.physical_epoch
      s.reconcile_epoch s.attempted_probe_keys s.probe

abbrev pub following : Option ProbeAttemptKey → State → Counters
following spent s = record {
  actions = s.action_sequence_high_water;
  transitions = s.transition_sequence_high_water;
  physical = s.physical_epoch;
  reconcile = s.reconcile_epoch;
  spent = spent;
}

-- The counters of a state, where no key is followed.
abbrev pub counters : State → Counters
counters s = following none s

pub same_counters :
    (spent : Option ProbeAttemptKey) (s : State)
    → ((k : ProbeAttemptKey)
        → spent ≡ some k
        → Kept k s.physical_epoch s.attempted_probe_keys s.probe)
    → Ahead (following spent s) s
same_counters spent s h = record {
  actions = omega arith;
  transitions = omega arith;
  physical = omega arith;
  reconcile = omega arith;
  spent = h;
}

elem-++ :
    (k : ProbeAttemptKey) (xs ys : List ProbeAttemptKey)
    → elem k xs ≡ true
    → elem k (xs ++ ys) ≡ true
elem-++ k [] ys h = absurd (cc)
elem-++ k (x ∷ xs) ys h = ground (arith, elem-++ k xs ys)

elem-add :
    (k x : ProbeAttemptKey) (keys : List ProbeAttemptKey)
    → elem k keys ≡ true
    → elem k (add keys x) ≡ true
elem-add k x keys h = elim (Bool-cases (elem x keys)) [
  | inl e ↦ rw e h
  | inr e ↦ rw e (elem-++ k keys (x ∷ []) h)
]

Settled-unused :
    (k : ProbeAttemptKey) (o : Option ProbeAction) (b : ProbeAction)
    → Settled o
    → o ≡ some b
    → b.lifecycle ≡ ActionLifecycle.admitted
    → b.key ≢ k
Settled-unused k _ b Settled.nothing e l = absurd (cc)
Settled-unused k _ b (Settled.started x n) e l = absurd (n (cc))

module _ {c : Counters} {a t p r : ℕ} {keys : List ProbeAttemptKey} {o : Option ProbeAction}
    (h : AheadOf c a t p r keys o) where
  pub next_action : AheadOf c (a + 1) t p r keys o
  next_action = record {
    actions = omega (arith, h.actions);
    transitions = h.transitions;
    physical = h.physical;
    reconcile = h.reconcile;
    spent = h.spent;
  }

  pub next_transition : AheadOf c a (t + 1) p r keys o
  next_transition = record {
    actions = h.actions;
    transitions = omega (arith, h.transitions);
    physical = h.physical;
    reconcile = h.reconcile;
    spent = h.spent;
  }

  pub next_epoch : AheadOf c a t (p + 1) (r + 1) [] none
  next_epoch = record {
    actions = h.actions;
    transitions = h.transitions;
    physical = omega (arith, h.physical);
    reconcile = omega (arith, h.reconcile);
    spent = λ k e.
        let m = (h.spent k e).opened in
        record {
          opened = omega (arith, m);
          kept = inl (omega (arith, m));
          unused = λ b q. absurd (cc);
        };
  }

  pub settle : (x : Option ProbeAction) → Settled x → AheadOf c a t p r keys x
  settle x settled = record {
    actions = h.actions;
    transitions = h.transitions;
    physical = h.physical;
    reconcile = h.reconcile;
    spent = λ k e.
        let m = h.spent k e in
        record {
          opened = m.opened;
          kept = m.kept;
          unused = λ b q l. Settled-unused k x b settled q l;
        };
  }

  pub settle-if : (b : Bool) → AheadOf c a t p r keys (if b then none else o)
  settle-if true = settle none Settled.nothing
  settle-if false = h

  -- A key of the present epoch that was not attempted is not one that is followed.
  pub new_key :
      (x k : ProbeAttemptKey)
      → elem x keys ≡ false
      → x.physical_epoch ≡ p
      → c.spent ≡ some k
      → x ≢ k
  new_key x k new epoch e same = elim (h.spent k e).kept [
    | inl earlier ↦ (let v : k.physical_epoch ≡ p = cc in omega (arith, earlier, v))
    | inr known ↦ false≢true (cc)
  ]

  -- A probe that waits under a key that is not followed.
  pub admit_key :
      (x : ProbeAction)
      → ((k : ProbeAttemptKey) → c.spent ≡ some k → x.key ≢ k)
      → AheadOf c a t p r keys (some x)
  admit_key x new = record {
    actions = h.actions;
    transitions = h.transitions;
    physical = h.physical;
    reconcile = h.reconcile;
    spent = λ k e.
        let m = h.spent k e in
        record { opened = m.opened; kept = m.kept; unused = λ b q l same. new k e (cc) };
  }

  -- The waiting probe, with another generation.
  pub renew_probe :
      (y x : ProbeAction)
      → o ≡ some y
      → x.key ≡ y.key
      → x.lifecycle ≡ y.lifecycle
      → AheadOf c a t p r keys (some x)
  renew_probe y x held same_key same_lifecycle = record {
    actions = h.actions;
    transitions = h.transitions;
    physical = h.physical;
    reconcile = h.reconcile;
    spent = λ k e.
        let m = h.spent k e in
        record {
          opened = m.opened;
          kept = m.kept;
          unused = λ b q l same.
              let u : x ≡ b = cc in
              let v : y.lifecycle ≡ ActionLifecycle.admitted = cc in m.unused y held v (cc);
        };
  }

  pub spend_key :
      (k : ProbeAttemptKey) (x : Option ProbeAction) → Settled x → AheadOf c a t p r (add keys k) x
  spend_key k x settled = record {
    actions = h.actions;
    transitions = h.transitions;
    physical = h.physical;
    reconcile = h.reconcile;
    spent = λ k' e.
        let m = h.spent k' e in
        record {
          opened = m.opened;
          kept = elim m.kept [ inl q ↦ inl q | inr q ↦ inr (elem-add k' k keys q) ];
          unused = λ b q l. Settled-unused k' x b settled q l;
        };
  }

  -- All keys are forgotten where none is followed.
  pub forget_keys : c.spent ≡ none → AheadOf c a t p r [] none
  forget_keys free = record {
    actions = h.actions;
    transitions = h.transitions;
    physical = h.physical;
    reconcile = h.reconcile;
    spent = λ k e. absurd (cc);
  }
