-- ===== src/Controller/Scheduler.antt =====
-- The timer: `DeadlineScheduler` of
-- .local/lib/monitor-controller/monitor_controller/runtime/scheduler.py.
use mathlib.Core.Option
use desktop_config.Prelude.{
  ==→≡, Bool, Bool-cases, Option, ap, arith, if◌then◌else◌, inl, inr, is_some, max, maybe, nat_eq,
  none, option_eq, refl, some, true, ℕ, ◌&&◌, ◌==◌, ◌∙◌, ◌≡◌,
}
use desktop_config.Model.Event.{TimerFired}
use desktop_config.Model.Identity.{BootId, boot_id_eq}

-- The task that waits for a deadline; one that has ended is no longer held.
pub record Wait : Type 0 where
  pub deadline_ms : ℕ
  pub boot_id : BootId

-- The fields of `DeadlineScheduler`
pub record Scheduler : Type 0 where
  pub deadline_ms : Option ℕ
  pub boot_id : Option BootId
  pub task : Option Wait

-- `__init__`, and what `close` leaves
abbrev pub unarmed : Scheduler
unarmed = record { deadline_ms = none; boot_id = none; task = none }

-- `arm`
unfoldable pub arm : Scheduler → Option ℕ → BootId → Scheduler
arm c deadline_ms boot_id =
    if c.deadline_ms == deadline_ms && c.boot_id == some boot_id && is_some c.task
    then c
    else record {
      deadline_ms = deadline_ms;
      boot_id = some boot_id;
      task = Option.map (λ (t : ℕ). record { deadline_ms = t; boot_id = boot_id }) deadline_ms;
    }

-- `_wait` once the clock has slept until the deadline: the event, and the scheduler without a task.
unfoldable pub fire : Scheduler → ℕ → Scheduler × Option TimerFired
fire c monotonic_ms =
    maybe c.task (c, none)
      λ wait. (
        unarmed,
        some (record {
          metadata = record {
            processed_at_ms = max wait.deadline_ms monotonic_ms;
            boot_id = wait.boot_id;
          };
          deadline_ms = wait.deadline_ms;
        }),
      )

-- The task waits for the scheduler's own deadline, and there is one exactly when there is a deadline.
pub IsArmed : Scheduler → Type 0
IsArmed c =
    maybe c.task (c.deadline_ms ≡ none)
      λ wait. (c.deadline_ms ≡ some wait.deadline_ms) × (c.boot_id ≡ some wait.boot_id)

pub unarmed-IsArmed : IsArmed unarmed
unfolding IsArmed
unarmed-IsArmed = refl

pub arm-IsArmed :
    (c : Scheduler) (deadline_ms : Option ℕ) (b : BootId)
    → IsArmed c
    → IsArmed (arm c deadline_ms b)
unfolding IsArmed arm
arm-IsArmed c deadline_ms b h =
    elim (Bool-cases (c.deadline_ms == deadline_ms && c.boot_id == some b && is_some c.task)) [
      | inl e ↦ rw e h
      | inr e ↦ rw e (fresh deadline_ms)
    ]
  where
    fresh :
        (d : Option ℕ)
        → maybe
            (Option.map (λ (t : ℕ). record { deadline_ms = t; boot_id = b }) d)
            (d ≡ none)
            (λ (wait : Wait).
              (d ≡ some wait.deadline_ms) × (◌≡◌ {A = Option BootId} (some b) (some wait.boot_id)))
    fresh none = refl
    fresh (some t) = (refl, refl)

armed_before :
    (c : Scheduler) (t : ℕ) (b : BootId)
    → IsArmed c
    → c.deadline_ms ≡ some t
    → c.boot_id ≡ some b
    → (w : Wait) → c.task ≡ some w
    → c.task ≡ some (record { deadline_ms = t; boot_id = b })
unfolding IsArmed
armed_before c t b h d e w k =
    let (p, q) = rw k at h in
    let same : w ≡ record { deadline_ms = t; boot_id = b } = ground arith in k ∙ ap some same

test_parts : (x y z : Bool) → (x && y && z) ≡ true → (x ≡ true) × (y ≡ true) × (z ≡ true)
test_parts x y z h = ground arith

present : {A : Type 0} (o : Option A) → is_some o ≡ true → (a : A) × (o ≡ some a)
present none h = absurd (cc)
present (some a) h = (a, refl)

-- The task that `arm` leaves for a deadline, whether it is the old one or a new one.
pub arm-task :
    (c : Scheduler) (t : ℕ) (b : BootId)
    → IsArmed c
    → (arm c (some t) b).task ≡ some (record { deadline_ms = t; boot_id = b })
unfolding arm
arm-task c t b h =
    elim (Bool-cases (c.deadline_ms == some t && c.boot_id == some b && is_some c.task)) [
      | inl e ↦
          let (d, k, p) = test_parts _ _ _ e in
          let (w, q) = present c.task p in rw e (armed_before c t b h (==→≡ _ _ d) (==→≡ _ _ k) w q)
      | inr e ↦ rw e refl
    ]
