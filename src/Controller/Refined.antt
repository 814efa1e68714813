-- ===== src/Controller/Refined.antt =====
-- The controller of .local/lib/monitor-controller/monitor_controller/runtime/controller.py
-- implements the log of events that `reduce` consumes.
use desktop_config.Prelude.{
  Bool, List, Result, arith, false, if◌then◌else◌, nat_eq, ok, refl, true, ◌≡◌, ◌≤◌,
}
use desktop_config.Controller.Dispatch.{DispatchEffect}
use desktop_config.Controller.Follows.{Agrees, Follows, Follows-self, Leads, Leads-process}
use desktop_config.Controller.Leads.{Leads-task, sent_by}
use desktop_config.Controller.Machine.{
  Machine, Task, end_plan, enqueue, new_machine, notify_drm_hint, start_machine,
}
use desktop_config.Controller.Steps.{Runs, Step}
use desktop_config.Invariants.Checks.{assert_controller_invariants}
use desktop_config.Model.Event.{Event}
use desktop_config.Model.State.{State}
use desktop_config.Safety.Reachable.{Reachable, Reachable-IsSafe}
use desktop_config.Safety.Spec.{IsSafe}

Reachable-trans : (s t u : State) → Reachable s t → Reachable t u → Reachable s u
Reachable-trans s t _ r Reachable.start = r
Reachable-trans s t _ r (Reachable.step u e d q p) =
    Reachable.step u e d (Reachable-trans s t u r q) p

Follows-if :
    (l : List DispatchEffect) (m : Machine) (b : Bool) (k n : Machine)
    → Follows l m k
    → Follows l m n
    → Follows l m (if b then k else n)
Follows-if l m true k n left right = left
Follows-if l m false k n left right = right

Follows-of :
    (l : List DispatchEffect) (m n : Machine) (r : Result Machine)
    → Leads l m r
    → r ≡ ok n
    → Follows l m n
unfolding Leads
Follows-of l m n r k h = k n h

-- One step follows the log, whatever it submits.
pub record StepFollows (m n : Machine) : Type 0 where
  pub sent : List DispatchEffect
  pub follows : Follows sent m n

same_fields :
    (m : Machine) (queue : List Event) (tasks : List Task)
    → Agrees m.submitted m (record m { queue = queue; tasks = tasks })
same_fields m queue tasks = record { state = refl; stored = refl; generation = refl; sent = refl }

pub Step-Follows : (m n : Machine) → Step m n → StepFollows m n
Step-Follows m n (Step.started now_ms e) = record {
  sent = m.submitted;
  follows = rw e (
      unfold start_machine in
      Follows-if m.submitted m m.started _ _ (Follows-self m)
        (record { reached = Reachable.start; durable = λ h. h; ahead = λ h. h; sent = refl }));
}
Step-Follows m n (Step.hinted now_ms e) = record {
  sent = m.submitted;
  follows = rw e (
      unfold notify_drm_hint in
      record {
        reached = Reachable.start;
        durable = λ h. h;
        ahead = λ h. omega arith;
        sent = refl;
      });
}
Step-Follows m n (Step.enqueued event e) = record {
  sent = m.submitted;
  follows = rw e (
      unfold enqueue in
      record { reached = Reachable.start; durable = λ h. h; ahead = λ h. h; sent = refl });
}
Step-Follows m n (Step.planned i event e) = record {
  sent = m.submitted;
  follows = rw e (
      unfold end_plan in
      record { reached = Reachable.start; durable = λ h. h; ahead = λ h. h; sent = refl });
}
Step-Follows m n (Step.consumed e rest p q h) = record {
  sent = m.submitted;
  follows =
      Follows-of m.submitted m n _
        (Leads-process m.submitted m _ false e (same_fields m rest m.tasks)) h;
}
Step-Follows m n (Step.drained t later e rest p d q h) = record {
  sent = m.submitted;
  follows =
      Follows-of m.submitted m n _
        (Leads-process m.submitted m _ true e (same_fields m rest m.tasks)) h;
}
Step-Follows m n (Step.performed t later a p h) = record {
  sent = sent_by t a m.submitted;
  follows =
      Follows-of (sent_by t a m.submitted) m n _
        (Leads-task m.submitted m _ (same_fields m m.queue later) t a) h;
}

pub Runs-Follows : (m n : Machine) → Runs m n → Follows n.submitted m n
Runs-Follows m _ Runs.begin = Follows-self m
Runs-Follows m k (Runs.next {n} r s) =
    let f = Runs-Follows m n r in
    let g = (Step-Follows n k s).follows in
    record {
      reached = Reachable-trans m.state n.state k.state f.reached g.reached;
      durable = λ h. g.durable (f.durable h);
      ahead = λ h. g.ahead (f.ahead h);
      sent = refl;
    }

-- What holds at every moment of a run: the state is one that `reduce` reaches from the first, it is
-- the state that the store holds, and no event of the state is newer than the published generation.
pub record Consistent (s : State) (m : Machine) : Type 0 where
  pub refines : Reachable s m.state
  pub durable : m.stored ≡ m.state
  pub ahead : m.state.event_generation.value ≤ m.event_generation
  pub safe : IsSafe m.state

-- However events, hints and the answers of the adapters interleave, a controller that starts from a
-- state that passes the invariants is at every moment in a state that `reduce` reaches from it by a
-- log of events; that state is safe and the one that the store holds, and its generation is not
-- above the published one.
pub Runs-Consistent :
    (s : State) (m : Machine)
    → assert_controller_invariants s ≡ ok tt
    → Runs (new_machine s) m
    → Consistent s m
unfolding new_machine
Runs-Consistent s m h r =
    let f = Runs-Follows (new_machine s) m r in
    record {
      refines = f.reached;
      durable = f.durable refl;
      ahead = f.ahead (omega arith);
      safe = Reachable-IsSafe s m.state h f.reached;
    }
