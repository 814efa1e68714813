-- ===== src/Controller/Leads.antt =====
-- Each operation of the controller of
-- .local/lib/monitor-controller/monitor_controller/runtime/controller.py moves its state by `reduce`
-- alone, and submits a worker only as the dispatcher's answer says.
use desktop_config.Prelude.{
  Bool, List, Option, Result, String, ap, err, false, if◌then◌else◌, maybe, none, ok, some, true, ℕ,
  ◌∷◌,
}
use desktop_config.Controller.Dispatch.{DispatchEffect, WorkerRequestContext, finished_event}
use desktop_config.Controller.Effects.{
  Observed, create_plan, deliver_observation, request_plan, request_sample,
}
use desktop_config.Controller.Follows.{
  Agrees, Leads, Leads-bind, Leads-if, Leads-maybe, Leads-process, Leads-same,
}
use desktop_config.Controller.Machine.{Machine, Task}
use desktop_config.Controller.Starting.{
  Start, acknowledge_dispatch, error_text, final_fence_rejection, launch_request,
  pre_dispatch_fence, reject_dispatch, report_finished, report_unknown, start_prepared,
  write_request,
}
use desktop_config.Controller.Steps.{
  Answer, handle_effect, handle_other, is_submission, perform_task, to_dispatch,
}
use desktop_config.Controller.Stopping.{Stopped, stop_action}
use desktop_config.Model.Effect.{Effect, RequestPlan}
use desktop_config.Model.Enums.{action_lifecycle_eq}
use desktop_config.Model.Identity.{ActionId, action_id_eq, boot_id_eq}
use desktop_config.Model.Observation.{CanonicalObservation}

-- The workers submitted after a task
abbrev pub sent_by : Task → Answer → List DispatchEffect → List DispatchEffect
sent_by (Task.submit effect) a l = if is_submission a.start then effect ∷ l else l
sent_by _ a l = l

module _ (l : List DispatchEffect) (m k : Machine) (s : Agrees l m k) where
  aside : (o : Option CanonicalObservation) → Agrees l m (record k { pending_boot_observation = o })
  aside o = record { state = s.state; stored = s.stored; generation = s.generation; sent = s.sent }

  Leads-deliver :
      (o : CanonicalObservation) (fenced : Bool) (now_ms : ℕ)
      → Leads l m
          (deliver_observation (record k { pending_boot_observation = none }) fenced o now_ms)
  unfolding deliver_observation
  Leads-deliver o fenced now_ms =
      Leads-if l m _ _ _ (Leads-process l m _ fenced _ (aside (some o)))
        (Leads-process l m _ fenced _ (aside none))

  Leads-observation :
      (fenced : Bool) (answer : Observed) (now_ms : ℕ)
      → Leads l m (request_sample k fenced answer now_ms)
  unfolding request_sample
  Leads-observation fenced (Observed.sample o) now_ms =
      Leads-maybe l m k.pending_boot_observation _ _ (Leads-deliver o fenced now_ms)
        (λ o'. Leads-deliver o' fenced now_ms)
  Leads-observation fenced (Observed.raised reason) now_ms =
      Leads-maybe l m k.pending_boot_observation _ _ (Leads-process l m _ fenced _ (aside none))
        (λ o. Leads-deliver o fenced now_ms)

  with_tasks : (tasks : List Task) → Agrees l m (record k { tasks = tasks })
  with_tasks tasks = record {
    state = s.state;
    stored = s.stored;
    generation = s.generation;
    sent = s.sent;
  }

  Leads-plan :
      (fenced : Bool) (request : RequestPlan) (now_ms : ℕ)
      → Leads l m (request_plan k fenced request now_ms)
  unfolding request_plan
  Leads-plan fenced request now_ms =
      Leads-if l m _ _ _ (Leads-same l m k s) (Leads-process l m _ fenced _ (with_tasks _))

  Leads-create : (i : ActionId) → Leads l m (create_plan k i)
  unfolding create_plan
  Leads-create i = Leads-maybe l m k.state.planning _ _ (Leads-same l m k s) (λ action.
      Leads-if l m _ _ _
        (Leads-same l m _
          (record { state = s.state; stored = s.stored; generation = s.generation; sent = s.sent }))
        (Leads-same l m k s))

  Leads-stop :
      (fenced : Bool) (i : ActionId) (answer : Stopped) (now_ms : ℕ)
      → Leads l m (stop_action k fenced i answer now_ms)
  unfolding stop_action report_unknown
  Leads-stop fenced i (Stopped.failed reason) now_ms =
      Leads-if l m _ _ _ (Leads-same l m k s) (Leads-process l m k fenced _ s)
  Leads-stop fenced i Stopped.active now_ms =
      Leads-if l m _ _ _ (Leads-same l m k s) (Leads-same l m k s)
  Leads-stop fenced i (Stopped.inactive none) now_ms =
      Leads-if l m _ _ _ (Leads-same l m k s) (Leads-process l m k fenced _ s)
  Leads-stop fenced i (Stopped.inactive (some c)) now_ms =
      Leads-if l m _ _ _ (Leads-same l m k s)
        (Leads-if l m _ _ _ (Leads-process l m k fenced _ s) (Leads-process l m k fenced _ s))

  Leads-fence :
      (effect : DispatchEffect) (now_ms : ℕ) (r : Result Machine)
      → Leads l m r
      → Leads l m (pre_dispatch_fence k effect now_ms r)
  unfolding pre_dispatch_fence
  Leads-fence effect now_ms r passed =
      Leads-if l m _ _ _ (Leads-process l m k true _ s)
        (Leads-if l m _ _ _ passed (Leads-same l m k s))

  Leads-reject :
      (effect : DispatchEffect) (reason : String) (now_ms : ℕ)
      → Leads l m (reject_dispatch k effect reason now_ms)
  unfolding reject_dispatch
  Leads-reject effect reason now_ms = Leads-process l m k false _ s

  Leads-written :
      (effect : DispatchEffect) (failure : Option String) (now_ms : ℕ)
      (context : Result WorkerRequestContext)
      → Leads l m (elim context [
        | err e ↦ reject_dispatch k effect (error_text e) now_ms
        | ok context ↦
            maybe failure
              (ok (record k { tasks = Task.launch effect ∷ k.tasks }))
              λ reason. reject_dispatch k effect reason now_ms
      ])
  Leads-written effect failure now_ms (err e) = Leads-reject effect (error_text e) now_ms
  Leads-written effect failure now_ms (ok context) =
      Leads-maybe l m failure _ _ (Leads-same l m _ (with_tasks _))
        (λ reason. Leads-reject effect reason now_ms)

  Leads-write :
      (effect : DispatchEffect) (failure : Option String) (now_ms : ℕ)
      → Leads l m (write_request k effect failure now_ms)
  unfolding write_request
  Leads-write effect failure now_ms =
      Leads-fence effect now_ms _ (Leads-written effect failure now_ms _)

  Leads-launch : (effect : DispatchEffect) (now_ms : ℕ) → Leads l m (launch_request k effect now_ms)
  unfolding launch_request
  Leads-launch effect now_ms = Leads-fence effect now_ms _ (Leads-same l m _ (with_tasks _))

  submitting :
      (effect : DispatchEffect) (tasks : List Task)
      → Agrees (effect ∷ l) m (record k { submitted = effect ∷ k.submitted; tasks = tasks })
  submitting effect tasks = record {
    state = s.state;
    stored = s.stored;
    generation = s.generation;
    sent = ap (λ (later : List DispatchEffect). effect ∷ later) s.sent;
  }

  Leads-start :
      (effect : DispatchEffect) (start : Start) (now_ms : ℕ)
      → Leads
          (if is_submission start then effect ∷ l else l)
          m
          (start_prepared k effect start now_ms)
  unfolding is_submission start_prepared final_fence_rejection acknowledge_dispatch
  Leads-start effect (Start.refused reason) now_ms = Leads-reject effect reason now_ms
  Leads-start effect Start.fenced_off now_ms =
      Leads-if l m _ _ _ (Leads-process l m k true _ s)
        (Leads-if l m _ _ _ (Leads-reject effect _ now_ms) (Leads-same l m k s))
  Leads-start effect (Start.accepted unit) now_ms =
      Leads-process (effect ∷ l) m _ false _ (submitting effect _)
  Leads-start effect (Start.uncertain unit reason) now_ms =
      Leads-process (effect ∷ l) m _ false _ (submitting effect _)
  Leads-start effect (Start.ended unit detail c) now_ms =
      Leads-process (effect ∷ l) m _ false _ (submitting effect _)

  Leads-other : (e : Effect) (fenced : Bool) (a : Answer) → Leads l m (handle_other k e fenced a)
  unfolding handle_other
  Leads-other (Effect.request_observation e) fenced a = Leads-observation fenced a.observed a.now_ms
  Leads-other (Effect.request_plan e) fenced a = Leads-plan fenced e a.now_ms
  Leads-other (Effect.stop_action e) fenced a = Leads-stop fenced e.action_id a.stopped a.now_ms
  Leads-other _ fenced a = Leads-same l m k s

  pub Leads-task : (t : Task) (a : Answer) → Leads (sent_by t a l) m (perform_task k t a)
  unfolding perform_task handle_effect report_unknown report_finished
  Leads-task (Task.perform e fenced) a =
      Leads-maybe l m (to_dispatch e) _ _ (Leads-other e fenced a) (λ effect.
        Leads-if l m fenced _ _ (Leads-same l m k s) (Leads-write effect a.write_failure a.now_ms))
  Leads-task (Task.launch effect) a = Leads-launch effect a.now_ms
  Leads-task (Task.submit effect) a = Leads-start effect a.start a.now_ms
  Leads-task (Task.report_unknown i reason) a = Leads-process l m k false _ s
  Leads-task (Task.report_finished c) a =
      Leads-bind l m (finished_event c _) _ (λ e. Leads-process l m k false e s)
  Leads-task (Task.create_plan i) a = Leads-create i
