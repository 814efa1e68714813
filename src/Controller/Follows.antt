-- ===== src/Controller/Follows.antt =====
-- Every step of the controller of
-- .local/lib/monitor-controller/monitor_controller/runtime/controller.py moves its state as `reduce`
-- does, and stores it.
use desktop_config.Prelude.{
  >>=-inverse, Bool, Error, List, Option, Result, arith, err, false, if◌then◌else◌, maybe, none, ok,
  refl, some, subst, sym, true, ℕ, ◌>>=◌, ◌∙◌, ◌≡◌, ◌≤◌,
}
use desktop_config.Controller.Dispatch.{DispatchEffect}
use desktop_config.Controller.Machine.{Machine, next_generation, process_event}
use desktop_config.Model.Enums.{action_lifecycle_eq}
use desktop_config.Model.Event.{Event}
use desktop_config.Model.Identity.{action_id_eq, boot_id_eq}
use desktop_config.Model.State.{State}
use desktop_config.Reducer.Reduce.{reduce}
use desktop_config.Safety.Reachable.{Reachable}

-- What a call of the controller makes of its machine; `l` are the workers submitted after it.
pub record Follows (l : List DispatchEffect) (m n : Machine) : Type 0 where
  pub reached : Reachable m.state n.state
  pub durable : m.stored ≡ m.state → n.stored ≡ n.state
  pub ahead :
      m.state.event_generation.value ≤ m.event_generation
      → n.state.event_generation.value ≤ n.event_generation
  pub sent : n.submitted ≡ l

unfoldable pub Leads : List DispatchEffect → Machine → Result Machine → Type 0
Leads l m r = (n : Machine) → r ≡ ok n → Follows l m n

pub Follows-self : (m : Machine) → Follows m.submitted m m
Follows-self m = record { reached = Reachable.start; durable = λ h. h; ahead = λ h. h; sent = refl }

-- A machine that agrees with another on what the reducer is called with.
pub record Agrees (l : List DispatchEffect) (m k : Machine) : Type 0 where
  pub state : k.state ≡ m.state
  pub stored : k.stored ≡ m.stored
  pub generation : k.event_generation ≡ m.event_generation
  pub sent : k.submitted ≡ l

pub Agrees-Follows : (l : List DispatchEffect) (m k : Machine) → Agrees l m k → Follows l m k
Agrees-Follows l m k s = record {
  reached = rw s.state Reachable.start;
  durable = λ d. s.stored ∙ d ∙ sym s.state;
  ahead = λ d. rw (s.state, s.generation) d;
  sent = s.sent;
}

pub Leads-same : (l : List DispatchEffect) (m k : Machine) → Agrees l m k → Leads l m (ok k)
unfolding Leads
Leads-same l m k s n h = let e : k ≡ n = cc in subst (Follows l m) e (Agrees-Follows l m k s)

le_next_generation :
    (e : Event) (g : ℕ) (s : State) → s.event_generation.value ≤ next_generation e g s
unfolding next_generation
le_next_generation (Event.boot_changed e) g s = omega arith
le_next_generation _ g s = omega arith

pub ok-inverse : {A : Type 0} (a b : A) → ok a ≡ ok b → a ≡ b
ok-inverse a b h = cc

pub Leads-process :
    (l : List DispatchEffect) (m k : Machine) (fenced : Bool) (e : Event)
    → Agrees l m k
    → Leads l m (process_event k fenced e)
unfolding Leads process_event
Leads-process l m k fenced e s n h =
    let (d, p, q) = >>=-inverse (reduce k.state e) _ h in
    subst (Follows l m) (ok-inverse _ n q) (record {
      reached =
          Reachable.step m.state e d Reachable.start
            (subst (λ (t : State). reduce t e ≡ ok d) s.state p);
      durable = λ h. refl;
      ahead = λ h. le_next_generation e k.event_generation d.state;
      sent = s.sent;
    })

pub Leads-err : (l : List DispatchEffect) (m : Machine) (e : Error) → Leads l m (err e)
unfolding Leads
Leads-err l m e n h = absurd (cc)

pub Leads-if :
    (l : List DispatchEffect) (m : Machine) (b : Bool) (r q : Result Machine)
    → Leads l m r
    → Leads l m q
    → Leads l m (if b then r else q)
Leads-if l m true r q left right = left
Leads-if l m false r q left right = right

pub Leads-maybe :
    {A : Type 0} (l : List DispatchEffect) (m : Machine) (o : Option A) (r : Result Machine)
    (f : A → Result Machine)
    → Leads l m r
    → ((a : A) → Leads l m (f a))
    → Leads l m (maybe o r f)
Leads-maybe l m none r f missing present = missing
Leads-maybe l m (some a) r f missing present = present a

pub Leads-bind :
    {A : Type 0} (l : List DispatchEffect) (m : Machine) (c : Result A) (f : A → Result Machine)
    → ((a : A) → Leads l m (f a))
    → Leads l m (c >>= f)
Leads-bind l m (err e) f k = Leads-err l m e
Leads-bind l m (ok a) f k = k a
