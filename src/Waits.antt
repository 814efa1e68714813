-- ===== src/Waits.antt =====
-- How long the reducer waits, from `_enter_wait` of
-- .local/lib/monitor-controller/monitor_controller/reducer.py.
use desktop_config.Prelude.{
  &&-right, Bool-cases, List, [], all, arith, if◌then◌else◌, inl, inr, leb, length, ltb, ltb→lt,
  min, none, ok, refl, some, suc, true, zero, ℕ, ◌+◌, ◌-◌, ◌<◌, ◌==◌, ◌∷◌, ◌≡◌, ◌≤◌, ◌⊎◌,
}
use desktop_config.Guards.Timers.{at_timer}
use desktop_config.Model.Effect.{Decision, Effect}
use desktop_config.Model.Enums.{ControllerPhase, controller_phase_eq}
use desktop_config.Model.State.{State}
use desktop_config.Reducer.Epochs.{back_off, clear_proof, delay_at, enter_wait}
use desktop_config.Reducer.Outcome.{decision, schedule}
use desktop_config.Reducer.Timing.{aggressive_budget_ms, fast_delays_ms, slow_delays_ms}
use desktop_config.Safety.Checked.Checks.{assert-Returns}
use desktop_config.Safety.Returns.{Returns, Returns-maybe, Returns-ok, Returns-then}

-- A wait while the aggressive budget lasts: not beyond its deadline, and at most two seconds.
pub record IsFast (s : State) (now_ms deadline t : ℕ) : Type 0 where
  pub phase : s.phase ≡ ControllerPhase.discover_fast
  pub before : now_ms < deadline
  pub within : t ≤ deadline
  pub short : t ≤ now_ms + 2000
  pub index : (1 ≤ s.backoff_index) × (s.backoff_index ≤ 4)

-- A wait after it: between five and thirty seconds.
pub record IsSlow (s : State) (now_ms deadline t : ℕ) : Type 0 where
  pub phase : s.phase ≡ ControllerPhase.wait_slow
  pub after : deadline ≤ now_ms
  pub least : now_ms + 5000 ≤ t
  pub most : t ≤ now_ms + 30000
  pub index : (1 ≤ s.backoff_index) × (s.backoff_index ≤ 3)

-- The wait that a state is in: its timer, against its aggressive deadline.
pub record IsWaiting (s : State) (now_ms : ℕ) : Type 0 where
  pub deadline : ℕ
  pub timer : ℕ
  pub has_deadline : s.aggressive_deadline_ms ≡ some deadline
  pub has_timer : s.next_timer_ms ≡ some timer
  pub future : now_ms ≤ timer
  pub no_proof : s.verify_since_ms ≡ none
  pub kind : IsFast s now_ms deadline timer ⊎ IsSlow s now_ms deadline timer

delay_le : (cap i : ℕ) (ds : List ℕ) → all (λ d. leb d cap) ds ≡ true → delay_at ds i ≤ cap
delay_le cap i [] h = omega arith
delay_le cap zero (d ∷ ds) h = ground arith
delay_le cap (suc i) (d ∷ ds) h = delay_le cap i ds (&&-right (leb d cap) _ h)

delay_ge :
    (least i : ℕ) (ds : List ℕ)
    → all (λ d. leb least d) ds ≡ true
    → i < length ds
    → least ≤ delay_at ds i
delay_ge least i [] h l = absurd (omega arith)
delay_ge least zero (d ∷ ds) h l = ground arith
delay_ge least (suc i) (d ∷ ds) h l = delay_ge least i ds (&&-right (leb least d) _ h) (omega arith)

abbrev fast_index : State → ℕ
fast_index s = min (if s.phase == ControllerPhase.discover_fast then s.backoff_index else 0) 4

abbrev slow_index : State → ℕ
slow_index s = min (if s.phase == ControllerPhase.wait_slow then s.backoff_index else 0) 3

abbrev fast_wait : State → ℕ → ℕ → State × ℕ
fast_wait s deadline now_ms = (
  record s { phase = ControllerPhase.discover_fast; backoff_index = min (fast_index s + 1) 4 },
  min (delay_at fast_delays_ms (fast_index s)) (deadline - now_ms),
)

abbrev slow_wait : State → State × ℕ
slow_wait s = (
  record s { phase = ControllerPhase.wait_slow; backoff_index = min (slow_index s + 1) 3 },
  delay_at slow_delays_ms (slow_index s),
)

module _ (s : State) (deadline now_ms : ℕ) (has : s.aggressive_deadline_ms ≡ some deadline)
    (unproven : s.verify_since_ms ≡ none) where
  fast-IsWaiting :
      now_ms < deadline
      → let (t, delay) = fast_wait s deadline now_ms in
        IsWaiting (at_timer t (now_ms + delay)) now_ms
  fast-IsWaiting h =
      let cap = delay_le 2000 (fast_index s) fast_delays_ms refl in
      record {
        deadline = deadline;
        timer = _;
        has_deadline = has;
        has_timer = refl;
        future = omega arith;
        no_proof = unproven;
        kind = inl (record {
          phase = refl;
          before = h;
          within = omega arith;
          short = omega arith;
          index = (omega arith, omega arith);
        });
      }

  slow-IsWaiting :
      deadline ≤ now_ms
      → let (t, delay) = slow_wait s in IsWaiting (at_timer t (now_ms + delay)) now_ms
  slow-IsWaiting h =
      let cap = delay_le 30000 (slow_index s) slow_delays_ms refl in
      let least = delay_ge 5000 (slow_index s) slow_delays_ms refl (omega arith) in
      record {
        deadline = deadline;
        timer = _;
        has_deadline = has;
        has_timer = refl;
        future = omega arith;
        no_proof = unproven;
        kind = inr (record {
          phase = refl;
          after = h;
          least = omega arith;
          most = omega arith;
          index = (omega arith, omega arith);
        });
      }

  back_off-IsWaiting :
      let (t, delay) = back_off s deadline now_ms in IsWaiting (at_timer t (now_ms + delay)) now_ms
  unfolding back_off
  back_off-IsWaiting = elim (Bool-cases (ltb now_ms deadline)) [
    | inl h ↦ rw h (fast-IsWaiting (ltb→lt _ _ h))
    | inr h ↦ rw h (slow-IsWaiting (ground (arith, h)))
  ]

schedule-IsWaiting :
    (t : State) (at now_ms : ℕ) (effects : List Effect)
    → IsWaiting (at_timer t at) now_ms
    → Returns (λ (d : Decision). IsWaiting d.state now_ms) (schedule t at effects)
unfolding schedule decision
schedule-IsWaiting t at now_ms effects h =
    Returns-then _ _ (assert-Returns (at_timer t at)) (λ _. Returns-ok _ h)

waits :
    (s : State) (now_ms : ℕ)
    → Returns (λ (d : Decision). IsWaiting d.state now_ms) (enter_wait s now_ms)
unfolding enter_wait
waits s now_ms =
    Returns-maybe s.aggressive_deadline_ms _ _
      (λ e. schedule-IsWaiting _ _ now_ms [] (
        back_off-IsWaiting
          (record (clear_proof s) {
            aggressive_deadline_ms = some (now_ms + aggressive_budget_ms);
            backoff_index = 0;
          })
          (now_ms + aggressive_budget_ms) now_ms refl refl))
      (λ u e. schedule-IsWaiting _ _ now_ms [] (back_off-IsWaiting (clear_proof s) u now_ms e refl))

-- Where `_enter_wait` returns a decision, its state waits: while the aggressive budget lasts, for at
-- most two seconds and not beyond the deadline; after it, for five to thirty seconds; with no proof
-- that runs, and with an index that stays within the table of the delays.
pub enter_wait-IsWaiting :
    (s : State) (now_ms : ℕ) (d : Decision) → enter_wait s now_ms ≡ ok d → IsWaiting d.state now_ms
enter_wait-IsWaiting s now_ms d h = (waits s now_ms).at d h
