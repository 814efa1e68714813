-- ===== src/Controller/Fenced.antt =====
-- Hints close the last fence of
-- .local/lib/monitor-controller/monitor_controller/runtime/controller.py.
use desktop_config.Prelude.{List, [], arith, false, nat_eq, ℕ, ◌<◌, ◌∷◌, ◌≡◌, ◌≤◌}
use desktop_config.Controller.Dispatch.{DispatchEffect, effect_generation}
use desktop_config.Controller.Machine.{Machine, final_dispatch_fence_passes, notify_drm_hint}

-- Hints in a row
pub hint_all : Machine → List ℕ → Machine
hint_all m [] = m
hint_all m (now_ms ∷ later) = hint_all (notify_drm_hint m now_ms) later

above_fails :
    (m : Machine) (effect : DispatchEffect)
    → (effect_generation effect).value < m.event_generation
    → final_dispatch_fence_passes m effect ≡ false
unfolding final_dispatch_fence_passes
above_fails m effect h = ground arith

generation-hint_all :
    (m : Machine) (times : List ℕ) → m.event_generation ≤ (hint_all m times).event_generation
unfolding hint_all notify_drm_hint
generation-hint_all m [] = omega arith
generation-hint_all m (now_ms ∷ later) =
    omega (arith, generation-hint_all (notify_drm_hint m now_ms) later)

-- Once a hint has arrived, the last fence refuses every worker that was admitted before it, however
-- many hints follow, and before the controller has consumed any of them.
pub hints-close_fence :
    (m : Machine) (effect : DispatchEffect) (now_ms : ℕ) (later : List ℕ)
    → (effect_generation effect).value ≤ m.event_generation
    → final_dispatch_fence_passes (hint_all m (now_ms ∷ later)) effect ≡ false
unfolding hint_all notify_drm_hint
hints-close_fence m effect now_ms later h =
    above_fails (hint_all (notify_drm_hint m now_ms) later) effect
      (omega (arith, generation-hint_all (notify_drm_hint m now_ms) later))
