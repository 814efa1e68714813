-- ===== src/Controller.antt =====
-- The runtime around the reducer: .local/lib/monitor-controller/monitor_controller/runtime/, its
-- controller.py, dispatcher.py and scheduler.py.
pub mod Dispatch
pub mod Context
pub mod Machine
pub mod Effects
pub mod Starting
pub mod Stopping
pub mod Steps
pub mod Follows
pub mod Leads
pub mod Refined
pub mod Scheduler
pub mod Awake
pub mod Fenced
pub mod Proven
pub mod Completed
pub mod Recorded
pub mod Slots
pub mod Spent
