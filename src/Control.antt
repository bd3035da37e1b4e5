-- ===== src/Control.antt =====
-- src/control.js: the control plane, which changes the operators, bindings, schedules, subagents
-- and long-horizon records that the store keeps.
pub mod Store
pub mod Operators
pub mod Upsert
pub mod Add
pub mod Schedules
pub mod Patch
pub mod Apply
pub mod Update
pub mod LongHorizon
pub mod Switch
pub mod Liveness
pub mod Registration
pub mod Subagents
pub mod Mutate
pub mod Calls
pub mod Steps
pub mod Transitions
pub mod Refines
pub mod Mutated
pub mod Installs
pub mod Retired
pub mod Valid
pub mod PatchFields
pub mod Patched
pub mod Invariant
pub mod Bindings
pub mod Resumed
pub mod Served
pub mod Reconciled
pub mod Atomic
pub mod Untouched
pub mod Final
mod Tests
