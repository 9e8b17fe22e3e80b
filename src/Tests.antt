-- ===== src/Tests.antt =====
-- Data for the tests, and the theorems at concrete inputs.
pub mod Data
mod TrafficExamples
mod DatabaseExamples
mod ServiceExamples
mod ToolExamples
mod MachineExamples
mod WaitingExamples
mod LoadgenExamples
mod SettledExamples
mod BootExamples
