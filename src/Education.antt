-- ===== src/Education.antt =====
-- Education programs and the progress of a learner through one.
pub mod Schema
pub mod Program
pub mod Enrollment
pub mod Progress
pub mod Refusal
pub mod Actions
pub mod History
pub mod Integrity
pub mod Service
pub mod Approval
pub mod Certified
pub mod Recording
pub mod Stores
mod Examples
