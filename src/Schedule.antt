-- ===== src/Schedule.antt =====
-- Weekly schedules: custom_components/homepass/models/schedule.py and schedule_evaluation.py.
pub mod Rule
pub mod Segments
pub mod Overlap
pub mod Policy
pub mod Canonical
pub mod Evaluation
pub mod Stored
