-- ===== src/Work.antt =====
-- The Work Runner: its durable store (src/personal_ai_brain/work_store.py) and its single worker
-- (src/personal_ai_brain/work_runner.py).
pub mod Store
pub mod Transition
pub mod Calls
pub mod Recovery
pub mod Submission
mod Kept
mod Published
mod Directories
mod Files
pub mod Results
pub mod Runner
mod Tests
