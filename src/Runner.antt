-- ===== src/Runner.antt =====
-- tools/validation-runner/src: the runner that executes validation campaigns and records them. A
-- text is the list of its code points. The file system, the clock and the processes that the runner
-- starts are arguments.
pub mod Text
pub mod Segment
pub mod Record
pub mod Json
pub mod Journal
pub mod Time
pub mod Campaign
