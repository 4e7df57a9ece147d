-- ===== src/Recorder.antt =====
-- src/recorder: the recorder, which films the table and runs the tracker on each frame.
pub mod Cli
pub mod Settings
pub mod Options
pub mod CommandLine
pub mod Circular
pub mod KeyFrames
pub mod OpenFile
pub mod Segments
pub mod Parameters
pub mod CommonSettings
pub mod WindowSettings
pub mod Uses
pub mod WholeCommandLine
pub mod Waiting
pub mod Camera
pub mod Preview
mod Tests
