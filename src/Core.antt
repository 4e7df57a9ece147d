-- ===== src/Core.antt =====
-- src/tracker/core.cpp: the GL thread's frame pipeline and the hand-over of pixel buffers to the
-- analysis thread.
pub mod Buffers
pub mod Fps
pub mod Pipeline
