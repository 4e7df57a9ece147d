-- ===== src/Core/Buffers/Safety.antt =====
-- src/tracker/core.cpp: what the hand-over of pixel buffers promises while the program runs.
use foosball_tracker.Common.{
  ℕ, sym, ◌+◌, ◌≤◌, ◌<◌, ◌≡◌, ◌≢◌, length, take, arith, Option, some, none,
}
use foosball_tracker.Core.Buffers.{GlPc, claimed, filled, AnalysisPc, busy, System, init, Reach}
use foosball_tracker.Core.Buffers.Invariant.{Reach-Inv}

-- The buffer that the GL thread has claimed and not yet handed over.
abbrev pub gl_buffer : GlPc → Option ℕ
gl_buffer (claimed k _) = some k
gl_buffer (filled k _) = some k
gl_buffer _ = none

-- The buffer that the analysis thread is reading.
abbrev pub analysis_buffer : AnalysisPc → Option ℕ
analysis_buffer (busy _ k) = some k
analysis_buffer _ = none

-- In every reachable state the buffer that the GL thread holds is not the buffer that the analysis
-- thread processes, and both are among the four.
pub buffers_disjoint :
    {s : System} (i j : ℕ)
    → Reach init s
    → gl_buffer s.gl ≡ some i
    → analysis_buffer s.analysis ≡ some j
    → (i ≢ j) × (i < 4) × (j < 4)
buffers_disjoint {s} i j r p q = let v = Reach-Inv r in ground arith

-- In every reachable state the frames processed are, in order, those that the calls handed over, each
-- with the type and the bytes that its call was made with, up to those that still wait, of which there are
-- never more than four. A call that cannot lock the texture hands over the bytes that its buffer held.
pub frames_in_order :
    {s : System}
    → Reach init s
    → (s.processed ≡ take (length s.processed) s.sent)
      × (length s.processed ≤ length s.sent)
      × (length s.sent ≤ length s.processed + 4)
frames_in_order {s} r = let v = Reach-Inv r in (sym v.in_order, ground arith, ground arith)

-- In every reachable state the two semaphore counts add up to at most four, and both indices lie
-- inside the arrays.
pub counts_in_range :
    {s : System}
    → Reach init s
    → (s.mem.empty_count + s.mem.full_count ≤ 4) × (s.mem.next_empty < 4) × (s.mem.next_full < 4)
counts_in_range {s} r = let v = Reach-Inv r in omega arith
