-- ===== src/Core/Buffers.antt =====
-- src/tracker/core.cpp: `send_buffer_to_analysis`, `analysis_thread`, and the stop and join of
-- `balltrack_core_term`, as interleaved steps of two threads over the shared buffers.
pub mod Invariant
pub mod Safety
pub mod Shutdown
mod Tests
use foosball_tracker.Common.{ℕ, zero, suc, ◌+◌, ◌<◌, ◌==◌, if◌then◌else◌, ◌≡◌, List, [], ◌∷◌, ◌++◌}

-- `enum PixelBufferType`
pub data BufferType : Type 0 where
  ball field : BufferType

-- `PIXELBUFFER_COUNT`
abbrev pub pixelbuffer_count : ℕ
pixelbuffer_count = 4

-- The bytes of one readout.
abbrev pub Pixels : Type 0
Pixels = List ℕ

abbrev pub Frame : Type 0
Frame = BufferType × Pixels

-- A write to one place of an array. That the index is in range is a theorem of `Safety`.
abbrev pub update {ℓ} : {A : Type ℓ} → (ℕ → A) → ℕ → A → ℕ → A
update f i a j = if i == j then a else f j

-- The globals that both threads use: the two semaphores (a count each), the two indices, and the
-- arrays `pixelbufferType` and `pixelbuffers`.
pub record Shared : Type 0 where
  pub empty_count : ℕ
  pub full_count : ℕ
  pub next_empty : ℕ
  pub next_full : ℕ
  pub pixelbuffer_type : ℕ → BufferType
  pub pixelbuffers : ℕ → Pixels
  pub analysis_stop : ℕ

-- `++next; if (next == PIXELBUFFER_COUNT) next = 0;`
unfoldable pub advance : ℕ → ℕ
advance next = if next + 1 == pixelbuffer_count then 0 else next + 1

-- Where the GL thread stands in `send_buffer_to_analysis`, with its argument `buffertype` and the place
-- of its local `buf`, and behind the copy with the type and the bytes that this call is to hand over;
-- `joining` is `vcos_thread_join` in `balltrack_core_term`, and `joined` behind it.
pub data GlPc : Type 0 where
  idle : GlPc
  claimed : (buf : ℕ) → BufferType → GlPc
  filled : (buf : ℕ) → Frame → GlPc
  joining : GlPc
  joined : GlPc

-- Where the analysis thread stands, with its locals `type` and `buffer`: at the test of the `while`,
-- at the wait, at the call that processes the buffer, at the post, and past the loop.
pub data AnalysisPc : Type 0 where
  testing : AnalysisPc
  waiting : AnalysisPc
  busy : BufferType → (buffer : ℕ) → AnalysisPc
  posting : AnalysisPc
  done : AnalysisPc

-- The system, with two logs that no code reads: the frames handed over, which are the types and the bytes
-- that the calls were made with, and the frames processed, which are those read from the shared arrays.
pub record System : Type 0 where
  pub mem : Shared
  pub gl : GlPc
  pub analysis : AnalysisPc
  pub sent : List Frame
  pub processed : List Frame

-- After the wait on `semEmptyCount`: the GL thread claims the next buffer. Only this thread uses
-- `nextEmptyBuffer`, so these statements are one step.
unfoldable pub claim : Shared → (left : ℕ) → BufferType → Shared
unfolding advance
claim m left t = record m {
  empty_count = left;
  pixelbuffer_type = update m.pixelbuffer_type m.next_empty t;
  next_empty = advance m.next_empty;
}

-- The copy of the texture into the claimed buffer.
unfoldable pub fill : Shared → ℕ → Pixels → Shared
fill m k p = record m { pixelbuffers = update m.pixelbuffers k p }

-- After the wait on `semFullCount`: the analysis thread takes the next full buffer. Only this thread
-- uses `nextFullBuffer`.
unfoldable pub take_full : Shared → (left : ℕ) → Shared
unfolding advance
take_full m left = record m { full_count = left; next_full = advance m.next_full }

-- `analysis_stop = 1` in `balltrack_core_term`, before the join.
unfoldable pub request_stop : Shared → Shared
request_stop m = record m { analysis_stop = 1 }

-- One step of one thread. A wait is enabled only at a positive count. `fill_failed` is the branch in
-- which the texture cannot be locked: the buffer keeps its old bytes and is handed over all the same.
pub data Step (s : System) : System → Type 0 where
  gl_claim :
      {left : ℕ} (t : BufferType)
      → s.gl ≡ idle
      → s.mem.empty_count ≡ suc left
      → Step s (record s { mem = claim s.mem left t; gl = claimed s.mem.next_empty t })
  gl_fill :
      {k : ℕ} {t : BufferType} (p : Pixels)
      → s.gl ≡ claimed k t
      → Step s (record s { mem = fill s.mem k p; gl = filled k (t, p) })
  gl_fill_failed :
      {k : ℕ} {t : BufferType}
      → s.gl ≡ claimed k t
      → Step s (record s { gl = filled k (t, s.mem.pixelbuffers k) })
  gl_post :
      {k : ℕ} {frame : Frame}
      → s.gl ≡ filled k frame
      → Step s (record s {
        mem = record (s.mem) { full_count = s.mem.full_count + 1 };
        gl = idle;
        sent = s.sent ++ frame ∷ [];
      })
  gl_stop : s.gl ≡ idle → Step s (record s { mem = request_stop s.mem; gl = joining })
  gl_join : s.gl ≡ joining → s.analysis ≡ done → Step s (record s { gl = joined })
  analysis_go :
      s.analysis ≡ testing → s.mem.analysis_stop ≡ 0 → Step s (record s { analysis = waiting })
  analysis_end :
      {n : ℕ}
      → s.analysis ≡ testing
      → s.mem.analysis_stop ≡ suc n
      → Step s (record s { analysis = done })
  analysis_take :
      {left : ℕ}
      → s.analysis ≡ waiting
      → s.mem.full_count ≡ suc left
      → Step s (record s {
        mem = take_full s.mem left;
        analysis = busy (s.mem.pixelbuffer_type s.mem.next_full) s.mem.next_full;
      })
  analysis_process :
      {t : BufferType} {k : ℕ}
      → s.analysis ≡ busy t k
      → Step s (record s {
        analysis = posting;
        processed = s.processed ++ (t, s.mem.pixelbuffers k) ∷ [];
      })
  analysis_post :
      s.analysis ≡ posting
      → Step s (record s {
        mem = record (s.mem) { empty_count = s.mem.empty_count + 1 };
        analysis = testing;
      })

-- The state in which `balltrack_core_init` starts the analysis thread.
abbrev pub init : System
init = record {
  mem = record {
    empty_count = pixelbuffer_count;
    full_count = 0;
    next_empty = 0;
    next_full = 0;
    pixelbuffer_type = λ _. ball;
    pixelbuffers = λ _. [];
    analysis_stop = 0;
  };
  gl = idle;
  analysis = testing;
  sent = [];
  processed = [];
}

pub data Reach (s : System) : System → Type 0 where
  here : Reach s s
  next : {t u : System} → Reach s t → Step t u → Reach s u
