-- ===== src/Core/Buffers/Shutdown.antt =====
-- src/tracker/core.cpp: `balltrack_core_term` sets `analysis_stop` and joins the analysis thread, which
-- tests the flag only between two buffers.
use foosball_tracker.Common.{ℕ, zero, suc, ◌<◌, ◌≡◌, ◌≢◌, ◌⊎◌, inl, inr, refl, arith}
use foosball_tracker.Core.Buffers.{
  BufferType, idle, joining, joined, AnalysisPc, testing, waiting, busy, posting, done, System,
  Step, request_stop, gl_claim, gl_fill, gl_fill_failed, gl_post, gl_stop, gl_join, analysis_go,
  analysis_end, analysis_take, analysis_process, analysis_post, init, Reach, here, next,
}
use foosball_tracker.Core.Buffers.Invariant.{Inv, Reach-Inv, Step-Inv}

-- The state right after the GL thread sets the flag.
abbrev pub stopping : System → System
stopping s = record s { mem = request_stop s.mem; gl = joining }

-- A waiting analysis thread, no full buffer, and a GL thread that joins: nothing moves.
joining_stuck :
    {s t : System} → s.gl ≡ joining → s.analysis ≡ waiting → s.mem.full_count ≡ 0 → Step s t → ⊥
joining_stuck p q z (gl_claim t e h) = ground arith
joining_stuck p q z (gl_fill b e) = ground arith
joining_stuck p q z (gl_fill_failed e) = ground arith
joining_stuck p q z (gl_post e) = ground arith
joining_stuck p q z (gl_stop e) = ground arith
joining_stuck p q z (gl_join e d) = ground arith
joining_stuck p q z (analysis_go e h) = ground arith
joining_stuck p q z (analysis_end e h) = ground arith
joining_stuck p q z (analysis_take e h) = ground arith
joining_stuck p q z (analysis_process e) = ground arith
joining_stuck p q z (analysis_post e) = ground arith

-- If the tracker is stopped while the analysis thread waits and no full buffer is left, the state is
-- reachable, and no thread can move from it: the join never returns.
pub shutdown_hangs :
    {s : System}
    → Reach init s
    → s.gl ≡ idle
    → s.analysis ≡ waiting
    → s.mem.full_count ≡ 0
    → Reach init (stopping s) × ((t : System) → ¬ Step (stopping s) t)
unfolding request_stop
shutdown_hangs r p q z = (next r (gl_stop p), λ t st. joining_stuck refl q z st)

join_from_testing :
    {s : System}
    → Inv s
    → s.gl ≡ joining
    → s.analysis ≡ testing
    → (t : System) × Reach s t × (t.gl ≡ joined)
join_from_testing {s} v p q =
    let flag : s.mem.analysis_stop ≡ 1 = ground arith in
    (_, next (next here (analysis_end q flag)) (gl_join p refl), refl)

-- Steps in front of a run.
Reach-trans : {s t u : System} → Step s t → Reach t u → Reach s u
Reach-trans st here = next here st
Reach-trans st (next r last) = next (Reach-trans st r) last

before :
    {s t : System}
    → Step s t
    → (u : System) × Reach t u × (u.gl ≡ joined)
    → (u : System) × Reach s u × (u.gl ≡ joined)
before st (u, r, e) = (u, Reach-trans st r, e)

join_from_posting :
    {s : System}
    → Inv s
    → s.gl ≡ joining
    → s.analysis ≡ posting
    → (t : System) × Reach s t × (t.gl ≡ joined)
join_from_posting v p q =
    let st = analysis_post q in before st (join_from_testing (Step-Inv st v) p refl)

join_from_busy :
    {s : System} (t : BufferType) (k : ℕ)
    → Inv s
    → s.gl ≡ joining
    → s.analysis ≡ busy t k
    → (t : System) × Reach s t × (t.gl ≡ joined)
join_from_busy t k v p q =
    let st = analysis_process q in before st (join_from_posting (Step-Inv st v) p refl)

join_from_waiting :
    {s : System} (n : ℕ)
    → Inv s
    → s.gl ≡ joining
    → s.analysis ≡ waiting
    → s.mem.full_count ≡ n
    → 0 < n
    → (t : System) × Reach s t × (t.gl ≡ joined)
join_from_waiting zero v p q e h = elim h [ ]
join_from_waiting (suc n) v p q e h =
    let st = analysis_take q e in before st (join_from_busy _ _ (Step-Inv st v) p refl)

-- From every reachable state in which the GL thread joins, and the analysis thread either is not
-- waiting or has a full buffer to take, the program can run on to the end of the join.
pub shutdown_completes :
    {s : System}
    → Reach init s
    → s.gl ≡ joining
    → (s.analysis ≢ waiting) ⊎ (0 < s.mem.full_count)
    → (t : System) × Reach s t × (t.gl ≡ joined)
shutdown_completes {s} r p h = go s.analysis refl h
  where
    v : Inv s
    v = Reach-Inv r

    go :
        (n : AnalysisPc)
        → s.analysis ≡ n
        → (s.analysis ≢ waiting) ⊎ (0 < s.mem.full_count)
        → (t : System) × Reach s t × (t.gl ≡ joined)
    go testing q h = join_from_testing v p q
    go waiting q (inl no_wait) = absurd (no_wait q)
    go waiting q (inr full) = join_from_waiting _ v p q refl full
    go (busy t k) q h = join_from_busy t k v p q
    go posting q h = join_from_posting v p q
    go done q h = (_, next here (gl_join p q), refl)
