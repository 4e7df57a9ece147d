-- ===== src/Core/Buffers/Invariant.antt =====
-- src/tracker/core.cpp: what the semaphores, the indices and the threads' positions say of the
-- buffers in every reachable state.
use foosball_tracker.Common.{
  ℕ, zero, suc, ◌+◌, ◌%◌, ◌≤◌, ◌<◌, ◌≡◌, refl, ap, ◌∙◌, List, [], ◌∷◌, ◌++◌, some, length,
  get_elem?, take, take-append_of_le, length-append, arith, Bool-cases, ltb, ltb→lt, inl, inr,
}
use native.Mathlib.Numerals.{add-one}
use foosball_tracker.Core.Buffers.{
  Frame, Shared, GlPc, claimed, filled, joining, joined, AnalysisPc, done, busy, posting, System,
  claim, fill, take_full, request_stop, Step, gl_claim, gl_fill, gl_fill_failed, gl_post, gl_stop,
  gl_join, analysis_go, analysis_end, analysis_take, analysis_process, analysis_post, init, Reach,
  here, next,
}

-- Buffers that the GL thread holds.
abbrev pub gl_holds : GlPc → ℕ
gl_holds (claimed _ _) = 1
gl_holds (filled _ _) = 1
gl_holds _ = 0

-- Buffers that the analysis thread has not yet processed, and buffers that it has not yet given back.
abbrev pub unprocessed : AnalysisPc → ℕ
unprocessed (busy _ _) = 1
unprocessed _ = 0

abbrev pub analysis_holds : AnalysisPc → ℕ
analysis_holds (busy _ _) = 1
analysis_holds posting = 1
analysis_holds _ = 0

-- Whether the GL thread has set `analysis_stop`, and whether the analysis thread has left its loop.
abbrev pub stopped : GlPc → ℕ
stopped joining = 1
stopped joined = 1
stopped _ = 0

abbrev pub ended : AnalysisPc → ℕ
ended done = 1
ended _ = 0

-- The GL thread holds the buffer after the last frame sent, and what its call has written lies there.
abbrev pub GlHolds : Shared → List Frame → GlPc → Type 0
GlHolds m sent (claimed k t) = (k ≡ length sent % 4) × (m.pixelbuffer_type k ≡ t)
GlHolds m sent (filled k (t, p)) =
    (k ≡ length sent % 4) × (m.pixelbuffer_type k ≡ t) × (m.pixelbuffers k ≡ p)
GlHolds m sent _ = Unit {0}

abbrev pub AnalysisHolds : Shared → List Frame → AnalysisPc → Type 0
AnalysisHolds m processed (busy t k) = (k ≡ length processed % 4) × (m.pixelbuffer_type k ≡ t)
AnalysisHolds m processed _ = Unit {0}

-- Each frame that is sent and not processed lies in its buffer.
abbrev pub Kept : System → Type 0
Kept s =
    (j : ℕ)
    → length s.processed ≤ j
    → j < length s.sent
    → get_elem? s.sent j ≡ some (s.mem.pixelbuffer_type (j % 4), s.mem.pixelbuffers (j % 4))

pub record Inv (s : System) : Type 0 where
  pub slots : s.mem.empty_count + gl_holds s.gl + s.mem.full_count + analysis_holds s.analysis ≡ 4
  pub pending : length s.sent ≡ length s.processed + s.mem.full_count + unprocessed s.analysis
  pub empty_at : s.mem.next_empty ≡ (length s.sent + gl_holds s.gl) % 4
  pub full_at : s.mem.next_full ≡ (length s.processed + unprocessed s.analysis) % 4
  pub gl_at : GlHolds s.mem s.sent s.gl
  pub analysis_at : AnalysisHolds s.mem s.processed s.analysis
  pub kept : Kept s
  pub stop_at : s.mem.analysis_stop ≡ stopped s.gl
  pub end_at : ended s.analysis ≤ stopped s.gl
  pub in_order : take (length s.processed) s.sent ≡ s.processed

Inv-init : Inv init
Inv-init = record {
  slots = refl;
  pending = refl;
  empty_at = refl;
  full_at = refl;
  gl_at = tt;
  analysis_at = tt;
  kept = λ j p q. absurd (omega arith);
  stop_at = refl;
  end_at = omega arith;
  in_order = refl;
}

take-suc {ℓ} :
    {A : Type ℓ} (n : ℕ) (xs : List A) (a : A)
    → get_elem? xs n ≡ some a
    → take (suc n) xs ≡ take n xs ++ a ∷ []
take-suc n [] a h = absurd (cc)
take-suc zero (x ∷ xs) a h = cc
take-suc (suc n) (x ∷ xs) a h = ap (λ l. x ∷ l) (take-suc n xs a h)

get_elem?-append {ℓ} :
    {A : Type ℓ} (xs : List A) (a : A) (j : ℕ)
    → j < length xs
    → get_elem? (xs ++ a ∷ []) j ≡ get_elem? xs j
get_elem?-append [] a j h = elim h [ ]
get_elem?-append (x ∷ xs) a zero h = refl
get_elem?-append (x ∷ xs) a (suc j) h = get_elem?-append xs a j (omega arith)

get_elem?-append_end {ℓ} :
    {A : Type ℓ} (xs : List A) (a : A) → get_elem? (xs ++ a ∷ []) (length xs) ≡ some a
get_elem?-append_end [] a = refl
get_elem?-append_end (x ∷ xs) a = get_elem?-append_end xs a

pub Step-Inv : {s t : System} → Step s t → Inv s → Inv t
unfolding claim fill take_full request_stop
Step-Inv {s} (gl_claim t e h) v = record {
  slots = ground arith;
  pending = ground arith;
  empty_at = ground arith;
  full_at = ground arith;
  gl_at = ground arith;
  analysis_at = ground arith;
  kept = λ j p q. ground (arith, v.kept j p q);
  stop_at = ground arith;
  end_at = ground arith;
  in_order = v.in_order;
}
Step-Inv {s} (gl_fill p e) v = record {
  slots = ground arith;
  pending = ground arith;
  empty_at = ground arith;
  full_at = ground arith;
  gl_at = ground arith;
  analysis_at = ground arith;
  kept = λ j p q. ground (arith, v.kept j p q);
  stop_at = ground arith;
  end_at = ground arith;
  in_order = v.in_order;
}
Step-Inv {s} (gl_fill_failed e) v = record {
  slots = ground arith;
  pending = ground arith;
  empty_at = ground arith;
  full_at = ground arith;
  gl_at = ground arith;
  analysis_at = ground arith;
  kept = v.kept;
  stop_at = ground arith;
  end_at = ground arith;
  in_order = v.in_order;
}
Step-Inv {s} (gl_post {k} {frame} e) v =
    let new : Frame = frame in
    let longer : length (s.sent ++ new ∷ []) ≡ length s.sent + 1 =
      length-append s.sent (new ∷ []) in
    record {
      slots = ground arith;
      pending = ground arith;
      empty_at = ground arith;
      full_at = ground arith;
      gl_at = tt;
      analysis_at = ground arith;
      kept = λ j p q. elim (Bool-cases (ltb j (length s.sent))) [
        | inl old ↦ get_elem?-append s.sent new j (ltb→lt _ _ old) ∙ v.kept j p (ltb→lt _ _ old)
        | inr last ↦
            let e' : j ≡ length s.sent = ground arith in
            rw (e', get_elem?-append_end s.sent new) (ground arith)
      ];
      stop_at = ground arith;
      end_at = ground arith;
      in_order =
          take-append_of_le (length s.processed) s.sent (new ∷ []) (omega arith) ∙ v.in_order;
    }
Step-Inv {s} (gl_stop e) v = ground arith
Step-Inv {s} (gl_join e d) v = ground arith
Step-Inv {s} (analysis_go e z) v = ground arith
Step-Inv {s} (analysis_end e z) v = ground arith
Step-Inv {s} (analysis_take e h) v = record {
  slots = ground arith;
  pending = ground arith;
  empty_at = ground arith;
  full_at = ground arith;
  gl_at = v.gl_at;
  analysis_at = ground arith;
  kept = v.kept;
  stop_at = ground arith;
  end_at = ground arith;
  in_order = v.in_order;
}
Step-Inv {s} (analysis_process {t} {k} e) v =
    let new : Frame = (t, s.mem.pixelbuffers k) in
    let longer : length (s.processed ++ new ∷ []) ≡ length s.processed + 1 =
      length-append s.processed (new ∷ []) in
    record {
      slots = ground arith;
      pending = ground arith;
      empty_at = ground arith;
      full_at = ground arith;
      gl_at = v.gl_at;
      analysis_at = tt;
      kept = λ j p q. v.kept j (omega arith) q;
      stop_at = ground arith;
      end_at = ground arith;
      in_order = rw longer (
          rw add-one (
            take-suc (length s.processed) s.sent new
              (v.kept _ (omega arith) (ground arith) ∙ ground arith)
            ∙ ap (λ l. l ++ new ∷ []) v.in_order));
    }
Step-Inv {s} (analysis_post e) v = ground arith

pub Reach-Inv : {s : System} → Reach init s → Inv s
Reach-Inv here = Inv-init
Reach-Inv (next r st) = Step-Inv st (Reach-Inv r)
