-- ===== src/Recorder/CommandLine/Sane.antt =====
-- src/recorder/RaspiVidBalls.c: the settings that the recorder relies on.
use foosball_tracker.Common.{
  zero, suc, ◌==◌, ◌≡◌, ◌≢◌, refl, sym, ap, ◌∙◌, arith, if◌then◌else◌, Bool, true, false,
}
use foosball_tracker.Common.Int.{ℤ, pos, negsuc, neg_part, pos_part, ◌≤ℤ◌, eqb_ℤ}
use foosball_tracker.Recorder.Settings.{MmalCodes, VidState}
use foosball_tracker.Recorder.Options.{at_least, known_or}

-- The settings that the recorder relies on: the interval of the demo mode is not 0, both times of a
-- cycle are at least a second, a frame has a slice, there are inline headers wherever files are
-- split, and profile and level are known.
pub record Sane (demo_interval on_time off_time slice_count segment_size : ℤ) (inline splits : Bool)
    (profile_code level_code : ℤ) : Type 0 where
  pub demo_runs : demo_interval ≢ pos 0
  pub on_long : pos 1000 ≤ℤ on_time
  pub off_long : pos 1000 ≤ℤ off_time
  pub sliced : pos 1 ≤ℤ slice_count
  pub segments_inline : segment_size ≢ pos 0 → inline ≡ true
  pub splits_inline : splits ≡ true → inline ≡ true
  pub profile_known : profile_code ≢ negsuc 0
  pub level_known : level_code ≢ negsuc 0

abbrev pub IsSane : VidState → Type 0
IsSane s =
    Sane s.demo_interval s.on_time s.off_time s.slices s.segment_size s.b_inline_headers
      s.split_wait s.profile s.level

-- The codes of MMAL that stand for a profile or a level are not -1.
pub record AreCodes (m : MmalCodes) : Type 0 where
  pub high : m.profile_high ≢ negsuc 0
  pub four : m.level_4 ≢ negsuc 0

module _ {demo_interval on_time off_time slice_count segment_size : ℤ} {inline splits : Bool}
    {profile_code level_code : ℤ}
    (h : Sane demo_interval on_time off_time slice_count segment_size inline splits profile_code
      level_code) where
  pub set_demo :
      (v : ℤ)
      → v ≢ pos 0
      → Sane v on_time off_time slice_count segment_size inline splits profile_code level_code
  set_demo v new = record {
    demo_runs = new;
    on_long = h.on_long;
    off_long = h.off_long;
    sliced = h.sliced;
    segments_inline = h.segments_inline;
    splits_inline = h.splits_inline;
    profile_known = h.profile_known;
    level_known = h.level_known;
  }

  pub set_times :
      (on off : ℤ)
      → pos 1000 ≤ℤ on
      → pos 1000 ≤ℤ off
      → Sane demo_interval on off slice_count segment_size inline splits profile_code level_code
  set_times on off new new2 = record {
    demo_runs = h.demo_runs;
    on_long = new;
    off_long = new2;
    sliced = h.sliced;
    segments_inline = h.segments_inline;
    splits_inline = h.splits_inline;
    profile_known = h.profile_known;
    level_known = h.level_known;
  }

  pub set_slices :
      (v : ℤ)
      → pos 1 ≤ℤ v
      → Sane demo_interval on_time off_time v segment_size inline splits profile_code level_code
  set_slices v new = record {
    demo_runs = h.demo_runs;
    on_long = h.on_long;
    off_long = h.off_long;
    sliced = new;
    segments_inline = h.segments_inline;
    splits_inline = h.splits_inline;
    profile_known = h.profile_known;
    level_known = h.level_known;
  }

  pub set_inline :
      (size : ℤ)
      → (split : Bool)
      → Sane demo_interval on_time off_time slice_count size true split profile_code level_code
  set_inline size split = record {
    demo_runs = h.demo_runs;
    on_long = h.on_long;
    off_long = h.off_long;
    sliced = h.sliced;
    segments_inline = λ _. refl;
    splits_inline = λ _. refl;
    profile_known = h.profile_known;
    level_known = h.level_known;
  }

  pub set_profile :
      (v : ℤ)
      → v ≢ negsuc 0
      → Sane demo_interval on_time off_time slice_count segment_size inline splits v level_code
  set_profile v new = record {
    demo_runs = h.demo_runs;
    on_long = h.on_long;
    off_long = h.off_long;
    sliced = h.sliced;
    segments_inline = h.segments_inline;
    splits_inline = h.splits_inline;
    profile_known = new;
    level_known = h.level_known;
  }

  pub set_level :
      (v : ℤ)
      → v ≢ negsuc 0
      → Sane demo_interval on_time off_time slice_count segment_size inline splits profile_code v
  set_level v new = record {
    demo_runs = h.demo_runs;
    on_long = h.on_long;
    off_long = h.off_long;
    sliced = h.sliced;
    segments_inline = h.segments_inline;
    splits_inline = h.splits_inline;
    profile_known = h.profile_known;
    level_known = new;
  }

pub at_least-le : (v : ℤ) → pos 1000 ≤ℤ at_least (pos 1000) v
at_least-le (pos n) = ground arith
at_least-le (negsuc n) = ground arith

pub interval-ne : (v : ℤ) → (if eqb_ℤ v (pos 0) then pos 250 else v) ≢ pos 0
interval-ne (pos zero) = λ e. let parts = ap pos_part e in omega arith
interval-ne (pos (suc n)) = λ e.
    let other : (suc n == 0) ≡ false = ground arith in
    let kept : (if eqb_ℤ (pos (suc n)) (pos 0) then pos 250 else pos (suc n)) ≡ pos (suc n) =
      rw other refl in
    let parts = ap pos_part (sym kept ∙ e) in omega arith
interval-ne (negsuc n) = λ e. cc

pub known_or-ne : (other v : ℤ) → other ≢ negsuc 0 → known_or other v ≢ negsuc 0
known_or-ne other (pos n) h = λ e. cc
known_or-ne other (negsuc zero) h = h
known_or-ne other (negsuc (suc n)) h = λ e.
    let other_code : (suc n == 0) ≡ false = ground arith in
    let kept : known_or other (negsuc (suc n)) ≡ negsuc (suc n) = rw other_code refl in
    let parts = ap neg_part (sym kept ∙ e) in omega arith
