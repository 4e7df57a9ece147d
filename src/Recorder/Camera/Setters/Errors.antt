-- ===== src/Recorder/Camera/Setters/Errors.antt =====
-- src/recorder/RaspiCamControl.c: the errors that `raspicamcontrol_set_all_parameters` counts.
use foosball_tracker.Common.{
  ℕ, ◌+◌, ◌≡◌, refl, ◌∙◌, arith, if◌then◌else◌, Bool, true, false, not, ◌&&◌, List, [], ◌∷◌,
}
use Prim.Native.String.{String}
use foosball_tracker.Common.Int.{ℤ, pos, negsuc, ltb_ℤ}
use foosball_tracker.Common.Floats.{Floats}
use foosball_tracker.Recorder.Cli.Entries.{◌▸◌}
use foosball_tracker.Recorder.Camera.Zoom.{my_rotation}
use foosball_tracker.Recorder.Camera.Settings.{CameraSettings}
use foosball_tracker.Recorder.Camera.Setters.{
  Port, number, mirror, control, Request, Sent, Camera, send, set_ranged, send_last, run_all,
  set_awb_gains, set_gains, setters, set_all_parameters,
}

-- A setter has a result, whatever was sent before.
abbrev Gives : (Sent → ℕ × Sent) → ℕ → Type 0
Gives set k = (sent : Sent) → (set sent).0 ≡ k

-- So do several, in turn.
abbrev AllGive : List (Sent → ℕ × Sent) → List ℕ → Type 0
AllGive [] ks = Unit {0}
AllGive (set ∷ sets) [] = ⊥
AllGive (set ∷ sets) (k ∷ ks) = Gives set k × AllGive sets ks

abbrev sum_of : List (Sent → ℕ × Sent) → List ℕ → ℕ
sum_of [] ks = 0
sum_of (set ∷ sets) [] = 0
sum_of (set ∷ sets) (k ∷ ks) = k + sum_of sets ks

run_all-AllGive :
    (sets : List (Sent → ℕ × Sent)) (ks : List ℕ)
    → AllGive sets ks
    → (sent : Sent) → (run_all sets sent).0 ≡ sum_of sets ks
unfolding run_all
run_all-AllGive [] ks h sent = refl
run_all-AllGive (set ∷ sets) [] h sent = elim h [ ]
run_all-AllGive (set ∷ sets) (k ∷ ks) h sent =
    let first = h.0 sent in let others = run_all-AllGive sets ks h.1 (set sent).1 in omega arith

-- 1 for a value out of its range
abbrev pub out_of : (low high : ℤ) → ℤ → ℕ
out_of low high v = if not (ltb_ℤ v low) && not (ltb_ℤ high v) then 0 else 1

module _ (camera : Camera)
    (takes : (sent : Sent) (port : Port) (r : Request) → camera sent port r ≡ true) where
  send-takes : (port : Port) (r : Request) → Gives (send camera port r) 0
  unfolding send
  send-takes port r sent = rw (takes sent port r) refl

  if-gives :
      (b : Bool) (k : ℕ) (r q : ℕ × Sent)
      → r.0 ≡ 0
      → q.0 ≡ k
      → (if b then r else q).0 ≡ (if b then 0 else k)
  if-gives true k r q h e = h
  if-gives false k r q h e = e

  if-gives-zero : (b : Bool) (r q : ℕ × Sent) → r.0 ≡ 0 → q.0 ≡ 0 → (if b then r else q).0 ≡ 0
  if-gives-zero true r q h e = h
  if-gives-zero false r q h e = e

  set_ranged-takes :
      (name : String) (low high v : ℤ)
      → Gives (set_ranged camera name low high v) (out_of low high v)
  unfolding set_ranged
  set_ranged-takes name low high v sent = if-gives _ 1 _ _ (send-takes _ _ sent) refl

  send_last-takes :
      (r : Request) (first second third : ℕ) (counts : Bool)
      → Gives (send_last camera r first second third counts) 0
  unfolding send_last
  send_last-takes r first second third true sent = send-takes _ r _
  send_last-takes r first second third false sent = send-takes _ r sent

  module _ {F D : Type 0} (fl : Floats F D) (to_int : D → ℤ) (mmal : String → ℤ) where
    set_awb_gains-takes : (r b : F) → Gives (set_awb_gains fl to_int mmal camera r b) 0
    unfolding set_awb_gains
    set_awb_gains-takes r b sent = if-gives-zero _ _ _ refl (send-takes _ _ sent)

    set_gains-takes :
        (analog digital : F) → Gives (set_gains fl to_int mmal camera analog digital) 0
    unfolding set_gains
    set_gains-takes analog digital sent =
        if-gives-zero _ _ _ (send-takes _ _ _) (send-takes _ _ sent)

    events-takes :
        (b : Bool) (r : Request) → Gives (if b then send camera control r else λ sent. (0, sent)) 0
    events-takes true r sent = send-takes control r sent
    events-takes false r sent = refl

    abbrev results : CameraSettings F D → List ℕ
    results s =
        out_of (negsuc 99) (pos 100) s.saturation
        ∷ out_of (negsuc 99) (pos 100) s.sharpness
        ∷ out_of (negsuc 99) (pos 100) s.contrast
        ∷ out_of (pos 0) (pos 100) s.brightness
        ∷ 0
        ∷ 0
        ∷ 0
        ∷ 0
        ∷ 0
        ∷ 0
        ∷ 0
        ∷ 0
        ∷ 0
        ∷ 0
        ∷ 0
        ∷ 0
        ∷ 0
        ∷ 0
        ∷ 0
        ∷ 0
        ∷ 0
        ∷ 0
        ∷ 0
        ∷ []

    -- Where the camera takes every request, the result is the number of values among the saturation, the
    -- sharpness, the contrast and the brightness that are out of their ranges, whatever the other settings are.
    pub set_all_parameters-counts :
        (s : CameraSettings F D) (sent : Sent)
        → (set_all_parameters fl to_int mmal camera s sent).0
          ≡ out_of (negsuc 99) (pos 100) s.saturation
            + out_of (negsuc 99) (pos 100) s.sharpness
            + out_of (negsuc 99) (pos 100) s.contrast
            + out_of (pos 0) (pos 100) s.brightness
    unfolding set_all_parameters setters
    set_all_parameters-counts s sent =
        run_all-AllGive (setters fl to_int mmal camera s) (results s)
          (set_ranged-takes "MMAL_PARAMETER_SATURATION" (negsuc 99) (pos 100) s.saturation
            ▸ set_ranged-takes "MMAL_PARAMETER_SHARPNESS" (negsuc 99) (pos 100) s.sharpness
            ▸ set_ranged-takes "MMAL_PARAMETER_CONTRAST" (negsuc 99) (pos 100) s.contrast
            ▸ set_ranged-takes "MMAL_PARAMETER_BRIGHTNESS" (pos 0) (pos 100) s.brightness
            ▸ send-takes _ _
            ▸ send-takes _ _
            ▸ send-takes _ _
            ▸ send-takes _ _
            ▸ send-takes _ _
            ▸ send-takes _ _
            ▸ send-takes _ _
            ▸ set_awb_gains-takes _ _
            ▸ send-takes _ _
            ▸ send-takes _ _
            ▸ send_last-takes (number "MMAL_PARAMETER_ROTATION" (my_rotation s.rotation)) 0 1 2
                false
            ▸ send_last-takes (number "MMAL_PARAMETER_MIRROR" (mirror s.hflip s.vflip mmal)) 0 1 2
                true
            ▸ send-takes _ _
            ▸ send-takes _ _
            ▸ send-takes _ _
            ▸ send-takes _ _
            ▸ send-takes _ _
            ▸ set_gains-takes _ _
            ▸ events-takes s.settings _
            ▸ tt)
          sent
        ∙ ground arith
