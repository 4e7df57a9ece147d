-- ===== src/Recorder/Segments/Files.antt =====
-- src/recorder/RaspiVidBalls.c: what a handle of `encoder_buffer_callback` has written, over all its files.
use foosball_tracker.Common.{
  ℕ, ◌≡◌, ◌≢◌, ◌⊎◌, inl, inr, refl, sym, ap, subst, ◌∙◌, Bool, true, false, List, [], ◌∷◌, ◌++◌,
  Option, none, some, Returns, value, Returns-if,
}
use mathlib.Core.List.{append-nil, append_assoc}
use foosball_tracker.Common.Int.{ℤ}
use foosball_tracker.Recorder.Settings.{VidState}
use foosball_tracker.Recorder.OpenFile.{Target, Opening, exits, opens, fails, System, open_filename}
use foosball_tracker.Recorder.Segments.{
  Output, Handle, append, same_file, truncate, replace, go_on, reopen, starts_with_dash,
}

-- The handle is not null.
abbrev pub IsOpen : {A : Type 0} → Option (Output A) → Type 0
IsOpen none = ⊥
IsOpen (some out) = Unit {0}

abbrev pub written : {A : Type 0} → Option (Output A) → List A
written none = []
written (some out) = out.contents

abbrev pub gathered : {A : Type 0} → List (Output A) → List A → List A
gathered [] rest = rest
gathered (out ∷ outs) rest = out.contents ++ gathered outs rest

-- All that was written, file after file.
abbrev pub collected : {A : Type 0} → Handle A → List A
collected h = gathered h.closed (written h.current)

gathered-append :
    {A : Type 0} (outs : List (Output A)) (xs ys : List A)
    → gathered outs (xs ++ ys) ≡ gathered outs xs ++ ys
gathered-append [] xs ys = refl
gathered-append (out ∷ outs) xs ys =
    ap (◌++◌ out.contents) (gathered-append outs xs ys) ∙ sym (append_assoc out.contents _ _)

gathered-snoc :
    {A : Type 0} (outs : List (Output A)) (out : Output A)
    → gathered (outs ++ out ∷ []) [] ≡ gathered outs out.contents
gathered-snoc [] out = append-nil out.contents
gathered-snoc (first ∷ outs) out = ap (◌++◌ first.contents) (gathered-snoc outs out)

-- A handle that is open has a current file.
IsOpen-some : {A : Type 0} (o : Option (Output A)) → IsOpen o → (out : Output A) × (o ≡ some out)
IsOpen-some none h = absurd h
IsOpen-some (some out) h = (out, refl)

-- Writing adds at the end of the current file.
abbrev pub IsAppended : {A : Type 0} → Handle A → List A → Handle A → Type 0
IsAppended h items h1 =
    IsOpen h1.current
    × (h1.closed ≡ h.closed)
    × (written h1.current ≡ written h.current ++ items)
    × (collected h1 ≡ collected h ++ items)

pub append-IsAppended :
    {A : Type 0} (h : Handle A) (items : List A)
    → IsOpen h.current
    → Returns (IsAppended h items) (append h items)
unfolding append
append-IsAppended h items ready =
    let (out, e) = IsOpen-some h.current ready in
    rw e (value _ (tt, refl, refl, gathered-append h.closed out.contents items))

-- The same file, or a new one behind it that is still empty.
abbrev pub IsReopened : {A : Type 0} → Handle A → Handle A → Type 0
IsReopened h h1 =
    ((h1.closed ≡ h.closed) × (h1.current ≡ h.current))
    ⊎ ((written h1.current ≡ []) × IsOpen h1.current × (collected h1 ≡ collected h))

-- None of these is the file of that name.
abbrev pub IsNewFor : {A : Type 0} → Target → List (Output A) → Type 0
IsNewFor target [] = Unit {0}
IsNewFor target (out ∷ outs) = (same_file target out.target ≡ false) × IsNewFor target outs

abbrev current_file : {A : Type 0} → Option (Output A) → List (Output A)
current_file none = []
current_file (some out) = out ∷ []

-- What is opened is none of the files that the handle stands for or stood for before.
abbrev pub IsNew : {A : Type 0} → Opening → Handle A → Type 0
IsNew (exits code) h = Unit {0}
IsNew fails h = Unit {0}
IsNew (opens target) h = IsNewFor target (h.closed ++ current_file h.current)

truncate-new :
    {A : Type 0} (target : Target) (outs : List (Output A))
    → IsNewFor target outs
    → truncate target outs ≡ outs
unfolding truncate
truncate-new target [] n = refl
truncate-new target (out ∷ outs) (differs, n) = rw (differs, truncate-new target outs n) refl

opened-collected :
    {A : Type 0} (target : Target) (h : Handle A) (out : Output A)
    → h.current ≡ some out
    → IsNewFor target (h.closed ++ current_file h.current)
    → gathered (truncate target (h.closed ++ out ∷ [])) [] ≡ gathered h.closed out.contents
opened-collected target h out e n =
    let n1 : IsNewFor target (h.closed ++ out ∷ []) =
      subst (λ o. IsNewFor target (h.closed ++ current_file o)) e n in
    ap (λ outs. gathered outs []) (truncate-new target (h.closed ++ out ∷ []) n1)
    ∙ gathered-snoc h.closed out

go_on-IsReopened :
    {A : Type 0} (h : Handle A) (o : Opening)
    → IsOpen h.current
    → ((code : ℕ) → o ≢ exits code)
    → IsNew o h
    → Returns (IsReopened h) (go_on h o)
unfolding go_on replace
go_on-IsReopened {A = A} h (exits code) ready quiet new = absurd (quiet code refl)
go_on-IsReopened {A = A} h fails ready quiet new = value h (inl (refl, refl))
go_on-IsReopened {A = A} h (opens target) ready quiet new =
    let (out, e) = IsOpen-some h.current ready in
    let h1 : Handle A = record {
      current = some (record { target = target; contents = [] });
      closed = truncate target (h.closed ++ out ∷ []);
    } in
    let kept = opened-collected target h out e new in rw e (value h1 (inr (refl, tt, kept)))

-- The name is not used, or opening it ends the process for no number of a segment.
abbrev pub IsQuiet : System → VidState → Option (List ℕ) → Type 0
IsQuiet sys s none = Unit {0}
IsQuiet sys s (some name) =
    (n : ℤ) (code : ℕ) → open_filename sys (record s { segment_number = n }) name ≢ exits code

-- What `reopen` opens, if it opens anything, is new.
abbrev pub IsFresh : {A : Type 0} → System → VidState → Option (List ℕ) → Handle A → Type 0
IsFresh sys s none h = Unit {0}
IsFresh sys s (some name) h = IsNew (open_filename sys s name) h

-- A handle is ready if its file has a name or the flag says that it is used.
abbrev pub IsReady : {A : Type 0} → Option (List ℕ) → Bool → Handle A → Type 0
IsReady (some name) used h = IsOpen h.current
IsReady none used h = used ≡ true → IsOpen h.current

pub reopen-IsReopened :
    {A : Type 0} (sys : System) (s : VidState) (n : ℤ) (name : Option (List ℕ)) (used : Bool)
    (h : Handle A)
    → IsReady name used h
    → IsQuiet sys s name
    → IsFresh sys (record s { segment_number = n }) name h
    → Returns (IsReopened h) (reopen sys (record s { segment_number = n }) name h)
unfolding reopen
reopen-IsReopened sys s n none used h ready quiet new = value h (inl (refl, refl))
reopen-IsReopened sys s n (some name) used h ready quiet new =
    Returns-if (starts_with_dash name) _ _ (λ _. value h (inl (refl, refl)))
      (λ _. go_on-IsReopened h _ ready (quiet n) new)

pub IsReopened-collected :
    {A : Type 0} (h h1 : Handle A) → IsReopened h h1 → collected h1 ≡ collected h
IsReopened-collected h h1 (inl (closed, current)) =
    ap (λ outs. gathered outs (written h1.current)) closed
    ∙ ap (λ o. gathered h.closed (written o)) current
IsReopened-collected h h1 (inr (empty, ready, same)) = same

pub IsReopened-IsReady :
    {A : Type 0} (name : Option (List ℕ)) (used : Bool) (h h1 : Handle A)
    → IsReopened h h1
    → IsReady name used h
    → IsReady name used h1
IsReopened-IsReady (some name) used h h1 (inl (closed, current)) r = subst IsOpen (sym current) r
IsReopened-IsReady none used h h1 (inl (closed, current)) r = λ u. subst IsOpen (sym current) (r u)
IsReopened-IsReady (some name) used h h1 (inr (empty, ready, same)) r = ready
IsReopened-IsReady none used h h1 (inr (empty, ready, same)) r = λ u. ready
