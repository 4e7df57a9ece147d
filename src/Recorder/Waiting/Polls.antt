-- ===== src/Recorder/Waiting/Polls.antt =====
-- src/recorder/RaspiVidBalls.c: how long `pause_and_test_abort` looks at the abort flag.
use foosball_tracker.Common.{
  ℕ, zero, suc, ◌+◌, ◌-◌, ◌/◌, ◌≤◌, ◌<◌, ◌≡◌, refl, ◌∙◌, arith, lt→ltb, if-true, if-false, ◌==◌,
  if◌then◌else◌, Bool, true, false, List, [], ◌∷◌, some, length, take,
}
use foosball_tracker.Common.Int.{pos}
use foosball_tracker.Recorder.Waiting.{poll, pause_and_test_abort, abort_interval}

-- One of the values is set.
unfoldable pub any_set : List Bool → Bool
any_set [] = false
any_set (true ∷ bs) = true
any_set (false ∷ bs) = any_set bs

-- The rounds of a pause, a started interval included.
abbrev pub rounds : (pause : ℕ) → ℕ
rounds pause = (pause + 99) / abort_interval

poll_done :
    (pause wait : ℕ) (aborts : List Bool) → pause ≤ wait → poll (pos pause) wait aborts ≡ some false
unfolding poll
poll_done pause wait [] h = ground arith
poll_done pause wait (b ∷ bs) h = ground arith

poll_next :
    (pause wait : ℕ) (b : Bool) (bs : List Bool)
    → wait < pause
    → poll (pos pause) wait (b ∷ bs)
      ≡ (if b then some true else poll (pos pause) (wait + abort_interval) bs)
unfolding poll
poll_next pause wait b bs h = if-true _ _ _ (lt→ltb (wait + 0) (pause + 0) (omega (arith, h)))

poll-rounds :
    (k pause wait : ℕ) (aborts : List Bool)
    → rounds (pause - wait) ≡ k
    → k ≤ length aborts
    → poll (pos pause) wait aborts ≡ some (any_set (take k aborts))
unfolding any_set
poll-rounds zero pause wait aborts e h = poll_done pause wait aborts (omega arith)
poll-rounds (suc k) pause wait [] e h = absurd (omega arith)
poll-rounds (suc k) pause wait (true ∷ bs) e h = poll_next pause wait true bs (omega arith)
poll-rounds (suc k) pause wait (false ∷ bs) e h =
    poll_next pause wait false bs (omega arith)
    ∙ poll-rounds k pause (wait + abort_interval) bs (omega arith) (omega arith)

-- A pause looks at the abort flag once for each hundred milliseconds, a started interval included, and
-- is aborted exactly where one of these values is set: later ones do not matter.
pub pause_and_test_abort_lem :
    (pause : ℕ) (aborts : List Bool)
    → rounds pause ≤ length aborts
    → pause_and_test_abort (pos pause) aborts ≡ some (any_set (take (rounds pause) aborts))
unfolding pause_and_test_abort any_set
pause_and_test_abort_lem zero aborts h = refl
pause_and_test_abort_lem (suc pause) aborts h =
    if-false (suc pause == 0) _ _ (ground arith)
    ∙ poll-rounds (rounds (suc pause)) (suc pause) 0 aborts (omega arith) h
