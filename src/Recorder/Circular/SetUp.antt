-- ===== src/Recorder/Circular/SetUp.antt =====
-- src/recorder/RaspiVidBalls.c: how `main` sets up the circular buffer. `malloc` is a parameter.
pub mod Short
use foosball_tracker.Common.{
  ℕ, zero, suc, ◌+◌, ◌-◌, ◌*◌, ◌/◌, leb, ltb, if◌then◌else◌, Bool, true, false, not, ◌||◌, List, [],
  ◌∷◌, Option, none, some,
}
use foosball_tracker.Common.Int.{ℤ, pos, negsuc, pos_part, neg_part, sub_ℕ, eqb_ℤ, ltb_ℤ}
use foosball_tracker.Recorder.Settings.{
  WaitMethod, wait_method_keypress, wait_method_signal, VidState,
}
use foosball_tracker.Recorder.Circular.{Circle}

-- The errors, in the order of the tests, an int that overflows, and the buffer.
pub data SetUp : Type 0 where
  no_bitrate : SetUp
  no_timeout : SetUp
  no_trigger : SetUp
  no_file : SetUp
  overflow : SetUp
  no_memory : SetUp
  ready : Circle → SetUp

abbrev is_trigger : WaitMethod → Bool
is_trigger wait_method_keypress = true
is_trigger wait_method_signal = true
is_trigger _ = false

-- The quotient of ints, towards 0, by a positive number.
abbrev quotient : ℤ → ℕ → ℤ
quotient (pos a) n = pos (a / n)
quotient (negsuc a) n = sub_ℕ 0 ((a + 1) / n)

abbrev product : ℤ → ℤ → ℤ
product a b =
    sub_ℕ (pos_part a * pos_part b + neg_part a * neg_part b)
      (pos_part a * neg_part b + neg_part a * pos_part b)

abbrev is_int : ℤ → Bool
is_int a = not (ltb_ℤ (pos 2_147_483_647) a || ltb_ℤ a (negsuc 2_147_483_647))

-- `state.bitrate * (state.timeout / 1000)`, an eighth of which are the bytes.
unfoldable pub bits : VidState → ℤ
bits s = product s.bitrate (quotient s.timeout 1000)

-- The allocation, and the fields that it sets; a negative size is no length of a buffer.
unfoldable pub allocate : (malloc : ℤ → Option (List ℕ)) → (bits : ℤ) → Circle → SetUp
allocate malloc bits c = elim (malloc (quotient bits 8)) [
  | none ↦ no_memory
  | some buff ↦ ready record c {
    cb_buff = buff;
    cb_len = pos_part (quotient bits 8);
    cb_wptr = 0;
    cb_wrap = false;
    header_wptr = 0;
  }
]

-- The circular mode, for the argument of `malloc`, and whether there is a file.
unfoldable pub set_up_circular :
    (malloc : ℤ → Option (List ℕ)) → (file : Bool) → VidState → Circle → SetUp
unfolding bits allocate
set_up_circular malloc file s c =
    if eqb_ℤ s.bitrate (pos 0)
    then no_bitrate
    else if eqb_ℤ s.timeout (pos 0)
    then no_timeout
    else if not (is_trigger s.wait_method)
    then no_trigger
    else if not file
    then no_file
    else if not (is_int (bits s))
    then overflow
    else allocate malloc (bits s) c
