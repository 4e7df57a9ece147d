-- ===== src/Recorder/OpenFile.antt =====
-- src/recorder/RaspiVidBalls.c: `open_filename`. The formats of the C library, the clock and the system's
-- answers to the calls on files and sockets are a parameter.
pub mod Conversion
use foosball_tracker.Common.{
  ℕ, ◌==◌, leb, if◌then◌else◌, Bool, true, false, not, ◌&&◌, ◌||◌, List, [], ◌∷◌, Option, none,
  some,
}
use foosball_tracker.Common.Int.{ℤ, pos, eqb_ℤ}
use foosball_tracker.Recorder.Settings.{VidState}

-- What a `FILE *` stands for. A connection may be one that was not made.
pub data Target : Type 0 where
  stdout : Target
  file : List ℕ → Target
  client : Target
  connection : (datagram connected : Bool) → (host : List ℕ) → (port : ℕ) → Target

pub data Opening : Type 0 where
  exits : ℕ → Opening
  opens : Target → Opening
  fails : Opening

-- `asprintf` of the number, `strftime` of the time, `sscanf` of "%hu", `inet_aton`, and whether the calls
-- succeed; `listen`, `accept` and `connect` are repeated while they are interrupted.
pub record System : Type 0 where
  pub print_number : List ℕ → ℤ → List ℕ
  pub print_time : List ℕ → List ℕ
  pub read_port : List ℕ → Option ℕ
  pub is_address : List ℕ → Bool
  pub fopen : List ℕ → Bool
  pub socket : Bool
  pub bind : Bool
  pub listen : Bool
  pub accept : Bool
  pub connect : Bool
  pub fdopen : Bool

-- `strchr`: what stands before and behind the first such character.
unfoldable pub split_at : ℕ → List ℕ → Option (List ℕ × List ℕ)
split_at c [] = none
split_at c (x ∷ name) =
    if x == c
    then some ([], name)
    else elim (split_at c name) [ none ↦ none | some (before, behind) ↦ some (x ∷ before, behind) ]

abbrev pub is_digit : ℕ → Bool
is_digit c = leb b'0' c && leb c b'9'

-- `while (isdigit(*pPercent)) pPercent++;`, and the test of what follows
unfoldable pub ends_in_conversion : List ℕ → Bool
ends_in_conversion [] = false
ends_in_conversion (c ∷ name) =
    let rest = ends_in_conversion name in if is_digit c then rest else (c == b'u' || c == b'd')

-- `bSegmentNumber`
unfoldable pub has_segment_number : List ℕ → Bool
unfolding split_at ends_in_conversion
has_segment_number name = elim (split_at b'%' name) [
  | none ↦ false
  | some (before, behind) ↦ ends_in_conversion behind
]

-- The name of the file to open.
unfoldable pub expand : System → VidState → List ℕ → List ℕ
unfolding has_segment_number
expand sys s name =
    if not (eqb_ℤ s.segment_size (pos 0)) || s.split_wait
    then (if has_segment_number name
        then sys.print_number name s.segment_number
        else sys.print_time name)
    else name

-- `strncmp(prefix, filename, 6)`: what follows the prefix.
unfoldable pub behind_prefix : List ℕ → List ℕ → Option (List ℕ)
behind_prefix [] name = some name
behind_prefix (c ∷ prefix) [] = none
behind_prefix (c ∷ prefix) (x ∷ name) = if c == x then behind_prefix prefix name else none

abbrev pub tcp_prefix : List ℕ
tcp_prefix = b't' ∷ b'c' ∷ b'p' ∷ b':' ∷ b'/' ∷ b'/' ∷ []

abbrev pub udp_prefix : List ℕ
udp_prefix = b'u' ∷ b'd' ∷ b'p' ∷ b':' ∷ b'/' ∷ b'/' ∷ []

-- Waiting for a client, or connecting: without a socket there is no handle, but with one there is also
-- where `connect` failed.
unfoldable pub open_socket : System → VidState → Bool → List ℕ → ℕ → Opening
open_socket sys s datagram host port =
    if s.net_listen
    then (if sys.socket && sys.bind && sys.listen && sys.accept && sys.fdopen
        then opens client
        else fails)
    else if sys.socket && sys.fdopen
    then opens (connection datagram sys.connect host port)
    else fails

-- The address behind the prefix
unfoldable pub open_network : System → VidState → Bool → List ℕ → Opening
unfolding split_at open_socket
open_network sys s datagram address = elim (split_at b':' address) [
  | none ↦ exits 132
  | some (host, behind) ↦ elim (sys.read_port behind) [
    | none ↦ exits 133
    | some port ↦ if sys.is_address host then open_socket sys s datagram host port else exits 134
  ]
]

-- Opening the expanded name
unfoldable pub open_name : System → VidState → List ℕ → Opening
unfolding open_network behind_prefix
open_name sys s name = elim (behind_prefix tcp_prefix name) [
  | some address ↦ open_network sys s false address
  | none ↦ elim (behind_prefix udp_prefix name) [
    | some address ↦ if s.net_listen then exits 131 else open_network sys s true address
    | none ↦ if sys.fopen name then opens (file name) else fails
  ]
]

unfoldable pub open_filename : System → VidState → List ℕ → Opening
unfolding expand open_name
open_filename sys s name = open_name sys s (expand sys s name)
