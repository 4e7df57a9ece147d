-- ===== src/Recorder/Cli.antt =====
-- src/recorder/RaspiCLI.c and RaspiCLI.h: look-up of options and of the names of values.
pub mod Entries
use Prim.Native.String.{String}
use Prim.Native.Char.{code}
use text.Mathlib.Text.{◌==◌ as str_eq}
use foosball_tracker.Common.{
  ℕ, ◌+◌, ◌==◌, leb, if◌then◌else◌, Bool, true, false, ◌&&◌, ◌||◌, List, [], ◌∷◌, map, Option, none,
  some,
}
use foosball_tracker.Common.Int.{ℤ, negsuc, eqb_ℤ}

-- `COMMAND_LIST` without its help text. The id -1 for an unknown option is `none`.
pub record CommandEntry (C : Type 0) : Type 0 where
  pub id : C
  pub command : String
  pub abbreviation : String
  pub num_parameters : ℕ

-- `XREF_T`
pub record Xref : Type 0 where
  pub mode : String
  pub mmal_mode : ℤ

-- `raspicli_get_command_id`, with the number of parameters of the option.
unfoldable pub get_command_id : {C : Type 0} → List (CommandEntry C) → String → Option (C × ℕ)
get_command_id [] arg = none
get_command_id (c ∷ commands) arg =
    if str_eq arg c.command || str_eq arg c.abbreviation
    then some (c.id, c.num_parameters)
    else get_command_id commands arg

-- `strcasecmp(a, b) == 0` for ASCII texts
abbrev lower : ℕ → ℕ
lower c = if leb 65 c && leb c 90 then c + 32 else c

abbrev folded : String → List ℕ
folded String.[] = []
folded (String.◌∷◌ c s) = lower (code c) ∷ folded s

abbrev pub same_codes : List ℕ → List ℕ → Bool
same_codes [] [] = true
same_codes (a ∷ xs) (b ∷ ys) = a == b && same_codes xs ys
same_codes _ _ = false

abbrev pub same_ignoring_case : String → String → Bool
same_ignoring_case a b = same_codes (folded a) (folded b)

-- `raspicli_map_xref`
unfoldable pub map_xref : String → List Xref → ℤ
map_xref str [] = negsuc 0
map_xref str (m ∷ map) = if same_ignoring_case str m.mode then m.mmal_mode else map_xref str map

-- `raspicli_unmap_xref`
unfoldable pub unmap_xref : ℤ → List Xref → Option String
unmap_xref en [] = none
unmap_xref en (m ∷ map) = if eqb_ℤ en m.mmal_mode then some m.mode else unmap_xref en map
