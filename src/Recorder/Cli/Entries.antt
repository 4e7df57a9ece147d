-- ===== src/Recorder/Cli/Entries.antt =====
-- src/recorder/RaspiCLI.c: what holds of the entries of a table.
use Prim.Native.String.{String}
use text.Mathlib.Text.{◌==◌ as str_eq}
use foosball_tracker.Common.{ℕ, ◌||◌, List, [], ◌∷◌, Partial, faults, gives, Partial-if}
use foosball_tracker.Recorder.Cli.{CommandEntry, get_command_id}

-- A property of every entry of a table.
abbrev pub AllEntries : {C : Type 0} → (C → ℕ → Type 0) → List (CommandEntry C) → Type 0
AllEntries P [] = Unit {0}
AllEntries P (c ∷ commands) = P c.id c.num_parameters × AllEntries P commands

pub get_command_id-AllEntries :
    {C : Type 0} (P : C → ℕ → Type 0) (commands : List (CommandEntry C)) (arg : String)
    → AllEntries P commands
    → Partial (λ r. P r.0 r.1) (get_command_id commands arg)
unfolding get_command_id
get_command_id-AllEntries P [] arg h = faults
get_command_id-AllEntries P (entry ∷ commands) arg h =
    Partial-if (str_eq arg entry.command || str_eq arg entry.abbreviation) _ _ (λ _. gives _ h.0)
      (λ _. get_command_id-AllEntries P commands arg h.1)

infixr 4 ◌▸◌
-- What holds of the first entry, before what holds of the others.
pub ◌▸◌ {ℓ} : {A B : Type ℓ} → A → B → A × B
a ▸ b = (a, b)
