-- ===== src/Command/Drives.antt =====
-- commands.rs: the listing of a directory on Windows, where the root has the drives.
use Prim.Native.Nat.{bit_and}
use crab_rs.Prelude.{
  ℕ, suc, ◌^◌, String, Bool, false, ◌||◌, not, List, [], ◌∷◌, ok, ◌==◌, str_eq, if◌then◌else◌,
}
use crab_rs.Prelude.Text.{◌<>◌}
use crab_rs.Prelude.Io.{Io}
use crab_rs.Errors.{CrabError}
use crab_rs.Command.Files.{FileSystem, DirEntry, list_dir}

-- `(b'A' + i) as char` for the `i` below 26
abbrev pub drive_letters : List String
drive_letters =
    "A" ∷ "B" ∷ "C" ∷ "D" ∷ "E" ∷ "F" ∷ "G" ∷ "H" ∷ "I" ∷ "J" ∷ "K" ∷ "L" ∷ "M" ∷ "N" ∷ "O" ∷ "P"
    ∷ "Q" ∷ "R" ∷ "S" ∷ "T" ∷ "U" ∷ "V" ∷ "W" ∷ "X" ∷ "Y" ∷ "Z" ∷ []

abbrev pub drive : String → DirEntry
drive letter = record { name = letter <> ":\\"; dir = false }

-- Whether the bit `i` of the mask is set.
unfoldable pub has_drive : ℕ → ℕ → Bool
has_drive mask i = not (bit_and mask (2 ^ i) == 0)

unfoldable pub drives_from : ℕ → ℕ → List String → List DirEntry
unfolding has_drive
drives_from mask i [] = []
drives_from mask i (letter ∷ letters) =
    let rest = drives_from mask (suc i) letters in
    if has_drive mask i then drive letter ∷ rest else rest

-- `DirCommand::list_drives`, from what `GetLogicalDrives` gives
unfoldable pub list_drives : ℕ → List DirEntry
unfolding drives_from
list_drives mask = drives_from mask 0 drive_letters

-- `DirCommand::list_dir` on Windows
unfoldable pub list_dir_windows :
    {W : Type 0} → (W → ℕ × W) → FileSystem W → String → Io CrabError W (List DirEntry)
unfolding list_drives
list_dir_windows get_logical_drives fs path w =
    if str_eq path "" || str_eq path "/"
    then (let (mask, w') = get_logical_drives w in (ok (list_drives mask), w'))
    else list_dir fs path w
