-- ===== src/Command/TempPath.antt =====
-- Where the temporary file of a WriteFile command stands.
use crab_rs.Prelude.{
  ◌≡◌, ap, arith, String, Bool, true, false, Option, none, some, ok, if◌then◌else◌,
}
use crab_rs.Prelude.Text.{◌<>◌}
use crab_rs.Prelude.Io.{Io, pure, raise, lift, ◌>>=◌, ◌>>◌, >>=-eq-ok}
use crab_rs.Errors.{CrabError, io}
use crab_rs.Command.Files.{
  FileSystem, Paths, generate_temp_path, temp_file_suffix, or_empty, name_or_bad, make_base_dir,
  is_existing_dir,
}
use crab_rs.Command.Handlers.{WriteFile}

name_or_bad-eq-ok : (o : Option String) (name : String) → name_or_bad o ≡ ok name → o ≡ some name
unfolding name_or_bad
name_or_bad-eq-ok none name e = cc
name_or_bad-eq-ok (some n) name e = ground arith

chosen :
    {W : Type 0} (found : Bool) (path temp : String) (e : CrabError) (w w' : W)
    → (if found then pure {E = CrabError} path else raise e) w ≡ (ok temp, w')
    → temp ≡ path
chosen true path temp e h = ground arith
chosen false path temp e h = cc

abbrev pub temp_path : Paths → WriteFile → String → String
temp_path paths cmd name = paths.join (or_empty (paths.parent cmd.path)) (name <> temp_file_suffix)

pub generate_temp_path-eq :
    {W : Type 0} (fs : FileSystem W) (paths : Paths) (cmd : WriteFile) (w w' : W) (temp : String)
    → generate_temp_path fs paths cmd.path cmd.mkdir w ≡ (ok temp, w')
    → (name : String) × (paths.file_name cmd.path ≡ some name) × (temp ≡ temp_path paths cmd name)
unfolding generate_temp_path
generate_temp_path-eq {W} fs paths cmd w w' temp e =
    let base = or_empty (paths.parent cmd.path) in
    let finish : String → Bool → Io CrabError W String = λ filename found.
      if found
      then pure (paths.join base (filename <> temp_file_suffix))
      else raise (io "directory not exists") in
    let looked : String → Io CrabError W String =
      λ filename. is_existing_dir fs paths base >>= finish filename in
    let made : String → Io CrabError W String =
      λ filename. make_base_dir fs paths cmd.mkdir base >> looked filename in
    let (name, w1, e1, r1) = >>=-eq-ok (lift (name_or_bad (paths.file_name cmd.path))) made e in
    let (_, w2, _, r2) = >>=-eq-ok (make_base_dir fs paths cmd.mkdir base) (λ _. looked name) r1 in
    let (found, w3, _, r3) = >>=-eq-ok (is_existing_dir fs paths base) (finish name) r2 in
    (
      name,
      name_or_bad-eq-ok _ name (ap (λ r. r.0) e1),
      chosen found (paths.join base (name <> temp_file_suffix)) temp (io "directory not exists") w3
          w' r3,
    )
