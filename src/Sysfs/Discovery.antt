-- ===== src/Sysfs/Discovery.antt =====
-- The discovery of cpufreq policies in boostlock/sysfs.py, from the files of a sysfs tree.
pub mod Inventory
pub mod Policies
pub mod Usable
pub mod Distinct
use Prim.Native.String.{◌++◌ as str_append}
use boostlock.Prelude.{
  ℕ, String, Bool, true, false, ◌&&◌, Option, none, some, List, [], ◌∷◌, Result, ok, err, ◌>>=◌,
  str_eq, sort_by, leb, if◌then◌else◌,
}
use boostlock.Prelude.Int.{ℤ, pos, leb_ℤ}
use boostlock.Prelude.Decimal.{str_ℤ}
use boostlock.Sysfs.Policy.{CpufreqPolicy, PlanError, no_usable_policy, permission_denied}
use boostlock.Sysfs.CpuRange.{RangeText, parse_cpu_range}

-- PermissionError and any other OSError
pub data ReadError : Type 0 where
  denied other_os : ReadError

-- A sysfs tree under `root`, and what the code calls on paths and names: the tests, the text of a
-- file, `resolve`, the last component, the names in a directory, `path / name`, and the numbers of the
-- names that match `policy\d+` and `cpu\d+`. On text: `split`, `re.sub(r"\s+", ",", ...)`, the order of
-- strings, and what the parsing of a range calls.
pub record Tree : Type 0 where
  pub root : String
  pub is_file : String → Bool
  pub is_dir : String → Bool
  pub read_text : String → Result ReadError String
  pub resolve : String → String
  pub name : String → String
  pub iterdir : String → List String
  pub join : String → String → String
  pub policy_number : String → Option ℕ
  pub cpu_number : String → Option ℤ
  pub split : String → List String
  pub blanks_to_commas : String → String
  pub str_leb : String → String → Bool
  pub text : RangeText

module _ (tree : Tree) where
  open tree use {root, is_file, is_dir, read_text, resolve, name, iterdir, join, text}

  abbrev pub contents : String → Result ReadError String → Result PlanError (Option String)
  contents path (ok content) = ok (some (text.strip content))
  contents path (err denied) = err (permission_denied path)
  contents path (err other_os) = ok none

  -- `_read_path` at a path that is not None; `_read_file` is the same below the root
  unfoldable pub read_path : String → Result PlanError (Option String)
  read_path path = if is_file path then contents path (read_text path) else ok none

  -- f"devices/system/cpu/cpu{cpu}/..." below the root
  abbrev pub cpu_path : ℤ → String → String
  cpu_path cpu rest =
      join root (str_append "devices/system/cpu/cpu" (str_append (str_ℤ cpu) (str_append "/" rest)))

  abbrev cpu_dirs : String → List String → List ℤ
  cpu_dirs base [] = []
  cpu_dirs base (entry ∷ rest) =
      let others = cpu_dirs base rest in
      if is_dir (join base entry)
      then elim (tree.cpu_number entry) [ none ↦ others | some cpu ↦ cpu ∷ others ]
      else others

  abbrev or_zero : List ℤ → List ℤ
  or_zero [] = pos 0 ∷ []
  or_zero cpus = sort_by leb_ℤ cpus

  -- the scan of the CPU directories
  unfoldable pub scanned_cpus : List ℤ
  unfolding sort_by
  scanned_cpus =
      let base = join root "devices/system/cpu" in
      if is_dir base then or_zero (cpu_dirs base (iterdir base)) else pos 0 ∷ []

  abbrev or_scanned : List ℤ → List ℤ
  or_scanned [] = scanned_cpus
  or_scanned cpus = cpus

  abbrev online_or_scanned : Option String → List ℤ
  online_or_scanned none = scanned_cpus
  online_or_scanned (some online) =
      if str_eq online "" then scanned_cpus else or_scanned (parse_cpu_range text online)

  unfoldable pub get_online_cpus : Result PlanError (List ℤ)
  unfolding read_path scanned_cpus parse_cpu_range
  get_online_cpus =
      read_path (join root "devices/system/cpu/online") >>= λ online. ok (online_or_scanned online)
