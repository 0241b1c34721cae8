-- ===== src/Sysfs/Access.antt =====
-- The reads and writes of single sysfs files of boostlock/sysfs.py, and the getters and setters of the
-- files of each CPU.
--
-- `S` is the state of the files. A write may change any of them, also where it fails.
use Prim.Native.String.{◌++◌}
use boostlock.Prelude.{
  String, Bool, true, false, Option, none, some, List, [], ◌∷◌, Result, ok, err, ◌>>=◌, str_eq,
  if◌then◌else◌,
}
use boostlock.Prelude.Int.{ℤ}
use boostlock.Prelude.Decimal.{str_ℤ}

-- `denied` is `PermissionError`, and on a write also EACCES, EPERM and EROFS
pub data Reading : Type 0 where
  content : String → Reading
  read_denied read_failed : Reading

pub data Writing : Type 0 where
  done write_denied write_failed : Writing

-- SysfsPermissionError, SysfsNotFoundError and SysfsError, with the path
pub data SysfsError : Type 0 where
  permission_denied not_found failed : String → SysfsError

-- the calls on files, `str.strip`, `str.split` and `int`; paths start at the root of sysfs
pub record SysfsFiles (S : Type 0) : Type 0 where
  pub exists : String → S → Bool
  pub is_file : String → S → Bool
  pub is_dir : String → S → Bool
  -- the names of the entries, in order
  pub iterdir : String → S → List String
  pub read_text : String → S → Reading
  pub write_text : String → String → S → Writing × S
  pub strip : String → String
  pub split : String → List String
  pub parse_int : String → Option ℤ

module _ {S : Type 0} (fs : SysfsFiles S) where
  abbrev read_outcome : String → Reading → Result SysfsError (Option String)
  read_outcome path (content text) = ok (some (fs.strip text))
  read_outcome path read_denied = err (permission_denied path)
  read_outcome path read_failed = ok none

  -- `_read_file`
  unfoldable pub read_file : String → S → Result SysfsError (Option String)
  read_file path s = if fs.is_file path s then read_outcome path (fs.read_text path s) else ok none

  abbrev pub FileWritten : Type 0
  FileWritten = Result SysfsError Bool × S

  abbrev write_outcome : Bool → String → Writing × S → FileWritten
  write_outcome optional path (done, s) = (ok true, s)
  write_outcome optional path (write_denied, s) = (err (permission_denied path), s)
  write_outcome true path (write_failed, s) = (ok false, s)
  write_outcome false path (write_failed, s) = (err (failed path), s)

  abbrev missing : Bool → String → S → FileWritten
  missing true path s = (ok false, s)
  missing false path s = (err (not_found path), s)

  -- `_write_file`: whether the value was written
  unfoldable pub write_file : Bool → String → String → S → FileWritten
  write_file optional path value s =
      if fs.exists path s
      then write_outcome optional path (fs.write_text path (fs.strip value ++ "\n") s)
      else missing optional path s

  abbrev int_or : Option ℤ → Option String → Option ℤ
  int_or default none = default
  int_or default (some text) = elim (fs.parse_int text) [ none ↦ default | some n ↦ some n ]

  -- `_read_int`
  unfoldable pub read_int : Option ℤ → String → S → Result SysfsError (Option ℤ)
  unfolding read_file
  read_int default path s = read_file path s >>= λ text. ok (int_or default text)

  -- devices/system/cpu/cpu<n>/<name>
  abbrev pub cpu_file : ℤ → String → String
  cpu_file cpu name = "devices/system/cpu/cpu" ++ str_ℤ cpu ++ "/" ++ name

  abbrev pub cpufreq : ℤ → String → String
  cpufreq cpu name = cpu_file cpu ("cpufreq/" ++ name)

  unfoldable pub get_scaling_governor : ℤ → S → Result SysfsError (Option String)
  unfolding read_file
  get_scaling_governor cpu s = read_file (cpufreq cpu "scaling_governor") s

  abbrev split_or_empty : Option String → List String
  split_or_empty none = []
  split_or_empty (some text) = if str_eq text "" then [] else fs.split text

  unfoldable pub get_available_governors : ℤ → S → Result SysfsError (List String)
  unfolding read_file
  get_available_governors cpu s =
      read_file (cpufreq cpu "scaling_available_governors") s >>= λ text. ok (split_or_empty text)

  unfoldable pub get_scaling_min_freq : Option ℤ → ℤ → S → Result SysfsError (Option ℤ)
  unfolding read_int
  get_scaling_min_freq default cpu s = read_int default (cpufreq cpu "scaling_min_freq") s

  unfoldable pub get_scaling_max_freq : Option ℤ → ℤ → S → Result SysfsError (Option ℤ)
  unfolding read_int
  get_scaling_max_freq default cpu s = read_int default (cpufreq cpu "scaling_max_freq") s

  unfoldable pub get_cpuinfo_min_freq : Option ℤ → ℤ → S → Result SysfsError (Option ℤ)
  unfolding read_int
  get_cpuinfo_min_freq default cpu s = read_int default (cpufreq cpu "cpuinfo_min_freq") s

  unfoldable pub get_cpuinfo_max_freq : Option ℤ → ℤ → S → Result SysfsError (Option ℤ)
  unfolding read_int
  get_cpuinfo_max_freq default cpu s = read_int default (cpufreq cpu "cpuinfo_max_freq") s

  -- an exception, or none, and the files
  abbrev pub Effect : Type 0
  Effect = Result SysfsError (Unit {0}) × S

  abbrev pub and_then : Effect → (S → Effect) → Effect
  and_then (ok _, s) next = next s
  and_then (err e, s) next = (err e, s)

  -- a write whose answer is not looked at
  abbrev pub ignoring : FileWritten → Effect
  ignoring (ok _, s) = (ok tt, s)
  ignoring (err e, s) = (err e, s)

  -- the loop of a setter over the CPUs, which the first exception ends
  unfoldable pub for_cpus : (ℤ → S → Effect) → List ℤ → S → Effect
  for_cpus set_one [] s = (ok tt, s)
  for_cpus set_one (cpu ∷ cpus) s = and_then (set_one cpu s) (for_cpus set_one cpus)

  abbrev set_cpufreq : Bool → String → String → ℤ → S → Effect
  set_cpufreq optional name value cpu s = ignoring (write_file optional (cpufreq cpu name) value s)

  unfoldable pub set_scaling_governor : String → List ℤ → S → Effect
  unfolding for_cpus write_file
  set_scaling_governor governor cpus s =
      for_cpus (set_cpufreq false "scaling_governor" governor) cpus s

  unfoldable pub set_scaling_min_freq : ℤ → List ℤ → S → Effect
  unfolding for_cpus write_file
  set_scaling_min_freq freq cpus s =
      for_cpus (set_cpufreq false "scaling_min_freq" (str_ℤ freq)) cpus s

  unfoldable pub set_scaling_max_freq : ℤ → List ℤ → S → Effect
  unfolding for_cpus write_file
  set_scaling_max_freq freq cpus s =
      for_cpus (set_cpufreq false "scaling_max_freq" (str_ℤ freq)) cpus s

  abbrev switch_text : Bool → String
  switch_text true = "1"
  switch_text false = "0"

  -- `online` is what `get_online_cpus` returns, which is read after the first write
  unfoldable pub set_boost : (S → Result SysfsError (List ℤ)) → Bool → S → Effect
  unfolding for_cpus write_file
  set_boost online enable s =
      and_then
        (ignoring (write_file true "devices/system/cpu/cpufreq/boost" (switch_text enable) s))
        λ s'. elim (online s') [
          | ok cpus ↦ for_cpus (set_cpufreq true "boost" (switch_text enable)) cpus s'
          | err e ↦ (err e, s')
        ]

  unfoldable pub set_cpb : Bool → List ℤ → S → Effect
  unfolding for_cpus write_file
  set_cpb enable cpus s = for_cpus (set_cpufreq true "cpb" (switch_text enable)) cpus s

  unfoldable pub set_energy_performance_preference : String → List ℤ → S → Effect
  unfolding for_cpus write_file
  set_energy_performance_preference epp cpus s =
      for_cpus (set_cpufreq true "energy_performance_preference" epp) cpus s

  -- the second file where the first one was not written
  abbrev or_write : FileWritten → (S → FileWritten) → Effect
  or_write (ok true, s) other = (ok tt, s)
  or_write (ok false, s) other = ignoring (other s)
  or_write (err e, s) other = (err e, s)

  abbrev set_bias_at : ℤ → ℤ → S → Effect
  set_bias_at epb cpu s =
      or_write (write_file true (cpu_file cpu "power/energy_perf_bias") (str_ℤ epb) s)
        (write_file true (cpufreq cpu "energy_perf_bias") (str_ℤ epb))

  unfoldable pub set_energy_perf_bias : ℤ → List ℤ → S → Effect
  unfolding for_cpus write_file
  set_energy_perf_bias epb cpus s = for_cpus (set_bias_at epb) cpus s
