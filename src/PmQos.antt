-- ===== src/PmQos.antt =====
-- boostlock/pm_qos.py: the DMA-latency lock, held as an open descriptor or, where the device cannot
-- be used, as cpuidle states that are disabled.
--
-- `S` is whatever state the operating system keeps, and `Os` what the code calls on it: the calls on
-- the device, and the file access of `SysfsController`.
pub mod Counts
pub mod Modes
pub mod Descriptors
pub mod Planned
use boostlock.Prelude.{
  ℕ, String, Bool, true, false, ◌&&◌, Option, none, some, List, [], ◌∷◌, Result, ok, err,
  if◌then◌else◌,
}
use boostlock.Prelude.Int.{ℤ, pos, ltb_ℤ, leb_ℤ}
use boostlock.Prelude.Dict.{Dict, String_eq, set}

-- PermissionError, FileNotFoundError, OSError with EROFS, and any other OSError
pub data OsError : Type 0 where
  denied not_found read_only other_os : OsError

-- What the file access raises: a permission error or something else.
pub data NodeError : Type 0 where
  node_denied node_other : NodeError

-- ValueError, PMQoSPermissionError, PMQoSNotFoundError and PMQoSError
pub data PmQosError : Type 0 where
  value_error permission_error not_found_error qos_error : PmQosError

-- A directory `stateN` of a CPU: N, where the rest of the name is a number, and its `disable` file.
pub record StateEntry : Type 0 where
  pub state_idx : Option ℤ
  pub disable_path : String

pub record Os (S : Type 0) : Type 0 where
  pub open_device : S → Result OsError ℕ × S
  pub seek_start : ℕ → S → S
  pub write_device : ℕ → ℤ → S → Result OsError (Unit {0}) × S
  pub close_device : ℕ → S → Result OsError (Unit {0}) × S
  pub state_entries : S → Result NodeError (List StateEntry)
  pub read_file : String → S → Result NodeError (Option String)
  pub write_file : Bool → String → String → S → Result NodeError (Unit {0}) × S

pub record PmQosController : Type 0 where
  pub enable_sysfs_fallback : Bool
  pub min_fallback_state_index : ℤ
  pub target_latency_us : ℤ
  pub fd : Option ℕ
  pub is_locked : Bool
  pub using_fallback : Bool
  pub fallback_saved_states : Dict String String

abbrev int32_max : ℤ
int32_max = pos 2147483647

-- `_validate_latency`: whether it passes
unfoldable pub validate_latency : ℤ → Bool
validate_latency latency_us = leb_ℤ (pos 0) latency_us && leb_ℤ latency_us int32_max

-- The new target of `lock`, or none where it is refused.
abbrev pub requested_latency : Option ℤ → ℤ → Option ℤ
requested_latency none current = some current
requested_latency (some latency_us) current =
    if validate_latency latency_us then some latency_us else none

-- whether the loop goes on to the `disable` file
unfoldable pub eligible : ℤ → Option ℤ → Bool
eligible lowest none = false
eligible lowest (some idx) = leb_ℤ lowest idx

-- the result of a call, the controller after it and the system after it
abbrev pub Outcome : Type 0 → Type 0 → Type 0
Outcome A S = Result PmQosError A × (PmQosController × S)

abbrev refusal : OsError → PmQosError
refusal denied = permission_error
refusal not_found = not_found_error
refusal read_only = permission_error
refusal other_os = qos_error

-- the calls that a caller makes: `lock`, `unlock` and `release_strict`
pub data Call : Type 0 where
  lock_call : Option ℤ → Bool → Call
  unlock_call release_strict_call : Call

module _ {S : Type 0} (os : Os S) where
  -- the loops over the CPUs and their states, up to the first failure
  unfoldable pub disable_states :
      ℤ
      → List StateEntry
      → Dict String String
      → S
      → Result NodeError (Unit {0}) × (Dict String String × S)
  unfolding eligible
  disable_states lowest [] saved s = (ok tt, (saved, s))
  disable_states lowest (e ∷ rest) saved s =
      let skipped = disable_states lowest rest saved s in
      if eligible lowest e.state_idx
      then elim (os.read_file e.disable_path s) [
        | err x ↦ (err x, (saved, s))
        | ok found ↦ elim found [
          | none ↦ skipped
          | some value ↦
              let (r, s') = os.write_file false e.disable_path "1" s in
              let saved' = set e.disable_path value saved in
              elim r [ ok _ ↦ disable_states lowest rest saved' s' | err x ↦ (err x, (saved', s')) ]
        ]
      ]
      else skipped

  -- a file that cannot be restored is logged
  unfoldable pub restore_saved : Dict String String → S → S
  restore_saved [] s = s
  restore_saved ((path, value) ∷ rest) s = restore_saved rest (os.write_file true path value s).1

  abbrev pub close_fd : Option ℕ → S → Result OsError (Unit {0}) × S
  close_fd none s = (ok tt, s)
  close_fd (some fd) s = os.close_device fd s

  -- `_release`: `close_error` is what `release_strict` raises
  unfoldable pub release :
      Bool → PmQosController → S → Result OsError (Unit {0}) × (PmQosController × S)
  unfolding restore_saved
  release strict c s =
      let (r, s') = close_fd c.fd s in
      let fallback = c.using_fallback in
      let saved = c.fallback_saved_states in
      (
        if strict then r else ok tt,
        (
          record c {
            fd = none;
            is_locked = false;
            using_fallback = false;
            fallback_saved_states = if fallback then [] else saved;
          },
          if fallback then restore_saved saved s' else s',
        ),
      )

  -- the `except` clauses of the fallback: only the second of them unlocks
  unfoldable pub fallback_failed : NodeError → PmQosController → S → Outcome Bool S
  fallback_failed node_denied c s = (err permission_error, (c, s))
  fallback_failed node_other c s = (err qos_error, (release false c s).1)

  unfoldable pub lock_via_sysfs_fallback : PmQosController → S → Outcome Bool S
  unfolding disable_states fallback_failed
  lock_via_sysfs_fallback c s =
      let cleared = record c { fallback_saved_states = [] } in
      elim (os.state_entries s) [
        | err x ↦ fallback_failed x cleared s
        | ok entries ↦
            let (r, (saved, s')) = disable_states c.min_fallback_state_index entries [] s in
            elim r [
              | err x ↦ fallback_failed x (record c { fallback_saved_states = saved }) s'
              | ok _ ↦ (
                ok true,
                (
                  record c {
                    fallback_saved_states = saved;
                    is_locked = true;
                    using_fallback = true;
                  },
                  s',
                ),
              )
            ]
      ]

  -- the `except` clauses of `lock`
  unfoldable pub refused : Bool → OsError → PmQosController → S → Outcome Bool S
  unfolding lock_via_sysfs_fallback
  refused allow_fallback e c s =
      if c.enable_sysfs_fallback && allow_fallback
      then lock_via_sysfs_fallback c s
      else (err (refusal e), (c, s))

  -- the `try` of `lock`; a descriptor that cannot be written is closed
  unfoldable pub lock_device : Bool → PmQosController → S → Outcome Bool S
  unfolding refused
  lock_device allow_fallback c s =
      let (opened, s1) = os.open_device s in
      elim opened [
        | err e ↦ refused allow_fallback e c s1
        | ok fd ↦
            let (written, s2) = os.write_device fd c.target_latency_us s1 in
            elim written [
              | ok _ ↦ (
                ok true,
                (record c { fd = some fd; is_locked = true; using_fallback = false }, s2),
              )
              | err e ↦
                  let (closed, s3) = os.close_device fd s2 in
                  elim closed [
                    | ok _ ↦ refused allow_fallback e c s3
                    | err _ ↦ (err qos_error, (c, s3))
                  ]
            ]
      ]

  -- a lock that is held has its latency written again, and a failure of that is logged
  abbrev lock_again : PmQosController → S → S
  lock_again c s = elim c.fd [
    | none ↦ s
    | some fd ↦
        if c.using_fallback
        then s
        else (os.write_device fd c.target_latency_us (os.seek_start fd s)).1
  ]

  unfoldable pub lock : Option ℤ → Bool → PmQosController → S → Outcome Bool S
  unfolding lock_device validate_latency
  lock target_latency_us allow_fallback c s =
      elim (requested_latency target_latency_us c.target_latency_us) [
        | none ↦ (err value_error, (c, s))
        | some latency_us ↦
            let c' = record c { target_latency_us = latency_us } in
            if c.is_locked
            then (ok true, (c', lock_again c' s))
            else lock_device allow_fallback c' s
      ]

  abbrev after_call : Call → PmQosController → S → PmQosController × S
  after_call (lock_call latency allow_fallback) c s = (lock latency allow_fallback c s).1
  after_call unlock_call c s = (release false c s).1
  after_call release_strict_call c s = (release true c s).1

  -- the calls in order, whatever each of them returns or raises
  unfoldable pub run : List Call → PmQosController → S → PmQosController × S
  unfolding lock release
  run [] c s = (c, s)
  run (call ∷ rest) c s = let (c', s') = after_call call c s in run rest c' s'
