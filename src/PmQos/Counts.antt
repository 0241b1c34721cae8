-- ===== src/PmQos/Counts.antt =====
-- How the calls on the system change the set of open descriptors.
use boostlock.Prelude.{
  ℕ, String, Bool, true, false, ◌≡◌, refl, ◌∙◌, ap, Option, none, some, List, [], ◌∷◌, ok, err,
  Bool-cases, Result-cases, Option-cases, inl, inr,
}
use boostlock.Prelude.Int.{ℤ}
use boostlock.Prelude.Dict.{Dict, set, String_eq}
use boostlock.Prelude.Descriptors.{Fds, with_fd, without_fd, without-with_fd}
use boostlock.PmQos.{OsError, close_fd, StateEntry, Os, eligible, disable_states, restore_saved}

-- the descriptors `base`, and one more where the controller remembers one
abbrev pub with_remembered : Option ℕ → Fds → Fds
with_remembered none base = base
with_remembered (some fd) base = with_fd fd base

-- what the controller remembers is not among the descriptors of others
abbrev pub IsFresh : Option ℕ → Fds → Type 0
IsFresh none base = Unit
IsFresh (some fd) base = base fd ≡ false

-- `fds` is the set of the descriptors that the process has open. `open` gives one that was not open,
-- and a descriptor is gone after `close` even where that fails, as on Linux; a close of one that is not
-- open changes nothing.
pub record IsDescriptorTable {S : Type 0} (os : Os S) (fds : S → Fds) : Type 0 where
  pub unused : (s : S) (fd : ℕ) → (os.open_device s).0 ≡ ok fd → fds s fd ≡ false
  pub opened :
      (s : S) (fd : ℕ)
      → (os.open_device s).0 ≡ ok fd
      → fds (os.open_device s).1 ≡ with_fd fd (fds s)
  pub unopened :
      (s : S) (e : OsError) → (os.open_device s).0 ≡ err e → fds (os.open_device s).1 ≡ fds s
  pub sought : (fd : ℕ) (s : S) → fds (os.seek_start fd s) ≡ fds s
  pub written : (fd : ℕ) (v : ℤ) (s : S) → fds (os.write_device fd v s).1 ≡ fds s
  pub closed : (fd : ℕ) (s : S) → fds (os.close_device fd s).1 ≡ without_fd fd (fds s)
  pub stored :
      (optional : Bool) (path value : String) (s : S)
      → fds (os.write_file optional path value s).1 ≡ fds s

module _ {S : Type 0} (os : Os S) (fds : S → Fds) (table : IsDescriptorTable os fds) where
  pub disable_states-fds :
      (lowest : ℤ) (entries : List StateEntry) (saved : Dict String String) (s : S)
      → fds (disable_states os lowest entries saved s).1.1 ≡ fds s
  unfolding disable_states
  disable_states-fds lowest [] saved s = refl
  disable_states-fds lowest (e ∷ rest) saved s =
      let skip = disable_states-fds lowest rest saved s in
      elim (Bool-cases (eligible lowest e.state_idx)) [
        | inr skipped ↦ rw skipped skip
        | inl taken ↦ elim (Result-cases (os.read_file e.disable_path s)) [
          | inr (x, e1) ↦ rw (taken, e1) refl
          | inl (found, e1) ↦ elim (Option-cases found) [
            | inl missing ↦ rw (taken, e1, missing) skip
            | inr (value, present) ↦
                let s' = (os.write_file false e.disable_path "1" s).1 in
                let kept = table.stored false e.disable_path "1" s in
                elim (Result-cases (os.write_file false e.disable_path "1" s).0) [
                  | inl (_, e2) ↦
                      rw (taken, e1, present, e2)
                        (disable_states-fds lowest rest (set e.disable_path value saved) s' ∙ kept)
                  | inr (x, e2) ↦ rw (taken, e1, present, e2) kept
                ]
          ]
        ]
      ]

  pub restore_saved-fds :
      (saved : Dict String String) (s : S) → fds (restore_saved os saved s) ≡ fds s
  unfolding restore_saved
  restore_saved-fds [] s = refl
  restore_saved-fds ((path, value) ∷ rest) s =
      restore_saved-fds rest (os.write_file true path value s).1 ∙ table.stored true path value s

  pub close_fd-fds :
      (base : Fds) (fd : Option ℕ) (s : S)
      → IsFresh fd base
      → fds s ≡ with_remembered fd base
      → fds (close_fd os fd s).1 ≡ base
  close_fd-fds base none s new h = h
  close_fd-fds base (some fd) s new h =
      table.closed fd s ∙ ap (without_fd fd) h ∙ without-with_fd fd base new
