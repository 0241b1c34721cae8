-- ===== src/State/Signals/PutBack.antt =====
-- The handlers of the process come back when those of boostlock/state.py are unregistered.
use boostlock.Prelude.{
  ℕ, Bool, true, false, ◌≡◌, ◌≢◌, refl, sym, ◌∙◌, Option, none, some, List, [], ◌∷◌, All, ◌==◌,
  ==_iff, if◌then◌else◌, Bool-cases, inl, inr,
}
use boostlock.Prelude.Dict.{Dict, ℕ_eq, get, set, get-set}
use boostlock.State.Signals.{
  Handler, not_python, default_action, ignored, default_int, own_handler, function, SignalState,
  target_signals, with_handler, register_each, register_signal_handlers, put_back_one,
  put_back_each, unregister_signal_handlers,
}

module _ (before : ℕ → Handler) where
  -- the handlers that are saved are those from before
  abbrev AllSaved : Dict ℕ Handler → Type 0
  AllSaved d = All (λ entry. entry.1 ≡ before entry.0) d

  -- and a signal without a saved one still has its own
  abbrev OthersKept : Dict ℕ Handler → (ℕ → Handler) → Type 0
  OthersKept d table = (n : ℕ) → get n d ≡ none → table n ≡ before n

  set-AllSaved :
      (sig : ℕ) (h : Handler) (d : Dict ℕ Handler)
      → h ≡ before sig
      → AllSaved d
      → AllSaved (set sig h d)
  unfolding set
  set-AllSaved sig h [] same all = (same, tt)
  set-AllSaved sig h ((j, g) ∷ d) same all = elim (Bool-cases (j == sig)) [
    | inl here ↦ let e : j ≡ sig = (==_iff j sig).0 here in rw (set, here) (rw e same, all.1)
    | inr differ ↦ rw (set, differ) (all.0, set-AllSaved sig h d same all.1)
  ]

  put_back_one_lem :
      (sig n : ℕ) (h : Handler) (table : ℕ → Handler)
      → h ≢ not_python
      → put_back_one (λ k. false) sig h table n ≡ with_handler sig h table n
  put_back_one_lem sig n not_python table some_handler = absurd (some_handler refl)
  put_back_one_lem sig n default_action table some_handler = refl
  put_back_one_lem sig n ignored table some_handler = refl
  put_back_one_lem sig n default_int table some_handler = refl
  put_back_one_lem sig n own_handler table some_handler = refl
  put_back_one_lem sig n (function f) table some_handler = refl

  after_one :
      (sig k : ℕ) (h : Handler) (d : Dict ℕ Handler) (table : ℕ → Handler)
      → h ≡ before sig
      → OthersKept ((sig, h) ∷ d) table
      → get k d ≡ none
      → with_handler sig h table k ≡ before k
  unfolding get
  after_one sig k h d table same others e = elim (Bool-cases (sig == k)) [
    | inl here ↦ let eq : sig ≡ k = (==_iff sig k).0 here in rw here (rw eq at same)
    | inr differ ↦ rw differ (others k (rw (get, differ) e))
  ]

  put_back_each_lem :
      (d : Dict ℕ Handler) (table : ℕ → Handler)
      → ((n : ℕ) → before n ≢ not_python)
      → AllSaved d
      → OthersKept d table
      → (n : ℕ) → put_back_each (λ k. false) d table n ≡ before n
  unfolding put_back_each get
  put_back_each_lem [] table python all others n = others n refl
  put_back_each_lem ((sig, h) ∷ d) table python all others n =
      let own : h ≢ not_python = λ e. python sig (sym all.0 ∙ e) in
      let later : OthersKept d (put_back_one (λ k. false) sig h table) =
        λ k e. put_back_one_lem sig k h table own ∙ after_one sig k h d table all.0 others e in
      put_back_each_lem d (put_back_one (λ k. false) sig h table) python all.1 later n

  -- the signals that are still to be registered
  abbrev AllFresh : List ℕ → Dict ℕ Handler → Type 0
  AllFresh sigs d = All (λ sig. get sig d ≡ none) sigs

  abbrev Apart : List ℕ → Type 0
  Apart [] = Unit
  Apart (sig ∷ rest) = All (λ other. (sig == other) ≡ false) rest × Apart rest

  fresh_after :
      (sig : ℕ) (h : Handler) (d : Dict ℕ Handler) (rest : List ℕ)
      → All (λ other. (sig == other) ≡ false) rest
      → AllFresh rest d
      → AllFresh rest (set sig h d)
  fresh_after sig h d [] apart fresh = tt
  fresh_after sig h d (other ∷ rest) apart fresh =
      (rw (get-set sig other h d, apart.0) fresh.0, fresh_after sig h d rest apart.1 fresh.1)

  others_after :
      (sig : ℕ) (g h : Handler) (d : Dict ℕ Handler) (table : ℕ → Handler)
      → OthersKept d table
      → OthersKept (set sig g d) (with_handler sig h table)
  others_after sig g h d table others n e = elim (Bool-cases (sig == n)) [
    | inl here ↦
        let lost : ◌≡◌ {A = Option Handler} (some g) none = rw (get-set sig n g d, here) at e in cc
    | inr differ ↦
        let e' : get n d ≡ none = rw (get-set sig n g d, differ) at e in rw differ (others n e')
  ]

  register_each_lem :
      (fails : ℕ → Bool) (sigs : List ℕ) (m : SignalState)
      → Apart sigs
      → AllFresh sigs m.previous_signal_handlers
      → AllSaved m.previous_signal_handlers
      → OthersKept m.previous_signal_handlers m.table
      → AllSaved (register_each fails sigs m).previous_signal_handlers
        × OthersKept
            (register_each fails sigs m).previous_signal_handlers
            (register_each fails sigs m).table
  unfolding register_each
  register_each_lem fails [] m apart fresh all others = (all, others)
  register_each_lem fails (sig ∷ rest) m apart fresh all others = elim (Bool-cases (fails sig)) [
    | inl fail ↦
        simp (register_each, fail) (register_each_lem fails rest m apart.1 fresh.1 all others)
    | inr works ↦
        let d = m.previous_signal_handlers in
        let next : SignalState = record m {
          previous_signal_handlers = set sig (m.table sig) d;
          table = with_handler sig own_handler m.table;
        } in
        simp (register_each, works)
          (register_each_lem fails rest next apart.1
            (fresh_after sig (m.table sig) d rest apart.0 fresh.1)
            (set-AllSaved sig (m.table sig) d (others sig fresh.0) all)
            (others_after sig (m.table sig) own_handler d m.table others))
  ]

none_yet : (sigs : List ℕ) → All (λ sig. ◌≡◌ {A = Option Handler} (get sig []) none) sigs
unfolding get
none_yet [] = tt
none_yet (sig ∷ rest) = (refl, none_yet rest)

picked {ℓ} : {A : Type ℓ} (b : Bool) (x y : A) → b ≡ false → (if b then x else y) ≡ y
picked true x y h = cc
picked false x y h = refl

-- the manager after the registration of any signals
abbrev saved_handlers : (ℕ → Bool) → List ℕ → SignalState → SignalState
saved_handlers fails sigs m = record (register_each fails sigs m) {
  signal_handlers_registered = true;
}

register_signal_handlers_lem :
    (fails : ℕ → Bool) (m : SignalState)
    → m.signal_handlers_registered ≡ false
    → register_signal_handlers fails m ≡ saved_handlers fails target_signals m
unfolding register_signal_handlers
register_signal_handlers_lem fails m fresh =
    picked m.signal_handlers_registered m (saved_handlers fails target_signals m) fresh

unregister-saved_handlers :
    (fails : ℕ → Bool) (sigs : List ℕ) (m : SignalState) (n : ℕ)
    → Apart m.table sigs
    → m.previous_signal_handlers ≡ []
    → ((k : ℕ) → m.table k ≢ not_python)
    → (unregister_signal_handlers (λ k. false) (saved_handlers fails sigs m)).table n ≡ m.table n
unfolding unregister_signal_handlers
unregister-saved_handlers fails sigs m n apart empty python =
    let (saved, others) =
      register_each_lem m.table fails sigs m apart (rw empty (none_yet sigs)) (rw empty tt)
        (λ k e. refl) in
    put_back_each_lem m.table (register_each fails sigs m).previous_signal_handlers
      (register_each fails sigs m).table python saved others n

-- Where no handler of the process was installed outside Python, and none of the second calls fails, a
-- registration and its end leave each signal with the handler from before, also where the registration
-- fails for some signals.
pub unregister-register_signal_handlers :
    (fails : ℕ → Bool) (m : SignalState) (n : ℕ)
    → m.signal_handlers_registered ≡ false
    → m.previous_signal_handlers ≡ []
    → ((k : ℕ) → m.table k ≢ not_python)
    → (unregister_signal_handlers (λ k. false) (register_signal_handlers fails m)).table n
      ≡ m.table n
unregister-register_signal_handlers fails m n fresh empty python =
    rw (register_signal_handlers_lem fails m fresh) (
      unregister-saved_handlers fails target_signals m n
        ((refl, (refl, (refl, tt))), ((refl, (refl, tt)), ((refl, tt), (tt, tt)))) empty python)
