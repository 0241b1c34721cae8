-- ===== src/Sysfs/Discovery/Distinct.antt =====
-- Which directories the discovered policies stand for.
use boostlock.Prelude.{
  String, Bool, true, false, ◌&&◌, ◌||◌, List, [], ◌∷◌, map, All, Result, ok, ◌>>=◌, ok_of_bind,
  ok_of_raise_if, ok_injective, raise_if, str_eq, eq_iff, ◌≡◌, refl, sym, ◌∙◌, ap, arith,
  Bool-cases, inl, inr,
}
use boostlock.Sysfs.Policy.{CpufreqPolicy, PlanError, no_usable_policy}
use boostlock.Sysfs.Plan.{elem, none_usable}
use boostlock.Sysfs.Discovery.{Tree}
use boostlock.Sysfs.Discovery.Inventory.{policy_members, read_nodes}
use boostlock.Sysfs.Discovery.Policies
use boostlock.Sysfs.Discovery.Policies.{
  policy_of, inventory_cpufreq_policy, identifier_of, inventory_all, discover_cpufreq_policies,
}

-- no two policies have one path
abbrev pub IsDistinct : List CpufreqPolicy → Type 0
IsDistinct [] = Unit
IsDistinct (p ∷ ps) = All (λ q. str_eq q.path p.path ≡ false) ps × IsDistinct ps

abbrev paths : List CpufreqPolicy → List String
paths ps = map (λ p. p.path) ps

abbrev Unseen : List String → List CpufreqPolicy → Type 0
Unseen seen ps = All (λ p. elem p.path seen ≡ false) ps

str_eq_refl : (s : String) → str_eq s s ≡ true
str_eq_refl s = (eq_iff s s).1 refl

or_false : (b : Bool) → (b || false) ≡ true → b ≡ true
or_false b h = ground arith

elem-cons :
    (x y : String) (ys : List String)
    → elem x (y ∷ ys) ≡ false
    → (str_eq x y ≡ false) × (elem x ys ≡ false)
unfolding elem
elem-cons x y ys h = ground arith

-- unseen where one more has been seen
Unseen-cons :
    (path : String) (seen : List String) (ps : List CpufreqPolicy)
    → Unseen (path ∷ seen) ps
    → All (λ q. str_eq q.path path ≡ false) ps × Unseen seen ps
Unseen-cons path seen [] unseen = (tt, tt)
Unseen-cons path seen (p ∷ ps) (first, rest) =
    let (other, unseen) = elem-cons p.path path seen first in
    let (others, all_unseen) = Unseen-cons path seen ps rest in
    ((other, others), (unseen, all_unseen))

-- a path that is among those of the policies or has been seen
abbrev Known : String → List CpufreqPolicy → List String → Type 0
Known x ps seen = (elem x (paths ps) || elem x seen) ≡ true

Known-cons :
    (x r : String) (p : CpufreqPolicy) (ps : List CpufreqPolicy) (seen : List String)
    → p.path ≡ r
    → Known x ps (r ∷ seen)
    → Known x (p ∷ ps) seen
unfolding elem
Known-cons x r p ps seen e known = rw e (ground arith)

module _ (tree : Tree) where
  open tree use {resolve, name}

  inventory_cpufreq_policy-path :
      (identifier path : String) (p : CpufreqPolicy)
      → inventory_cpufreq_policy tree identifier path ≡ ok p
      → p.path ≡ path
  unfolding inventory_cpufreq_policy policy_of
  inventory_cpufreq_policy-path identifier path p h =
      let (members, _, h1) = ok_of_bind (policy_members tree path) _ p h in
      let (nodes, _, h2) = ok_of_bind (read_nodes tree path members) _ p h1 in
      ap (λ q. q.path) (sym (ok_injective (policy_of tree identifier path members nodes) p h2))

  -- the policies that the loop makes of its candidates, after some directories have been seen
  record Listed (seen : List String) (cs : List (String × String)) (ps : List CpufreqPolicy)
      : Type 0 where
    unseen : Unseen seen ps
    distinct : IsDistinct ps
    known : All (λ c. Known (resolve c.1) ps seen) cs

  All_Known-cons :
      (r : String) (p : CpufreqPolicy) (ps : List CpufreqPolicy) (seen : List String)
      (cs : List (String × String))
      → p.path ≡ r
      → All (λ c. Known (resolve c.1) ps (r ∷ seen)) cs
      → All (λ c. Known (resolve c.1) (p ∷ ps) seen) cs
  All_Known-cons r p ps seen [] e known = tt
  All_Known-cons r p ps seen (c ∷ cs) e (first, rest) =
      (Known-cons (resolve c.1) r p ps seen e first, All_Known-cons r p ps seen cs e rest)

  abbrev inventory_here : (String × String) → Result PlanError CpufreqPolicy
  inventory_here (fallback, path) =
      let resolved = resolve path in
      inventory_cpufreq_policy tree
        (identifier_of tree (tree.policy_number (name resolved)) (name resolved) fallback) resolved

  inventory_all_seen :
      (c : String × String) (rest : List (String × String)) (seen : List String)
      → elem (resolve c.1) seen ≡ true
      → inventory_all tree (c ∷ rest) seen ≡ inventory_all tree rest seen
  unfolding inventory_all
  inventory_all_seen (fallback, path) rest seen known = rw (known, inventory_all) refl

  inventory_all_new :
      (c : String × String) (rest : List (String × String)) (seen : List String)
      → elem (resolve c.1) seen ≡ false
      → inventory_all tree (c ∷ rest) seen ≡ (
          inventory_here c >>= λ p.
          inventory_all tree rest (resolve c.1 ∷ seen) >>= λ ps. ok (p ∷ ps))
  unfolding inventory_all
  inventory_all_new (fallback, path) rest seen new = rw (new, inventory_all) refl

  Listed-cons :
      (c : String × String) (rest : List (String × String)) (seen : List String) (p : CpufreqPolicy)
      (ps : List CpufreqPolicy)
      → elem (resolve c.1) seen ≡ false
      → p.path ≡ resolve c.1
      → Listed (resolve c.1 ∷ seen) rest ps
      → Listed seen (c ∷ rest) (p ∷ ps)
  unfolding elem
  Listed-cons c rest seen p ps new e listed =
      let r = resolve c.1 in
      let (others, unseen) = Unseen-cons r seen ps listed.unseen in
      record {
        unseen = (rw e new, unseen);
        distinct = (rw e others, listed.distinct);
        known = (rw (e, str_eq_refl r) refl, All_Known-cons r p ps seen rest e listed.known);
      }

  known_seen : (a b : Bool) → b ≡ true → (a || b) ≡ true
  known_seen a b h = ground arith

  inventory_all-Listed :
      (cs : List (String × String)) (seen : List String) (ps : List CpufreqPolicy)
      → inventory_all tree cs seen ≡ ok ps
      → Listed seen cs ps
  unfolding inventory_all
  inventory_all-Listed [] seen ps h =
      rw (sym (ok_injective [] ps h)) (record { unseen = tt; distinct = tt; known = tt })
  inventory_all-Listed (c ∷ rest) seen ps h = elim (Bool-cases (elem (resolve c.1) seen)) [
    | inl known ↦
        let listed =
          inventory_all-Listed rest seen ps (sym (inventory_all_seen c rest seen known) ∙ h) in
        record {
          unseen = listed.unseen;
          distinct = listed.distinct;
          known = (
            known_seen (elem (resolve c.1) (paths ps)) (elem (resolve c.1) seen) known,
            listed.known,
          );
        }
    | inr new ↦
        let (p, hp, h1) =
          ok_of_bind (inventory_here c) _ ps (sym (inventory_all_new c rest seen new) ∙ h) in
        let (ps', hps, h2) = ok_of_bind (inventory_all tree rest (resolve c.1 ∷ seen)) _ ps h1 in
        rw (sym (ok_injective (p ∷ ps') ps h2)) (
          Listed-cons c rest seen p ps' new (inventory_cpufreq_policy-path _ (resolve c.1) p hp)
            (inventory_all-Listed rest (resolve c.1 ∷ seen) ps' hps))
  ]

  -- what a discovery makes of its candidates
  pub record IsDiscovered (require_usable : Bool) (ps : List CpufreqPolicy) : Type 0 where
    pub candidates : List (String × String)
    pub looked_up : Policies.candidates tree ≡ ok candidates
    pub distinct : IsDistinct ps
    pub found : All (λ c. elem (resolve c.1) (paths ps) ≡ true) candidates
    pub usable : (require_usable && none_usable ps) ≡ false

  found_all :
      (cs : List (String × String)) (ps : List CpufreqPolicy)
      → All (λ c. Known (resolve c.1) ps []) cs
      → All (λ c. elem (resolve c.1) (paths ps) ≡ true) cs
  unfolding elem
  found_all [] ps known = tt
  found_all (c ∷ cs) ps (first, rest) =
      (or_false (elem (resolve c.1) (paths ps)) first, found_all cs ps rest)

  -- A discovery that returns has one policy for each directory: no two policies have one path, the
  -- directory that each candidate resolves to has its policy, and where a usable policy is required
  -- there is one.
  pub discover_cpufreq_policies-IsDiscovered :
      (require_usable : Bool) (ps : List CpufreqPolicy)
      → discover_cpufreq_policies tree require_usable ≡ ok ps
      → IsDiscovered require_usable ps
  unfolding discover_cpufreq_policies
  discover_cpufreq_policies-IsDiscovered require_usable ps h =
      let (cs, hcs, h1) = ok_of_bind (Policies.candidates tree) _ ps h in
      let (ps', hps, h2) = ok_of_bind (inventory_all tree cs []) _ ps h1 in
      let (_, hr, h3) =
        ok_of_bind (raise_if (require_usable && none_usable ps') no_usable_policy) _ ps h2 in
      let listed = inventory_all-Listed cs [] ps' hps in
      rw (sym (ok_injective ps' ps h3)) (record {
        candidates = cs;
        looked_up = hcs;
        distinct = listed.distinct;
        found = found_all cs ps' listed.known;
        usable = ok_of_raise_if (require_usable && none_usable ps') no_usable_policy hr;
      })
