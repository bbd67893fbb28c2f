-- ===== src/Library/Folders/Reached.antt =====
-- `jobsInFolders` finds the folders that lie under the selected ones.
use readflow.Common.{
  if◌then◌else◌, ℕ, zero, suc, ◌+◌, ◌≤◌, ◌<◌, ◌≡◌, refl, ◌↔◌, ◌||◌, true, false, some, List, [],
  ◌∷◌, String, length, All, Bool-cases, arith, inl, inr, Option-cases, str_eq, subst, eq_iff,
}
use readflow.Common.Sets.{has, add, has-add, string_eq, beq_refl}
use readflow.Api.{LibraryFolder}
use readflow.Library.Folders.{
  Sweep, in_some, enters, visit, sweep, sweep_all, as_set, allowed_folders,
}

pub data Listed (f : LibraryFolder) : List LibraryFolder → Type 0 where
  first : {fs : List LibraryFolder} → Listed f (f ∷ fs)
  later : {g : LibraryFolder} {fs : List LibraryFolder} → Listed f fs → Listed f (g ∷ fs)

-- A folder is selected, or its parent is under a selected one.
pub data Under (folders : List LibraryFolder) (ids : List String) : String → Type 0 where
  selected : {id : String} → has id ids ≡ true → Under folders ids id
  inside :
      {f : LibraryFolder} {parent : String}
      → Listed f folders
      → f.parent_id ≡ some parent
      → Under folders ids parent
      → Under folders ids f.id

-- Every member of the set is under a selected folder.
unfoldable pub IsUnder : List LibraryFolder → List String → List String → Type 0
IsUnder folders ids allowed = (id : String) → has id allowed ≡ true → Under folders ids id

AllListed : List LibraryFolder → List LibraryFolder → Type 0
AllListed folders fs = (f : LibraryFolder) → Listed f fs → Listed f folders

parent-Under :
    (folders : List LibraryFolder) (ids : List String) (f : LibraryFolder) (allowed : List String)
    → Listed f folders
    → IsUnder folders ids allowed
    → in_some f.parent_id allowed ≡ true
    → Under folders ids f.id
unfolding IsUnder
parent-Under folders ids f allowed m u e = elim (Option-cases f.parent_id) [
  | inl root ↦ absurd (cc (rw root at e))
  | inr (parent, p) ↦ inside m p (u parent (rw p at e))
]

visit-IsUnder :
    (folders : List LibraryFolder) (ids : List String) (f : LibraryFolder) (s : Sweep)
    → Listed f folders
    → IsUnder folders ids s.allowed
    → IsUnder folders ids (visit f s).allowed
unfolding IsUnder visit
visit-IsUnder folders ids f s m u id h = elim (Bool-cases (enters f s.allowed)) [
  | inr out ↦ u id (rw out at h)
  | inl new ↦
      let parent : in_some f.parent_id s.allowed ≡ true = ground arith in
      let either : (str_eq f.id id || has id s.allowed) ≡ true =
        rw (new, has-add f.id id s.allowed) at h in
      elim (Bool-cases (has id s.allowed)) [
        | inl old ↦ u id old
        | inr fresh ↦
            subst (Under folders ids) ((eq_iff f.id id).0 (ground arith))
              (parent-Under folders ids f s.allowed m u parent)
      ]
]

sweep-IsUnder :
    (folders : List LibraryFolder) (ids : List String) (fs : List LibraryFolder) (s : Sweep)
    → AllListed folders fs
    → IsUnder folders ids s.allowed
    → IsUnder folders ids (sweep fs s).allowed
unfolding sweep AllListed
sweep-IsUnder folders ids [] s m u = u
sweep-IsUnder folders ids (f ∷ fs) s m u =
    sweep-IsUnder folders ids fs (visit f s) (λ g l. m g (later l))
      (visit-IsUnder folders ids f s (m f first) u)

pub sweep_all-IsUnder :
    (n : ℕ) (folders : List LibraryFolder) (ids allowed : List String)
    → IsUnder folders ids allowed
    → IsUnder folders ids (sweep_all n folders allowed)
unfolding sweep_all AllListed
sweep_all-IsUnder zero folders ids allowed u = u
sweep_all-IsUnder (suc n) folders ids allowed u =
    let swept = sweep folders (record { allowed = allowed; changed = false }) in
    let good =
      sweep-IsUnder folders ids folders (record { allowed = allowed; changed = false }) (λ f l. l)
        u in
    elim (Bool-cases swept.changed) [
      | inl more ↦ rw more (sweep_all-IsUnder n folders ids swept.allowed good)
      | inr done ↦ rw done good
    ]

visit-changed : (f : LibraryFolder) (s : Sweep) → s.changed ≡ true → (visit f s).changed ≡ true
unfolding visit
visit-changed f s c = ground arith

visit-entered :
    (f : LibraryFolder) (s : Sweep) → enters f s.allowed ≡ true → (visit f s).changed ≡ true
unfolding visit
visit-entered f s e = rw e refl

visit-same : (f : LibraryFolder) (s : Sweep) → enters f s.allowed ≡ false → visit f s ≡ s
unfolding visit
visit-same f s e = rw e refl

sweep-changed :
    (fs : List LibraryFolder) (s : Sweep) → s.changed ≡ true → (sweep fs s).changed ≡ true
unfolding sweep
sweep-changed [] s c = c
sweep-changed (f ∷ fs) s c = sweep-changed fs (visit f s) (visit-changed f s c)

-- A pass without a change keeps the set, and no folder enters it.
unchanged-keeps :
    (fs : List LibraryFolder) (s : Sweep)
    → (sweep fs s).changed ≡ false
    → ((sweep fs s).allowed ≡ s.allowed) × All (λ f. enters f s.allowed ≡ false) fs
unfolding sweep
unchanged-keeps [] s c = (refl, tt)
unchanged-keeps (f ∷ fs) s c = elim (Bool-cases (enters f s.allowed)) [
  | inl new ↦ absurd (cc (sweep-changed fs (visit f s) (visit-entered f s new), c))
  | inr old ↦
      let same = visit-same f s old in
      let (kept, rest) = unchanged-keeps fs s (rw (sweep, same) at c) in
      (rw (sweep, same) kept, (old, rest))
]

-- The folders that are not in the set.
abbrev pub missing : List LibraryFolder → List String → ℕ
missing [] allowed = 0
missing (f ∷ fs) allowed = (if has f.id allowed then 0 else 1) + missing fs allowed

missing-add :
    (id : String) (fs : List LibraryFolder) (allowed : List String)
    → missing fs (add id allowed) ≤ missing fs allowed
missing-add id [] allowed = omega arith
missing-add id (f ∷ fs) allowed = ground (arith, missing-add id fs allowed, has-add id f.id allowed)

missing-add_listed :
    (f : LibraryFolder) (fs : List LibraryFolder) (allowed : List String)
    → Listed f fs
    → has f.id allowed ≡ false
    → missing fs (add f.id allowed) < missing fs allowed
missing-add_listed f [] allowed l h = elim l [ ]
missing-add_listed f (_ ∷ fs) allowed first h =
    ground (arith, missing-add f.id fs allowed, has-add f.id f.id allowed, beq_refl f.id)
missing-add_listed f (g ∷ fs) allowed (later l) h =
    ground (arith, missing-add_listed f fs allowed l h, has-add f.id g.id allowed)

visit-missing :
    (f : LibraryFolder) (folders : List LibraryFolder) (s : Sweep)
    → Listed f folders
    → missing folders (visit f s).allowed
        + (if s.changed then 0 else if (visit f s).changed then 1 else 0)
      ≤ missing folders s.allowed
unfolding visit
visit-missing f folders s l = ground (arith, missing-add_listed f folders s.allowed l)

sweep-missing :
    (folders fs : List LibraryFolder) (s : Sweep)
    → AllListed folders fs
    → missing folders (sweep fs s).allowed
        + (if s.changed then 0 else if (sweep fs s).changed then 1 else 0)
      ≤ missing folders s.allowed
unfolding sweep AllListed
sweep-missing folders [] s l = ground arith
sweep-missing folders (f ∷ fs) s l =
    let one = visit-missing f folders s (l f first) in
    let rest = sweep-missing folders fs (visit f s) (λ g m. l g (later m)) in
    let kept = visit-changed f s in ground arith

-- Enough passes leave a set that no folder enters.
pub sweep_all-closed :
    (n : ℕ) (folders : List LibraryFolder) (allowed : List String)
    → missing folders allowed < n
    → All (λ f. enters f (sweep_all n folders allowed) ≡ false) folders
unfolding sweep_all AllListed
sweep_all-closed zero folders allowed h = absurd (omega arith)
sweep_all-closed (suc n) folders allowed h =
    let start : Sweep = record { allowed = allowed; changed = false } in
    let fewer = sweep-missing folders folders start (λ f l. l) in
    elim (Bool-cases (sweep folders start).changed) [
      | inl more ↦ rw more (sweep_all-closed n folders (sweep folders start).allowed (ground arith))
      | inr done ↦ let (same, closed) = unchanged-keeps folders start done in rw (done, same) closed
    ]

visit_mono :
    (f : LibraryFolder) (s : Sweep) (id : String)
    → has id s.allowed ≡ true
    → has id (visit f s).allowed ≡ true
unfolding visit
visit_mono f s id h = ground (arith, has-add f.id id s.allowed)

sweep_mono :
    (fs : List LibraryFolder) (s : Sweep) (id : String)
    → has id s.allowed ≡ true
    → has id (sweep fs s).allowed ≡ true
unfolding sweep
sweep_mono [] s id h = h
sweep_mono (f ∷ fs) s id h = sweep_mono fs (visit f s) id (visit_mono f s id h)

pub sweep_all_mono :
    (n : ℕ) (folders : List LibraryFolder) (allowed : List String) (id : String)
    → has id allowed ≡ true
    → has id (sweep_all n folders allowed) ≡ true
unfolding sweep_all
sweep_all_mono zero folders allowed id h = h
sweep_all_mono (suc n) folders allowed id h =
    let start : Sweep = record { allowed = allowed; changed = false } in
    let kept = sweep_mono folders start id h in
    elim (Bool-cases (sweep folders start).changed) [
      | inl more ↦ rw more (sweep_all_mono n folders (sweep folders start).allowed id kept)
      | inr done ↦ rw done kept
    ]

pub missing-le : (fs : List LibraryFolder) (allowed : List String) → missing fs allowed ≤ length fs
missing-le [] allowed = omega arith
missing-le (f ∷ fs) allowed = ground (arith, missing-le fs allowed)

All-Listed :
    (P : LibraryFolder → Type 0) (f : LibraryFolder) (fs : List LibraryFolder)
    → Listed f fs
    → All P fs
    → P f
All-Listed P f [] l h = elim l [ ]
All-Listed P f (_ ∷ fs) first h = h.0
All-Listed P f (_ ∷ fs) (later l) h = All-Listed P f fs l h.1

pub has-as_set :
    (id : String) (ids s : List String) → has id (as_set ids s) ≡ (has id ids || has id s)
has-as_set id [] s = refl
has-as_set id (x ∷ xs) s = ground (arith, has-as_set id xs (add x s), has-add x id s)

pub Under-allowed :
    (folders : List LibraryFolder) (ids allowed : List String) (id : String)
    → ((i : String) → has i ids ≡ true → has i allowed ≡ true)
    → All (λ f. enters f allowed ≡ false) folders
    → Under folders ids id
    → has id allowed ≡ true
Under-allowed folders ids allowed id start closed (selected h) = start _ h
Under-allowed folders ids allowed id start closed (inside {f} {parent} l p u) =
    let above = Under-allowed folders ids allowed parent start closed u in
    let shut = All-Listed (λ g. enters g allowed ≡ false) f folders l closed in
    ground (arith, above, p, rw p at shut)

-- The loop of `jobsInFolders` ends with exactly the folders that are selected or lie, at any depth,
-- inside a selected folder: a pass for each folder and one more are enough, whatever the order of the
-- folders, also when parent links form a cycle.
pub allowed_folders-Under :
    (folders : List LibraryFolder) (ids : List String) (id : String)
    → (has id (allowed_folders folders ids) ≡ true) ↔ Under folders ids id
unfolding allowed_folders IsUnder
allowed_folders-Under folders ids id =
    let start = as_set ids [] in
    let n = suc (length folders) in
    (
      sweep_all-IsUnder n folders ids start (λ i h. selected (ground (arith, has-as_set i ids [])))
          id,
      Under-allowed folders ids (sweep_all n folders start) id
          (λ i h. sweep_all_mono n folders start i (ground (arith, has-as_set i ids [])))
          (sweep_all-closed n folders start (omega (arith, missing-le folders start))),
    )
