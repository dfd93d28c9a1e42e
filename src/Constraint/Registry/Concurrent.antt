-- ===== src/Constraint/Registry/Concurrent.antt =====
-- The constraint registry under concurrent calls: what each method does between taking and releasing
-- the lock. Nil registries and arguments are refused before that.
use go_benefit.Prelude.{
  ◌≡◌, refl, ℕ, ◌*◌, ◌≤◌, ◌<◌, ◌⊎◌, Bool, true, false, Option, some, List, arith, Bool-cases, inl,
  inr,
}
use go_benefit.Text.{text_eq}
use go_benefit.Text.Order.{sort_by}
use go_benefit.Dict.{lookup, insert, delete, contains, keys}
use go_benefit.Errors.{Check, ok, err, errorf, sentinel, constraint_err_already_registered}
use go_benefit.Core.Constraint.{ConstraintType}
use go_benefit.Constraint.Types.{Evaluator}
use go_benefit.Constraint.Registry.{Registry, new_registry, add, unregister, get, types}
use go_benefit.Sync.{Section, atomic, System, Pc, Move, Reach}
use go_benefit.Sync.Progress.{Finish, Reach-drains}
use go_benefit.Sync.Termination.{moves, Finish-Reach, Finish-terminates}
use go_benefit.Sync.Answers.{Ends, Finish-Ends}
use go_benefit.Sync.Invariant.{Reach-Replays}
use go_benefit.Sync.Sequential.{Sequential, Replays-Sequential}

-- Register with an evaluator that is not nil, Unregister, Get and Types.
pub data Call : Type 0 where
  registering : ConstraintType → Evaluator → Call
  unregistering : ConstraintType → Call
  getting : ConstraintType → Call
  listing : Call

-- What a method reads first.
pub data Seen : Type 0 where
  present : Bool → Seen
  evaluator : Option Evaluator → Seen
  entries : List ConstraintType → Seen

pub data Reply : Type 0 where
  registered : Check → Reply
  unregistered : Bool → Reply
  got : Option Evaluator → Reply
  listed : List ConstraintType → Reply
  mismatch : Reply

unfoldable pub writes : Call → Bool
writes (registering typ f) = true
writes (unregistering typ) = true
writes _ = false

unfoldable pub look : Call → Registry → Seen
look (registering typ f) m = present (contains typ m)
look (unregistering typ) m = present (contains typ m)
look (getting typ) m = evaluator (lookup typ m)
look listing m = entries (keys m)

-- Types sorts its copy of the keys once the lock is released.
-- No method looks at what another one reads: `mismatch` is never a reply.
unfoldable pub commit : Call → Seen → Registry → Registry × Reply
commit (registering typ f) (present true) m =
    (m, registered (err (errorf "%w: %q" (sentinel constraint_err_already_registered))))
commit (registering typ f) (present false) m = (insert typ f m, registered (ok tt))
commit (unregistering typ) (present exists) m = (delete typ m, unregistered exists)
commit (getting typ) (evaluator e) m = (m, got e)
commit listing (entries ks) m = (m, listed (sort_by (λ t. t) ks))
commit _ _ m = (m, mismatch)

-- Register defers Unlock; the others call Unlock or RUnlock.
unfoldable pub unlocks : Call → Bool
unlocks (registering typ f) = true
unlocks (unregistering typ) = true
unlocks (getting typ) = true
unlocks listing = true

pub frees : (c : Call) → unlocks c ≡ true
unfolding unlocks
frees (registering typ f) = refl
frees (unregistering typ) = refl
frees (getting typ) = refl
frees listing = refl

pub keeps : (c : Call) (l : Seen) (m : Registry) → writes c ≡ false → (commit c l m).0 ≡ m
unfolding writes commit
keeps (registering typ f) l m h = cc
keeps (unregistering typ) l m h = cc
keeps (getting typ) (present b) m h = refl
keeps (getting typ) (evaluator e) m h = refl
keeps (getting typ) (entries ks) m h = refl
keeps listing (present b) m h = refl
keeps listing (evaluator e) m h = refl
keeps listing (entries ks) m h = refl

abbrev pub methods : Section Registry Call Seen Reply
methods = record {
  writes = writes;
  look = look;
  commit = commit;
  unlocks = unlocks;
  keeps = keeps;
  frees = frees;
}

-- What the method of the sequential registry does.
abbrev pub Answers : Call → Registry → Reply → Registry → Type 0
Answers (registering typ f) before (registered (ok u)) after = add typ f before ≡ ok after
Answers (registering typ f) before (registered (err e)) after =
    (add typ f before ≡ err e) × (after ≡ before)
Answers (unregistering typ) before (unregistered b) after =
    unregister (some before) typ ≡ (some after, b)
Answers (getting typ) before (got e) after = (get (some before) typ ≡ e) × (after ≡ before)
Answers listing before (listed ks) after = (types (some before) ≡ ks) × (after ≡ before)
Answers _ before _ after = ⊥

atomic-Answers :
    (c : Call) (m : Registry) → Answers c m (atomic methods c m).1 (atomic methods c m).0
unfolding look commit add unregister get types
atomic-Answers (registering typ f) m = elim (Bool-cases (contains typ m)) [
  | inl old ↦ rw old (ground arith)
  | inr new ↦ rw new (ground arith)
]
atomic-Answers (unregistering typ) m = refl
atomic-Answers (getting typ) m = (refl, refl)
atomic-Answers listing m = (refl, refl)

-- However n goroutines interleave on a new registry, its map and the replies are those of the logged
-- calls of Register, Unregister, Get and Types made one after the other.
pub Reach-Sequential :
    {n : ℕ} {s : System Registry Call Seen Reply}
    → Reach methods n new_registry s
    → Sequential Answers new_registry s.log s.mem
Reach-Sequential {s = s} reach =
    Replays-Sequential methods Answers atomic-Answers new_registry s.log s.mem
      (Reach-Replays methods reach).0

-- However n goroutines interleave on a new registry, the calls of Register, Unregister, Get and Types
-- that have begun can all be brought to their end: no interleaving ends in a deadlock.
pub Reach-returns :
    {n : ℕ} {s : System Registry Call Seen Reply}
    → Reach methods n new_registry s
    → (t : System Registry Call Seen Reply) × Finish methods n t s × ((i : ℕ) → t.pc i ≡ Pc.idle)
Reach-returns reach = Reach-drains methods reach

-- However n goroutines interleave on a new registry, and whichever of them the scheduler moves next,
-- the calls of Register, Unregister, Get and Types that have begun take at most 4 * n more moves, and
-- until all of them have returned, some goroutine can move. Each of them that had not yet taken effect
-- and has returned is answered by a reply logged since, and the map and the log of replies are those
-- of the calls of the sequential registry made one after the other.
pub Reach-completes :
    {n : ℕ} {s t : System Registry Call Seen Reply}
    → Reach methods n new_registry s
    → (run : Finish methods n t s)
    → (moves run ≤ 4 * n)
      × (((i : ℕ) → t.pc i ≡ Pc.idle)
          ⊎ ((i : ℕ) × (i < n) × (u : System Registry Call Seen Reply) × Move methods t i u))
      × Ends methods s t
      × Sequential Answers new_registry t.log t.mem
Reach-completes reach run =
    let (bounded, progress) = Finish-terminates methods reach run in
    (bounded, progress, Finish-Ends methods run, Reach-Sequential (Finish-Reach methods reach run))
