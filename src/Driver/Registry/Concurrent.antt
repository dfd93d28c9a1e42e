-- ===== src/Driver/Registry/Concurrent.antt =====
-- The driver registry under concurrent calls: what each method does between taking and releasing the
-- lock. Nil registries and definitions, and invalid descriptors, are refused before that; the
-- definition that Bind and ValidateConfig find is used after the release.
use go_benefit.Prelude.{
  ◌≡◌, refl, ℕ, Bool, true, false, Option, some, List, [], map, arith, Bool-cases, inl, inr,
}
use go_benefit.Text.{text_eq}
use go_benefit.Text.Order.{sort_by}
use go_benefit.Dict.{lookup, insert, delete, contains}
use go_benefit.Errors.{Check, ok, err, errorf, sentinel, driver_err_already_registered}
use go_benefit.Core.Info.{DriverType}
use go_benefit.Core.Driver.{DriverDescriptor, DriverDefinition}
use go_benefit.Driver.Registry.{
  Registry, RegisteredDriverDefinition, clone_descriptor, snapshot, add, unregister, find,
  descriptors,
}
use go_benefit.Sync.{Section, atomic, System, Reach}
use go_benefit.Sync.Invariant.{Reach-Replays}
use go_benefit.Sync.Sequential.{Sequential, Replays-Sequential}

-- Register with a valid definition, Unregister, get and getDescriptors.
pub data Call (S : Type 0) : Type 0 where
  registering : DriverDefinition S → Call S
  unregistering : DriverType → Call S
  finding : DriverType → Call S
  describing : Call S

-- What a method reads first.
pub data Seen (S : Type 0) : Type 0 where
  present : Bool → Seen S
  entry : Option (RegisteredDriverDefinition S) → Seen S
  copies : List DriverDescriptor → Seen S

pub data Reply (S : Type 0) : Type 0 where
  registered : Check → Reply S
  unregistered : Bool → Reply S
  found : Option (RegisteredDriverDefinition S) → Reply S
  described : List DriverDescriptor → Reply S
  mismatch : Reply S

module _ {S : Type 0} where
  unfoldable pub writes : Call S → Bool
  writes (registering d) = true
  writes (unregistering typ) = true
  writes _ = false

  unfoldable pub look : Call S → Registry S → Seen S
  look (registering d) m = present (contains d.descriptor.driver_type m)
  look (unregistering typ) m = present (contains typ m)
  look (finding typ) m = entry (lookup typ m)
  look describing m = copies (map snapshot m)

  -- Descriptors sorts its copies once the lock is released. No method looks at what another one
  -- reads: `mismatch` is never a reply.
  unfoldable pub commit : Call S → Seen S → Registry S → Registry S × Reply S
  unfolding clone_descriptor
  commit (registering d) (present true) m =
      (m, registered (err (errorf "%w: %q" (sentinel driver_err_already_registered))))
  commit (registering d) (present false) m = (
    insert d.descriptor.driver_type
        (record { definition = d; descriptor = clone_descriptor d.descriptor }) m,
    registered (ok tt),
  )
  commit (unregistering typ) (present exists) m = (delete typ m, unregistered exists)
  commit (finding typ) (entry e) m = (m, found e)
  commit describing (copies ds) m = (m, described (sort_by (λ d. d.driver_type) ds))
  commit _ _ m = (m, mismatch)

  -- Register and getDescriptors defer the release; the others call it before they return.
  unfoldable pub unlocks : Call S → Bool
  unlocks (registering d) = true
  unlocks (unregistering typ) = true
  unlocks (finding typ) = true
  unlocks describing = true

  pub frees : (c : Call S) → unlocks c ≡ true
  unfolding unlocks
  frees (registering d) = refl
  frees (unregistering typ) = refl
  frees (finding typ) = refl
  frees describing = refl

  pub keeps : (c : Call S) (l : Seen S) (m : Registry S) → writes c ≡ false → (commit c l m).0 ≡ m
  unfolding writes commit
  keeps (registering d) l m h = cc
  keeps (unregistering typ) l m h = cc
  keeps (finding typ) (present b) m h = refl
  keeps (finding typ) (entry e) m h = refl
  keeps (finding typ) (copies ds) m h = refl
  keeps describing (present b) m h = refl
  keeps describing (entry e) m h = refl
  keeps describing (copies ds) m h = refl

  abbrev pub methods : Section (Registry S) (Call S) (Seen S) (Reply S)
  methods = record {
    writes = writes;
    look = look;
    commit = commit;
    unlocks = unlocks;
    keeps = keeps;
    frees = frees;
  }

  -- What the method of the sequential registry does.
  abbrev pub Answers : Call S → Registry S → Reply S → Registry S → Type 0
  Answers (registering d) before (registered (ok u)) after = add d before ≡ ok after
  Answers (registering d) before (registered (err e)) after =
      (add d before ≡ err e) × (after ≡ before)
  Answers (unregistering typ) before (unregistered b) after =
      unregister (some before) typ ≡ (some after, b)
  Answers (finding typ) before (found e) after = (find (some before) typ ≡ e) × (after ≡ before)
  Answers describing before (described ds) after =
      (descriptors (some before) ≡ ds) × (after ≡ before)
  Answers _ before _ after = ⊥

  atomic-Answers :
      (c : Call S) (m : Registry S) → Answers c m (atomic methods c m).1 (atomic methods c m).0
  unfolding look commit add unregister find descriptors
  atomic-Answers (registering d) m = elim (Bool-cases (contains d.descriptor.driver_type m)) [
    | inl old ↦ rw old (ground arith)
    | inr new ↦ rw new (ground arith)
  ]
  atomic-Answers (unregistering typ) m = refl
  atomic-Answers (finding typ) m = (refl, refl)
  atomic-Answers describing m = (refl, refl)

  -- However n goroutines interleave on a new registry, its map and the replies are those of the
  -- logged calls of Register, Unregister, get and Descriptors made one after the other.
  pub Reach-Answers :
      {n : ℕ} {s : System (Registry S) (Call S) (Seen S) (Reply S)}
      → Reach methods n [] s
      → Sequential Answers [] s.log s.mem
  Reach-Answers {s = s} reach =
      Replays-Sequential methods Answers atomic-Answers [] s.log s.mem
        (Reach-Replays methods reach).0
