-- ===== src/Sync.antt =====
-- The goroutines that share a map behind a sync.RWMutex, as in constraint/registry.go and
-- driver/registry.go. A call takes the lock, reads the map, writes it if it is a writer, and
-- releases the lock; between any two of these, other goroutines may move.
pub mod Answers
pub mod Invariant
pub mod Progress
pub mod Sequential
pub mod Termination
use go_benefit.Prelude.{
  ℕ, ◌<◌, ◌≡◌, ◌≢◌, ◌⊎◌, Bool, true, false, List, [], ◌∷◌, ◌==◌, nat_eq, if◌then◌else◌, update,
}

-- How a goroutine holds the lock.
pub data Hold : Type 0 where
  free shared exclusive : Hold

-- The critical sections of the methods: what is read under the lock, and then written with the
-- reply. A section under RLock does not write, and each releases the lock, by a deferred call or
-- before it returns.
pub record Section (M C L R : Type 0) : Type 0 where
  pub writes : C → Bool
  pub look : C → M → L
  pub commit : C → L → M → M × R
  pub unlocks : C → Bool
  pub keeps : (c : C) (l : L) (m : M) → writes c ≡ false → (commit c l m).0 ≡ m
  pub frees : (c : C) → unlocks c ≡ true

module _ {M C L R : Type 0} (section : Section M C L R) where
  -- The call as one step.
  abbrev pub atomic : C → M → M × R
  atomic c m = section.commit c (section.look c m) m

  abbrev pub mode : C → Hold
  mode c = if section.writes c then exclusive else shared

-- Where a goroutine stands.
pub data Pc (C L R : Type 0) : Type 0 where
  idle : Pc C L R
  waiting : C → Pc C L R
  inside : C → Pc C L R
  looked : C → L → Pc C L R
  leaving : C → R → Pc C L R

-- The log is no part of the program: it lists the calls with their replies, the last one first, in
-- the order in which they took effect.
pub record System (M C L R : Type 0) : Type 0 where
  pub mem : M
  pub hold : ℕ → Hold
  pub pc : ℕ → Pc C L R
  pub log : List (C × R)

abbrev pub begin : {M C L R : Type 0} → M → System M C L R
begin m = record { mem = m; hold = λ i. free; pc = λ i. idle; log = [] }

module _ {M C L R : Type 0} (section : Section M C L R) where
  -- A move of goroutine i inside its call. Lock waits until no one holds the lock, RLock until no
  -- one holds it exclusively.
  pub data Move (s : System M C L R) (i : ℕ) : System M C L R → Type 0 where
    lock :
        (c : C)
        → s.pc i ≡ waiting c
        → section.writes c ≡ true
        → ((j : ℕ) → s.hold j ≡ free)
        → Move s i (record s { hold = update i exclusive s.hold; pc = update i (inside c) s.pc })
    rlock :
        (c : C)
        → s.pc i ≡ waiting c
        → section.writes c ≡ false
        → ((j : ℕ) → s.hold j ≢ exclusive)
        → Move s i (record s { hold = update i shared s.hold; pc = update i (inside c) s.pc })
    look :
        (c : C)
        → s.pc i ≡ inside c
        → Move s i (record s { pc = update i (looked c (section.look c s.mem)) s.pc })
    commit :
        (c : C) (l : L)
        → s.pc i ≡ looked c l
        → Move s i (record s {
          mem = (section.commit c l s.mem).0;
          pc = update i (leaving c (section.commit c l s.mem).1) s.pc;
          log = (c, (section.commit c l s.mem).1) ∷ s.log;
        })
    release :
        (c : C) (r : R)
        → s.pc i ≡ leaving c r
        → Move s i (record s {
          hold = update i (if section.unlocks c then free else s.hold i) s.hold;
          pc = update i idle s.pc;
        })

module _ {M C L R : Type 0} (section : Section M C L R) (n : ℕ) where
  -- One of the n goroutines calls a method, or moves on inside a call.
  pub data Step (s : System M C L R) : System M C L R → Type 0 where
    call :
        (i : ℕ) (c : C)
        → i < n
        → s.pc i ≡ idle
        → Step s (record s { pc = update i (waiting c) s.pc })
    move : {t : System M C L R} (i : ℕ) → i < n → Move section s i t → Step s t

  pub data Reach (m : M) : System M C L R → Type 0 where
    start : Reach m (begin m)
    next : {s t : System M C L R} → Reach m s → Step s t → Reach m t
