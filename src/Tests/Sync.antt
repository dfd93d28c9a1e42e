-- ===== src/Tests/Sync.antt =====
-- Interleavings of calls on the registries.
use go_benefit.Prelude.{ℕ, ◌*◌, ◌≤◌, ◌<◌, ◌⊎◌, ◌≡◌, refl, true, false, arith, []}
use go_benefit.Text.{bytes}
use go_benefit.Sync.{
  System, Pc, Move, Reach, start, next, call, move, lock, rlock, look, commit, release,
}
use go_benefit.Sync.Sequential.{Sequential}
use go_benefit.Sync.Answers.{Ends}
use go_benefit.Sync.Progress.{Finish, done, on}
use go_benefit.Constraint.Registry.{new_registry}
use go_benefit.Constraint.Registry.Concurrent.{
  Call, Seen, Reply, methods, writes, frees, Answers, Reach-Sequential, Reach-completes,
}
use go_benefit.Driver.Registry.{Registry}
use go_benefit.Driver.Registry.Concurrent as Driver
use go_benefit.Tests.Driver.{definition}
use go_benefit.Tests.Constraint.{always_type, always}

abbrev State : Type 0
State = System (go_benefit.Constraint.Registry.Registry) Call Seen Reply

abbrev registering : Call
registering = Call.registering always_type always

registering_writes : writes registering ≡ true
unfolding writes
registering_writes = refl

listing_reads : writes Call.listing ≡ false
unfolding writes
listing_reads = refl

-- Goroutine 0 has the lock to register an evaluator, while goroutine 1 waits to list the types.
abbrev held : (s : State) × Reach methods 2 new_registry s
held = (
  _,
  next
      (next (next start (call 0 registering (omega arith) refl))
        (call 1 Call.listing (omega arith) refl))
      (move 0 (omega arith) (lock registering refl registering_writes (λ j. refl))),
)

-- Goroutine 0 has released it, and goroutine 1 has it to read.
abbrev reading : (s : State) × Reach methods 2 new_registry s
reading = (
  _,
  next
      (next
        (next (next held.1 (move 0 (omega arith) (look registering refl)))
          (move 0 (omega arith) (commit registering _ refl)))
        (move 0 (omega arith) (release registering _ refl)))
      (move 1 (omega arith)
        (rlock Call.listing refl listing_reads (λ j h. ground (arith, frees registering)))),
)

Reach-Sequential_example : Sequential Answers new_registry reading.0.log reading.0.mem
Reach-Sequential_example = Reach-Sequential reading.1

-- Goroutine 0 moves on to the end of its call, which leaves goroutine 1 to move.
abbrev to_the_end : (t : State) × Finish methods 2 t held.0
to_the_end = (
  _,
  on 0 (omega arith) (look registering refl) (
      on 0 (omega arith) (commit registering _ refl)
        (on 0 (omega arith) (release registering _ refl) done)),
)

Reach-completes_example :
    (3 ≤ 4 * 2)
    × (((i : ℕ) → to_the_end.0.pc i ≡ Pc.idle)
        ⊎ ((i : ℕ) × (i < 2) × (u : State) × Move methods to_the_end.0 i u))
    × Ends methods held.0 to_the_end.0
    × Sequential Answers new_registry to_the_end.0.log to_the_end.0.mem
Reach-completes_example = Reach-completes held.1 to_the_end.1

abbrev defining : Driver.Call ℕ
defining = Driver.Call.registering definition

defining_writes : Driver.writes defining ≡ true
unfolding Driver.writes
defining_writes = refl

-- A goroutine registers a definition, while another waits to find one.
abbrev defined :
    (s : System (Registry ℕ) (Driver.Call ℕ) (Driver.Seen ℕ) (Driver.Reply ℕ)) × Reach
      Driver.methods 2 [] s
defined = (
  _,
  next
      (next
        (next
          (next (next start (call 0 defining (omega arith) refl))
            (call 1 (Driver.Call.finding (bytes "shop.coupon")) (omega arith) refl))
          (move 0 (omega arith) (lock defining refl defining_writes (λ j. refl))))
        (move 0 (omega arith) (look defining refl)))
      (move 0 (omega arith) (commit defining _ refl)),
)

Reach-Answers_example : Sequential Driver.Answers [] defined.0.log defined.0.mem
Reach-Answers_example = Driver.Reach-Answers defined.1
