-- ===== src/Timer.antt =====
-- replica/internal/raft/election.go: the loop of `runElectionTimer` with its timer, in time.
--
-- Times are in nanoseconds, as in Go. `Timer` is what the loop uses of `time.Timer`: a channel that
-- holds one tick, which comes when an active timer is due. `since` is not in the program: it is the
-- time of the last `Reset`. The other goroutines may do anything to the node at any time.
pub mod Bounds
use smol_raft.Prelude.{
  ℕ, ◌+◌, ◌*◌, ◌-◌, ◌<◌, ◌≡◌, Bool, true, false, not, ◌&&◌, Option, none, some, leb, if◌then◌else◌,
}
use smol_raft.Node.{Node}
use smol_raft.Election.{election_timeout}

abbrev millisecond : ℕ
millisecond = 1000000

abbrev pub election_timeout_min : ℕ
election_timeout_min = 500 * millisecond

abbrev pub election_timeout_max : ℕ
election_timeout_max = 800 * millisecond

-- The argument of `rand.Int64N`, which answers with a smaller number.
abbrev pub spread : ℕ
spread = election_timeout_max - election_timeout_min

-- With the random number as an argument.
unfoldable pub random_election_timeout : ℕ → ℕ
random_election_timeout r = election_timeout_min + r

pub record Timer : Type 0 where
  pub active : Bool
  pub due : ℕ
  pub fired : Bool

unfoldable pub new_timer : ℕ → ℕ → Timer
new_timer now wait = record { active = true; due = now + wait; fired = false }

-- The timer afterwards, and whether it was active.
unfoldable pub stop_timer : Timer → Timer × Bool
stop_timer t = (record t { active = false }, t.active)

unfoldable pub reset_timer : ℕ → ℕ → Timer → Timer
reset_timer now wait t = record t { active = true; due = now + wait }

-- What time does to a timer.
unfoldable pub expire : ℕ → Timer → Timer
expire now t = if t.active && leb t.due now then record t { active = false; fired = true } else t

-- The loop waits in its `select`, is in `startElection`, or returned.
pub data Phase : Type 0 where
  waiting electing ended : Phase

pub record Clock : Type 0 where
  pub now : ℕ
  pub since : ℕ
  pub timer : Timer
  pub phase : Phase
  pub node : Node

-- The loop's start.
unfoldable pub start_timer : ℕ → ℕ → Node → Clock
start_timer now r n = record {
  now = now;
  since = now;
  timer = new_timer now (random_election_timeout r);
  phase = waiting;
  node = n;
}

-- The case of `resetElectionCh`: a tick that came before `Stop` is taken out of the channel.
unfoldable pub on_reset : ℕ → Clock → Clock
on_reset r c =
    let (stopped, was_active) = stop_timer c.timer in
    let drained = if not was_active then record stopped { fired = false } else stopped in
    record c {
      since = c.now;
      timer = reset_timer c.now (random_election_timeout r) drained;
      node = record c.node { reset_election = false };
    }

-- The case of `timer.C`. A leader resets the timer; another node stays in `startElection`.
unfoldable pub on_fire : ℕ → Clock → Clock
on_fire r c =
    let taken = record c.timer { fired = false } in
    elim (election_timeout c.node) [
      | none ↦ record c {
        since = c.now;
        timer = reset_timer c.now (random_election_timeout r) taken;
      }
      | some a ↦ record c { timer = taken; phase = electing; node = a.0 }
    ]

-- `startElection` returned.
unfoldable pub on_return : ℕ → Clock → Clock
on_return r c = record c {
  since = c.now;
  timer = reset_timer c.now (random_election_timeout r) c.timer;
  phase = waiting;
}

unfoldable pub elapse : ℕ → Clock → Clock
elapse d c = record c { now = c.now + d; timer = expire (c.now + d) c.timer }

pub data Beat (c : Clock) : Clock → Type 0 where
  passes : (d : ℕ) → Beat c (elapse d c)
  resets :
      (r : ℕ)
      → r < spread
      → c.phase ≡ waiting
      → c.node.reset_election ≡ true
      → Beat c (on_reset r c)
  fires : (r : ℕ) → r < spread → c.phase ≡ waiting → c.timer.fired ≡ true → Beat c (on_fire r c)
  returns : (r : ℕ) → r < spread → c.phase ≡ electing → Beat c (on_return r c)
  others : (n : Node) → Beat c (record c { node = n })
  ends : Beat c (record c { phase = ended })

pub data Beats (c : Clock) : Clock → Type 0 where
  here : Beats c c
  next : {d e : Clock} → Beats c d → Beat d e → Beats c e
