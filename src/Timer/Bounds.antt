-- ===== src/Timer/Bounds.antt =====
-- When the election timer fires.
use smol_raft.Prelude.{
  ℕ, ◌+◌, ◌≤◌, ◌<◌, ◌≡◌, ◌≢◌, ◌⊎◌, inl, inr, refl, true, false, ◌&&◌, not, Option-cases, Bool-cases,
  arith, leb, if◌then◌else◌,
}
use smol_raft.Node.{Node}
use smol_raft.Election.{election_timeout}
use smol_raft.Timer.{
  election_timeout_min, election_timeout_max, spread, random_election_timeout, Timer, new_timer,
  stop_timer, reset_timer, expire, Phase, waiting, electing, Clock, start_timer, on_reset, on_fire,
  on_return, elapse, Beat, passes, resets, fires, returns, others, ends, Beats, here, next,
}

-- A timer that is active is due in the bounds and has not fired; one that fired did so in time. While
-- the loop waits it is one or the other.
record IsTimed (c : Clock) : Type 0 where
  started : c.since ≤ c.now
  early : c.timer.active ≡ true → c.since + election_timeout_min ≤ c.timer.due
  late : c.timer.active ≡ true → c.timer.due < c.since + election_timeout_max
  ahead : c.timer.active ≡ true → c.now < c.timer.due
  idle : c.timer.active ≡ true → c.timer.fired ≡ false
  in_time : c.timer.fired ≡ true → c.since + election_timeout_min ≤ c.now
  away : c.phase ≡ electing → (c.timer.active ≡ false) × (c.timer.fired ≡ false)
  armed : c.phase ≡ waiting → (c.timer.active ≡ true) ⊎ (c.timer.fired ≡ true)

start-IsTimed : (now r : ℕ) (n : Node) → r < spread → IsTimed (start_timer now r n)
unfolding start_timer new_timer random_election_timeout
start-IsTimed now r n h = record {
  started = omega arith;
  early = λ _. omega arith;
  late = λ _. omega arith;
  ahead = λ _. omega arith;
  idle = λ _. refl;
  in_time = λ f. absurd (cc f);
  away = λ p. absurd (cc p);
  armed = λ _. inl refl;
}

-- A clock whose timer was reset just now.
fresh-IsTimed :
    (r : ℕ) (c : Clock) (t : Timer) (p : Phase) (n : Node)
    → r < spread
    → t.fired ≡ false
    → p ≢ electing
    → IsTimed (record c {
      since = c.now;
      timer = reset_timer c.now (random_election_timeout r) t;
      phase = p;
      node = n;
    })
unfolding reset_timer random_election_timeout
fresh-IsTimed r c t p n h f awake = record {
  started = omega arith;
  early = λ _. omega arith;
  late = λ _. omega arith;
  ahead = λ _. omega arith;
  idle = λ _. f;
  in_time = λ g. absurd (cc (f, g));
  away = λ q. absurd (awake q);
  armed = λ _. inl refl;
}

elapse-IsTimed : (d : ℕ) (c : Clock) → IsTimed c → IsTimed (elapse d c)
unfolding elapse expire
elapse-IsTimed d c v = elim (Bool-cases (c.timer.active && leb c.timer.due (c.now + d))) [
  | inl t ↦ rw t (record {
    started = omega (arith, v.started);
    early = λ a. absurd (cc a);
    late = λ a. absurd (cc a);
    ahead = λ a. absurd (cc a);
    idle = λ a. absurd (cc a);
    in_time = λ _. ground (arith, v.early);
    away = λ p. absurd (ground (arith, v.away p));
    armed = λ _. inr refl;
  })
  | inr f ↦ rw f (record {
    started = omega (arith, v.started);
    early = v.early;
    late = v.late;
    ahead = λ a. ground arith;
    idle = v.idle;
    in_time = λ g. omega (arith, v.in_time g);
    away = v.away;
    armed = v.armed;
  })
]

-- After `Stop` and the draining the channel is empty.
drained_empty :
    (t : Timer)
    → (t.active ≡ true → t.fired ≡ false)
    → (let (stopped, was_active) = stop_timer t in
        if not was_active then record stopped { fired = false } else stopped).fired
      ≡ false
unfolding stop_timer
drained_empty t idle = elim (Bool-cases t.active) [ inl a ↦ rw a (idle a) | inr f ↦ rw f ]

reset-IsTimed :
    (r : ℕ) (c : Clock) → r < spread → c.phase ≡ waiting → IsTimed c → IsTimed (on_reset r c)
unfolding on_reset
reset-IsTimed r c h p v =
    fresh-IsTimed r c _ c.phase (record c.node { reset_election = false }) h
      (drained_empty c.timer v.idle) (λ q. cc (p, q))

fire-IsTimed :
    (r : ℕ) (c : Clock)
    → r < spread
    → c.phase ≡ waiting
    → c.timer.fired ≡ true
    → IsTimed c
    → IsTimed (on_fire r c)
unfolding on_fire
fire-IsTimed r c h p f v = elim (Option-cases (election_timeout c.node)) [
  | inl e ↦
      rw (e, on_fire)
        (fresh-IsTimed r c (record c.timer { fired = false }) c.phase c.node h refl (λ q. cc))
  | inr (a, e) ↦
      rw (e, on_fire)
        (record {
          started = v.started;
          early = v.early;
          late = v.late;
          ahead = v.ahead;
          idle = λ _. refl;
          in_time = λ g. absurd (cc g);
          away = λ _. (
            elim (Bool-cases c.timer.active) [ inl t ↦ absurd (cc (v.idle t, f)) | inr x ↦ x ],
            refl,
          );
          armed = λ q. absurd (cc q);
        })
]

return-IsTimed :
    (r : ℕ) (c : Clock) → r < spread → c.phase ≡ electing → IsTimed c → IsTimed (on_return r c)
unfolding on_return
return-IsTimed r c h p v = fresh-IsTimed r c c.timer waiting c.node h (v.away p).1 (λ q. cc)

Beat-IsTimed : {c d : Clock} → Beat c d → IsTimed c → IsTimed d
Beat-IsTimed {c} (passes d) v = elapse-IsTimed d c v
Beat-IsTimed {c} (resets r h p e) v = reset-IsTimed r c h p v
Beat-IsTimed {c} (fires r h p f) v = fire-IsTimed r c h p f v
Beat-IsTimed {c} (returns r h p) v = return-IsTimed r c h p v
Beat-IsTimed {c} (others n) v = record {
  started = v.started;
  early = v.early;
  late = v.late;
  ahead = v.ahead;
  idle = v.idle;
  in_time = v.in_time;
  away = v.away;
  armed = v.armed;
}
Beat-IsTimed {c} ends v = record {
  started = v.started;
  early = v.early;
  late = v.late;
  ahead = v.ahead;
  idle = v.idle;
  in_time = v.in_time;
  away = λ p. absurd (cc p);
  armed = λ p. absurd (cc p);
}

Beats-IsTimed : {c d : Clock} → Beats c d → IsTimed c → IsTimed d
Beats-IsTimed here v = v
Beats-IsTimed (next b st) v = Beat-IsTimed st (Beats-IsTimed b v)

-- The election timeout. Let the loop have started at some time, with whatever delays, resets, elections
-- and changes of the node since then. If its timer has fired, so that it may start an election, then
-- at least 500 ms have passed since the timer was last set; and while the loop waits, the timer has
-- fired once 800 ms have passed.
pub fires_in_time :
    (start r : ℕ) (n : Node) {c : Clock}
    → r < spread
    → Beats (start_timer start r n) c
    → (c.timer.fired ≡ true → c.since + election_timeout_min ≤ c.now)
      × (c.phase ≡ waiting → c.since + election_timeout_max ≤ c.now → c.timer.fired ≡ true)
fires_in_time start r n {c} h b =
    let v = Beats-IsTimed b (start-IsTimed start r n h) in
    (
      v.in_time,
      λ p over. elim (v.armed p) [
        | inr f ↦ f
        | inl a ↦ absurd (omega (arith, v.ahead a, v.late a))
      ],
    )
