-- ===== src/Broker/Rabbitmq/Recovery.antt =====
-- A connection that is lost is rebuilt: what holds in every interleaving.
use go_outbox.Base.{
  ℕ, suc, ◌≡◌, refl, ◌<◌, ◌≤◌, ◌+◌, subst, Bool, true, false, not, ◌||◌, Option, none, some, List,
  keep, elem, ◌==◌, ltb, is_some, arith, Bool-cases, ◌⊎◌, inl, inr, ==_refl, ◌-◌,
}
use go_outbox.Base.Int.{ℤ, pos, ◌+ℤ◌}
use go_outbox.Dispatch.Breaker.{double}
use go_outbox.Broker.Rabbitmq.Connection.{
  Phase, idle, waiting, stopped, Conn, connected, dial, forget, request, breaks, take, grown,
  failed, rebuilt, close, live, Step, forgets, notices, requests, ends, takes, fails, rebuilds,
  returns, closes, Steps, here, then_steps,
}

abbrev is_waiting : Phase → Bool
is_waiting idle = false
is_waiting (waiting d) = true
is_waiting stopped = false

abbrev is_stopped : Phase → Bool
is_stopped idle = false
is_stopped (waiting d) = false
is_stopped stopped = true

-- A delay is the configured one, or below a minute.
abbrev Bounded : ℕ → Phase → Type 0
Bounded r idle = Unit
Bounded r (waiting d) = (n : ℕ) × (d ≡ pos n) × ((n ≤ r) ⊎ (n < 60000000000))
Bounded r stopped = Unit

abbrev Noticed : Option ℕ → List ℕ → ℕ → Type 0
Noticed none opened broken = Unit
Noticed (some i) opened broken = (elem i opened || ltb 0 broken) ≡ true

pub record Recovers (r : ℕ) (c : Conn) : Type 0 where
  -- Without a connection, one is on its way, or the publisher was closed.
  pub rebuilding :
      (is_some c.current || c.closed || c.queued || ltb 0 c.asking || is_waiting c.phase) ≡ true
  pub running : (not (is_stopped c.phase) || c.closed) ≡ true
  -- A connection that has ended is still current only until its watcher acts.
  pub noticed : Noticed c.current c.opened c.broken
  pub delay : Bounded r c.phase

grown-Bounded : (r n : ℕ) → (n ≤ r) ⊎ (n < 60000000000) → Bounded r (waiting (grown (pos n)))
unfolding grown double ◌+ℤ◌
grown-Bounded r n h = elim (Bool-cases (ltb n 30000000000)) [
  | inl short ↦ (n + n, ground arith, inr (ground arith))
  | inr long ↦ (n, ground arith, h)
]

dial-Recovers : (r : ℕ) → Recovers r dial
unfolding dial connected
dial-Recovers r = record { rebuilding = refl; running = refl; noticed = refl; delay = tt }

waited : (r : ℕ) (d : ℤ) → Bounded r (waiting d) → Bounded r (waiting d)
waited r d h = h

without-Noticed :
    (i : ℕ) (o : Option ℕ) (opened : List ℕ) (broken : ℕ)
    → Noticed o (keep (λ k. not (k == i)) opened) (suc broken)
without-Noticed i none opened broken = tt
without-Noticed i (some j) opened broken = ground arith

Step-Recovers : (r : ℕ) {b c : Conn} → Step (pos r) b c → Recovers r b → Recovers r c
unfolding forget request breaks take failed rebuilt connected close
Step-Recovers r (forgets b) h = record {
  rebuilding = ground arith;
  running = h.running;
  noticed = tt;
  delay = h.delay;
}
Step-Recovers r (notices b n e) h = record {
  rebuilding = ground arith;
  running = h.running;
  noticed = tt;
  delay = h.delay;
}
Step-Recovers r (requests b n e) h = record {
  rebuilding = ground arith;
  running = h.running;
  noticed = h.noticed;
  delay = h.delay;
}
Step-Recovers r (ends b i e) h = record {
  rebuilding = h.rebuilding;
  running = h.running;
  noticed = without-Noticed i b.current b.opened b.broken;
  delay = h.delay;
}
Step-Recovers r (takes b e q) h = record {
  rebuilding = ground arith;
  running = refl;
  noticed = h.noticed;
  delay = (r, refl, inl (omega arith));
}
Step-Recovers r (fails b d e) h =
    let (n, same, bound) = waited r d (subst (Bounded r) e h.delay) in
    record {
      rebuilding = ground arith;
      running = refl;
      noticed = h.noticed;
      delay = rw same (grown-Bounded r n bound);
    }
Step-Recovers r (rebuilds b d e) h = record {
  rebuilding = refl;
  running = refl;
  noticed = rw (==_refl b.dialed) refl;
  delay = tt;
}
Step-Recovers r (returns b e) h = record {
  rebuilding = ground arith;
  running = ground arith;
  noticed = h.noticed;
  delay = tt;
}
Step-Recovers r (closes b) h = elim (Bool-cases b.closed) [
  | inl closed ↦ simp closed h
  | inr running ↦
      simp running
        (record { rebuilding = refl; running = ground arith; noticed = tt; delay = h.delay })
]

-- Whatever the interleaving of publishers, watchers, the supervisor and a close: without a connection
-- one is on its way or the publisher was closed, the supervisor has returned only after a close, a
-- connection that has ended is current only until its watcher acts, and a delay is the configured one
-- or below a minute.
Steps-Recovers : (r : ℕ) {c : Conn} → Steps (pos r) dial c → Recovers r c
Steps-Recovers r (here c) = dial-Recovers r
Steps-Recovers r (then_steps steps step) = Step-Recovers r step (Steps-Recovers r steps)

rebuilt-live : (c : Conn) → live (rebuilt c) ≡ true
unfolding live rebuilt connected
rebuilt-live c = rw (==_refl c.dialed) refl

-- From a queued request on, the supervisor takes it and dials.
rebuild :
    (r : ℕ) {a b : Conn}
    → Steps (pos r) a b
    → b.phase ≡ idle
    → b.queued ≡ true
    → (c : Conn) × Steps (pos r) a c × (live c ≡ true)
unfolding take
rebuild r {b = b} steps e q = (
  rebuilt (take (pos r) b),
  then_steps (then_steps steps (takes b e q)) (rebuilds (take (pos r) b) (pos r) refl),
  rebuilt-live (take (pos r) b),
)

-- In any state that is reached, if the publisher is not closed and there is no connection, then there
-- are steps after which there is one, and it is live.
pub Steps-reconnects :
    (r : ℕ) (b : Conn)
    → Steps (pos r) dial b
    → b.closed ≡ false
    → b.current ≡ none
    → (c : Conn) × Steps (pos r) b c × (live c ≡ true)
unfolding request
Steps-reconnects r b steps running gone = by_phase b.phase refl (Steps-Recovers r steps)
  where
    by_phase :
        (p : Phase) → b.phase ≡ p → Recovers r b → (c : Conn) × Steps (pos r) b c × (live c ≡ true)
    by_phase stopped e h = absurd (cc (rw (e, running) at h.running))
    by_phase (waiting d) e h = (rebuilt b, then_steps (here b) (rebuilds b d e), rebuilt-live b)
    by_phase idle e h = elim (Bool-cases b.queued) [
      | inl queued ↦ rebuild r (here b) e queued
      | inr quiet ↦
          let asked : 0 < b.asking = ground (arith, rw (gone, running, quiet, e) at h.rebuilding) in
          rebuild r (then_steps (here b) (requests b (b.asking - 1) (omega arith))) e refl
    ]
