-- ===== src/Broker/Rabbitmq/Abandoned.antt =====
-- A connection that was forgotten is never closed.
use go_outbox.Base.{
  ℕ, ◌≡◌, ◌<◌, Bool, true, false, not, ◌&&◌, Option, none, some, List, [], ◌∷◌, keep, elem, ◌==◌,
  ltb, arith, Bool-cases, inl, inr, holds,
}
use go_outbox.Base.Int.{ℤ}
use go_outbox.Broker.Rabbitmq.Connection.{
  Conn, connected, forget, request, breaks, take, failed, rebuilt, without, close, Step, forgets,
  notices, requests, ends, takes, fails, rebuilds, returns, closes, Steps, here, then_steps,
}

-- Open, dialed before, and not the one that publishers are given.
abbrev pub is_abandoned : ℕ → Conn → Bool
is_abandoned i c = elem i c.opened && ltb i c.dialed && not (holds c.current i)

-- Steps in which neither the broker nor the network ends the connection.
abbrev is_spared : {d : ℤ} {b c : Conn} → ℕ → Step d b c → Bool
is_spared i (ends b j e) = not (j == i)
is_spared i (forgets b) = true
is_spared i (notices b n e) = true
is_spared i (requests b n e) = true
is_spared i (takes b e q) = true
is_spared i (fails b d e) = true
is_spared i (rebuilds b d e) = true
is_spared i (returns b e) = true
is_spared i (closes b) = true

abbrev pub Undisturbed : {d : ℤ} {b c : Conn} → ℕ → Steps d b c → Type 0
Undisturbed i (here c) = Unit
Undisturbed i (then_steps steps step) = Undisturbed i steps × (is_spared i step ≡ true)

elem-keep :
    (i j : ℕ) (opened : List ℕ)
    → (j == i) ≡ false
    → elem i opened ≡ true
    → elem i (keep (λ k. not (k == j)) opened) ≡ true
elem-keep i j [] e h = h
elem-keep i j (k ∷ ks) e h = ground (arith, elem-keep i j ks e)

elem-without :
    (i : ℕ) (o : Option ℕ) (opened : List ℕ)
    → holds o i ≡ false
    → elem i opened ≡ true
    → elem i (without o opened) ≡ true
elem-without i none opened e h = h
elem-without i (some j) opened e h = elem-keep i j opened e h

Step-abandoned :
    (d : ℤ) (i : ℕ) {b c : Conn} (step : Step d b c)
    → is_spared i step ≡ true
    → is_abandoned i b ≡ true
    → is_abandoned i c ≡ true
unfolding forget request breaks take failed rebuilt connected close
Step-abandoned d i (forgets b) k h = ground arith
Step-abandoned d i (notices b n e) k h = ground arith
Step-abandoned d i (requests b n e) k h = h
Step-abandoned d i (ends b j e) k h = ground (arith, elem-keep i j b.opened)
Step-abandoned d i (takes b e q) k h = h
Step-abandoned d i (fails b x e) k h = h
Step-abandoned d i (rebuilds b x e) k h = ground arith
Step-abandoned d i (returns b e) k h = h
Step-abandoned d i (closes b) k h = elim (Bool-cases b.closed) [
  | inl closed ↦ simp closed h
  | inr running ↦ simp running (ground (arith, elem-without i b.current b.opened))
]

-- A connection that `requestRedial` has put aside while it was open stays open for as long as the
-- broker and the network let it, whatever the process does afterwards, `Close` included.
pub Steps-abandoned :
    (d : ℤ) (i : ℕ) (b : Conn) {c : Conn} (steps : Steps d (forget b) c)
    → elem i b.opened ≡ true
    → i < b.dialed
    → Undisturbed i steps
    → is_abandoned i c ≡ true
unfolding forget
Steps-abandoned d i b (here c) o w u = ground arith
Steps-abandoned d i b (then_steps steps step) o w (u, k) =
    Step-abandoned d i step k (Steps-abandoned d i b steps o w u)
