-- ===== src/Dispatch/Breaker/Pauses.antt =====
-- How long the breaker holds claims back.
use go_outbox.Base.{
  ℕ, zero, suc, ◌+◌, ◌*◌, ◌^◌, ◌≤◌, ◌<◌, ◌≡◌, ◌≢◌, refl, Bool, true, false, not, List, [], ◌∷◌,
  arith, if◌then◌else◌, min, ◌↔◌, ap, ◌∙◌, length,
}
use native.Mathlib.Nat.{pow-suc, add-zero, add-suc, suc-add, zero-add}
use go_outbox.Base.Int.{ℤ, pos, ◌+ℤ◌, ◌≤ℤ◌, ◌<ℤ◌, i64_half}
use go_outbox.Dispatch.Breaker.{
  Breaker, Result, unreachable, new_breaker, is_open, blocks, double, next_pause, observe,
}

-- A ceiling of zero turns the breaker off: no outcome changes its state, and a breaker that was
-- just made never blocks.
pub observe-disabled :
    (b : Breaker) (now later : ℤ) (res : Result) (first : ℤ)
    → b.ceiling ≤ℤ pos 0
    → (observe b now res ≡ (b, false)) × (blocks (new_breaker first b.ceiling) later ≡ false)
unfolding observe blocks new_breaker is_open
observe-disabled b now later res first h = (ground arith, refl)

observe-changed :
    (b : Breaker) (now : ℤ) (res : Result)
    → pos 0 <ℤ b.ceiling
    → (observe b now res).1
      ≡ (if is_open b then not (is_open (observe b now res).0) else is_open (observe b now res).0)
unfolding observe
observe-changed b now res h = ground arith

differ : (a b : Bool) → ((if a then not b else b) ≡ true) ↔ (a ≢ b)
differ true true = (λ h. cc, λ h. absurd (h refl))
differ true false = (λ h e. cc, λ h. refl)
differ false true = (λ h e. cc, λ h. refl)
differ false false = (λ h. cc, λ h. absurd (h refl))

-- With a positive ceiling, the breaker reports a change exactly when it opens or closes; it is open
-- exactly after a cycle that delivered nothing and deferred something, and then it blocks the
-- instants before the end of its pause and no other.
pub observe-opens :
    (b : Breaker) (now later : ℤ) (res : Result)
    → pos 0 <ℤ b.ceiling
    → let (b', changed) = observe b now res in
      (is_open b' ≡ unreachable res)
      × ((changed ≡ true) ↔ (is_open b ≢ is_open b'))
      × ((blocks b' later ≡ true) ↔ ((unreachable res ≡ true) × (later <ℤ now +ℤ b'.pause)))
unfolding observe blocks is_open
observe-opens b now later res h = (
  ground arith,
  rw (observe-changed b now res h) (differ (is_open b) (is_open (observe b now res).0)),
  (λ k. ground arith, λ k. ground arith),
)

next_pause-doubles :
    (b : Breaker) (p c : ℕ)
    → b.pause ≡ pos p
    → b.ceiling ≡ pos c
    → 0 < p
    → p ≤ c
    → c + c < i64_half
    → next_pause b ≡ pos (min (p + p) c)
unfolding next_pause double ◌+ℤ◌
next_pause-doubles b p c e k x y z = ground arith

-- The breaker after a run of cycles.
unfoldable pub observe_all : Breaker → List (ℤ × Result) → Breaker
observe_all b [] = b
observe_all b ((now, res) ∷ rest) = observe_all (observe b now res).0 rest

abbrev pub AllUnreachable : List (ℤ × Result) → Type 0
AllUnreachable [] = Unit
AllUnreachable ((now, res) ∷ rest) = (unreachable res ≡ true) × AllUnreachable rest

doubled : (f n c : ℕ) → min (min (f * 2 ^ n) c + min (f * 2 ^ n) c) c ≡ min (f * 2 ^ suc n) c
doubled f n c = omega (arith, ap (λ (t : ℕ). f * t) (pow-suc 2 n))

grows : (f n : ℕ) → f ≤ f * 2 ^ n
grows f zero = omega arith
grows f (suc n) = omega (arith, grows f n, ap (λ (t : ℕ). f * t) (pow-suc 2 n))

observe-ceiling : (b : Breaker) (now : ℤ) (res : Result) → (observe b now res).0.ceiling ≡ b.ceiling
unfolding observe
observe-ceiling b now res = ground arith

observe-pause :
    (b : Breaker) (now : ℤ) (res : Result)
    → pos 0 <ℤ b.ceiling
    → unreachable res ≡ true
    → (observe b now res).0.pause ≡ next_pause b
unfolding observe
observe-pause b now res h u = ground arith

observe_all-pause_from :
    (b : Breaker) (f c k : ℕ) (h : List (ℤ × Result))
    → b.ceiling ≡ pos c
    → 0 < f
    → f ≤ c
    → c + c < i64_half
    → b.pause ≡ pos (min (f * 2 ^ k) c)
    → AllUnreachable h
    → (observe_all b h).pause ≡ pos (min (f * 2 ^ (k + length h)) c)
unfolding observe_all
observe_all-pause_from b f c k [] e p q w x u = rw (add-zero k) x
observe_all-pause_from b f c k ((now, res) ∷ rest) e p q w x u =
    rw (add-suc k (length rest), ← suc-add k (length rest))
      (observe_all-pause_from (observe b now res).0 f c (suc k) rest (observe-ceiling b now res ∙ e)
        p q w
        (observe-pause b now res (rw e (omega arith)) u.0
          ∙ next_pause-doubles b (min (f * 2 ^ k) c) c x e (omega (arith, grows f k)) (omega arith)
              w
          ∙ ap pos (doubled f k c))
        u.1)

-- With a first pause within the ceiling, and a ceiling below half of int64's range, the pause after
-- n + 1 cycles that all found the broker out of reach is the first pause doubled n times, cut off
-- at the ceiling.
pub observe_all-pause :
    (f c : ℕ) (now : ℤ) (res : Result) (h : List (ℤ × Result))
    → 0 < f
    → f ≤ c
    → c + c < i64_half
    → unreachable res ≡ true
    → AllUnreachable h
    → (observe_all (new_breaker (pos f) (pos c)) ((now, res) ∷ h)).pause
      ≡ pos (min (f * 2 ^ length h) c)
unfolding observe_all new_breaker next_pause
observe_all-pause f c now res h p q w u us = rw (← zero-add (length h)) (
    observe_all-pause_from (observe made now res).0 f c 0 h (observe-ceiling made now res) p q w
      (observe-pause made now res (omega arith) u ∙ started) us)
  where
    made : Breaker
    made = new_breaker (pos f) (pos c)

    started : next_pause made ≡ pos (min (f * 2 ^ 0) c)
    started = ground arith
