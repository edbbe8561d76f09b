-- ===== src/Dispatch/Listener/Delays.antt =====
-- How long the listener waits before it connects again.
use go_outbox.Base.{
  ℕ, zero, suc, ◌+◌, ◌*◌, ◌<◌, ◌≡◌, ◌∙◌, refl, ap, some, List, [], ◌∷◌, length, get_elem?, arith,
}
use go_outbox.Base.Int.{ℤ, pos, ◌+ℤ◌}
use go_outbox.Dispatch.Listener.{Wakes, Session, grown_delay, listen, listener_retry_delay, run}

-- Seconds: the delay doubles from one to thirty-two.
unfoldable pub retry_seconds : ℕ → ℕ
retry_seconds zero = 1
retry_seconds (suc zero) = 2
retry_seconds (suc (suc zero)) = 4
retry_seconds (suc (suc (suc zero))) = 8
retry_seconds (suc (suc (suc (suc zero)))) = 16
retry_seconds (suc (suc (suc (suc (suc n))))) = 32

abbrev pub seconds : ℕ → ℤ
seconds n = pos (n * 1000000000)

grown_delay-seconds :
    (i : ℕ) → grown_delay (seconds (retry_seconds i)) ≡ seconds (retry_seconds (suc i))
unfolding grown_delay retry_seconds ◌+ℤ◌
grown_delay-seconds zero = refl
grown_delay-seconds (suc zero) = refl
grown_delay-seconds (suc (suc zero)) = refl
grown_delay-seconds (suc (suc (suc zero))) = refl
grown_delay-seconds (suc (suc (suc (suc zero)))) = refl
grown_delay-seconds (suc (suc (suc (suc (suc n))))) = refl

run-from :
    (debounce : ℤ) (sessions : List Session) (pipelines : Wakes) (j i : ℕ)
    → i < length sessions
    → get_elem? (run debounce (seconds (retry_seconds j)) sessions pipelines).0 i
      ≡ some (seconds (retry_seconds (j + i)))
unfolding run
run-from debounce [] pipelines j i h = elim h [ ]
run-from debounce (s ∷ rest) pipelines j zero h =
    ap (λ n. some (seconds (retry_seconds n))) (omega arith)
run-from debounce (s ∷ rest) pipelines j (suc i) h =
    let pipelines' = (listen debounce s pipelines).1 in
    ap (λ d. get_elem? (run debounce d rest pipelines').0 i) (grown_delay-seconds j)
    ∙ run-from debounce rest pipelines' (suc j) i (omega arith)
    ∙ ap (λ n. some (seconds (retry_seconds n))) (omega arith)

-- Between its connections the listener waits one second, then two, four, eight and sixteen, and
-- thirty-two from then on, however the connections ended.
pub run-delays :
    (debounce : ℤ) (sessions : List Session) (pipelines : Wakes) (i : ℕ)
    → i < length sessions
    → get_elem? (run debounce listener_retry_delay sessions pipelines).0 i
      ≡ some (seconds (retry_seconds i))
unfolding retry_seconds
run-delays debounce sessions pipelines i h =
    run-from debounce sessions pipelines 0 i h
    ∙ ap (λ n. some (seconds (retry_seconds n))) (omega arith)
