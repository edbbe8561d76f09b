-- ===== src/Store/Delivered.antt =====
-- A delivered row stays delivered.
use go_outbox.Base.{ℕ, ◌≡◌, ap, ◌∙◌, false, some, List, [], ◌∷◌}
use go_outbox.Core.{sent}
use go_outbox.Store.Table.{Table, find, Row, WellFormed}
use go_outbox.Store.Invariant.{exec-WellFormed}
use go_outbox.Store.Removal.{exec-keeps}
use go_outbox.Store.Lifecycle.{
  Transition, same, claimed, delivered, retried, held_back, given_up, returned, requeued,
}
use go_outbox.Store.Transitions.{find-exec-Transition}
use go_outbox.Store.System.{Statement, exec, run, is_purge}

Transition-sent : {r s : Row} → Transition r s → r.status ≡ sent → s ≡ r
Transition-sent (same e) h = e
Transition-sent (claimed a b c d) h = cc
Transition-sent (delivered a b) h = cc
Transition-sent (retried a b c d) h = cc
Transition-sent (held_back now a b c d) h = cc
Transition-sent (given_up a b c) h = cc
Transition-sent (returned a b c d) h = cc
Transition-sent (requeued a b c d) h = cc

exec-sent :
    (now : ℕ) (st : Statement) (i : ℕ) (t : Table) {r : Row}
    → WellFormed t
    → is_purge st ≡ false
    → find i t ≡ some r
    → r.status ≡ sent
    → find i (exec now st t) ≡ some r
exec-sent now st i t {r} w k f h =
    let (s, g) = exec-keeps now st i t {r = r} k f in
    g ∙ ap some (Transition-sent (find-exec-Transition now st i t {r = r} {s = s} w f g) h)

abbrev pub NoPurge : List (ℕ × Statement) → Type 0
NoPurge [] = Unit
NoPurge ((now, st) ∷ rest) = (is_purge st ≡ false) × NoPurge rest

-- A row that was marked sent is found unchanged after any history of statements of any replicas, as
-- long as none of them is a purge: it is never claimed, returned, failed or requeued again.
pub run-sent :
    (h : List (ℕ × Statement)) (i : ℕ) (t : Table) {r : Row}
    → WellFormed t
    → NoPurge h
    → find i t ≡ some r
    → r.status ≡ sent
    → find i (run h t) ≡ some r
unfolding run
run-sent [] i t w k f s = f
run-sent ((now, st) ∷ rest) i t w k f s =
    run-sent rest i (exec now st t) (exec-WellFormed now st t w) k.1
      (exec-sent now st i t w k.0 f s) s
