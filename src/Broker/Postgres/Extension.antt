-- ===== src/Broker/Postgres/Extension.antt =====
-- What inserting adds to the inbox.
use mathlib.Core.List.{append-nil, append_assoc}
use go_outbox.Base.{
  ℕ, ◌≡◌, refl, sym, ap, ◌∙◌, true, some, List, [], ◌∷◌, ◌++◌, is_some, ◌==◌, ==_refl, arith,
  Bool-cases, Option-cases, inl, inr,
}
use go_outbox.Store.Operations.{Fault, fine, refused, cut}
use go_outbox.Broker.Postgres.Inbox.{Entry, entry_of, insert_entry, insert_all, execute}

-- The inbox with more entries at its end, and no other change.
abbrev pub Extended : List Entry → List Entry → Type 0
Extended xs ys = (added : List Entry) × (ys ≡ xs ++ added)

pub Extended-refl : (xs : List Entry) → Extended xs xs
Extended-refl xs = ([], sym (append-nil xs))

pub Extended-trans : (xs ys zs : List Entry) → Extended xs ys → Extended ys zs → Extended xs zs
Extended-trans xs ys zs (a, h) (b, k) =
    (a ++ b, k ∙ ap (λ (l : List Entry). l ++ b) h ∙ append_assoc xs a b)

entry_of-append :
    (i : ℕ) (xs ys : List Entry) (e : Entry)
    → entry_of i xs ≡ some e
    → entry_of i (xs ++ ys) ≡ some e
unfolding entry_of
entry_of-append i [] ys e h = cc
entry_of-append i (x ∷ xs) ys e h = elim (Bool-cases (x.id == i)) [
  | inl same ↦ rw same (rw same at h)
  | inr other ↦ rw other (entry_of-append i xs ys e (rw other at h))
]

entry_of-last : (xs : List Entry) (e : Entry) → is_some (entry_of e.id (xs ++ (e ∷ []))) ≡ true
unfolding entry_of
entry_of-last [] e = rw (==_refl e.id) refl
entry_of-last (x ∷ xs) e = ground (arith, entry_of-last xs e)

insert_entry-Extended : (x : Entry) (inbox : List Entry) → Extended inbox (insert_entry x inbox)
unfolding insert_entry
insert_entry-Extended x inbox = elim (Bool-cases (is_some (entry_of x.id inbox))) [
  | inl there ↦ rw there (Extended-refl inbox)
  | inr fresh ↦ rw fresh (x ∷ [], refl)
]

pub insert_entry-there :
    (x : Entry) (inbox : List Entry) → is_some (entry_of x.id (insert_entry x inbox)) ≡ true
unfolding insert_entry
insert_entry-there x inbox = elim (Bool-cases (is_some (entry_of x.id inbox))) [
  | inl there ↦ rw (there, there) refl
  | inr fresh ↦ rw fresh (entry_of-last inbox x)
]

pub insert_all-Extended : (es inbox : List Entry) → Extended inbox (insert_all es inbox)
unfolding insert_all
insert_all-Extended [] inbox = Extended-refl inbox
insert_all-Extended (x ∷ es) inbox =
    Extended-trans inbox (insert_entry x inbox) (insert_all es (insert_entry x inbox))
      (insert_entry-Extended x inbox) (insert_all-Extended es (insert_entry x inbox))

pub there-Extended :
    (i : ℕ) (xs ys : List Entry)
    → Extended xs ys
    → is_some (entry_of i xs) ≡ true
    → is_some (entry_of i ys) ≡ true
there-Extended i xs ys (added, same) h = elim (Option-cases (entry_of i xs)) [
  | inl n ↦ cc (rw n at h)
  | inr (e, f) ↦ rw (same, entry_of-append i xs added e f) refl
]

pub execute-Extended : (f : Fault) (es inbox : List Entry) → Extended inbox (execute f es inbox).1
unfolding execute
execute-Extended fine es inbox = insert_all-Extended es inbox
execute-Extended (refused e) es inbox = Extended-refl inbox
execute-Extended (cut e) es inbox = insert_all-Extended es inbox
