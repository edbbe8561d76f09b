-- ===== src/Store/Order.antt =====
-- The order of a claim: no row that is due is overtaken.
use go_outbox.Base.{
  ℕ, zero, suc, ◌≡◌, refl, sym, ap, ◌∙◌, subst, Bool, true, false, ◌&&◌, not, ◌⊎◌, inl, inr, some,
  List, [], ◌∷◌, arith, Bool-cases, some_eq, elem, keep, take, drop, insert, sort, String, ◌==◌,
}
use go_outbox.Store.Table.{Row, Table, ids, find, find-id, Distinct, WellFormed}
use go_outbox.Store.Queries.{due, is_due, in_rows, by_availability}

-- The order of a batch.
before_trans :
    (r s u : Row)
    → by_availability r s ≡ true
    → by_availability s u ≡ true
    → by_availability r u ≡ true
before_trans r s u h k = ground arith

before_total : (r s : Row) → by_availability r s ≡ false → by_availability s r ≡ true
before_total r s h = ground arith

-- A row stands in a list.
abbrev In : Row → List Row → Type 0
In r [] = ⊥
In r (x ∷ xs) = (x ≡ r) ⊎ In r xs

-- Nothing in the list comes before the row.
abbrev From : Row → List Row → Type 0
From r [] = Unit
From r (x ∷ xs) = (by_availability r x ≡ true) × From r xs

abbrev Sorted : List Row → Type 0
Sorted [] = Unit
Sorted (x ∷ xs) = From x xs × Sorted xs

From-trans : (r s : Row) (xs : List Row) → by_availability r s ≡ true → From s xs → From r xs
From-trans r s [] h f = tt
From-trans r s (x ∷ xs) h f = (before_trans r s x h f.0, From-trans r s xs h f.1)

From-insert :
    (r s : Row) (xs : List Row)
    → by_availability r s ≡ true
    → From r xs
    → From r (insert by_availability s xs)
From-insert r s [] h f = (h, tt)
From-insert r s (x ∷ xs) h f = ground (arith, From-insert r s xs h f.1)

insert-Sorted : (s : Row) (xs : List Row) → Sorted xs → Sorted (insert by_availability s xs)
insert-Sorted s [] o = (tt, tt)
insert-Sorted s (x ∷ xs) o = elim (Bool-cases (by_availability s x)) [
  | inl e ↦ rw e ((e, From-trans s x xs e o.0), o)
  | inr e ↦ rw e (From-insert x s xs (before_total s x e) o.0, insert-Sorted s xs o.1)
]

sort-Sorted : (xs : List Row) → Sorted (sort by_availability xs)
sort-Sorted [] = tt
sort-Sorted (x ∷ xs) = insert-Sorted x (sort by_availability xs) (sort-Sorted xs)

In-elem : (r : Row) (xs : List Row) → In r xs → elem r.id (ids xs) ≡ true
In-elem r [] h = elim h [ ]
In-elem r (x ∷ xs) (inl e) = ground arith
In-elem r (x ∷ xs) (inr h) = ground (arith, In-elem r xs h)

elem-In : (i : ℕ) (xs : List Row) → elem i (ids xs) ≡ true → (r : Row) × In r xs × (r.id ≡ i)
elem-In i [] h = cc
elem-In i (x ∷ xs) h = elim (Bool-cases (x.id == i)) [
  | inl e ↦ (x, inl refl, ground arith)
  | inr e ↦ let (r, m, k) = elem-In i xs (ground arith) in (r, inr m, k)
]

find-In : (i : ℕ) (t : Table) {r : Row} → find i t ≡ some r → In r t
find-In i [] f = cc
find-In i (x ∷ t) {r} f = elim (Bool-cases (x.id == i)) [
  | inl e ↦ inl (some_eq (rw e at f))
  | inr e ↦ inr (find-In i t (rw e at f))
]

In-find : (t : Table) {r : Row} → Distinct (ids t) → In r t → find r.id t ≡ some r
In-find [] d h = elim h [ ]
In-find (x ∷ t) {r} d (inl e) = ground arith
In-find (x ∷ t) {r} d (inr h) = ground (arith, In-find t {r = r} d.1 h, In-elem r t h)

In-keep : (p : Row → Bool) (r : Row) (xs : List Row) → In r xs → p r ≡ true → In r (keep p xs)
In-keep p r [] h k = elim h [ ]
In-keep p r (x ∷ xs) (inl e) k = rw (ap p e ∙ k) (inl e)
In-keep p r (x ∷ xs) (inr h) k = elim (Bool-cases (p x)) [
  | inl e ↦ rw e (inr (In-keep p r xs h k))
  | inr e ↦ rw e (In-keep p r xs h k)
]

In-of-keep : (p : Row → Bool) (r : Row) (xs : List Row) → In r (keep p xs) → In r xs
In-of-keep p r [] h = elim h [ ]
In-of-keep p r (x ∷ xs) h = elim (Bool-cases (p x)) [
  | inl e ↦ widen (In-of-keep p r xs) (rw e at h)
  | inr e ↦ inr (In-of-keep p r xs (rw e at h))
]
  where
    widen : (In r (keep p xs) → In r xs) → In r (x ∷ keep p xs) → In r (x ∷ xs)
    widen ih (inl e) = inl e
    widen ih (inr k) = inr (ih k)

swap_in : (A B C : Type 0) → A ⊎ B ⊎ C → B ⊎ A ⊎ C
swap_in A B C (inl a) = inr (inl a)
swap_in A B C (inr (inl b)) = inl b
swap_in A B C (inr (inr c)) = inr (inr c)

map_right : (A B C : Type 0) → (B → C) → A ⊎ B → A ⊎ C
map_right A B C f (inl a) = inl a
map_right A B C f (inr b) = inr (f b)

In-insert :
    (r s : Row) (xs : List Row)
    → ((s ≡ r) ⊎ In r xs → In r (insert by_availability s xs))
      × (In r (insert by_availability s xs) → (s ≡ r) ⊎ In r xs)
In-insert r s [] = (λ h. h, λ h. h)
In-insert r s (x ∷ xs) = elim (Bool-cases (by_availability s x)) [
  | inl e ↦ rw e (λ h. h, λ h. h)
  | inr e ↦
      let ih = In-insert r s xs in
      rw e (
        λ h. map_right (x ≡ r) _ _ ih.0 (swap_in (s ≡ r) (x ≡ r) (In r xs) h),
        λ h. swap_in (x ≡ r) (s ≡ r) (In r xs) (map_right (x ≡ r) _ _ ih.1 h),
      )
]

In-sort :
    (r : Row) (xs : List Row)
    → (In r xs → In r (sort by_availability xs)) × (In r (sort by_availability xs) → In r xs)
In-sort r [] = (λ h. h, λ h. h)
In-sort r (x ∷ xs) =
    let ih = In-sort r xs in
    let step = In-insert r x (sort by_availability xs) in
    (λ h. step.0 (map_right (x ≡ r) _ _ ih.0 h), λ h. map_right (x ≡ r) _ _ ih.1 (step.1 h))

In-split : (n : ℕ) (r : Row) (xs : List Row) → In r xs → In r (take n xs) ⊎ In r (drop n xs)
In-split zero r xs h = inr h
In-split (suc n) r [] h = elim h [ ]
In-split (suc n) r (x ∷ xs) (inl e) = inl (inl e)
In-split (suc n) r (x ∷ xs) (inr h) = elim (In-split n r xs h) [
  | inl k ↦ inl (inr k)
  | inr k ↦ inr k
]

In-take : (n : ℕ) (r : Row) (xs : List Row) → In r (take n xs) → In r xs
In-take zero r xs h = elim h [ ]
In-take (suc n) r [] h = elim h [ ]
In-take (suc n) r (x ∷ xs) (inl e) = inl e
In-take (suc n) r (x ∷ xs) (inr h) = inr (In-take n r xs h)

From-drop :
    (n : ℕ) (s r : Row) (xs : List Row) → From s xs → In r (drop n xs) → by_availability s r ≡ true
From-drop zero s r [] f h = elim h [ ]
From-drop (suc n) s r [] f h = elim h [ ]
From-drop zero s r (x ∷ xs) f (inl e) = ground (arith, f.0)
From-drop zero s r (x ∷ xs) f (inr h) = From-drop zero s r xs f.1 h
From-drop (suc n) s r (x ∷ xs) f h = From-drop n s r xs f.1 h

-- In a sorted list, what a limit cuts off comes after what it keeps.
Sorted-take :
    (n : ℕ) (s r : Row) (xs : List Row)
    → Sorted xs
    → In s (take n xs)
    → In r (drop n xs)
    → by_availability s r ≡ true
Sorted-take zero s r xs o h k = elim h [ ]
Sorted-take (suc n) s r [] o h k = elim h [ ]
Sorted-take (suc n) s r (x ∷ xs) o (inl e) k = ground (arith, From-drop n x r xs o.0 k)
Sorted-take (suc n) s r (x ∷ xs) o (inr h) k = Sorted-take n s r xs o.1 h k

-- A row that was due and free, and yet was not taken, became available no earlier than every row
-- that was taken (ties go by identifier).
pub claim-in_order :
    (locked : ℕ → Bool) (stream : String) (limit now i j : ℕ) (t : Table) {r s : Row}
    → WellFormed t
    → find i t ≡ some r
    → (is_due stream now r && not (locked r.id)) ≡ true
    → in_rows (due locked stream limit now t) r ≡ false
    → find j t ≡ some s
    → in_rows (due locked stream limit now t) s ≡ true
    → by_availability s r ≡ true
unfolding due
claim-in_order locked stream limit now i j t {r} {s} w f e out g chosen =
    Sorted-take limit s r sorted (sort-Sorted (keep test t)) s_taken
      (elim (In-split limit r sorted r_sorted) [
        | inl k ↦ absurd (ground (arith, In-elem r (take limit sorted) k))
        | inr k ↦ k
      ])
  where
    test : Row → Bool
    test x = is_due stream now x && not (locked x.id)

    sorted : List Row
    sorted = sort by_availability (keep test t)

    r_sorted : In r sorted
    r_sorted = (In-sort r (keep test t)).0 (In-keep test r t (find-In i t f) e)

    -- The row that was taken under the identifier of `s` is `s`.
    s_taken : In s (take limit sorted)
    s_taken =
        let (x, m, k) = elem-In s.id (take limit sorted) chosen in
        let x_in : In x t =
          In-of-keep test x t ((In-sort x (keep test t)).1 (In-take limit x sorted m)) in
        let same : x ≡ s = some_eq (
          sym (In-find t {r = x} w.keys x_in)
          ∙ ap (λ n. find n t) (k ∙ find-id j t {r = s} g)
          ∙ g) in
        subst (λ y. In y (take limit sorted)) same m
