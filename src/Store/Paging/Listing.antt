-- ===== src/Store/Paging/Listing.antt =====
-- The order of a listing: sorted rows stay in order when some of them are kept, and what comes after
-- a row is the rest of the list.
use go_outbox.Base.{
  ℕ, zero, suc, ◌≡◌, refl, subst, ap, ◌∙◌, Bool, true, false, not, some, List, [], ◌∷◌, arith,
  Bool-cases, inl, inr, some_eq, elem, keep, drop, insert, sort, All, get_elem?, if◌then◌else◌,
}
use go_outbox.Store.Table.{Row, ids, Distinct}
use go_outbox.Store.Queries.{by_creation}

abbrev pub is_before : Row → Row → Bool
is_before r s = not (by_creation s r)

pub before_trans :
    (r s u : Row) → is_before r s ≡ true → is_before s u ≡ true → is_before r u ≡ true
before_trans r s u h k = ground arith

abbrev pub First : Row → List Row → Type 0
First r xs = All (λ x. is_before r x ≡ true) xs

abbrev pub Ordered : List Row → Type 0
Ordered [] = Unit
Ordered (x ∷ xs) = First x xs × Ordered xs

pub First-trans : (r s : Row) (xs : List Row) → is_before r s ≡ true → First s xs → First r xs
First-trans r s [] h f = tt
First-trans r s (x ∷ xs) h f = (before_trans r s x h f.0, First-trans r s xs h f.1)

pub First-insert :
    (r s : Row) (xs : List Row)
    → is_before r s ≡ true
    → First r xs
    → First r (insert by_creation s xs)
First-insert r s [] h f = (h, tt)
First-insert r s (x ∷ xs) h f = elim (Bool-cases (by_creation s x)) [
  | inl e ↦ rw e (h, f)
  | inr e ↦ rw e (f.0, First-insert r s xs h f.1)
]

pub insert-Ordered :
    (s : Row) (xs : List Row)
    → elem s.id (ids xs) ≡ false
    → Ordered xs
    → Ordered (insert by_creation s xs)
insert-Ordered s [] n o = (tt, tt)
insert-Ordered s (x ∷ xs) n o = elim (Bool-cases (by_creation s x)) [
  | inl e ↦
      let before : is_before s x ≡ true = ground arith in
      rw e ((before, First-trans s x xs before o.0), o)
  | inr e ↦ rw e (First-insert x s xs (ground arith) o.0, insert-Ordered s xs (ground arith) o.1)
]

pub elem-insert :
    (i : ℕ) (x : Row) (xs : List Row)
    → elem i (ids (insert by_creation x xs)) ≡ elem i (ids (x ∷ xs))
elem-insert i x [] = refl
elem-insert i x (y ∷ ys) = ground (arith, elem-insert i x ys)

pub elem-sort : (i : ℕ) (xs : List Row) → elem i (ids (sort by_creation xs)) ≡ elem i (ids xs)
elem-sort i [] = refl
elem-sort i (x ∷ xs) = elem-insert i x (sort by_creation xs) ∙ ground (arith, elem-sort i xs)

pub sort-Ordered : (xs : List Row) → Distinct (ids xs) → Ordered (sort by_creation xs)
sort-Ordered [] d = tt
sort-Ordered (x ∷ xs) d =
    insert-Ordered x (sort by_creation xs) (elem-sort x.id xs ∙ d.0) (sort-Ordered xs d.1)

pub elem-keep :
    (i : ℕ) (q : Row → Bool) (xs : List Row)
    → elem i (ids xs) ≡ false
    → elem i (ids (keep q xs)) ≡ false
elem-keep i q [] h = refl
elem-keep i q (x ∷ xs) h = ground (arith, elem-keep i q xs)

pub keep-Distinct :
    (q : Row → Bool) (xs : List Row) → Distinct (ids xs) → Distinct (ids (keep q xs))
keep-Distinct q [] d = tt
keep-Distinct q (x ∷ xs) d = elim (Bool-cases (q x)) [
  | inl e ↦ rw e (elem-keep x.id q xs d.0, keep-Distinct q xs d.1)
  | inr e ↦ rw e (keep-Distinct q xs d.1)
]

-- Keeping some rows of a list in order keeps the order.
pub insert-First : (x : Row) (ys : List Row) → First x ys → insert by_creation x ys ≡ x ∷ ys
insert-First x [] f = refl
insert-First x (y ∷ ys) f = ground arith

pub First-keep : (x : Row) (q : Row → Bool) (xs : List Row) → First x xs → First x (keep q xs)
First-keep x q [] f = tt
First-keep x q (y ∷ ys) f = elim (Bool-cases (q y)) [
  | inl e ↦ rw e (f.0, First-keep x q ys f.1)
  | inr e ↦ rw e (First-keep x q ys f.1)
]

pub keep-insert :
    (q : Row → Bool) (x : Row) (xs : List Row)
    → elem x.id (ids xs) ≡ false
    → Ordered xs
    → keep q (insert by_creation x xs)
      ≡ (if q x then insert by_creation x (keep q xs) else keep q xs)
keep-insert q x [] n o = ground arith
keep-insert q x (y ∷ ys) n o = elim (Bool-cases (by_creation x y)) [
  | inl e ↦
      let first : First x (y ∷ ys) = (ground arith, First-trans x y ys (ground arith) o.0) in
      rw (e, insert-First x (keep q (y ∷ ys)) (First-keep x q (y ∷ ys) first)) refl
  | inr e ↦ rw e (
      rw (keep-insert q x ys (ground arith) o.1)
        (elim (Bool-cases (q y)) [ inl k ↦ rw (k, e) (ground arith) | inr k ↦ rw k refl ]))
]

pub keep-sort :
    (q : Row → Bool) (xs : List Row)
    → Distinct (ids xs)
    → keep q (sort by_creation xs) ≡ sort by_creation (keep q xs)
keep-sort q [] d = refl
keep-sort q (x ∷ xs) d =
    keep-insert q x (sort by_creation xs) (elem-sort x.id xs ∙ d.0) (sort-Ordered xs d.1)
    ∙ elim (Bool-cases (q x)) [
      | inl e ↦ rw (e, keep-sort q xs d.1) refl
      | inr e ↦ rw (e, keep-sort q xs d.1) refl
    ]

pub keep-First : (x : Row) (xs : List Row) → First x xs → keep (λ r. is_before x r) xs ≡ xs
keep-First x [] f = refl
keep-First x (y ∷ ys) f = rw (f.0) (ap (λ (l : List Row). y ∷ l) (keep-First x ys f.1))

pub First-get :
    (x l : Row) (xs : List Row) (n : ℕ)
    → First x xs
    → get_elem? xs n ≡ some l
    → is_before x l ≡ true
First-get x l [] n f g = cc
First-get x l (y ∷ ys) zero f g = rw (← some_eq g) f.0
First-get x l (y ∷ ys) (suc n) f g = First-get x l ys n f.1 g

-- What comes after the row at a position is the rest of the list.
pub keep-drop :
    (xs : List Row) (n : ℕ) (l : Row)
    → Ordered xs
    → get_elem? xs n ≡ some l
    → keep (λ r. is_before l r) xs ≡ drop (suc n) xs
keep-drop [] n l o g = cc
keep-drop (x ∷ xs) zero l o g =
    let self : by_creation x x ≡ true = ground arith in
    subst (λ y. keep (λ r. is_before y r) (x ∷ xs) ≡ xs) (some_eq g) (rw self (keep-First x xs o.0))
keep-drop (x ∷ xs) (suc n) l o g =
    let before : is_before x l ≡ true = First-get x l xs n o.0 g in
    let after : by_creation x l ≡ true = ground arith in rw after (keep-drop xs n l o.1 g)
