-- ===== src/Store/Paging.antt =====
-- The pages of `ListFailed` (internal/store/store.go, listFailedSQL of queries.go): the order in which
-- the rows are listed, and what follows a row in it.
pub mod Listing
use native.Mathlib.Nat.{zero-add, suc-add}
use go_outbox.Base.{
  ℕ, zero, suc, ◌≡◌, refl, subst, sym, ap, ◌∙◌, ◌+◌, Bool, true, false, ◌&&◌, not, some, List, [],
  ◌∷◌, ◌++◌, arith, Bool-cases, inl, inr, some_eq, elem, keep, take, drop, insert, sort, String,
  All, get_elem?, if◌then◌else◌,
}
use go_outbox.Store.Table.{Row, Table, ids, Distinct}
use go_outbox.Store.Queries.{by_creation, is_listed, list_failed_sql}
use go_outbox.Store.Paging.Listing.{
  is_before, before_trans, First, Ordered, First-trans, First-insert, insert-Ordered, elem-insert,
  elem-sort, sort-Ordered, elem-keep, keep-Distinct, insert-First, First-keep, keep-insert,
  keep-sort, keep-First, First-get, keep-drop,
}

take-nil : (k : ℕ) → take {A = Row} k [] ≡ []
take-nil zero = refl
take-nil (suc k) = refl

take-append_drop : (m k : ℕ) (xs : List Row) → take m xs ++ take k (drop m xs) ≡ take (m + k) xs
take-append_drop zero k xs = rw (zero-add k) refl
take-append_drop (suc m) k [] = rw (suc-add m k) (take-nil k)
take-append_drop (suc m) k (x ∷ xs) =
    rw (suc-add m k) (ap (λ (l : List Row). x ∷ l) (take-append_drop m k xs))

keep-keep :
    (p q both : Row → Bool) (xs : List Row)
    → ((r : Row) → both r ≡ (p r && q r))
    → keep both xs ≡ keep q (keep p xs)
keep-keep p q both [] h = refl
keep-keep p q both (x ∷ xs) h = elim (Bool-cases (p x)) [
  | inl e ↦ rw (h x, e, keep-keep p q both xs h) refl
  | inr e ↦ rw (h x, e, keep-keep p q both xs h) refl
]

insert-All :
    (P : Row → Type 0) (x : Row) (xs : List Row) → P x → All P xs → All P (insert by_creation x xs)
insert-All P x [] h a = (h, tt)
insert-All P x (y ∷ ys) h a = elim (Bool-cases (by_creation x y)) [
  | inl e ↦ rw e (h, a)
  | inr e ↦ rw e (a.0, insert-All P x ys h a.1)
]

sort-All : (P : Row → Type 0) (xs : List Row) → All P xs → All P (sort by_creation xs)
sort-All P [] a = tt
sort-All P (x ∷ xs) a = insert-All P x (sort by_creation xs) a.0 (sort-All P xs a.1)

kept-All : (q : Row → Bool) (xs : List Row) → All (λ r. q r ≡ true) (keep q xs)
kept-All q [] = tt
kept-All q (x ∷ xs) = elim (Bool-cases (q x)) [
  | inl e ↦ rw e (e, kept-All q xs)
  | inr e ↦ rw e (kept-All q xs)
]

All-get :
    (P : Row → Type 0) (xs : List Row) (n : ℕ) (l : Row) → All P xs → get_elem? xs n ≡ some l → P l
All-get P [] n l a g = cc
All-get P (x ∷ xs) zero l a g = subst P (some_eq g) a.0
All-get P (x ∷ xs) (suc n) l a g = All-get P xs n l a.1 g

take-get :
    (m n : ℕ) (xs : List Row) (l : Row) → get_elem? (take m xs) n ≡ some l → get_elem? xs n ≡ some l
take-get zero n xs l g = cc
take-get (suc m) n [] l g = g
take-get (suc m) zero (x ∷ xs) l g = g
take-get (suc m) (suc n) (x ∷ xs) l g = take-get m n xs l g

-- A row that is listed stands before exactly the rows that are listed after it.
listed-after :
    (created id : ℕ) (stream : String) (l r : Row)
    → is_listed created id stream l ≡ true
    → is_listed l.created_at l.id stream r ≡ (is_listed created id stream r && is_before l r)
listed-after created id stream l r h = ground arith

-- A page that is full is followed by the page from the cursor of its last row: together they are the
-- rows that one page of both sizes lists, none lost, none twice.
pub list_failed_sql-pages :
    (created id limit more : ℕ) (stream : String) (t : Table) (l : Row)
    → Distinct (ids t)
    → get_elem? (list_failed_sql created id (suc limit) stream t) limit ≡ some l
    → list_failed_sql created id (suc limit) stream t
        ++ list_failed_sql l.created_at l.id more stream t
      ≡ list_failed_sql created id (suc limit + more) stream t
unfolding list_failed_sql
list_failed_sql-pages created id limit more stream t l d g =
    let all = sort by_creation (keep (is_listed created id stream) t) in
    let found : get_elem? all limit ≡ some l = take-get (suc limit) limit all l g in
    let distinct : Distinct (ids (keep (is_listed created id stream) t)) =
      keep-Distinct (is_listed created id stream) t d in
    let listed : is_listed created id stream l ≡ true =
      All-get (λ r. is_listed created id stream r ≡ true) all limit l
        (sort-All (λ r. is_listed created id stream r ≡ true) _
          (kept-All (is_listed created id stream) t))
        found in
    let rest : sort by_creation (keep (is_listed l.created_at l.id stream) t)
        ≡ drop (suc limit) all =
      ap (sort by_creation) (
        keep-keep (is_listed created id stream) (λ r. is_before l r)
          (is_listed l.created_at l.id stream) t (λ r. listed-after created id stream l r listed))
      ∙ sym (keep-sort (λ r. is_before l r) (keep (is_listed created id stream) t) distinct)
      ∙ keep-drop all limit l (sort-Ordered (keep (is_listed created id stream) t) distinct)
          found in
    rw rest (take-append_drop (suc limit) more all)
