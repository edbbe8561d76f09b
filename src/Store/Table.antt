-- ===== src/Store/Table.antt =====
-- The outbox table (the columns that queries.go reads and writes) and the shape of its updates.
--
-- A table is the list of its rows. `update` is an UPDATE whose WHERE clause is a test of one row.
-- Times are nanoseconds of the database clock; what PostgreSQL rounds away is left out. Headers and
-- target are the bytes of the two jsonb columns.
use go_outbox.Base.{
  ℕ, suc, ◌+◌, ◌-◌, ◌≡◌, refl, ap, ◌∙◌, subst, Bool-cases, some_eq, inl, inr, Bool, true, false,
  Option, none, some, List, [], ◌∷◌, map, String, length, All, elem, is_some, arith, if◌then◌else◌,
  ◌==◌,
}
use go_outbox.Base.Int.{ℤ, pos_part, neg_part}
use go_outbox.Core.{Status, is_processing}

pub record Row : Type 0 where
  pub id : ℕ
  pub stream : String
  pub topic : String
  pub payload : List ℕ
  pub headers : List ℕ
  pub target : List ℕ
  pub status : Status
  pub attempts : ℕ
  pub available_at : ℕ
  pub lease_token : Option ℕ
  pub lease_until : Option ℕ
  pub owner : Option String
  pub last_error : Option String
  pub created_at : ℕ
  pub dispatched_at : Option ℕ
  pub deferred_since : Option ℕ

abbrev pub Table : Type 0
Table = List Row

-- A time moved by a signed duration.
abbrev pub shift : ℕ → ℤ → ℕ
shift t d = t + pos_part d - neg_part d

abbrev pub update : (Row → Bool) → (Row → Row) → Table → Table
update hit set [] = []
update hit set (r ∷ t) = (if hit r then set r else r) ∷ update hit set t

abbrev pub remove : (Row → Bool) → Table → Table
remove hit [] = []
remove hit (r ∷ t) = let rest = remove hit t in if hit r then rest else r ∷ rest

abbrev pub ids : Table → List ℕ
ids t = map (λ r. r.id) t

-- The row with an identifier.
abbrev pub find : ℕ → Table → Option Row
find i [] = none
find i (r ∷ t) = if r.id == i then some r else find i t

-- The table's lease_check constraint: a row is leased exactly while it is processing.
pub record Leased (r : Row) : Type 0 where
  pub while_processing : is_processing r.status ≡ is_some r.lease_token
  pub with_deadline : is_some r.lease_token ≡ is_some r.lease_until

-- Distinct numbers.
abbrev pub Distinct : List ℕ → Type 0
Distinct [] = Unit
Distinct (x ∷ xs) = (elem x xs ≡ false) × Distinct xs

-- The constraints of the table: the primary key and lease_check.
pub record WellFormed (t : Table) : Type 0 where
  pub leases : All Leased t
  pub keys : Distinct (ids t)

pub update-All {ℓ} :
    (P : Row → Type ℓ) (hit : Row → Bool) (set : Row → Row)
    → ((r : Row) → hit r ≡ true → P r → P (set r))
    → (t : Table) → All P t
    → All P (update hit set t)
update-All P hit set step [] h = tt
update-All P hit set step (r ∷ t) h = ground (arith, step r, update-All P hit set step t h.1)

pub ids-update :
    (hit : Row → Bool) (set : Row → Row)
    → ((r : Row) → (set r).id ≡ r.id)
    → (t : Table) → ids (update hit set t) ≡ ids t
ids-update hit set same [] = refl
ids-update hit set same (r ∷ t) = ground (arith, same r, ids-update hit set same t)

pub update-WellFormed :
    (hit : Row → Bool) (set : Row → Row)
    → ((r : Row) → (set r).id ≡ r.id)
    → ((r : Row) → hit r ≡ true → Leased r → Leased (set r))
    → (t : Table) → WellFormed t
    → WellFormed (update hit set t)
update-WellFormed hit set same step t w = record {
  leases = update-All Leased hit set step t w.leases;
  keys = rw (ids-update hit set same t) w.keys;
}

-- A row rewritten where the test passes.
abbrev pub rewrite : (Row → Bool) → (Row → Row) → Option Row → Option Row
rewrite hit set none = none
rewrite hit set (some r) = some (if hit r then set r else r)

-- An update seen from one identifier.
pub find-update :
    (hit : Row → Bool) (set : Row → Row)
    → ((r : Row) → (set r).id ≡ r.id)
    → (i : ℕ) (t : Table) → find i (update hit set t) ≡ rewrite hit set (find i t)
find-update hit set same i [] = refl
find-update hit set same i (x ∷ t) = ground (arith, same x, find-update hit set same i t)

-- An update loses no row.
pub find-update-some :
    (hit : Row → Bool) (set : Row → Row)
    → ((r : Row) → (set r).id ≡ r.id)
    → (i : ℕ) (t : Table) {r : Row} → find i t ≡ some r
    → (s : Row) × (find i (update hit set t) ≡ some s)
find-update-some hit set same i t {r} f =
    (if hit r then set r else r, find-update hit set same i t ∙ ap (rewrite hit set) f)

pub find-id : (i : ℕ) (t : Table) {r : Row} → find i t ≡ some r → r.id ≡ i
find-id i [] h = cc
find-id i (x ∷ t) {r} h = ground (arith, find-id i t {r = r})

pub find-All {ℓ} :
    (P : Row → Type ℓ) (i : ℕ) (t : Table) {r : Row} → All P t → find i t ≡ some r → P r
find-All P i [] h f = cc
find-All P i (x ∷ t) {r} h f = elim (Bool-cases (x.id == i)) [
  | inl e ↦ subst P (some_eq (rw e at f)) h.0
  | inr e ↦ find-All P i t h.1 (rw e at f)
]

elem-remove :
    (hit : Row → Bool) (i : ℕ) (t : Table)
    → elem i (ids t) ≡ false
    → elem i (ids (remove hit t)) ≡ false
elem-remove hit i [] h = refl
elem-remove hit i (r ∷ t) h = ground (arith, elem-remove hit i t)

remove-Distinct : (hit : Row → Bool) (t : Table) → Distinct (ids t) → Distinct (ids (remove hit t))
remove-Distinct hit [] h = tt
remove-Distinct hit (r ∷ t) h =
    ground (arith, elem-remove hit r.id t h.0, remove-Distinct hit t h.1)

pub remove-All {ℓ} :
    (P : Row → Type ℓ) (hit : Row → Bool) (t : Table) → All P t → All P (remove hit t)
remove-All P hit [] h = tt
remove-All P hit (r ∷ t) h = ground (arith, remove-All P hit t h.1)

pub remove-WellFormed : (hit : Row → Bool) (t : Table) → WellFormed t → WellFormed (remove hit t)
remove-WellFormed hit t w = record {
  leases = remove-All Leased hit t w.leases;
  keys = remove-Distinct hit t w.keys;
}

pub length-update :
    (hit : Row → Bool) (set : Row → Row) (t : Table) → length (update hit set t) ≡ length t
length-update hit set [] = refl
length-update hit set (r ∷ t) = ap suc (length-update hit set t)

pub find-absent : (i : ℕ) (t : Table) → elem i (ids t) ≡ false → find i t ≡ none
find-absent i [] h = refl
find-absent i (r ∷ t) h = ground (arith, find-absent i t)

-- What a deletion leaves, seen from one identifier.
pub find-remove :
    (hit : Row → Bool) (i : ℕ) (t : Table) {r : Row}
    → Distinct (ids t)
    → find i t ≡ some r
    → find i (remove hit t) ≡ (if hit r then none else some r)
find-remove hit i [] d h = cc
find-remove hit i (x ∷ t) {r} d h = ground (
  arith,
  find-remove hit i t {r = r} d.1,
  find-absent x.id (remove hit t) (elem-remove hit x.id t d.0),
)

pub find-remove-none :
    (hit : Row → Bool) (i : ℕ) (t : Table) → find i t ≡ none → find i (remove hit t) ≡ none
find-remove-none hit i [] f = refl
find-remove-none hit i (x ∷ t) f = ground (arith, find-remove-none hit i t)
