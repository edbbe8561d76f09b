-- ===== src/Store/Migrations/Records.antt =====
-- The records of the migrations that were applied.
use go_outbox.Base.{
  ℕ, ◌≡◌, refl, none, some, List, [], ◌∷◌, ◌++◌, if◌then◌else◌, ◌==◌, ==_refl, is_some, Bool-cases,
  inl, inr,
}
use go_outbox.Store.Migrations.{Record, Migration, record_of}

pub record_of-append :
    (v : ℕ) (rs qs : List Record) {r : Record}
    → record_of v rs ≡ some r
    → record_of v (rs ++ qs) ≡ some r
unfolding record_of
record_of-append v [] qs h = cc
record_of-append v (x ∷ rs) qs h = elim (Bool-cases (x.version == v)) [
  | inl same ↦ rw same (rw same at h)
  | inr other ↦ rw other (record_of-append v rs qs (rw other at h))
]

pub record_of-new :
    (v : ℕ) (rs : List Record) (r : Record)
    → record_of v rs ≡ none
    → r.version ≡ v
    → record_of v (rs ++ (r ∷ [])) ≡ some r
unfolding record_of
record_of-new v [] r h e = rw (e, ==_refl v) refl
record_of-new v (x ∷ rs) r h e = elim (Bool-cases (x.version == v)) [
  | inl same ↦ cc (rw same at h)
  | inr other ↦ rw other (record_of-new v rs r (rw other at h) e)
]

-- A migration is recorded under the checksum that this build has for it.
abbrev pub Recorded : List Record → Migration → Type 0
Recorded rs m = (r : Record) × (record_of m.version rs ≡ some r) × (r.checksum ≡ m.checksum)

-- Every record stays as it is.
abbrev pub Kept : List Record → List Record → Type 0
Kept rs qs = (v : ℕ) (r : Record) → record_of v rs ≡ some r → record_of v qs ≡ some r

-- The migrations that a table does not have.
unfoldable pub missing : List Record → List Migration → List Migration
missing known [] = []
missing known (m ∷ ms) =
    let rest = missing known ms in if is_some (record_of m.version known) then rest else m ∷ rest
