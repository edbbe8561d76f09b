-- ===== src/Dispatch/Publish/Results.antt =====
-- What `publish` returns, whatever the order in which the chunks finish.
use mathlib.Core.List.{Permᴰ}
use go_outbox.Base.{
  ℕ, zero, suc, ◌+◌, ◌-◌, ◌≤◌, ◌<◌, ◌≡◌, ◌≢◌, refl, ◌∙◌, Bool, false, ◌&&◌, ◌||◌, inl, inr, Option,
  none, some, List, [], ◌∷◌, arith, length, replicate, get_elem?, if◌then◌else◌, leb, ltb,
  Bool-cases, All, length-set, get_elem?-set_self, get_elem?-set_ne, length-replicate, ◌==◌, ==_iff,
  take,
}
use go_outbox.Base.Int.{ℤ}
use go_outbox.Core.{Message}
use go_outbox.Core.Errors.{Err}
use go_outbox.Dispatch.Chunks.{Span, chunk, Cover, chunk-Cover}
use go_outbox.Dispatch.Publish.{
  Published, unpublished, classified, put, write_entry, write_chunk, write_all, attempted,
  started_spans, publish,
}

abbrev within : Span → ℕ → Bool
within s j = leb s.start j && ltb j s.end

abbrev covers : List Span → ℕ → Bool
covers [] j = false
covers (s ∷ ss) j = within s j || covers ss j

length-put :
    (o : Option Message) (a : Option (Option Err)) (i : ℕ) (r : List Published)
    → length (put o a i r) ≡ length r
length-put none a i r = refl
length-put (some m) none i r = refl
length-put (some m) (some e) i r = length-set r i (classified m e)

put-other :
    (o : Option Message) (a : Option (Option Err)) (i j : ℕ) (r : List Published)
    → i ≢ j
    → get_elem? (put o a i r) j ≡ get_elem? r j
put-other none a i j r h = refl
put-other (some m) none i j r h = refl
put-other (some m) (some e) i j r h = get_elem?-set_ne r i j (classified m e) h

module _ (msgs : List Message) (answers : List (Option Err)) where
  length-write_entry :
      (i : ℕ) (r : List Published) → length (write_entry msgs answers i r) ≡ length r
  length-write_entry i r = length-put (get_elem? msgs i) (get_elem? answers i) i r

  length-write_chunk :
      (i k : ℕ) (r : List Published) → length (write_chunk msgs answers i k r) ≡ length r
  unfolding write_chunk
  length-write_chunk i zero r = refl
  length-write_chunk i (suc k) r =
      length-write_chunk (suc i) k (write_entry msgs answers i r) ∙ length-write_entry i r

  length-write_all :
      (order : List Span) (r : List Published) → length (write_all msgs answers order r) ≡ length r
  unfolding write_all
  length-write_all [] r = refl
  length-write_all (s ∷ order) r =
      length-write_all order (write_chunk msgs answers s.start (s.end - s.start) r)
      ∙ length-write_chunk s.start (s.end - s.start) r

  -- There is one result for each message.
  pub length-publish :
      (workers : ℤ) (started : ℕ) (order : List Span)
      → length (publish msgs answers workers started order).0 ≡ length msgs
  unfolding publish
  length-publish workers started order =
      length-write_all order (replicate (length msgs) unpublished)
      ∙ length-replicate (length msgs) unpublished

module _ (msgs : List Message) (answers : List (Option Err)) (j : ℕ) (m : Message) (e : Option Err)
    (is_message : get_elem? msgs j ≡ some m) (is_answer : get_elem? answers j ≡ some e) where
  entry_self :
      (r : List Published)
      → j < length r
      → get_elem? (write_entry msgs answers j r) j ≡ some (classified m e)
  entry_self r h = rw (is_message, is_answer) (get_elem?-set_self r j (classified m e) h)

  entry-get :
      (i : ℕ) (r : List Published)
      → j < length r
      → get_elem? (write_entry msgs answers i r) j
        ≡ (if i == j then some (classified m e) else get_elem? r j)
  entry-get i r h = elim (Bool-cases (i == j)) [
    | inl same ↦ rw (same, (==_iff i j).0 same) (entry_self r h)
    | inr other ↦
        rw other
          (put-other (get_elem? msgs i) (get_elem? answers i) i j r (λ k. ground (arith, other, k)))
  ]

  write_chunk-get :
      (i k : ℕ) (r : List Published)
      → j < length r
      → get_elem? (write_chunk msgs answers i k r) j
        ≡ (if leb i j && ltb j (i + k) then some (classified m e) else get_elem? r j)
  unfolding write_chunk
  write_chunk-get i zero r h = ground arith
  write_chunk-get i (suc k) r h =
      write_chunk-get (suc i) k (write_entry msgs answers i r)
        (omega (arith, length-write_entry msgs answers i r))
      ∙ first_entry
    where
      first_entry :
          (if leb (suc i) j && ltb j (suc i + k)
            then some (classified m e)
            else get_elem? (write_entry msgs answers i r) j)
          ≡ (if leb i j && ltb j (i + suc k) then some (classified m e) else get_elem? r j)
      first_entry = ground (arith, entry-get i r h)

  write_all-get :
      (order : List Span) (r : List Published)
      → All (λ s. s.start < s.end) order
      → j < length r
      → get_elem? (write_all msgs answers order r) j
        ≡ (if covers order j then some (classified m e) else get_elem? r j)
  unfolding write_all
  write_all-get [] r o h = refl
  write_all-get (s ∷ order) r o h = ground (
    arith,
    write_all-get order (write_chunk msgs answers s.start (s.end - s.start) r) o.1,
    length-write_chunk msgs answers s.start (s.end - s.start) r,
    write_chunk-get s.start (s.end - s.start) r h,
  )

attempted-past :
    (k a b : ℕ) (s : Span) (ss : List Span) → Cover a b (s ∷ ss) → a < attempted (s ∷ take k ss)
unfolding attempted
attempted-past zero a b s ss c = omega arith
attempted-past (suc k) a b s [] c = omega arith
attempted-past (suc k) a b s (u ∷ ss) c = omega (arith, attempted-past k s.end b u ss c.2)

-- The chunks that were started cover the batch up to what was attempted.
covers-taken :
    (k a b j : ℕ) (ss : List Span)
    → Cover a b ss
    → covers (take k ss) j ≡ (leb a j && ltb j (attempted (take k ss)))
unfolding attempted
covers-taken zero a b j ss c = ground arith
covers-taken (suc k) a b j [] c = ground arith
covers-taken (suc zero) a b j (s ∷ ss) c = ground arith
covers-taken (suc (suc k)) a b j (s ∷ []) c = ground arith
covers-taken (suc (suc k)) a b j (s ∷ u ∷ ss) c =
    ground (arith, covers-taken (suc k) s.end b j (u ∷ ss) c.2, attempted-past k s.end b u ss c.2)

attempted-le : (k a b : ℕ) (ss : List Span) → Cover a b ss → (attempted (take k ss) ≤ b) × (a ≤ b)
unfolding attempted
attempted-le zero a b [] c = omega arith
attempted-le zero a b (s ∷ ss) c = omega (arith, attempted-le zero s.end b ss c.2)
attempted-le (suc k) a b [] c = omega arith
attempted-le (suc zero) a b (s ∷ ss) c = omega (arith, attempted-le zero s.end b ss c.2)
attempted-le (suc (suc k)) a b (s ∷ []) c = omega arith
attempted-le (suc (suc k)) a b (s ∷ u ∷ ss) c =
    omega (arith, attempted-le (suc k) s.end b (u ∷ ss) c.2)

abbrev NonEmpty : List Span → Type 0
NonEmpty ss = All (λ s. s.start < s.end) ss

Cover-NonEmpty : (k a b : ℕ) (ss : List Span) → Cover a b ss → NonEmpty (take k ss)
Cover-NonEmpty zero a b ss c = tt
Cover-NonEmpty (suc k) a b [] c = tt
Cover-NonEmpty (suc k) a b (s ∷ ss) c = (c.1, Cover-NonEmpty k s.end b ss c.2)

-- A permutation of chunks covers the same positions, and has no empty chunk either.
permuted :
    (j : ℕ) {ss us : List Span}
    → Permᴰ ss us
    → (covers ss j ≡ covers us j) × (NonEmpty us → NonEmpty ss)
permuted j Permᴰ.nil = (refl, λ n. n)
permuted j (Permᴰ.cons e p) =
    let (same, full) = permuted j p in
    (ground (arith, same, e), λ n. (ground (arith, e, n.0), full n.1))
permuted j (Permᴰ.swap e f) =
    (ground (arith, e, f), λ n. (ground (arith, e, n.1.0), (ground (arith, f, n.0), n.1.1)))
permuted j (Permᴰ.trans p q) =
    let (same, full) = permuted j p in
    let (same', full') = permuted j q in (same ∙ same', λ n. full (full' n))

replicate-get : (n j : ℕ) → j < n → get_elem? (replicate n unpublished) j ≡ some unpublished
replicate-get zero j h = elim h [ ]
replicate-get (suc n) zero h = refl
replicate-get (suc n) (suc j) h = replicate-get n j (omega arith)

pub get-lt :
    (msgs : List Message) (j : ℕ) {m : Message} → get_elem? msgs j ≡ some m → j < length msgs
get-lt [] j h = cc
get-lt (x ∷ xs) zero h = omega arith
get-lt (x ∷ xs) (suc j) h = omega (arith, get-lt xs j h)

-- Whatever the order in which the chunks that were started finish, the result of a message that was
-- attempted is the router's answer for that message, classified, and stands at its position; the
-- messages from `attempted` on, which are at most the rest of the batch, keep the zero value.
pub publish-results :
    (msgs : List Message) (answers : List (Option Err)) (workers : ℤ) (started : ℕ)
    (order : List Span) (j : ℕ) {m : Message} {e : Option Err}
    → Permᴰ order (started_spans (length msgs) workers started)
    → get_elem? msgs j ≡ some m
    → get_elem? answers j ≡ some e
    → let (results, done) = publish msgs answers workers started order in
      (done ≤ length msgs)
      × (get_elem? results j ≡ some (if ltb j done then classified m e else unpublished))
unfolding publish started_spans
publish-results msgs answers workers started order j {m} {e} p f g =
    let n : ℕ = length msgs in
    let c : Cover 0 n (chunk n workers) = (chunk-Cover n workers).0 in
    let (same, full) = permuted j p in
    let inside : j < n = get-lt msgs j f in
    (
      (attempted-le started 0 n (chunk n workers) c).0,
      write_all-get msgs answers j m e f g order (replicate n unpublished)
            (full (Cover-NonEmpty started 0 n (chunk n workers) c))
            (omega (arith, length-replicate n unpublished))
          ∙ ground (
            arith,
            same,
            covers-taken started 0 n j (chunk n workers) c,
            replicate-get n j inside,
          ),
    )
