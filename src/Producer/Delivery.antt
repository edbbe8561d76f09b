-- ===== src/Producer/Delivery.antt =====
-- What a producer wrote is what the dispatcher claims.
--
-- `decode_headers` and `decode_target` read the texts as jsonb gives them back; `valid_text` is
-- utf8.ValidString without the NUL, which jsonb does not store.
use go_outbox.Base.{
  ℕ, ◌≡◌, refl, ap, false, Option, none, some, coalesce, List, [], ◌∷◌, String, str_eq, str_eq_iff,
  arith, inl, inr, Bool-cases, elem, leb, Bool, true, not, ◌&&◌, is_some, lookup,
}
use go_outbox.Core.{Target, Message}
use go_outbox.Core.Errors.{Err, Result, ok, err, ◌>>=◌, wrapped-eq-ok, ok_eq}
use go_outbox.Store.Table.{Row, Table, ids, find}
use go_outbox.Store.Queries.{is_due}
use go_outbox.Store.System.{Insert, insert_sql, new_row}
use go_outbox.Store.Operations.{At, Fault, fine, refused, cut, scan, headers_of, target_of}
use go_outbox.Producer.{Draft, no_headers, execute}
use go_outbox.Producer.Pgx
use go_outbox.Producer.Pgx.{Prepared, arguments}

-- The headers of a draft, nil for none.
abbrev pub headers_given : Option (List (String × String)) → List (String × String)
headers_given none = []
headers_given (some hs) = hs

-- A message with the content of a draft and these headers, as it is claimed for the first time.
abbrev pub message_of : ℕ → ℕ → Draft → List (String × String) → Message
message_of i now d headers = record {
  id = i;
  stream = d.stream;
  topic = d.topic;
  payload = d.payload;
  headers = headers;
  target = d.target;
  attempts = 0;
  created_at = now;
}

assembled :
    (id : Result ℕ) (headers target : Result (List ℕ)) (p : Prepared)
    → (id >>= λ i. headers >>= λ h. target >>= λ g. ok (record { id = i; headers = h; target = g }))
      ≡ ok p
    → (id ≡ ok p.id) × (headers ≡ ok p.headers) × (target ≡ ok p.target)
assembled (err e) headers target p h = cc
assembled (ok i) (err e) target p h = cc
assembled (ok i) (ok hs) (err e) p h = cc
assembled (ok i) (ok hs) (ok g) p h = (
  ap (λ (q : Prepared). ok q.id) (ok_eq h),
  ap (λ (q : Prepared). ok q.headers) (ok_eq h),
  ap (λ (q : Prepared). ok q.target) (ok_eq h),
)

executed-none :
    (at : At) (m : Insert) (t t' : Table)
    → execute at m t ≡ (none, t')
    → (elem m.id (ids t) ≡ false) × (new_row at.now m ∷ t ≡ t')
unfolding execute insert_sql
executed-none at m t t' h = by_fault at.fault h
  where
    by_fault :
        (f : Fault)
        → execute (record at { fault = f }) m t ≡ (none, t')
        → (elem m.id (ids t) ≡ false) × (new_row at.now m ∷ t ≡ t')
    by_fault (refused e) h = cc (ap (λ (q : Option Err × Table). q.0) h)
    by_fault (cut e) h = cc (ap (λ (q : Option Err × Table). q.0) h)
    by_fault fine h = elim (Bool-cases (elem m.id (ids t))) [
      | inl there ↦ cc (ap (λ (q : Option Err × Table). q.0) (rw there at h))
      | inr fresh ↦ (fresh, ap (λ (q : Option Err × Table). q.1) (rw fresh at h))
    ]

-- Headers that are a map of valid strings, and a target of valid strings.
abbrev pub is_object : (String → Bool) → List (String × String) → Bool
is_object valid_text [] = true
is_object valid_text ((k, v) ∷ rest) =
    not (is_some (lookup k rest)) && valid_text k && valid_text v && is_object valid_text rest

abbrev pub is_text_target : (String → Bool) → Target → Bool
is_text_target valid_text g = valid_text g.key && valid_text g.exchange && valid_text g.routing_key

module _ (valid_text : String → Bool) (encode_headers : List (String × String) → Result (List ℕ))
    (encode_target : Target → Result (List ℕ))
    (decode_headers : List ℕ → Result (List (String × String)))
    (decode_target : List ℕ → Result Target) where
  -- What encoding/json and jsonb document, of the texts that they accept: an object is decoded to
  -- the same map, in whatever order, where its keys are distinct and its strings are valid; a struct
  -- of valid strings and an integer is decoded to itself; and `{}` is no header at all.
  pub record Codec : Type 0 where
    pub headers_back :
        (hs : List (String × String)) (bs : List ℕ)
        → is_object valid_text hs ≡ true
        → encode_headers hs ≡ ok bs
        → (read : List (String × String)) × (decode_headers bs ≡ ok read)
          × ((key : String) → lookup key read ≡ lookup key hs)
    pub target_back :
        (g : Target) (bs : List ℕ)
        → is_text_target valid_text g ≡ true
        → encode_target g ≡ ok bs
        → decode_target bs ≡ ok g
    pub nothing : decode_headers no_headers ≡ ok []
    -- A JSON text is not empty.
    pub headers_some : (hs : List (String × String)) → encode_headers hs ≡ ok [] → ⊥
    pub target_some : (g : Target) → encode_target g ≡ ok [] → ⊥

  stored-headers :
      (j : Codec) (key : String) (o : Option (List (String × String))) (bs : List ℕ)
      → is_object valid_text (headers_given o) ≡ true
      → Pgx.headers_of encode_headers encode_target o ≡ ok bs
      → (read : List (String × String)) × (headers_of decode_headers decode_target bs ≡ ok read)
        × (lookup key read ≡ lookup key (headers_given o))
  unfolding Pgx.headers_of
  stored-headers j key none bs v h = ([], rw (← ok_eq h) (j.nothing), refl)
  stored-headers j key (some hs) [] v h =
      absurd (j.headers_some hs (wrapped-eq-ok "encode headers" (encode_headers hs) h))
  stored-headers j key (some hs) (b ∷ bs) v h =
      let (read, e, same) =
        j.headers_back hs (b ∷ bs) v (wrapped-eq-ok "encode headers" (encode_headers hs) h) in
      (read, e, same key)

  stored-target :
      (j : Codec) (g : Target) (bs : List ℕ)
      → is_text_target valid_text g ≡ true
      → encode_target g ≡ ok bs
      → target_of decode_headers decode_target bs ≡ ok g
  stored-target j g [] v h = absurd (j.target_some g h)
  stored-target j g (b ∷ bs) v h = j.target_back g (b ∷ bs) v h

  given-id :
      (new_id : Result ℕ) (o : Option ℕ) (i : ℕ)
      → Pgx.id_of encode_headers encode_target new_id o ≡ ok i
      → coalesce o i ≡ i
  unfolding Pgx.id_of
  given-id new_id none i h = refl
  given-id new_id (some k) i h = ok_eq h

  -- A draft that was prepared has a stream and a topic, and its parts were encoded.
  prepared-parts :
      (new_id : Result ℕ) (d : Draft) (p : Prepared)
      → Pgx.prepare encode_headers encode_target new_id d ≡ ok p
      → (coalesce d.id p.id ≡ p.id)
        × (Pgx.headers_of encode_headers encode_target d.headers ≡ ok p.headers)
        × (encode_target d.target ≡ ok p.target)
  unfolding Pgx.prepare
  prepared-parts new_id d p e = elim (Bool-cases (str_eq d.stream "")) [
    | inl blank ↦ cc (rw blank at e)
    | inr named ↦ elim (Bool-cases (str_eq d.topic "")) [
      | inl blank ↦ cc (rw (named, blank) at e)
      | inr titled ↦
          let (i, h, g) = assembled _ _ _ p (rw (named, titled) at e) in
          (given-id new_id d.id p.id i, h, wrapped-eq-ok "encode target" (encode_target d.target) g)
    ]
  ]

  prepared-scan :
      (j : Codec) (key : String) (now : ℕ) (new_id : Result ℕ) (d : Draft) (p : Prepared)
      → is_object valid_text (headers_given d.headers) ≡ true
      → is_text_target valid_text d.target ≡ true
      → Pgx.prepare encode_headers encode_target new_id d ≡ ok p
      → (headers : List (String × String)) × (scan decode_headers decode_target
            (new_row now (arguments encode_headers encode_target d p))
          ≡ ok (message_of p.id now d headers))
        × (lookup key headers ≡ lookup key (headers_given d.headers))
  unfolding scan
  prepared-scan j key now new_id d p v v' e =
      let (i, h, g) = prepared-parts new_id d p e in
      let (read, back, same) = stored-headers j key d.headers p.headers v h in
      (read, rw (back, stored-target j d.target p.target v' g) refl, same)

  -- A message that was enqueued without error, and whose headers have distinct keys and, like its
  -- target, valid text, stands in the table under the identifier that it was given, if any; the
  -- dispatcher finds it due from the time asked for on, or at once where none was, and scans it back
  -- to the stream, topic, payload and target that the producer gave, with the same value under each
  -- header, and with no attempt made.
  pub enqueue-scan :
      (at : At) (later : ℕ) (new_id : Result ℕ) (d : Draft) (t t' : Table) (key : String)
      → Codec
      → is_object valid_text (headers_given d.headers) ≡ true
      → is_text_target valid_text d.target ≡ true
      → Pgx.enqueue encode_headers encode_target at new_id d t ≡ (none, t')
      → (r : Row) × (find r.id t' ≡ some r)
        × (coalesce d.id r.id ≡ r.id)
        × (is_due d.stream later r ≡ leb (coalesce d.available_at at.now) later)
        × ((headers : List (String × String)) × (scan decode_headers decode_target r
              ≡ ok (message_of r.id at.now d headers))
            × (lookup key headers ≡ lookup key (headers_given d.headers)))
  unfolding Pgx.enqueue
  enqueue-scan at later new_id d t t' key j v v' e =
      by_prepared (Pgx.prepare encode_headers encode_target new_id d) refl e
    where
      by_answer :
          (o : Option Err × Table)
          → Pgx.answered encode_headers encode_target "enqueue outbox message" o ≡ (none, t')
          → o ≡ (none, t')
      by_answer (none, u) h = h
      by_answer (some x, u) h = cc (ap (λ (q : Option Err × Table). q.0) h)

      by_prepared :
          (q : Result Prepared)
          → Pgx.prepare encode_headers encode_target new_id d ≡ q
          → Pgx.send encode_headers encode_target at d q t ≡ (none, t')
          → (r : Row) × (find r.id t' ≡ some r)
            × (coalesce d.id r.id ≡ r.id)
            × (is_due d.stream later r ≡ leb (coalesce d.available_at at.now) later)
            × ((headers : List (String × String)) × (scan decode_headers decode_target r
                  ≡ ok (message_of r.id at.now d headers))
                × (lookup key headers ≡ lookup key (headers_given d.headers)))
      by_prepared (err x) f h = cc (ap (λ (q : Option Err × Table). q.0) h)
      by_prepared (ok p) f h =
          let m : Insert = arguments encode_headers encode_target d p in
          let (fresh, same) = executed-none at m t t' (by_answer (execute at m t) h) in
          (
            new_row at.now m,
            rw (← same) (ground arith),
            (prepared-parts new_id d p f).0,
            ground (arith, str_eq_iff d.stream d.stream),
            prepared-scan j key at.now new_id d p v v' f,
          )
