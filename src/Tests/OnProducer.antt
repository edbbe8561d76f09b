-- ===== src/Tests/OnProducer.antt =====
-- The theorems on producers and partitions at concrete inputs.
use go_outbox.Base.{
  arith, ℕ, ◌≡◌, refl, ap, Bool, true, false, Option, none, some, coalesce, List, [], ◌∷◌, String,
  leb, All, ◌==◌, str_eq, str_eq_iff, if◌then◌else◌, lookup, ◌||◌,
}
use go_outbox.Base.Int.{ℤ, pos, negsuc}
use go_outbox.Core.{Target, sent}
use go_outbox.Core.Errors.{Err, Result, ok, err, leaf, text, ok_eq}
use go_outbox.Store.Table.{Row, find, WellFormed}
use go_outbox.Store.Queries.{is_due}
use go_outbox.Store.Operations.{scan}
use go_outbox.Store.Partitions.{Part, Visit, visit, default_rows, before_window, is_default}
use go_outbox.Store.Partitions.Spent.{dropped-spent}
use go_outbox.Dispatch.Upkeep.{Answers, maintain}
use go_outbox.Dispatch.Upkeep.Ahead.{Occupied, maintain-Occupied}
use go_outbox.Producer.{Draft}
use go_outbox.Producer.Pgx
use go_outbox.Producer.Sql
use go_outbox.Producer.Agreement.{Agree, packages-Agree}
use go_outbox.Producer.Delivery.{Codec, enqueue-scan, message_of, is_object, is_text_target}
use go_outbox.Tests.Fixtures.{done, table, at}

abbrev no_envelope : Target
no_envelope = record { key = ""; version = pos 0; exchange = ""; routing_key = "" }

abbrev refused_value : Err
refused_value = leaf (text "unsupported value")

abbrev draft : String → Option ℕ → Draft
draft stream id = record {
  id = id;
  stream = stream;
  topic = "order.created";
  payload = 1 ∷ [];
  headers = none;
  target = no_envelope;
  available_at = some 70;
}

abbrev any_headers : List (String × String) → Result (List ℕ)
any_headers hs = ok (b'{' ∷ b'}' ∷ [])

abbrev any_target : Target → Result (List ℕ)
any_target g = ok (b'{' ∷ b'}' ∷ [])

packages-Agree_example :
    (Sql.enqueue any_headers any_target (at 50) (ok 9) (draft "orders" none) table
      ≡ Pgx.enqueue any_headers any_target (at 50) (ok 9) (draft "orders" none) table)
    × Agree
        (Pgx.enqueue_batch any_headers any_target
          ((at 50, ok 9, draft "orders" none) ∷ (at 51, ok 9, draft "" none) ∷ [])
          table)
        (Sql.enqueue_batch any_headers any_target
          ((at 50, ok 9, draft "orders" none) ∷ (at 51, ok 9, draft "" none) ∷ [])
          table)
packages-Agree_example =
    packages-Agree any_headers any_target (at 50) (ok 9) (draft "orders" none)
      ((at 50, ok 9, draft "orders" none) ∷ (at 51, ok 9, draft "" none) ∷ []) table

-- A codec for texts of three words.
abbrev is_word : String → Bool
is_word s = str_eq s "" || str_eq s "trace-id" || str_eq s "order-7"

abbrev code_of : String → ℕ
code_of s = if str_eq s "" then 0 else if str_eq s "trace-id" then 1 else 2

abbrev word_of : ℕ → String
word_of n = if n == 0 then "" else if n == 1 then "trace-id" else "order-7"

word_of-code_of : (s : String) → is_word s ≡ true → word_of (code_of s) ≡ s
word_of-code_of s h =
    ground (arith, str_eq_iff s "", str_eq_iff s "trace-id", str_eq_iff s "order-7")

abbrev written : List (String × String) → List ℕ
written [] = []
written ((k, v) ∷ rest) = code_of k ∷ code_of v ∷ written rest

abbrev pairs : List ℕ → List (String × String)
pairs [] = []
pairs (k ∷ []) = []
pairs (k ∷ v ∷ rest) = (word_of k, word_of v) ∷ pairs rest

pairs-written :
    (hs : List (String × String)) → is_object is_word hs ≡ true → pairs (written hs) ≡ hs
pairs-written [] h = refl
pairs-written ((k, v) ∷ rest) h =
    let key : word_of (code_of k) ≡ k = word_of-code_of k (ground arith) in
    let value : word_of (code_of v) ≡ v = word_of-code_of v (ground arith) in
    rw (key, value, pairs-written rest (ground arith)) refl

abbrev headers_text : List (String × String) → Result (List ℕ)
headers_text hs = ok (b'{' ∷ written hs)

abbrev read_headers : List ℕ → Result (List (String × String))
read_headers [] = err refused_value
read_headers (b ∷ bs) = ok (pairs bs)

abbrev version_codes : ℤ → List ℕ
version_codes (pos n) = 0 ∷ n ∷ []
version_codes (negsuc n) = 1 ∷ n ∷ []

abbrev target_text : Target → Result (List ℕ)
target_text g =
    ok (code_of g.key ∷ code_of g.exchange ∷ code_of g.routing_key ∷ version_codes g.version)

abbrev version_of : ℕ → ℕ → ℤ
version_of s n = if s == 0 then pos n else negsuc n

abbrev read_target : List ℕ → Result Target
read_target (k ∷ e ∷ r ∷ s ∷ n ∷ []) = ok (record {
  key = word_of k;
  version = version_of s n;
  exchange = word_of e;
  routing_key = word_of r;
})
read_target bs = err refused_value

target-back :
    (g : Target)
    → is_text_target is_word g ≡ true
    → read_target
        (code_of g.key ∷ code_of g.exchange ∷ code_of g.routing_key ∷ version_codes g.version)
      ≡ ok g
target-back g h = by_version g.version
  where
    key : word_of (code_of g.key) ≡ g.key
    key = word_of-code_of g.key (ground arith)

    exchange : word_of (code_of g.exchange) ≡ g.exchange
    exchange = word_of-code_of g.exchange (ground arith)

    routing_key : word_of (code_of g.routing_key) ≡ g.routing_key
    routing_key = word_of-code_of g.routing_key (ground arith)

    by_version :
        (v : ℤ)
        → read_target (code_of g.key ∷ code_of g.exchange ∷ code_of g.routing_key ∷ version_codes v)
          ≡ ok (record g { version = v })
    by_version (pos n) = rw (key, exchange, routing_key) refl
    by_version (negsuc n) = rw (key, exchange, routing_key) refl

codes-Codec : Codec is_word headers_text target_text read_headers read_target
codes-Codec = record {
  headers_back = λ hs bs v e. (hs, rw (← ok_eq e) (ap ok (pairs-written hs v)), λ key. refl);
  target_back = λ g bs v e. rw (← ok_eq e) (target-back g v);
  nothing = refl;
  headers_some = λ hs e. cc (ok_eq e);
  target_some = λ g e. cc (ok_eq e);
}

-- A draft with a header and a target.
abbrev addressed : Draft
addressed = record (draft "orders" none) {
  headers = some (("trace-id", "order-7") ∷ []);
  target = record { key = "order-7"; version = pos 2; exchange = ""; routing_key = "" };
}

enqueue-scan_example :
    (r : Row) × (find r.id (Pgx.enqueue headers_text target_text (at 50) (ok 9) addressed table).1
      ≡ some r)
    × (coalesce none r.id ≡ r.id)
    × (is_due "orders" 60 r ≡ leb 70 60)
    × ((headers : List (String × String)) × (scan read_headers read_target r
          ≡ ok (message_of r.id 50 addressed headers))
        × (lookup "trace-id" headers ≡ some "order-7"))
enqueue-scan_example =
    enqueue-scan is_word headers_text target_text read_headers read_target (at 50) 60 (ok 9)
      addressed table (Pgx.enqueue headers_text target_text (at 50) (ok 9) addressed table).1
      "trace-id" codes-Codec refl refl (unfold Pgx.enqueue in refl)

-- A partition whose only row was sent at 20, dropped at 100 with a retention of 30.
abbrev old_part : Part
old_part = record { name = "messages_1"; days = some (1, 2); rows = done ∷ [] }

abbrev quiet : ℕ → Visit
quiet i = record { now = 100; query = none; between = []; drop = none }

done-WellFormed : WellFormed (done ∷ [])
done-WellFormed = record {
  leases = (record { while_processing = refl; with_deadline = refl }, tt);
  keys = (refl, tt);
}

dropped-spent_example :
    (done.status ≡ sent)
    × (before_window 30 100 done.dispatched_at ≡ true)
    × (is_default old_part ≡ false)
    × (find 3 old_part.rows ≡ some done)
unfolding visit
dropped-spent_example =
    dropped-spent (quiet 0) 30 3 old_part (done ∷ []) done-WellFormed tt tt refl refl

abbrev day_name : ℕ → String
day_name d = "messages_day"

abbrev catch_all : Part
catch_all = record { name = "messages_default"; days = none; rows = done ∷ [] }

abbrev calm : Answers
calm = record { today = ok 7; lost = λ i. none; listed = none; visits = quiet; counted = none }

maintain-Occupied_example : All Occupied (catch_all ∷ [])
unfolding maintain default_rows
maintain-Occupied_example =
    maintain-Occupied day_name (λ t. 0) calm (pos 0) (pos 30) (old_part ∷ catch_all ∷ [])
      (catch_all ∷ []) (some (record { created = 1; dropped = 2; default_rows = 1 })) (λ j. refl)
      (ground arith) refl
