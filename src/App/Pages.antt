-- ===== src/App/Pages.antt =====
-- What a client sees that follows the cursors of the failed messages.
use mathlib.Core.Path.{ap₂}
use mathlib.Core.List.{map-append}
use go_outbox.Base.{
  ℕ, zero, suc, ◌≡◌, refl, sym, ap, ◌∙◌, subst, ◌+◌, ◌-◌, ◌<◌, ◌≤◌, true, Option, none, some,
  coalesce, List, [], ◌∷◌, ◌++◌, map, String, length, length-map, if◌then◌else◌, ◌==◌, ==_iff,
  get_elem?, arith, Bool-cases, Option-cases, inl, inr, some_eq,
}
use go_outbox.Base.Int.{ℤ}
use go_outbox.Core.Errors.{Err, ok}
use go_outbox.Store.Table.{Row, Table, ids, Distinct}
use go_outbox.Store.Queries.{list_failed_sql}
use go_outbox.Store.Operations.{
  At, Fault, fine, refused, cut, Cursor, FailedMessage, failed_message, list_failed, perform,
}
use go_outbox.Store.Paging.{list_failed_sql-pages}
use go_outbox.App.{
  Response, refusal, page, requeued, last_cursor, page_of, default_page_size, max_page_size,
  int_param, cursor_of, listed, handle_list_failed,
}

-- The last row of a page, from the page.
last-row :
    (rows : List Row) (n : ℕ) (c : Cursor)
    → length rows ≡ suc n
    → last_cursor (map failed_message rows) ≡ some c
    → (l : Row) × (get_elem? rows n ≡ some l)
      × (record { created_at = l.created_at; id = some l.id } ≡ c)
last-row [] n c h e = cc
last-row (r ∷ []) zero c h e = (r, refl, some_eq e)
last-row (r ∷ []) (suc n) c h e = absurd (omega arith)
last-row (r ∷ s ∷ rows) zero c h e = absurd (omega arith)
last-row (r ∷ s ∷ rows) (suc n) c h e = last-row (s ∷ rows) n c (omega arith) e

-- The messages of two pages, of which the second starts at the first one's cursor.
two_pages :
    (start c : Cursor) (k more : ℕ) (stream : String) (t : Table)
    → Distinct (ids t)
    → length (list_failed_sql start.created_at (coalesce start.id 0) (suc k) stream t) ≡ suc k
    → last_cursor (
        map failed_message
          (list_failed_sql start.created_at (coalesce start.id 0) (suc k) stream t))
      ≡ some c
    → map failed_message
        (list_failed_sql start.created_at (coalesce start.id 0) (suc k + more) stream t)
      ≡ map failed_message (list_failed_sql start.created_at (coalesce start.id 0) (suc k) stream t)
        ++ map failed_message (list_failed_sql c.created_at (coalesce c.id 0) more stream t)
two_pages start c k more stream t d h e =
    let rows = list_failed_sql start.created_at (coalesce start.id 0) (suc k) stream t in
    let (l, g, same) = last-row rows k c h e in
    rw (← same) (
      ap (map failed_message)
        (sym (list_failed_sql-pages start.created_at (coalesce start.id 0) k more stream t l d g))
      ∙ map-append failed_message rows (list_failed_sql l.created_at l.id more stream t))

full :
    (ms : List FailedMessage) (limit : ℕ) (c : Cursor)
    → (if length ms == limit then last_cursor ms else none) ≡ some c
    → (length ms ≡ limit) × (last_cursor ms ≡ some c)
full ms limit c h = elim (Bool-cases (length ms == limit)) [
  | inl e ↦ ((==_iff (length ms) limit).0 e, rw e at h)
  | inr e ↦ cc (rw e at h)
]

module _ (atoi : String → Option ℤ) (decode_cursor : String → Option Cursor)
    (describe : Err → String) where
  -- A page has room for one message at least, and for 500 at most.
  int_param-bounds :
      (raw : String)
      → (0 < int_param atoi decode_cursor describe raw default_page_size max_page_size)
        × (int_param atoi decode_cursor describe raw default_page_size max_page_size
            ≤ max_page_size)
  unfolding int_param
  int_param-bounds raw = (ground arith, ground arith)

  abbrev size : String → ℕ
  size raw = int_param atoi decode_cursor describe raw default_page_size max_page_size

  page-eq :
      {ms ms' : List FailedMessage} {n n' : Option Cursor}
      → page ms n ≡ page ms' n'
      → (ms ≡ ms') × (n ≡ n')
  page-eq {ms = ms} {n = n} h = (
    ap (λ (r : Response). elim r [ page x y ↦ x | refusal k s ↦ ms | requeued is ↦ ms ]) h,
    ap (λ (r : Response). elim r [ page x y ↦ y | refusal k s ↦ n | requeued is ↦ n ]) h,
  )

  listed-page :
      (f : Fault) (rows : List Row) (limit : ℕ) (ms : List FailedMessage) (next : Option Cursor)
      (t : Table)
      → listed atoi decode_cursor describe limit
          (perform f "list failed" (λ rows. ok (map failed_message rows)) (rows, t) t).0
        ≡ page ms next
      → (f ≡ fine)
        × (map failed_message rows ≡ ms)
        × ((if length (map failed_message rows) == limit
              then last_cursor (map failed_message rows)
              else none)
            ≡ next)
  unfolding listed page_of
  listed-page fine rows limit ms next t h = let (a, b) = page-eq h in (refl, a, b)
  listed-page (refused e) rows limit ms next t h = cc
  listed-page (cut e) rows limit ms next t h = cc

  -- A page that was answered is the listing from the query's cursor.
  handle-page :
      (at : At) (limit after stream : String) (t : Table) (ms : List FailedMessage)
      (next : Option Cursor)
      → handle_list_failed atoi decode_cursor describe true at limit after stream t ≡ page ms next
      → (c : Cursor) × (cursor_of atoi decode_cursor describe after ≡ some c)
        × (at.fault ≡ fine)
        × (map failed_message (list_failed_sql c.created_at (coalesce c.id 0) (size limit) stream t)
            ≡ ms)
        × ((if length ms == size limit then last_cursor ms else none) ≡ next)
  unfolding handle_list_failed list_failed
  handle-page at limit after stream t ms next h =
      elim (Option-cases (cursor_of atoi decode_cursor describe after)) [
        | inl n ↦ cc (rw n at h)
        | inr (c, e) ↦
            let (f, same, n) =
              listed-page at.fault
                (list_failed_sql c.created_at (coalesce c.id 0) (size limit) stream t) (size limit)
                ms next t (rw e at h) in
            (
              c,
              e,
              f,
              same,
              subst (λ x. (if length x == size limit then last_cursor x else none) ≡ next) same n,
            )
      ]

  -- A client that asks for the page at the cursor which came with a page is given what follows it: the
  -- two pages are, in order and without a gap or a repeat, what one listing of both sizes gives, in
  -- a table that did not change.
  pub handle_list_failed-pages :
      (at at' : At) (limit limit' after after' stream : String) (t : Table)
      (ms ms' : List FailedMessage) (c : Cursor) (next : Option Cursor)
      → Distinct (ids t)
      → handle_list_failed atoi decode_cursor describe true at limit after stream t
        ≡ page ms (some c)
      → cursor_of atoi decode_cursor describe after' ≡ some c
      → handle_list_failed atoi decode_cursor describe true at' limit' after' stream t
        ≡ page ms' next
      → (start : Cursor) × (cursor_of atoi decode_cursor describe after ≡ some start)
        × (list_failed at start (length ms + size limit') stream t ≡ ok (ms ++ ms'))
  unfolding list_failed
  handle_list_failed-pages at at' limit limit' after after' stream t ms ms' c next d h e h' =
      let (start, f, up, same, n) = handle-page at limit after stream t ms (some c) h in
      let (c', f', up', same', n') = handle-page at' limit' after' stream t ms' next h' in
      let (size_eq, last) = full ms (size limit) c n in
      let (first, bound) = int_param-bounds limit in
      let k = size limit - 1 in
      let whole : size limit ≡ suc k = omega arith in
      let count : length ms ≡ suc k = size_eq ∙ whole in
      let rows = list_failed_sql start.created_at (coalesce start.id 0) (suc k) stream t in
      let page_rows : map failed_message rows ≡ ms =
        subst
          (λ z.
            map failed_message (list_failed_sql start.created_at (coalesce start.id 0) z stream t)
            ≡ ms)
          whole same in
      let both =
        two_pages start c k (size limit') stream t d
          (sym (length-map rows failed_message) ∙ ap length page_rows ∙ size_eq ∙ whole)
          (ap last_cursor page_rows ∙ last) in
      let follows : map failed_message
            (list_failed_sql c.created_at (coalesce c.id 0) (size limit') stream t)
          ≡ ms' =
        subst
          (λ (x : Cursor).
            map failed_message
              (list_failed_sql x.created_at (coalesce x.id 0) (size limit') stream t)
            ≡ ms')
          (some_eq (sym f' ∙ e)) same' in
      (start, f, rw (up, count) (ap ok (both ∙ ap₂ ◌++◌ page_rows follows)))
