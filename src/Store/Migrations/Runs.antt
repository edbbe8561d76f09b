-- ===== src/Store/Migrations/Runs.antt =====
-- What a run of the migrations leaves.
use mathlib.Core.List.{append-nil, append_assoc}
use mathlib.Core.Path.{ap₂}
use go_outbox.Base.{
  ℕ, suc, ◌≡◌, refl, sym, ap, ◌∙◌, subst, Bool, true, false, Option, none, some, List, [], ◌∷◌,
  ◌++◌, map, String, str_eq, str_eq_iff, All, Bool-cases, Option-cases, inl, inr,
}
use go_outbox.Core.Errors.{Err, Result, ok, err, ok_eq}
use go_outbox.Store.Migrations.{
  Options, Record, Migration, Database, record_of, File, Answer, substitute, applied, apply,
  settled, then_run, run_all, run, run_loaded, refused, load,
}
use go_outbox.Store.Migrations.Records.{record_of-append, record_of-new, Recorded, Kept, missing}

module _ (submatch : String → Option (String × String)) (atoi : String → Result ℕ)
    (checksum : String → String) (replacer : List (String × String) → String → String) where
  settled-done :
      (c : Option (Err × Bool)) (db : Database) (q : Record × Database) {r : Record}
      {db' : Database}
      → settled submatch atoi checksum replacer c db q ≡ (ok r, db')
      → q ≡ (r, db')
  settled-done none db (r, after) h =
      ap₂ (λ x y. (x, y)) (ok_eq (ap (λ (q : Result Record × Database). q.0) h))
        (ap (λ (q : Result Record × Database). q.1) h)
  settled-done (some (e, true)) db (r, after) h = cc (ap (λ (q : Result Record × Database). q.0) h)
  settled-done (some (e, false)) db (r, after) h = cc (ap (λ (q : Result Record × Database). q.0) h)

  ended :
      (q : (List Record × Option Err) × Database) {db : Database}
      → q.0.1 ≡ none
      → q.1 ≡ db
      → q ≡ ((q.0.0, none), db)
  ended ((done, e), mid) h k = ap₂ (λ x y. ((done, x), y)) h k

  apply-done :
      (o : Options) (a : Answer) (m : Migration) (db db' : Database) (r : Record)
      → apply submatch atoi checksum replacer o a m db ≡ (ok r, db')
      → (record_of m.version db.records ≡ none)
        × (applied submatch atoi checksum replacer o a m db ≡ (r, db'))
  unfolding apply
  apply-done o a m db db' r h = elim (Option-cases a.begun) [
    | inr (e, x) ↦ cc (ap (λ (q : Result Record × Database). q.0) (rw x at h))
    | inl x ↦ elim (Option-cases a.ran) [
      | inr (e, y) ↦ cc (ap (λ (q : Result Record × Database). q.0) (rw (x, y) at h))
      | inl y ↦ elim (Option-cases a.recorded) [
        | inr (e, z) ↦ cc (ap (λ (q : Result Record × Database). q.0) (rw (x, y, z) at h))
        | inl z ↦ elim (Option-cases (record_of m.version db.records)) [
          | inr (e, w) ↦ cc (ap (λ (q : Result Record × Database). q.0) (rw (x, y, z, w) at h))
          | inl w ↦ (w, settled-done a.committed db _ (rw (x, y, z, w) at h))
        ]
      ]
    ]
  ]

  -- What a run of the loop without error leaves: each migration recorded, the records that were
  -- there, and the statements of those that were missing executed in order.
  record Complete (o : Options) (known : List Record) (ms : List Migration) (db db' : Database)
      : Type 0 where
    all : All (Recorded db'.records) ms
    kept : Kept db.records db'.records
    executed :
        db'.executed
        ≡ db.executed
          ++ map (λ m. substitute submatch atoi checksum replacer o m.template) (missing known ms)

  fresh-Complete :
      (o : Options) (answers : ℕ → Answer) (i : ℕ) (known : List Record) (m : Migration)
      (ms : List Migration) (db db' : Database) (done : List Record)
      → Kept known db.records
      → ((mid : Database) (rest : List Record)
          → Kept known mid.records
          → run_all submatch atoi checksum replacer o answers (suc i) known ms mid
            ≡ ((rest, none), db')
          → Complete o known ms mid db')
      → record_of m.version known ≡ none
      → (q : Result Record × Database)
      → apply submatch atoi checksum replacer o (answers i) m db ≡ q
      → then_run submatch atoi checksum replacer
          (run_all submatch atoi checksum replacer o answers (suc i) known ms)
          q
        ≡ ((done, none), db')
      → Complete o known (m ∷ ms) db db'
  unfolding missing applied
  fresh-Complete o answers i known m ms db db' done k ih f (err e, mid) q h =
      cc (ap (λ (q : (List Record × Option Err) × Database). q.0.1) h)
  fresh-Complete o answers i known m ms db db' done k ih f (ok r, mid) q h =
      let (absent, made) = apply-done o (answers i) m db mid r q in
      let records : mid.records ≡ db.records ++ (r ∷ []) =
        ap (λ (p : Record × Database). p.1.records) (sym made)
        ∙ ap (λ x. db.records ++ (x ∷ [])) (ap (λ (p : Record × Database). p.0) made) in
      let rest = run_all submatch atoi checksum replacer o answers (suc i) known ms mid in
      let step : Kept db.records mid.records =
        λ v x e. rw records (record_of-append v db.records (r ∷ []) e) in
      let c : Complete o known ms mid db' =
        ih mid rest.0.0 (λ v x e. step v x (k v x e))
          (ended rest (ap (λ (x : (List Record × Option Err) × Database). x.0.1) h)
            (ap (λ (x : (List Record × Option Err) × Database). x.1) h)) in
      record {
        all = (
          (
            r,
            c.kept m.version r (
                rw records (
                  record_of-new m.version db.records r absent
                    (ap (λ (p : Record × Database). p.0.version) (sym made)))),
            ap (λ (p : Record × Database). p.0.checksum) (sym made),
          ),
          c.all,
        );
        kept = λ v x e. c.kept v x (step v x e);
        executed =
            c.executed
            ∙ ap
                (λ (x : List String).
                  x
                  ++ map (λ m. substitute submatch atoi checksum replacer o m.template)
                      (missing known ms))
                (ap (λ (p : Record × Database). p.1.executed) (sym made))
            ∙ append_assoc db.executed
                (substitute submatch atoi checksum replacer o m.template ∷ [])
                (map (λ m. substitute submatch atoi checksum replacer o m.template)
                  (missing known ms))
            ∙ rw f refl;
      }

  run_all-Complete :
      (o : Options) (answers : ℕ → Answer) (i : ℕ) (known : List Record) (ms : List Migration)
      (db db' : Database) (done : List Record)
      → Kept known db.records
      → run_all submatch atoi checksum replacer o answers i known ms db ≡ ((done, none), db')
      → Complete o known ms db db'
  unfolding run_all missing
  run_all-Complete o answers i known [] db db' done k h =
      subst (Complete o known [] db) (ap (λ (q : (List Record × Option Err) × Database). q.1) h)
        (record { all = tt; kept = λ v r e. e; executed = sym (append-nil db.executed) })
  run_all-Complete o answers i known (m ∷ ms) db db' done k h =
      elim (Option-cases (record_of m.version known)) [
        | inr (p, f) ↦ elim (Bool-cases (str_eq p.checksum m.checksum)) [
          | inl same ↦
              let c =
                run_all-Complete o answers (suc i) known ms db db' done k (rw (f, same) at h) in
              record {
                all = (
                  (
                    p,
                    c.kept m.version p (k m.version p f),
                    (str_eq_iff p.checksum m.checksum).0 same,
                  ),
                  c.all,
                );
                kept = c.kept;
                executed = rw f c.executed;
              }
          | inr other ↦
              cc (ap (λ (q : (List Record × Option Err) × Database). q.0.1) (rw (f, other) at h))
        ]
        | inl f ↦
            fresh-Complete o answers i known m ms db db' done k
              (λ mid rest. run_all-Complete o answers (suc i) known ms mid db' rest) f
              (apply submatch atoi checksum replacer o (answers i) m db) refl (rw f at h)
      ]

  run_all-Recorded :
      (o : Options) (answers : ℕ → Answer) (i : ℕ) (ms : List Migration) (known : List Record)
      (db : Database)
      → All (Recorded known) ms
      → run_all submatch atoi checksum replacer o answers i known ms db ≡ (([], none), db)
  unfolding run_all
  run_all-Recorded o answers i [] known db h = refl
  run_all-Recorded o answers i (m ∷ ms) known db ((r, f, same), h) =
      rw (f, (str_eq_iff r.checksum m.checksum).1 same)
        (run_all-Recorded o answers (suc i) ms known db h)

  run-parts :
      (o : Options) (answers : ℕ → Answer) (files : Result (List File))
      (locked bootstrapped read : Option Err) (db db' : Database) (done : List Record)
      (ms : List Migration)
      → load submatch atoi checksum replacer files ≡ ok ms
      → run submatch atoi checksum replacer o answers files locked bootstrapped read db
        ≡ ((done, none), db')
      → run_all submatch atoi checksum replacer o answers 0 db.records ms db ≡ ((done, none), db')
  unfolding run run_loaded
  run-parts o answers files locked bootstrapped read db db' done ms l h =
      by_stop (refused submatch atoi checksum replacer locked bootstrapped read) (
        subst
          (λ x.
            run_loaded submatch atoi checksum replacer o answers x
              (refused submatch atoi checksum replacer locked bootstrapped read) db
            ≡ ((done, none), db'))
          l h)
    where
      by_stop :
          (stop : Option Err)
          → run_loaded submatch atoi checksum replacer o answers (ok ms) stop db
            ≡ ((done, none), db')
          → run_all submatch atoi checksum replacer o answers 0 db.records ms db
            ≡ ((done, none), db')
      by_stop none h = h
      by_stop (some e) h = cc (ap (λ (q : (List Record × Option Err) × Database). q.0.1) h)

  -- A run that ends without an error has executed the migrations that were not recorded, in order,
  -- once each, and no other; it leaves every migration recorded under the checksum that this build
  -- has for it, and another run of the same build, whatever the database would answer, applies
  -- nothing and leaves the database as it is.
  pub run_complete :
      (o : Options) (answers again : ℕ → Answer) (files : Result (List File))
      (locked bootstrapped read : Option Err) (db db' : Database) (done : List Record)
      (ms : List Migration)
      → load submatch atoi checksum replacer files ≡ ok ms
      → run submatch atoi checksum replacer o answers files locked bootstrapped read db
        ≡ ((done, none), db')
      → (db'.executed
          ≡ db.executed
            ++ map
                (λ m. substitute submatch atoi checksum replacer o m.template)
                (missing db.records ms))
        × All (Recorded db'.records) ms
        × (run submatch atoi checksum replacer o again files none none none db' ≡ (([], none), db'))
  unfolding run run_loaded
  run_complete o answers again files locked bootstrapped read db db' done ms l h =
      let c =
        run_all-Complete o answers 0 db.records ms db db' done (λ v r e. e)
          (run-parts o answers files locked bootstrapped read db db' done ms l h) in
      (
        c.executed,
        c.all,
        subst
            (λ x. run_loaded submatch atoi checksum replacer o again x none db' ≡ (([], none), db'))
            (sym l) (run_all-Recorded o again 0 ms db'.records db' c.all),
      )
