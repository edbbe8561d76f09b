-- ===== src/Dispatch/DeadLetter/Forwarding.antt =====
-- What becomes of each message that is forwarded.
use go_outbox.Base.{
  ℕ, zero, suc, ◌≡◌, refl, ap, ◌∙◌, Bool, true, false, ◌||◌, Option, some, List, [], ◌∷◌, String,
  str_eq, length, get_elem?, arith, Bool-cases, inl, inr, ◌⊎◌, subst, some_eq, assign, lookup,
  lookup-assign_same, lookup-assign_other,
}
use go_outbox.Base.Int.{ℤ, pos}
use go_outbox.Core.{Message, Target}
use go_outbox.Core.Errors.{Err, Result, ok}
use go_outbox.Store.Table.{Table}
use go_outbox.Store.Operations.{At, fetch_by_ids}
use go_outbox.Dispatch.Pipeline.{Terminal}
use go_outbox.Broker.{Router, route}
use go_outbox.Broker.Routing.{length-route}
use go_outbox.Config.Settings.{DlqConfig}
use go_outbox.Dispatch.DeadLetter.{
  DeadLetter, noted, attempts_of, permanent_of, format_bool, terminal_ids, reports, rewrite,
  rewrite_all, forward, handle,
}

-- There is a report for each message that was sent to the router, with the router's answer for it.
reports-each :
    (stream : String) (answers : List (Option Err)) (msgs : List Message)
    → length answers ≡ length msgs
    → (rs : List DeadLetter) × (reports stream answers msgs ≡ some rs)
      × (length rs ≡ length msgs)
      × ((j : ℕ) (m : Message)
          → get_elem? msgs j ≡ some m
          → (answer : Option Err) × (get_elem? answers j ≡ some answer)
            × (get_elem? rs j ≡ some (record { stream = stream; id = m.id; err = answer })))
unfolding reports
reports-each stream [] [] h = ([], refl, refl, λ j m f. cc)
reports-each stream [] (m ∷ ms) h = absurd (omega arith)
reports-each stream (e ∷ es) [] h = absurd (omega arith)
reports-each stream (e ∷ es) (m ∷ ms) h =
    let (rs, made, size, each) = reports-each stream es ms (omega arith) in
    (
      record { stream = stream; id = m.id; err = e } ∷ rs,
      rw made refl,
      ap suc size,
      λ j x f. at_index j x rs each f,
    )
  where
    at_index :
        (j : ℕ) (x : Message) (rs : List DeadLetter)
        → ((j : ℕ) (m : Message)
            → get_elem? ms j ≡ some m
            → (answer : Option Err) × (get_elem? es j ≡ some answer)
              × (get_elem? rs j ≡ some (record { stream = stream; id = m.id; err = answer })))
        → get_elem? (m ∷ ms) j ≡ some x
        → (answer : Option Err) × (get_elem? (e ∷ es) j ≡ some answer)
          × (get_elem? (record { stream = stream; id = m.id; err = e } ∷ rs) j
              ≡ some (record { stream = stream; id = x.id; err = answer }))
    at_index zero x rs each f = (
      e,
      refl,
      ap (λ (y : Message). some (record { stream = stream; id = y.id; err = e })) (some_eq f),
    )
    at_index (suc j) x rs each f = each j x f

-- The headers that forwarding sets.
abbrev is_added : String → Bool
is_added k =
    str_eq "x-outbox-original-topic" k
    || str_eq "x-outbox-original-stream" k
    || str_eq "x-outbox-attempts" k
    || str_eq "x-outbox-permanent" k

parts_of_added :
    (k : String)
    → is_added k ≡ false
    → (str_eq "x-outbox-original-topic" k ≡ false)
      × (str_eq "x-outbox-original-stream" k ≡ false)
      × (str_eq "x-outbox-attempts" k ≡ false)
      × (str_eq "x-outbox-permanent" k ≡ false)
parts_of_added k h = (ground arith, ground arith, ground arith, ground arith)

-- A message on its way to the dead letters: what its consumer needs is as it was, and its headers
-- say where it came from and why it stopped.
pub record Forwarded (itoa : ℤ → String) (cfg : DlqConfig) (failed : List Terminal) (m m' : Message)
    : Type 0 where
  pub content : (m'.id ≡ m.id) × (m'.payload ≡ m.payload) × (m'.target.key ≡ m.target.key)
  pub address : (m'.stream ≡ cfg.stream) × (m'.topic ≡ cfg.topic)
  pub origin :
      (lookup "x-outbox-original-topic" m'.headers ≡ some m.topic)
      × (lookup "x-outbox-original-stream" m'.headers ≡ some m.stream)
  pub reason :
      (lookup "x-outbox-attempts" m'.headers ≡ some (itoa (pos (attempts_of (noted m.id failed)))))
      × (lookup "x-outbox-permanent" m'.headers
          ≡ some (format_bool (permanent_of (noted m.id failed))))
  pub others : (k : String) → (is_added k ≡ true) ⊎ (lookup k m'.headers ≡ lookup k m.headers)

module _ (itoa : ℤ → String) where
  rewrite-Forwarded :
      (cfg : DlqConfig) (failed : List Terminal) (m : Message)
      → Forwarded itoa cfg failed m (rewrite itoa cfg m (noted m.id failed))
  unfolding rewrite
  rewrite-Forwarded cfg failed m =
      let one = assign "x-outbox-original-topic" m.topic m.headers in
      let two = assign "x-outbox-original-stream" m.stream one in
      let three = assign "x-outbox-attempts" (itoa (pos (attempts_of (noted m.id failed)))) two in
      record {
        content = (refl, refl, refl);
        address = (refl, refl);
        origin = (
          lookup-assign_other "x-outbox-original-topic" "x-outbox-permanent" _ three refl
              ∙ lookup-assign_other "x-outbox-original-topic" "x-outbox-attempts" _ two refl
              ∙ lookup-assign_other "x-outbox-original-topic" "x-outbox-original-stream" _ one refl
              ∙ lookup-assign_same "x-outbox-original-topic" m.topic m.headers,
          lookup-assign_other "x-outbox-original-stream" "x-outbox-permanent" _ three refl
              ∙ lookup-assign_other "x-outbox-original-stream" "x-outbox-attempts" _ two refl
              ∙ lookup-assign_same "x-outbox-original-stream" m.stream one,
        );
        reason = (
          lookup-assign_other "x-outbox-attempts" "x-outbox-permanent" _ three refl
              ∙ lookup-assign_same "x-outbox-attempts" _ two,
          lookup-assign_same "x-outbox-permanent" _ three,
        );
        others = λ k. elim (Bool-cases (is_added k)) [
          | inl added ↦ inl added
          | inr other ↦
              let (a, b, c, d) = parts_of_added k other in
              inr (
                lookup-assign_other k "x-outbox-permanent" _ three d
                ∙ lookup-assign_other k "x-outbox-attempts" _ two c
                ∙ lookup-assign_other k "x-outbox-original-stream" _ one b
                ∙ lookup-assign_other k "x-outbox-original-topic" _ m.headers a)
        ];
      }

  rewrite_all-Forwarded :
      (cfg : DlqConfig) (failed : List Terminal) (msgs : List Message) (j : ℕ) (m : Message)
      → get_elem? msgs j ≡ some m
      → (m' : Message) × (get_elem? (rewrite_all itoa cfg failed msgs) j ≡ some m')
        × Forwarded itoa cfg failed m m'
  unfolding rewrite_all
  rewrite_all-Forwarded cfg failed [] j m f = cc
  rewrite_all-Forwarded cfg failed (x ∷ ms) zero m f = (
    rewrite itoa cfg x (noted x.id failed),
    refl,
    subst (λ y. Forwarded itoa cfg failed y (rewrite itoa cfg x (noted x.id failed))) (some_eq f)
        (rewrite-Forwarded cfg failed x),
  )
  rewrite_all-Forwarded cfg failed (x ∷ ms) (suc j) m f = rewrite_all-Forwarded cfg failed ms j m f

  length-rewrite_all :
      (cfg : DlqConfig) (failed : List Terminal) (msgs : List Message)
      → length (rewrite_all itoa cfg failed msgs) ≡ length msgs
  unfolding rewrite_all
  length-rewrite_all cfg failed [] = refl
  length-rewrite_all cfg failed (m ∷ ms) = ap suc (length-rewrite_all cfg failed ms)

  module _ (lower : String → String) (decode_headers : List ℕ → Result (List (String × String)))
      (decode_target : List ℕ → Result Target) where
    -- Where the dead letters are on and the failed messages can be read, no index is out of range
    -- and there is one event for each message that was read; each was sent with its identifier,
    -- payload and key, readdressed, with the headers that it had and four more, and its event says
    -- what the router answered for it.
    pub handle-Forwarded :
        (cfg : DlqConfig) (router : Router) (at : At) (stream : String) (f : Terminal)
        (fs : List Terminal) (t : Table) (msgs : List Message) (j : ℕ) (m : Message)
        → cfg.enabled ≡ true
        → fetch_by_ids decode_headers decode_target at (terminal_ids (f ∷ fs)) t ≡ ok msgs
        → get_elem? msgs j ≡ some m
        → (rs : List DeadLetter) × (m' : Message) × (answer : Option Err) × (handle itoa lower
              decode_headers decode_target cfg router at stream
              (f ∷ fs)
              t
            ≡ some rs)
          × (length rs ≡ length msgs)
          × (get_elem? (rewrite_all itoa cfg (f ∷ fs) msgs) j ≡ some m')
          × Forwarded itoa cfg (f ∷ fs) m m'
          × (get_elem? (route lower router cfg.stream (rewrite_all itoa cfg (f ∷ fs) msgs)) j
              ≡ some answer)
          × (get_elem? rs j ≡ some (record { stream = cfg.stream; id = m.id; err = answer }))
    unfolding handle forward
    handle-Forwarded cfg router at stream f fs t msgs j m on read e =
        let batch = rewrite_all itoa cfg (f ∷ fs) msgs in
        let (rs, made, size, each) =
          reports-each cfg.stream (route lower router cfg.stream batch) batch
            (length-route lower router cfg.stream batch) in
        let (m', there, good) = rewrite_all-Forwarded cfg (f ∷ fs) msgs j m e in
        let (answer, routed, reported) = each j m' there in
        (
          rs,
          m',
          answer,
          rw (on, read) made,
          size ∙ length-rewrite_all cfg (f ∷ fs) msgs,
          there,
          good,
          routed,
          reported
              ∙ ap (λ i. some (record { stream = cfg.stream; id = i; err = answer }))
                  good.content.0,
        )
