-- ===== src/Config/Brokers/Streams.antt =====
-- Which streams the routing table has, and which drivers they name.
use go_outbox.Base.{
  ◌≡◌, ◌≢◌, refl, ap, sym, ◌∙◌, Bool, true, false, ◌||◌, Option, none, some, List, [], ◌∷◌, ◌++◌,
  String, str_eq, str_eq_iff, if◌then◌else◌, any, lookup, assign, lookup-assign, lookup-assign_same,
  lookup-assign_other, subst, is_some, Bool-cases, inl, inr, arith,
}
use go_outbox.Core.Errors.{ok, ok_eq}
use go_outbox.Config.Settings.{StreamConfig}
use go_outbox.Config.Environment.{Source, Library, contains, refuse-eq-ok}
use go_outbox.Config.Brokers.{
  env_token, driver_of, stream_of, with_driver, add_streams, reject_colliding_names,
}

pub any-append {ℓ} :
    {A : Type ℓ} (p : A → Bool) (xs ys : List A) → any p (xs ++ ys) ≡ (any p xs || any p ys)
any-append p [] ys = refl
any-append p (x ∷ xs) ys = ground (arith, any-append p xs ys)

contains-append :
    (xs ys : List String) (s : String) → contains (xs ++ ys) s ≡ (contains xs s || contains ys s)
unfolding contains
contains-append xs ys s = any-append (str_eq s) xs ys

contains-one : (s : String) → contains (s ∷ []) s ≡ true
unfolding contains
contains-one s = ground (arith, str_eq_iff s s)

pub contains-cons :
    (s x : String) (xs : List String) → contains (x ∷ xs) s ≡ (str_eq s x || contains xs s)
unfolding contains
contains-cons s x xs = refl

pub contains-nil : (s : String) → contains [] s ≡ false
unfolding contains
contains-nil s = refl

module _ (lib : Library) where
  with_driver-keeps :
      (d : String) (names : List String) (s : String)
      → contains names s ≡ true
      → contains (with_driver lib d names) s ≡ true
  with_driver-keeps d names s h = ground (arith, contains-append names (d ∷ []) s)

  with_driver-has : (d : String) (names : List String) → contains (with_driver lib d names) d ≡ true
  with_driver-has d names = ground (arith, contains-append names (d ∷ []) d, contains-one d)

  -- Whether a list of names has a stream, up to the case of letters.
  abbrev pub listed : String → List String → Bool
  listed s names = any (λ n. str_eq (lib.lower n) s) names

  pub record Added (src : Source) (names : List String) (streams : List (String × StreamConfig))
      (drivers : List String) (r : List (String × StreamConfig) × List String) : Type 0 where
    pub at_each :
        (s : String)
        → lookup s r.0 ≡ (if listed s names then some (stream_of lib src s) else lookup s streams)
    pub keeps : (d : String) → contains drivers d ≡ true → contains r.1 d ≡ true
    pub has : (s : String) → listed s names ≡ true → contains r.1 (driver_of lib src s) ≡ true

  at_step :
      (src : Source) (s name : String) (rest : List String) (streams : List (String × StreamConfig))
      (found : Option StreamConfig)
      → found ≡ (
          if listed s rest
          then some (stream_of lib src s)
          else lookup s (assign (lib.lower name) (stream_of lib src (lib.lower name)) streams))
      → found ≡ (if listed s (name ∷ rest) then some (stream_of lib src s) else lookup s streams)
  at_step src s name rest streams found h = elim (Bool-cases (str_eq (lib.lower name) s)) [
    | inl same ↦
        let e = (str_eq_iff (lib.lower name) s).0 same in
        let set : lookup s (assign (lib.lower name) (stream_of lib src (lib.lower name)) streams)
            ≡ some (stream_of lib src s) =
          subst
            (λ x. lookup s (assign x (stream_of lib src x) streams) ≡ some (stream_of lib src s))
            (sym e) (lookup-assign_same s (stream_of lib src s) streams) in
        rw same (h ∙ either (listed s rest) set)
    | inr other ↦ rw other (
        h
        ∙ ap (λ o. if listed s rest then some (stream_of lib src s) else o)
            (lookup-assign_other s (lib.lower name) (stream_of lib src (lib.lower name)) streams
              other))
  ]
    where
      either :
          (b : Bool) {o : Option StreamConfig} {a : StreamConfig}
          → o ≡ some a
          → (if b then some a else o) ≡ some a
      either true e = refl
      either false e = e

  pub add_streams-Added :
      (src : Source) (names : List String) (streams : List (String × StreamConfig))
      (drivers : List String) (r : List (String × StreamConfig) × List String)
      → add_streams lib src names streams drivers ≡ ok r
      → Added src names streams drivers r
  unfolding add_streams
  add_streams-Added src [] streams drivers r h =
      rw (sym (ok_eq h)) (record { at_each = λ s. refl; keeps = λ d p. p; has = λ s p. cc })
  add_streams-Added src (name ∷ rest) streams drivers r h =
      let stream = lib.lower name in
      let d = driver_of lib src stream in
      let (given, h) = refuse-eq-ok _ _ _ r h in
      let ih =
        add_streams-Added src rest (assign stream (stream_of lib src stream) streams)
          (with_driver lib d drivers) r h in
      record {
        at_each = λ s. at_step src s name rest streams (lookup s r.0) (ih.at_each s);
        keeps = λ e p. ih.keeps e (with_driver-keeps d drivers e p);
        has = λ s p. elim (Bool-cases (str_eq stream s)) [
          | inl same ↦
              subst (λ x. contains r.1 (driver_of lib src x) ≡ true) ((str_eq_iff stream s).0 same)
                (ih.keeps d (with_driver-has d drivers))
          | inr other ↦ ih.has s (ground arith)
        ];
      }

  fresh :
      (names : List String) (seen : List (String × String)) (x : String)
      → reject_colliding_names lib seen names ≡ ok tt
      → contains names x ≡ true
      → lookup (env_token lib x) seen ≡ none
  unfolding reject_colliding_names
  fresh [] seen x h p = ground (arith, contains-nil x)
  fresh (name ∷ rest) seen x h p =
      let (new, h) = refuse-eq-ok _ _ _ tt h in
      elim (Bool-cases (str_eq x name)) [
        | inl same ↦ rw ((str_eq_iff x name).0 same) (unseen _ new)
        | inr other ↦
            let later : lookup (env_token lib x) (assign (env_token lib name) name seen) ≡ none =
              fresh rest (assign (env_token lib name) name seen) x h
                (ground (arith, contains-cons x name rest)) in
            ground (arith, later, lookup-assign (env_token lib x) (env_token lib name) name seen)
      ]
    where
      unseen : (o : Option String) → is_some o ≡ false → o ≡ none
      unseen none h = refl
      unseen (some a) h = cc

  apart :
      (name x : String) (seen : List (String × String))
      → lookup (env_token lib x) (assign (env_token lib name) name seen) ≡ none
      → env_token lib x ≢ env_token lib name
  apart name x seen n e =
      let set = lookup-assign_same (env_token lib name) name seen in
      let unset = subst (λ k. lookup k (assign (env_token lib name) name seen) ≡ none) e n in cc

  -- Names that passed the check are told apart by what they read.
  pub reject_colliding_names-distinct :
      (names : List String) (seen : List (String × String)) (x y : String)
      → reject_colliding_names lib seen names ≡ ok tt
      → contains names x ≡ true
      → contains names y ≡ true
      → env_token lib x ≡ env_token lib y
      → x ≡ y
  unfolding reject_colliding_names
  reject_colliding_names-distinct [] seen x y h p q e = ground (arith, contains-nil x)
  reject_colliding_names-distinct (name ∷ rest) seen x y h p q e =
      let (new, h) = refuse-eq-ok _ _ _ tt h in
      let seen' = assign (env_token lib name) name seen in
      elim (Bool-cases (str_eq x name)) [
        | inl first ↦ elim (Bool-cases (str_eq y name)) [
          | inl second ↦ (str_eq_iff x name).0 first ∙ sym ((str_eq_iff y name).0 second)
          | inr later ↦
              let y_in : contains rest y ≡ true = ground (arith, contains-cons y name rest) in
              absurd (
                apart name y seen (fresh rest seen' y h y_in)
                  (sym e ∙ ap (env_token lib) ((str_eq_iff x name).0 first)))
        ]
        | inr later ↦
            let x_in : contains rest x ≡ true = ground (arith, contains-cons x name rest) in
            elim (Bool-cases (str_eq y name)) [
              | inl second ↦ absurd (
                  apart name x seen (fresh rest seen' x h x_in)
                    (e ∙ ap (env_token lib) ((str_eq_iff y name).0 second)))
              | inr both ↦
                  let y_in : contains rest y ≡ true = ground (arith, contains-cons y name rest) in
                  reject_colliding_names-distinct rest seen' x y h x_in y_in e
            ]
      ]
