-- ===== src/Dispatch/Listener/Wakes.antt =====
-- No announcement of a new message is lost between the listener and the pipelines.
use go_outbox.Base.{
  ◌≡◌, ◌∙◌, refl, ap, sym, subst, Bool, true, false, not, ◌&&◌, ◌||◌, Option, none, some, List, [],
  ◌∷◌, ◌++◌, String, if◌then◌else◌, lookup, assign, lookup-assign_same, lookup-assign_other, any,
  str_eq, str_eq_iff, Bool-cases, inl, inr, arith,
}
use go_outbox.Base.Int.{ℤ, pos, ◌+ℤ◌, ◌-ℤ◌, leb_ℤ}
use go_outbox.Core.Errors.{Err}
use go_outbox.Dispatch.Listener.{
  Wakes, wake_all, wake_one, wake, Wait, gather, coalesce, Notification, Event, notified, taken,
  turn_streams, take_signal, on_event, on_events, connected, listen, add,
}

-- Whether a wait of the window, in time and without a failure before it, brings a stream.
unfoldable pub in_window : ℤ → String → List Wait → Bool
in_window deadline s [] = false
in_window deadline s (w ∷ rest) =
    let later = in_window deadline s rest in
    if leb_ℤ (deadline -ℤ w.now) (pos 0)
    then false
    else elim w.payload [ none ↦ false | some t ↦ str_eq s t || later ]

-- Whether a notification is for a stream, itself or by what its window brings.
unfoldable pub is_for : ℤ → String → Notification → Bool
unfolding in_window
is_for debounce s n =
    str_eq s n.payload || not (leb_ℤ debounce (pos 0)) && in_window (n.start +ℤ debounce) s n.window

-- Whether a pipeline takes its signal.
unfoldable pub takes : String → List Event → Bool
takes s [] = false
takes s (notified n ∷ rest) = takes s rest
takes s (taken t ∷ rest) = str_eq t s || takes s rest

-- What an event makes of the signal of one stream's pipeline.
unfoldable signal_after : ℤ → String → Event → Bool → Bool
signal_after debounce s (notified n) b = b || is_for debounce s n
signal_after debounce s (taken t) b = if str_eq s t then false else b

unfoldable signal_of : ℤ → String → List Event → Bool → Bool
signal_of debounce s [] b = b
signal_of debounce s (e ∷ rest) b = signal_of debounce s rest (signal_after debounce s e b)

any-add :
    (s t : String) (streams : List String)
    → any (str_eq s) (add t streams) ≡ (str_eq s t || any (str_eq s) streams)
any-add s t streams = elim (Bool-cases (any (str_eq t) streams)) [
  | inl there ↦ rw there (elim (Bool-cases (str_eq s t)) [
    | inl same ↦
        rw same (subst (λ x. any (str_eq x) streams ≡ true) (sym ((str_eq_iff s t).0 same)) there)
    | inr other ↦ rw other refl
  ])
  | inr absent ↦ rw absent refl
]

any-gather :
    (deadline : ℤ) (s : String) (window : List Wait) (streams : List String)
    → any (str_eq s) (gather deadline window streams)
      ≡ (any (str_eq s) streams || in_window deadline s window)
unfolding in_window
any-gather deadline s [] streams = ground arith
any-gather deadline s (w ∷ rest) streams =
    by_answer (leb_ℤ (deadline -ℤ w.now) (pos 0)) w.payload
      (λ t. any-gather deadline s rest (add t streams))
  where
    by_answer :
        (over : Bool) (payload : Option String)
        → ((t : String)
            → any (str_eq s) (gather deadline rest (add t streams))
              ≡ (any (str_eq s) (add t streams) || in_window deadline s rest))
        → any (str_eq s) (
            if over
            then streams
            else elim payload [ none ↦ streams | some t ↦ gather deadline rest (add t streams) ])
          ≡ (any (str_eq s) streams
              || (if over then false else elim payload [
                | none ↦ false
                | some t ↦ str_eq s t || in_window deadline s rest
              ]))
    by_answer true payload ih = ground arith
    by_answer false none ih = ground arith
    by_answer false (some t) ih = ground (arith, ih t, any-add s t streams)

any-turn_streams :
    (debounce : ℤ) (s : String) (n : Notification)
    → any (str_eq s) (turn_streams debounce n) ≡ is_for debounce s n
unfolding turn_streams coalesce is_for
any-turn_streams debounce s n = elim (Bool-cases (leb_ℤ debounce (pos 0))) [
  | inl off ↦ rw off (ground arith)
  | inr on ↦ rw on (ground (arith, any-gather (n.start +ℤ debounce) s n.window (n.payload ∷ [])))
]

str_eq_comm : (s t : String) → str_eq s t ≡ str_eq t s
str_eq_comm s t = elim (Bool-cases (str_eq s t)) [
  | inl same ↦ same ∙ sym ((str_eq_iff t s).1 (sym ((str_eq_iff s t).0 same)))
  | inr other ↦ other ∙ sym (ground (arith, str_eq_iff s t, str_eq_iff t s))
]

-- Assigning a value at a key that is there, if it is.
lookup-assigned :
    (s t : String) (v : Bool) (pipelines : Wakes) (b : Bool) (f : Option Bool → Wakes → Wakes)
    → ((m : Wakes) → f none m ≡ m)
    → ((c : Bool) (m : Wakes) → f (some c) m ≡ assign t v m)
    → lookup s pipelines ≡ some b
    → lookup s (f (lookup t pipelines) pipelines) ≡ some (if str_eq s t then v else b)
lookup-assigned s t v pipelines b f on_none on_some h = elim (Bool-cases (str_eq s t)) [
  | inl same ↦
      let e = (str_eq_iff s t).0 same in
      let there : lookup t pipelines ≡ some b = subst (λ x. lookup x pipelines ≡ some b) e h in
      rw (same, there, on_some b pipelines, e) (lookup-assign_same t v pipelines)
  | inr other ↦ rw other (elsewhere (lookup t pipelines) (str_eq_comm t s ∙ other))
]
  where
    elsewhere : (o : Option Bool) → str_eq t s ≡ false → lookup s (f o pipelines) ≡ some b
    elsewhere none n = ap (lookup s) (on_none pipelines) ∙ h
    elsewhere (some c) n =
        ap (lookup s) (on_some c pipelines) ∙ lookup-assign_other s t v pipelines n ∙ h

lookup-wake :
    (s : String) (streams : List String) (pipelines : Wakes) (b : Bool)
    → lookup s pipelines ≡ some b
    → lookup s (wake streams pipelines) ≡ some (b || any (str_eq s) streams)
unfolding wake
lookup-wake s [] pipelines b h = ground arith
lookup-wake s (t ∷ rest) pipelines b h =
    let one = lookup-assigned s t true pipelines b (wake_one t) (λ m. refl) (λ c m. refl) h in
    lookup-wake s rest (wake_one t (lookup t pipelines) pipelines) (if str_eq s t then true else b)
      one
    ∙ ap some (ground arith)

lookup-wake_all :
    (s : String) (pipelines : Wakes) (b : Bool)
    → lookup s pipelines ≡ some b
    → lookup s (wake_all pipelines) ≡ some true
unfolding wake_all
lookup-wake_all s [] b h = cc
lookup-wake_all s ((t, c) ∷ rest) b h = elim (Bool-cases (str_eq t s)) [
  | inl same ↦ rw same refl
  | inr other ↦ rw other (lookup-wake_all s rest b (ground arith))
]

lookup-on_event :
    (debounce : ℤ) (s : String) (e : Event) (pipelines : Wakes) (b : Bool)
    → lookup s pipelines ≡ some b
    → lookup s (on_event debounce e pipelines) ≡ some (signal_after debounce s e b)
unfolding on_event signal_after
lookup-on_event debounce s (notified n) pipelines b h =
    lookup-wake s (turn_streams debounce n) pipelines b h
    ∙ ap (λ c. some (b || c)) (any-turn_streams debounce s n)
lookup-on_event debounce s (taken t) pipelines b h =
    lookup-assigned s t false pipelines b (take_signal t) (λ m. refl) (λ c m. refl) h

-- The signal of one stream's pipeline, by itself.
lookup-on_events :
    (debounce : ℤ) (s : String) (events : List Event) (pipelines : Wakes) (b : Bool)
    → lookup s pipelines ≡ some b
    → lookup s (on_events debounce events pipelines) ≡ some (signal_of debounce s events b)
unfolding on_events signal_of
lookup-on_events debounce s [] pipelines b h = h
lookup-on_events debounce s (e ∷ rest) pipelines b h =
    lookup-on_events debounce s rest (on_event debounce e pipelines) (signal_after debounce s e b)
      (lookup-on_event debounce s e pipelines b h)

signal_of-append :
    (debounce : ℤ) (s : String) (xs ys : List Event) (b : Bool)
    → signal_of debounce s (xs ++ ys) b ≡ signal_of debounce s ys (signal_of debounce s xs b)
unfolding signal_of
signal_of-append debounce s [] ys b = refl
signal_of-append debounce s (e ∷ xs) ys b =
    signal_of-append debounce s xs ys (signal_after debounce s e b)

signal_of-kept :
    (debounce : ℤ) (s : String) (events : List Event)
    → takes s events ≡ false
    → signal_of debounce s events true ≡ true
unfolding signal_of signal_after takes
signal_of-kept debounce s [] h = refl
signal_of-kept debounce s (notified n ∷ rest) h = signal_of-kept debounce s rest h
signal_of-kept debounce s (taken t ∷ rest) h =
    ap (signal_of debounce s rest) (ground (arith, str_eq_comm s t))
    ∙ signal_of-kept debounce s rest (ground arith)

-- Once a notification for a stream that has a pipeline was received, itself or by what arrived in
-- time in the window after it, the pipeline's signal is set and stays so until the pipeline takes
-- it, whatever was announced and taken before, and whatever is announced, or taken by the other
-- pipelines, after it.
pub listen-not_lost :
    (debounce : ℤ) (s : String) (before after : List Event) (n : Notification) (e : Err)
    (pipelines : Wakes) (b : Bool)
    → lookup s pipelines ≡ some b
    → is_for debounce s n ≡ true
    → takes s after ≡ false
    → lookup s (listen debounce (connected (before ++ (notified n ∷ after)) e) pipelines).1
      ≡ some true
unfolding listen
listen-not_lost debounce s before after n e pipelines b h for none_taken =
    lookup-on_events debounce s (before ++ (notified n ∷ after)) (wake_all pipelines) true
      (lookup-wake_all s pipelines b h)
    ∙ ap some (
        signal_of-append debounce s before (notified n ∷ after) true
        ∙ received (signal_of debounce s before true))
  where
    received : (c : Bool) → signal_of debounce s (notified n ∷ after) c ≡ true
    received c =
        unfold signal_of signal_after in
        ap (signal_of debounce s after) (ground arith) ∙ signal_of-kept debounce s after none_taken
