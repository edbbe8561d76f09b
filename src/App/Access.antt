-- ===== src/App/Access.antt =====
-- internal/app/api.go, http.go: who may requeue over HTTP.
--
-- `cut_prefix` is strings.CutPrefix, which tells the same as the comparison of the source.
use go_outbox.Base.{
  ◌≡◌, refl, false, not, Option, none, some, String, str_eq, str_eq_iff, if◌then◌else◌, Bool-cases,
  inl, inr, ◌⊎◌,
}
use go_outbox.Store.Table.{Table}
use go_outbox.App.{Response, refusal}

module _ (cut_prefix : String → String → Option String) where
  -- `cutBearer`; a header that is nothing but the prefix is left as it is.
  unfoldable pub cut_bearer : String → String
  cut_bearer header = elim (cut_prefix header "Bearer ") [
    | none ↦ header
    | some rest ↦ if str_eq rest "" then header else rest
  ]

  -- `requireToken`, round a handler that may change the table.
  unfoldable pub require_token :
      String → String → (Table → Response × Table) → Table → Response × Table
  unfolding cut_bearer
  require_token token header next t =
      if not (str_eq (cut_bearer header) token)
      then (refusal 401 "a valid admin token is required", t)
      else next t

  -- The route of a requeue, which is there only where a token is configured.
  unfoldable pub requeue_route :
      String → String → (Table → Response × Table) → Table → Option Response × Table
  unfolding require_token
  requeue_route token header next t =
      if not (str_eq token "")
      then (let (r, after) = require_token token header next t in (some r, after))
      else (none, t)

  -- A request to requeue that changes the table comes with the token, and there is one.
  pub requeue_route-Guarded :
      (token header : String) (next : Table → Response × Table) (t : Table)
      → ((requeue_route token header next t).1 ≡ t)
        ⊎ ((cut_bearer header ≡ token) × (str_eq token "" ≡ false))
  unfolding requeue_route require_token
  requeue_route-Guarded token header next t = elim (Bool-cases (str_eq token "")) [
    | inl unset ↦ inl (rw unset refl)
    | inr set ↦ elim (Bool-cases (str_eq (cut_bearer header) token)) [
      | inl same ↦ inr ((str_eq_iff (cut_bearer header) token).0 same, set)
      | inr other ↦ inl (rw (set, other) refl)
    ]
  ]
