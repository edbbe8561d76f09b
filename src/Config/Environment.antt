-- ===== src/Config/Environment.antt =====
-- What the settings of the drivers are read from and with: `Source` of internal/config/broker.go,
-- internal/config/parse.go, and the connection string of internal/config/config.go.
--
-- `Library` has the functions of strings, strconv, time, encoding, net and net/url that the
-- configuration calls. A parsed URL is known by what it prints once its user information is set.
use Prim.Native.String.{◌++◌ as cat}
use go_outbox.Base.{
  ℕ, ◌≡◌, refl, Bool, true, false, not, Option, none, List, [], ◌∷◌, String, str_eq, if◌then◌else◌,
  coalesce, any,
}
use go_outbox.Base.Int.{ℤ}
use go_outbox.Core.Errors.{leaf, text, Result, ok, err}

-- `Source`
pub record Source : Type 0 where
  pub find : String → Option String
  pub all : List (String × String)

-- The fields of url.URL that `ConnString` sets.
pub record Url : Type 0 where
  pub scheme : String
  pub user : String
  pub password : String
  pub host : String
  pub path : String
  pub raw_query : String

pub record Library : Type 0 where
  pub trim : String → String
  pub lower : String → String
  pub upper : String → String
  pub replace_all : String → String → String → String
  pub split : String → String → List String
  pub has_prefix : String → String → Bool
  pub includes : String → String → Bool
  pub cut_prefix : String → String → Option String
  pub equal_fold : String → String → Bool
  -- `len(s) <= len(t)`, in bytes
  pub shorter_or_equal : String → String → Bool
  pub sort_strings : List String → List String
  -- the parts before and after a separator
  pub cut : String → String → Option (String × String)
  pub itoa : ℤ → String
  pub atoi : String → Result ℤ
  pub parse_bool : String → Result Bool
  pub parse_duration : String → Result ℤ
  pub decode_base64 : String → Result (List ℕ)
  pub is_pem : List ℕ → Bool
  pub join_host_port : String → String → String
  pub encode_query : List (String × String) → String
  pub print_url : Url → String
  pub parse_url : String → Result (Option String → String)

abbrev pub failed {ℓ} : {A : Type ℓ} → String → Result A
failed problem = err (leaf (text problem))

-- `if problem { return …, errors.New("…") }`. This and the sequence of two calls are kept shut, so
-- that a proof takes a chain apart from its front.
unfoldable pub refuse {ℓ} : {A : Type ℓ} → Bool → String → Result A → Result A
refuse true problem m = failed problem
refuse false problem m = m

infixl 5 ◌>>=◌
unfoldable pub ◌>>=◌ {ℓ κ} : {A : Type ℓ} {B : Type κ} → Result A → (A → Result B) → Result B
err e >>= f = err e
ok a >>= f = f a

-- What a chain of two calls that ended well went through.
pub record Passed {ℓ κ} {A : Type ℓ} {B : Type κ} (f : A → Result B) (m : Result A) (b : B)
    : Type (ℓ ⊔ κ) where
  pub value : A
  pub first : m ≡ ok value
  pub next : f value ≡ ok b

pub bind-Passed {ℓ κ} :
    {A : Type ℓ} {B : Type κ} (f : A → Result B) (m : Result A) (b : B)
    → (m >>= f) ≡ ok b
    → Passed f m b
unfolding ◌>>=◌
bind-Passed f (err e) b h = cc
bind-Passed f (ok a) b h = record { value = a; first = refl; next = h }

pub refuse-eq-ok {ℓ} :
    {A : Type ℓ} (c : Bool) (problem : String) (m : Result A) (a : A)
    → refuse c problem m ≡ ok a
    → (c ≡ false) × (m ≡ ok a)
unfolding refuse
refuse-eq-ok true problem m a h = cc
refuse-eq-ok false problem m a h = (refl, h)

-- `slices.Contains`
unfoldable pub contains : List String → String → Bool
contains list s = any (str_eq s) list

-- `strings.Join`
unfoldable pub joined : String → List String → String
joined sep [] = ""
joined sep (s ∷ []) = s
joined sep (s ∷ t ∷ rest) = cat s (cat sep (joined sep (t ∷ rest)))

-- `lookup`
unfoldable pub value_of : Source → String → String
value_of src key = coalesce (src.find key) ""

unfoldable pub or_default : String → String → String
or_default v default = if str_eq v "" then default else v

-- Each element of a comma-separated list that is not blank, trimmed.
abbrev pub trimmed_parts : (String → String) → List String → List String
trimmed_parts trim [] = []
trimmed_parts trim (part ∷ parts) =
    let rest = trimmed_parts trim parts in
    if not (str_eq (trim part) "") then trim part ∷ rest else rest

module _ (lib : Library) where
  unfoldable pub parse_list : String → List String
  parse_list s = trimmed_parts lib.trim (lib.split s ",")

  unfoldable pub int_or_default : String → ℤ → Result ℤ
  int_or_default s default = if str_eq s "" then ok default else lib.atoi s

  unfoldable pub bool_or_default : String → Bool → Result Bool
  bool_or_default s default = if str_eq s "" then ok default else lib.parse_bool s

  unfoldable pub duration_or_default : String → ℤ → Result ℤ
  duration_or_default s default = if str_eq s "" then ok default else lib.parse_duration s

  -- `redactDSN`
  unfoldable pub redact_dsn : String → String
  redact_dsn dsn = elim (lib.parse_url dsn) [ ok url ↦ url none | err e ↦ "unparseable" ]
