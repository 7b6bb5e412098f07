-- ===== src/Clash/Connections.antt =====
-- internal/clash/connections.go, RealityConnections from the decoded answer on: what each user has open.
pub mod Rule
pub mod Totals
mod Tests
use mathlib.Core.Bool.{not}
use razdacha.Prelude.{
  ℕ, suc, ◌+◌, ◌-◌, Bool, true, false, ◌&&◌, ◌||◌, List, [], ◌∷◌, Option, none, some, String, ◌==◌,
  length, ltb, if◌then◌else◌,
}
use razdacha.Store.Text.{contains}

abbrev pub max_connection_flows : ℕ
max_connection_flows = 4096

-- math.MaxInt64.
abbrev pub max_int64 : ℕ
max_int64 = 9223372036854775807

abbrev pub reality_inbound : String
reality_inbound = "vless/reality-in"

-- A byte counter as it is decoded: absent or null; not an integer of 64 bits, or negative; a number.
pub data Counter : Type 0 where
  missing invalid : Counter
  bytes : ℕ → Counter

-- A row. `kind` is none where the row or its metadata is missing, or its type is blank.
pub record Connection : Type 0 where
  pub id : String
  pub kind : Option String
  pub rule : String
  pub upload : Counter
  pub download : Counter

-- RealityConnectionObservation, where a sum that is not known is none.
pub record Observation : Type 0 where
  pub open_flows : ℕ
  pub open_upload_bytes : Option ℕ
  pub open_download_bytes : Option ℕ

-- addConnectionBytes: none for an error.
unfoldable pub add_connection_bytes : Option ℕ → Counter → Option (Option ℕ)
add_connection_bytes sum missing = some none
add_connection_bytes sum invalid = none
add_connection_bytes none (bytes value) = some none
add_connection_bytes (some sum) (bytes value) =
    if ltb (max_int64 - sum) value then none else some (some (sum + value))

-- The map of the observations: the last write to a user stands first.
unfoldable pub observation_of : List (String × Observation) → String → Option Observation
observation_of [] user = none
observation_of ((key, o) ∷ observations) user =
    let rest = observation_of observations user in if key == user then some o else rest

abbrev pub no_flows : Observation
no_flows = record { open_flows = 0; open_upload_bytes = some 0; open_download_bytes = some 0 }

abbrev pub known : Option Observation → Observation
known none = no_flows
known (some o) = o

-- The observation of a user, with one more row.
unfoldable pub with_connection : Observation → Connection → Option Observation
with_connection o c = elim (add_connection_bytes o.open_upload_bytes c.upload) [
  | none ↦ none
  | some up ↦ elim (add_connection_bytes o.open_download_bytes c.download) [
    | none ↦ none
    | some down ↦ some (record {
      open_flows = suc o.open_flows;
      open_upload_bytes = up;
      open_download_bytes = down;
    })
  ]
]

-- What a row is for: it cannot be read, it is of another inbound, or it is of the authenticated user
-- that `user_of`, realityRuleUser, finds in its rule.
pub data Sort : Type 0 where
  unreadable other : Sort
  of_user : String → Sort

module _ (user_of : String → Option String) where
  unfoldable pub sort_of : List String → Connection → Sort
  sort_of seen c = elim c.kind [
    | none ↦ unreadable
    | some kind ↦
        if not (kind == reality_inbound)
        then other
        else if c.id == "" || contains seen c.id
        then unreadable
        else elim (user_of c.rule) [ none ↦ unreadable | some user ↦ of_user user ]
  ]

  -- The loop, with the identities seen and the map so far; none for an error.
  unfoldable pub observe_from :
      List String
      → List (String × Observation)
      → List Connection
      → Option (List (String × Observation))
  observe_from seen observations [] = some observations
  observe_from seen observations (c ∷ cs) = elim (sort_of seen c) [
    | unreadable ↦ none
    | other ↦ observe_from seen observations cs
    | of_user user ↦ elim (with_connection (known (observation_of observations user)) c) [
      | none ↦ none
      | some o ↦ observe_from (c.id ∷ seen) ((user, o) ∷ observations) cs
    ]
  ]

  -- `rows` is none where the answer has no list.
  unfoldable pub reality_connections :
      Option (List Connection) → Option (List (String × Observation))
  reality_connections none = none
  reality_connections (some rows) =
      if ltb max_connection_flows (length rows) then none else observe_from [] [] rows
