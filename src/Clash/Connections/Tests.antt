-- ===== src/Clash/Connections/Tests.antt =====
-- The answers of a controller at concrete inputs.
use razdacha.Prelude.{◌≡◌, ◌≤◌, refl, [], ◌∷◌, List, none, some, String, any, length}
use razdacha.Store.Text.{contains}
use razdacha.Clash.Connections.{
  Counter, missing, bytes, Connection, Observation, known, max_connection_flows,
  add_connection_bytes, observation_of, with_connection, sort_of, observe_from, reality_connections,
}
use razdacha.Clash.Connections.Rule.{
  strip, cut, ends_with, valid_from, valid_reality_user, is_route, names_again, reality_rule_user,
}
use razdacha.Clash.Connections.Totals.{IsBounded, observed, reality_connections-observed}

abbrev client : String
client = "client-01234567-89ab-cdef-0123-456789abcdef"

abbrev client_rule : String
client_rule =
    "inbound=reality-in auth_user=client-01234567-89ab-cdef-0123-456789abcdef => route(proxy)"

rule_read : reality_rule_user client_rule ≡ some client
unfolding reality_rule_user strip cut ends_with valid_from valid_reality_user is_route names_again
rule_read = refl

abbrev row : String → Counter → Connection
row id up = record {
  id = id;
  kind = some "vless/reality-in";
  rule = client_rule;
  upload = up;
  download = bytes 7;
}

-- Two flows: the sum of what was uploaded is not known.
abbrev two_rows : List Connection
two_rows = row "a" (bytes 5) ∷ row "b" missing ∷ []

abbrev two_flows : Observation
two_flows = record { open_flows = 2; open_upload_bytes = none; open_download_bytes = some 14 }

abbrev one_flow : Observation
one_flow = record { open_flows = 1; open_upload_bytes = some 5; open_download_bytes = some 7 }

two_observed :
    reality_connections reality_rule_user (some two_rows)
    ≡ some ((client, two_flows) ∷ (client, one_flow) ∷ [])
unfolding reality_connections observe_from sort_of with_connection add_connection_bytes
    observation_of contains any reality_rule_user strip cut ends_with valid_from valid_reality_user
    is_route names_again
two_observed = refl

reality_connections-observed_example :
    (observation_of ((client, two_flows) ∷ (client, one_flow) ∷ []) client
      ≡ observed reality_rule_user client none two_rows)
    × IsBounded (known (observation_of ((client, two_flows) ∷ (client, one_flow) ∷ []) client))
    × (length two_rows ≤ max_connection_flows)
reality_connections-observed_example =
    reality_connections-observed reality_rule_user two_rows
      ((client, two_flows) ∷ (client, one_flow) ∷ []) client two_observed
