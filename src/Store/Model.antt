-- ===== src/Store/Model.antt =====
-- internal/store/model.go: the records of the database and the checks before a write. A time is the
-- number of its second, and `none` where Go has the zero time.
use razdacha.Prelude.{
  ℕ, Bool, true, false, not, ◌&&◌, ◌||◌, List, [], ◌∷◌, String, ◌==◌, Option, none, some,
  if◌then◌else◌, any,
}
use razdacha.Prelude.Int.{ℤ}
use razdacha.Store.Text.{contains}

-- The errors by which callers decide; `unique` and `foreign_key` are the driver's.
pub data Error : Type 0 where
  conflict not_found in_use invalid unique foreign_key : Error

pub data Result {ℓ} (A : Type ℓ) : Type ℓ where
  ok : A → Result A
  err : Error → Result A

-- `RuleAction`, `PeerScope`, `TunnelType` and `TunnelSource` are strings in the source too.
abbrev pub action_tunnel : String
action_tunnel = "tunnel"

abbrev pub action_direct : String
action_direct = "direct"

abbrev pub action_block : String
action_block = "block"

abbrev pub rule_actions : List String
rule_actions = action_tunnel ∷ action_direct ∷ action_block ∷ []

abbrev pub scope_all : String
scope_all = "all"

abbrev pub scope_selected : String
scope_selected = "selected"

abbrev pub source_pool : String
source_pool = "pool"

abbrev pub source_warp : String
source_warp = "warp"

abbrev pub tunnel_wireguard : String
tunnel_wireguard = "wireguard"

abbrev pub tunnel_raw : String
tunnel_raw = "raw"

abbrev tunnel_types : List String
tunnel_types =
    tunnel_wireguard ∷ "vless" ∷ "shadowsocks" ∷ "trojan" ∷ "hysteria2" ∷ "socks" ∷ tunnel_raw ∷ []

abbrev plain_sources : List String
plain_sources = "url" ∷ "wg_conf" ∷ "json" ∷ []

pub record PoolServer : Type 0 where
  pub url : String
  pub country : String
  pub title : String
  pub ping_ms : ℕ
  pub misses : ℕ

pub record Tunnel : Type 0 where
  pub id : String
  pub name : String
  pub type : String
  pub source : String
  pub raw : String
  pub parsed : String
  pub enabled : Bool
  pub created_at : Option ℕ
  pub pool : List PoolServer
  pub pool_updated_at : Option ℕ
  pub builtin : Bool
  pub country : String

pub record Rule : Type 0 where
  pub id : String
  pub name : String
  pub action : String
  pub tunnel_id : String
  pub via_tunnel_id : String
  pub priority : ℤ
  pub enabled : Bool
  pub community_lists : List String
  pub domains : List String
  pub subnets : List String
  pub remote_lists : List String
  pub peer_scope : String
  pub peer_ids : List String
  pub resolve_real_ip : Bool

pub record Peer : Type 0 where
  pub wire_guard_disabled : Bool
  pub reality_enabled : Bool
  pub reality_credential_id : String
  pub reality_revision : ℕ
  pub egress_tunnel_id : Option String
  pub id : String
  pub name : String
  pub public_key : String
  pub private_key : String
  pub preshared_key : String
  pub address : String
  pub enabled : Bool
  pub created_at : Option ℕ

-- A row of reality_credentials.
pub record Credential : Type 0 where
  pub peer_id : String
  pub credential_id : String
  pub revision : ℕ
  pub uuid : String

-- `len(l) == 0`.
abbrev pub is_empty {ℓ} : {A : Type ℓ} → List A → Bool
is_empty [] = true
is_empty (x ∷ xs) = false

-- The first error among the checks: each is a test that must fail.
unfoldable pub first_error : List Bool → Option Error
first_error [] = none
first_error (true ∷ rest) = some Error.invalid
first_error (false ∷ rest) = first_error rest

-- `Rule.validate`.
unfoldable pub validate_rule : Rule → Option Error
unfolding first_error contains
validate_rule r = first_error (
    (r.name == "")
    ∷ not (contains rule_actions r.action)
    ∷ ((r.action == action_tunnel) && (r.tunnel_id == ""))
    ∷ (((r.action == action_direct) || (r.action == action_block)) && not (r.tunnel_id == ""))
    ∷ (r.resolve_real_ip
        && (r.action == action_tunnel)
        && is_empty r.subnets
        && is_empty r.remote_lists
        && is_empty r.community_lists)
    ∷ (is_empty r.community_lists
        && is_empty r.remote_lists
        && is_empty r.domains
        && is_empty r.subnets)
    ∷ (not (r.via_tunnel_id == "") && not (r.action == action_tunnel))
    ∷ ((r.peer_scope == scope_all) && not (is_empty r.peer_ids))
    ∷ ((r.peer_scope == scope_selected) && is_empty r.peer_ids && r.enabled)
    ∷ (not (r.peer_scope == scope_all) && not (r.peer_scope == scope_selected))
    ∷ [])

-- `Peer.validate`.
unfoldable pub validate_peer : Peer → Option Error
unfolding first_error
validate_peer p = first_error (
    (p.enabled && p.wire_guard_disabled && not p.reality_enabled)
    ∷ (p.name == "")
    ∷ ((p.public_key == "") || (p.private_key == "") || (p.preshared_key == ""))
    ∷ (p.address == "")
    ∷ [])

-- The switch on the source in `Tunnel.validate`.
tunnel_source_error : Tunnel → Bool
unfolding contains any
tunnel_source_error t =
    if t.source == source_pool
    then (t.type == tunnel_wireguard)
      || (t.type == tunnel_raw)
      || (t.type == "")
      || not (t.parsed == "")
      || any (λ s. s.url == "") t.pool
    else if t.source == source_warp
    then not (t.type == tunnel_wireguard) || not (is_empty t.pool)
    else if contains plain_sources t.source
    then not (is_empty t.pool)
    else true

-- `Tunnel.validate`; `json_valid` is `json.Valid`.
unfoldable pub validate_tunnel : (String → Bool) → Tunnel → Option Error
unfolding first_error contains tunnel_source_error
validate_tunnel json_valid t = first_error (
    (t.name == "")
    ∷ not (contains tunnel_types t.type)
    ∷ tunnel_source_error t
    ∷ (t.builtin && not (t.source == source_pool))
    ∷ (not (t.country == "") && not (t.source == source_pool))
    ∷ (t.raw == "")
    ∷ (not (t.parsed == "") && not (json_valid t.parsed))
    ∷ [])
