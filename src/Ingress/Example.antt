-- ===== src/Ingress/Example.antt =====
-- An instance of what the guard of the public listeners calls: two addresses, a sum that is the same for
-- all texts, and one text that is a configuration.
use razdacha.Prelude.{
  ◌≡◌, ℕ, refl, [], ◌∷◌, List, none, some, Bool, true, false, String, ◌==◌, if◌then◌else◌,
}
use razdacha.Ingress.Endpoints
use razdacha.Ingress.Endpoints.{Netip}
use razdacha.Ingress.Manifest.{Digest, IsDigest}
use razdacha.Ingress.Startup.{Outside, RuntimeConfig}

-- Two addresses: a public one, and that of loopback.
abbrev pub two_text : Bool → String
two_text true = "1.2.3.4"
two_text false = "127.0.0.1"

abbrev pub two_addresses : Netip
two_addresses = record {
  Addr = Bool;
  parse_addr =
      λ s. if s == "1.2.3.4" then some true else if s == "127.0.0.1" then some false else none;
  text = two_text;
  unmap = λ a. a;
  zoned = λ a. false;
  is_unspecified = λ a. false;
  is_loopback = λ a. if a then false else true;
  is_multicast = λ a. false;
  is4 = λ a. true;
  is6 = λ a. false;
  same_addr = λ a b. if a then b else (if b then false else true);
}

two_parse : (a : Bool) → two_addresses.parse_addr (two_text a) ≡ some a
two_parse true = refl
two_parse false = refl

two_nonempty : (a : Bool) → (two_text a == "") ≡ false
two_nonempty true = refl
two_nonempty false = refl

two_same : (a : Bool) → two_addresses.same_addr a a ≡ true
two_same true = refl
two_same false = refl

pub two-IsLawful : Endpoints.IsLawful two_addresses
two-IsLawful = record {
  parse-text = two_parse;
  unmap_twice = λ a. refl;
  zoned-unmap = λ a h. refl;
  text_nonempty = two_nonempty;
  family = λ s a h. refl;
  same_self = two_same;
}

abbrev pub zeros : List ℕ
zeros =
    0 ∷ 0 ∷ 0 ∷ 0 ∷ 0 ∷ 0 ∷ 0 ∷ 0 ∷ 0 ∷ 0 ∷ 0 ∷ 0 ∷ 0 ∷ 0 ∷ 0 ∷ 0 ∷ 0 ∷ 0 ∷ 0 ∷ 0 ∷ 0 ∷ 0 ∷ 0 ∷ 0
    ∷ 0 ∷ 0 ∷ 0 ∷ 0 ∷ 0 ∷ 0 ∷ 0 ∷ 0 ∷ []

-- A sum that is the same for all texts.
abbrev pub flat_digest : Digest
flat_digest = record {
  sum256 = λ s. zeros;
  hex_decode = λ s. some zeros;
  hex_encode = λ bs. "0000000000000000000000000000000000000000000000000000000000000000";
}

pub flat-IsDigest : IsDigest flat_digest
flat-IsDigest = record {
  length-sum256 = λ s. refl;
  length-hex_encode = λ bs h. refl;
  decode-sum256 = λ s. refl;
  decode-encode = λ s bs h. h;
}

abbrev pub one_listener : RuntimeConfig
one_listener = record {
  inbounds =
      (record {
        kind = "vless";
        tag = "reality-in";
        listen = "1.2.3.4";
        listen_port = 443;
        tls_enabled = true;
        reality_enabled = true;
      })
      ∷ [];
  experimental = [];
}

abbrev pub outside : Outside
outside = record {
  ip = two_addresses;
  digest = flat_digest;
  size = λ s. 10;
  decode = λ s. if s == "vless" then some one_listener else none;
  parse_addr_port = λ s. none;
  broadcast = true;
}
