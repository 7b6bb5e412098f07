-- ===== src/Daemon/Publish/Example.antt =====
-- An instance of what a publication calls: a policy is the text of its configuration, and no policy has
-- lists. A world in which nothing was ever published.
use razdacha.Prelude.{inl, refl, [], none, some, Bool, true, false, String, ◌==◌, eq_iff}
use razdacha.Ingress.Example.{outside}
use razdacha.Ingress.Startup.{absent, Outcome}
use razdacha.Daemon.World.{Program, World}
use razdacha.Daemon.Publish.{Answers}
use razdacha.Daemon.Publish.Serving.{IsRest}
use razdacha.Daemon.Publish.Settling.{HasDeepEqual}
use razdacha.Daemon.Publish.Reachable.{started}

abbrev pub program : Program
program = record {
  outside = outside;
  Policy = String;
  Content = Bool;
  Live = Unit {0};
  sources = λ p. [];
  is_native = λ l. l;
  prepare = λ live p ls. some p;
  same_policy = ◌==◌;
  same_contents = λ x y. false;
  valid = λ p. true;
  Settings = String;
  settings = λ p. p;
}

pub program-HasDeepEqual : HasDeepEqual program
program-HasDeepEqual = record {
  same_policy-eq = λ x y h. (eq_iff x y).0 h;
  same_contents-eq = λ x y h. cc;
}

-- Every call ends well.
abbrev pub fine : Answers program
fine = record {
  ends = λ c. Outcome.done;
  passes = λ c. true;
  loaded = [];
  verified = λ m l. true;
  live = tt;
  rows = [];
  port_free = λ e. true;
}

abbrev pub fresh : World program
fresh = started (record {
  committed = none;
  seed = true;
  config = none;
  manifest = absent;
  closed = false;
  dropped = [];
  wireguard = none;
  routed = false;
  nft = none;
  runtime = none;
  base = "";
  contents = [];
  initialized = false;
  uncertain = true;
})

pub fresh-IsRest : IsRest fresh
fresh-IsRest = ((inl refl, λ u. cc), λ u. cc)
