-- ===== src/Clash/Connections/Rule.antt =====
-- internal/clash/connections.go, realityRuleUser: the user that a rule of the runtime names.
use Prim.Native.Char.{code}
use mathlib.Core.Bool.{not}
use razdacha.Prelude.{
  ℕ, suc, Bool, true, false, ◌&&◌, ◌||◌, Option, none, some, String, ◌==◌, eqb, leb, if◌then◌else◌,
}

-- strings.HasPrefix with TrimPrefix.
unfoldable pub strip : String → String → Option String
strip String.[] s = some s
strip (String.◌∷◌ p prefix) String.[] = none
strip (String.◌∷◌ p prefix) (String.◌∷◌ c s) =
    let rest = strip prefix s in if eqb (code p) (code c) then rest else none

-- strings.Cut.
unfoldable pub cut : String → String → Option (String × String)
cut sep String.[] = elim (strip sep String.[]) [ none ↦ none | some after ↦ some ("", after) ]
cut sep (String.◌∷◌ c s) =
    let rest = cut sep s in
    elim (strip sep (String.◌∷◌ c s)) [
      | some after ↦ some ("", after)
      | none ↦ elim rest [ none ↦ none | some (before, after) ↦ some (String.◌∷◌ c before, after) ]
    ]

-- strings.HasSuffix.
unfoldable pub ends_with : String → String → Bool
ends_with suffix String.[] = suffix == ""
ends_with suffix (String.◌∷◌ c s) =
    let rest = ends_with suffix s in String.◌∷◌ c s == suffix || rest

-- The loop of validRealityUser from position `i` on; the text is ASCII where it is accepted, so that a
-- byte is a rune.
unfoldable pub valid_from : ℕ → String → Bool
valid_from i String.[] = eqb i 36
valid_from i (String.◌∷◌ c s) =
    (if eqb i 8 || eqb i 13 || eqb i 18 || eqb i 23
      then eqb (code c) b'-'
      else (leb b'0' (code c) && leb (code c) b'9') || (leb b'a' (code c) && leb (code c) b'f'))
    && valid_from (suc i) s

unfoldable pub valid_reality_user : String → Bool
valid_reality_user user = elim (strip "client-" user) [ none ↦ false | some id ↦ valid_from 0 id ]

-- The action after the arrow.
unfoldable pub is_route : String → Bool
is_route rest = elim (cut "=> " rest) [
  | none ↦ false
  | some (_, action) ↦ elim (strip "route(" action) [ none ↦ false | some _ ↦ ends_with ")" action ]
]

unfoldable pub names_again : String → Bool
names_again rest = elim (cut "auth_user=" rest) [ none ↦ false | some _ ↦ true ]

unfoldable pub reality_rule_user : String → Option String
reality_rule_user rule = elim (strip "inbound=reality-in auth_user=" rule) [
  | none ↦ none
  | some tail ↦ elim (cut " " tail) [
    | none ↦ none
    | some (user, rest) ↦
        if not (valid_reality_user user) || names_again rest
        then none
        else if is_route rest
        then some user
        else none
  ]
]
