-- ===== src/Ingress/Endpoints/Members.antt =====
-- internal/ingressguard/endpoint.go: which endpoints a sorted or an extended list has.
use razdacha.Prelude.{arith, suc, ◌≡◌, ◌↔◌, refl, true, ◌||◌, List, [], ◌∷◌, eq_iff, length}
use razdacha.Ingress.Distinct.{has as among}
use razdacha.Ingress.Endpoints.{Endpoint, same, has, insert_sorted, sort_endpoints}

pub same_iff : (a b : Endpoint) → (same a b ≡ true) ↔ (a ≡ b)
unfolding same
same_iff a b = (
  λ h. ground (arith, eq_iff a.address b.address),
  λ e. ground (arith, eq_iff a.address b.address),
)

has-insert_sorted :
    (x : Endpoint) (xs : List Endpoint) (e : Endpoint)
    → has (insert_sorted x xs) e ≡ (same x e || has xs e)
unfolding among insert_sorted
has-insert_sorted x [] e = refl
has-insert_sorted x (y ∷ ys) e = ground (arith, has-insert_sorted x ys e)

pub has-sort_endpoints : (xs : List Endpoint) (e : Endpoint) → has (sort_endpoints xs) e ≡ has xs e
unfolding among sort_endpoints
has-sort_endpoints [] e = refl
has-sort_endpoints (x ∷ xs) e =
    ground (arith, has-insert_sorted x (sort_endpoints xs) e, has-sort_endpoints xs e)

length-insert_sorted :
    (x : Endpoint) (xs : List Endpoint) → length (insert_sorted x xs) ≡ suc (length xs)
unfolding insert_sorted
length-insert_sorted x [] = refl
length-insert_sorted x (y ∷ ys) = ground (arith, length-insert_sorted x ys)

pub length-sort_endpoints : (xs : List Endpoint) → length (sort_endpoints xs) ≡ length xs
unfolding sort_endpoints
length-sort_endpoints [] = refl
length-sort_endpoints (x ∷ xs) =
    omega (arith, length-insert_sorted x (sort_endpoints xs), length-sort_endpoints xs)
