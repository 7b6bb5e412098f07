-- ===== src/Qr/Encode.antt =====
-- Encode of internal/qr/qr.go: the least version, and the mask with the least penalty.
pub mod Readable
use native.Mathlib.Nat.{add-zero}
use razdacha.Prelude.{
  ℕ, zero, suc, ◌+◌, ◌≤◌, ◌<◌, ◌≡◌, ◌≢◌, ◌↔◌, refl, sym, ap, ◌∙◌, arith, Bool, true, false, List,
  length, Option, none, some, ltb, eqb, if◌then◌else◌, Bool-cases, Option-cases, inl, inr, eqb_iff,
}
use razdacha.Qr.Byte.{Byte}
use razdacha.Qr.Version.{pick_version}
use razdacha.Qr.Version.Choice.{pick_version-first_holding}
use razdacha.Qr.Stream.{bit_stream}
use razdacha.Qr.Matrix.{Matrix}
use razdacha.Qr.Place.{place}
use razdacha.Qr.Penalty.{penalty}

-- `best` and `bestScore`; `none` is the score -1.
pub record Best : Type 0 where
  pub matrix : Matrix
  pub score : ℕ

unfoldable pub better : Matrix → ℕ → Option Best → Bool
better m score none = true
better m score (some best) = ltb score best.score

-- The loop over the masks, with so many to go.
unfoldable pub best_mask : (ℕ → Matrix) → ℕ → ℕ → Option Best → Option Best
best_mask candidate zero mask best = best
best_mask candidate (suc rounds) mask best =
    let m = candidate mask in
    let score = penalty m in
    best_mask candidate rounds (mask + 1)
      (if better m score best then some (record { matrix = m; score = score }) else best)

unfoldable pub best_matrix : Option Best → Option Matrix
best_matrix none = none
best_matrix (some best) = some best.matrix

-- `none` is ErrTooLong.
unfoldable pub encode : List Byte → Option Matrix
encode text = elim (pick_version (length text)) [
  | none ↦ none
  | some version ↦ best_matrix (best_mask (place version (bit_stream text version)) 8 0 none)
]

-- The best of the masks below n.
record Chosen (candidate : ℕ → Matrix) (n : ℕ) (b : Best) : Type 0 where
  mask : ℕ
  known : mask < n
  drawn : b.matrix ≡ candidate mask
  scored : b.score ≡ penalty (candidate mask)
  least : (other : ℕ) → other < n → b.score ≤ penalty (candidate other)

module _ (candidate : ℕ → Matrix) where
  keep_best :
      (n : ℕ) (b : Best)
      → Chosen candidate n b
      → ltb (penalty (candidate n)) b.score ≡ false
      → Chosen candidate (n + 1) b
  keep_best n b c h = record {
    mask = c.mask;
    known = omega (arith, c.known);
    drawn = c.drawn;
    scored = c.scored;
    least = λ other k. elim (Bool-cases (eqb other n)) [
      | inl new ↦ rw ((eqb_iff other n).0 new) (ground arith)
      | inr old ↦ c.least other (ground arith)
    ];
  }

  take_new :
      (n : ℕ) (b : Best)
      → Chosen candidate n b
      → ltb (penalty (candidate n)) b.score ≡ true
      → Chosen candidate (n + 1) (record { matrix = candidate n; score = penalty (candidate n) })
  take_new n b c h = record {
    mask = n;
    known = omega arith;
    drawn = refl;
    scored = refl;
    least = λ other k. elim (Bool-cases (eqb other n)) [
      | inl new ↦ rw ((eqb_iff other n).0 new) (omega arith)
      | inr old ↦
          let bound : b.score ≤ penalty (candidate other) = c.least other (ground arith) in
          ground arith
    ];
  }

  best_mask-Chosen :
      (rounds n : ℕ) (b : Best)
      → Chosen candidate n b
      → (b' : Best) × (best_mask candidate rounds n (some b) ≡ some b')
        × Chosen candidate (n + rounds) b'
  unfolding best_mask better
  best_mask-Chosen zero n b c = (b, refl, rw (add-zero n) c)
  best_mask-Chosen (suc rounds) n b c =
      let e : n + 1 + rounds ≡ n + suc rounds = omega arith in
      elim (Bool-cases (ltb (penalty (candidate n)) b.score)) [
        | inl less ↦
            rw (less, ← e)
              (best_mask-Chosen rounds (n + 1)
                (record { matrix = candidate n; score = penalty (candidate n) })
                (take_new n b c less))
        | inr more ↦ rw (more, ← e) (best_mask-Chosen rounds (n + 1) b (keep_best n b c more))
      ]

  first_mask : Chosen candidate 1 (record { matrix = candidate 0; score = penalty (candidate 0) })
  first_mask = record {
    mask = 0;
    known = omega arith;
    drawn = refl;
    scored = refl;
    least = λ other k. let e : other ≡ 0 = omega arith in rw e (omega arith);
  }

  best_mask-start :
      best_mask candidate 8 0 none
      ≡ best_mask candidate 7 1
          (some (record { matrix = candidate 0; score = penalty (candidate 0) }))
  unfolding best_mask better
  best_mask-start = refl

  best_matrix-some :
      (o : Option Best) (b : Best) (m : Matrix) → o ≡ some b → b.matrix ≡ m → best_matrix o ≡ some m
  unfolding best_matrix
  best_matrix-some o b m e f = rw e (ap some f)

  best_mask_least :
      (other : ℕ)
      → other < 8
      → (mask : ℕ) × (mask < 8)
        × (best_matrix (best_mask candidate 8 0 none) ≡ some (candidate mask))
        × (penalty (candidate mask) ≤ penalty (candidate other))
  best_mask_least other h =
      let (b, found, c) = best_mask-Chosen 7 1 _ first_mask in
      (
        c.mask,
        omega (arith, c.known),
        best_matrix-some _ b (candidate c.mask) (best_mask-start ∙ found) c.drawn,
        omega (arith, c.scored, c.least other (omega arith)),
      )

some_not_none {ℓ} : {A : Type ℓ} (a : A) → some a ≢ none
some_not_none a e = cc

-- Whatever mask another encoder takes: Encode gives the matrix of the version that pickVersion chose,
-- under one of the eight masks, and its penalty is at most that of the other mask.
pub encode-least :
    (text : List Byte) (version other : ℕ)
    → pick_version (length text) ≡ some version
    → other < 8
    → (mask : ℕ) × (mask < 8)
      × (encode text ≡ some (place version (bit_stream text version) mask))
      × (penalty (place version (bit_stream text version) mask)
          ≤ penalty (place version (bit_stream text version) other))
unfolding encode
encode-least text version other e h =
    rw (e, encode) (best_mask_least (place version (bit_stream text version)) other h)

encode-refused : (text : List Byte) → pick_version (length text) ≡ none → encode text ≡ none
unfolding encode
encode-refused text e = rw (e, encode) refl

-- Encode fails exactly on the texts of more than 2953 bytes.
pub encode-none : (text : List Byte) → (encode text ≡ none) ↔ (2953 < length text)
encode-none text =
    let limit : (pick_version (length text) ≡ none) ↔ (2953 < length text) =
      (pick_version-first_holding (length text)).1 in
    elim (Option-cases (pick_version (length text))) [
      | inl refused ↦ ((λ e. limit.0 refused), (λ h. encode-refused text refused))
      | inr (v, picked) ↦
          let (mask, _, made, _) = encode-least text v 0 picked (omega arith) in
          (
            (λ e. absurd (some_not_none _ (sym made ∙ e))),
            (λ h. absurd (some_not_none v (sym picked ∙ limit.1 h))),
          )
    ]
