-- ===== src/Oracle/Aggregator/Deserved.antt =====
-- Who is charged, and for what, by the analysis of internal/oracle/aggregator.go.
use aegis_protocol.Base.{
  ℕ, ◌+◌, ◌<◌, ◌≡◌, ◌≢◌, ◌⊎◌, refl, sym, ◌∙◌, subst, inl, inr, Bool, true, false, none, some, Text,
  Option, Option-cases, List, [], ◌∷◌, ◌++◌, map, count_if, ltb, ◌==◌, if◌then◌else◌, All, Any,
  All-map, arith, Bool-cases, ltb→lt,
}
use aegis_protocol.Oracle.Aggregate.{OracleSubmission, detect_outliers, outliers_in, deviation}
use aegis_protocol.Oracle.Aggregator.{
  OracleRound, Signatures, Standing, is_valid, is_invalid, is_unverifiable, standing, Partition,
  put_in, partition_by_signature, counted, service_value, Charge, charges_of_round,
  reason_invalid_signature, reason_outlier, penalty_invalid_signature_bps, penalty_outlier_bps,
}

partition_put :
    (q : OracleSubmission → Bool) (st : Standing) (sub : OracleSubmission) (p : Partition)
    → count_if q (put_in st sub p).valid
        + count_if q (put_in st sub p).invalid
        + count_if q (put_in st sub p).unverifiable
      ≡ (if q sub then 1 else 0)
        + (count_if q p.valid + count_if q p.invalid + count_if q p.unverifiable)
partition_put q is_valid sub p = ground arith
partition_put q is_invalid sub p = ground arith
partition_put q is_unverifiable sub p = ground arith

-- The three groups hold each submission exactly once: of those that pass any test, as many are in
-- the groups together as were submitted.
pub partition_by_signature-count :
    (s : Signatures) (round : OracleRound) (q : OracleSubmission → Bool)
    (submissions : List OracleSubmission)
    → let p = partition_by_signature s round submissions in
      count_if q p.valid + count_if q p.invalid + count_if q p.unverifiable ≡ count_if q submissions
unfolding partition_by_signature
partition_by_signature-count s round q [] = omega arith
partition_by_signature-count s round q (sub ∷ submissions) =
    partition_put q (standing s round sub) sub (partition_by_signature s round submissions)
    ∙ ground (arith, partition_by_signature-count s round q submissions)

-- What the analysis holds against a submission: its signature could not be loaded, or it has a nonce,
-- and the verifier refused the signature or could not say.
pub data IsAgainst (s : Signatures) (round : OracleRound) (sub : OracleSubmission) : Type 0 where
  not_loaded : s.signature round.round_id sub.node ≡ none → IsAgainst s round sub
  not_verified :
      (signature : Text)
      → s.signature round.round_id sub.node ≡ some signature
      → sub.nonce_known ≡ true
      → s.verify round.round_id round.feed_id sub.value sub.node sub.nonce signature ≢ some true
      → IsAgainst s round sub

-- The signature was loaded, and verified unless the submission has no nonce to verify it with.
pub record Counts (s : Signatures) (round : OracleRound) (sub : OracleSubmission) : Type 0 where
  pub signature : Text
  pub loaded : s.signature round.round_id sub.node ≡ some signature
  pub holds :
      (sub.nonce_known ≡ false)
      ⊎ (s.verify round.round_id round.feed_id sub.value sub.node sub.nonce signature ≡ some true)

module _ (s : Signatures) (round : OracleRound) (sub : OracleSubmission) where
  invalid-IsAgainst : standing s round sub ≡ is_invalid → IsAgainst s round sub
  unfolding standing
  invalid-IsAgainst e = elim (Option-cases (s.signature round.round_id sub.node)) [
    | inl n ↦ not_loaded n
    | inr (signature, l) ↦ elim (Bool-cases sub.nonce_known) [
      | inl k ↦ not_verified signature l k (λ v. absurd (ground arith))
      | inr k ↦ absurd (ground arith)
    ]
  ]

  checked :
      (signature : Text) (v : Option Bool)
      → s.signature round.round_id sub.node ≡ some signature
      → s.verify round.round_id round.feed_id sub.value sub.node sub.nonce signature ≡ v
      → standing s round sub ≢ is_invalid
      → (sub.nonce_known ≡ false) ⊎ (v ≡ some true)
  unfolding standing
  checked signature none l v e = elim (Bool-cases sub.nonce_known) [
    | inl k ↦ absurd (e (ground arith))
    | inr k ↦ inl k
  ]
  checked signature (some true) l v e = inr refl
  checked signature (some false) l v e = elim (Bool-cases sub.nonce_known) [
    | inl k ↦ absurd (e (ground arith))
    | inr k ↦ inl k
  ]

  other-Counts : standing s round sub ≢ is_invalid → Counts s round sub
  unfolding standing
  other-Counts e = elim (Option-cases (s.signature round.round_id sub.node)) [
    | inl n ↦ absurd (e (ground arith))
    | inr (signature, l) ↦ record {
      signature = signature;
      loaded = l;
      holds = checked signature _ l refl e;
    }
  ]

-- What a charge rests on: a submission of the node that is held against it, at the penalty for that; or
-- one that counts, whose value lies above the threshold, at the penalty for that.
pub data IsDeserved (s : Signatures) (threshold : ℕ) (round : OracleRound) (m : ℕ)
    (submissions : List OracleSubmission) (c : Charge) : Type 0 where
  for_signature :
      c.reason ≡ reason_invalid_signature
      → c.bps ≡ penalty_invalid_signature_bps
      → Any (λ sub. (sub.node ≡ c.node) × IsAgainst s round sub) submissions
      → IsDeserved s threshold round m submissions c
  for_value :
      c.reason ≡ reason_outlier
      → c.bps ≡ penalty_outlier_bps
      → Any
          (λ sub. (sub.node ≡ c.node) × Counts s round sub × (threshold < deviation sub.value m))
          submissions
      → IsDeserved s threshold round m submissions c

-- Membership, by position.
abbrev In : OracleSubmission → List OracleSubmission → Type 0
In sub subs = Any (λ x. x ≡ sub) subs

Any-In :
    (P : OracleSubmission → Type 0) (sub : OracleSubmission) (subs : List OracleSubmission)
    → P sub
    → In sub subs
    → Any P subs
Any-In P sub [] p h = h
Any-In P sub (x ∷ subs) p (inl e) = inl (subst P (sym e) p)
Any-In P sub (x ∷ subs) p (inr h) = inr (Any-In P sub subs p h)

abbrev Placed : Signatures → OracleRound → List OracleSubmission → Partition → Type 0
Placed s round subs p =
    All (λ x. (standing s round x ≡ is_valid) × In x subs) p.valid
    × All (λ x. (standing s round x ≡ is_invalid) × In x subs) p.invalid
    × All (λ x. (standing s round x ≡ is_unverifiable) × In x subs) p.unverifiable

module _ (s : Signatures) (round : OracleRound) where
  later :
      (st : Standing) (sub : OracleSubmission) (subs xs : List OracleSubmission)
      → All (λ x. (standing s round x ≡ st) × In x subs) xs
      → All (λ x. (standing s round x ≡ st) × In x (sub ∷ subs)) xs
  later st sub subs xs h = All-map (λ x k. (k.0, inr k.1)) xs h

  put_in-Placed :
      (st : Standing) (sub : OracleSubmission) (subs : List OracleSubmission) (p : Partition)
      → standing s round sub ≡ st
      → Placed s round subs p
      → Placed s round (sub ∷ subs) (put_in st sub p)
  put_in-Placed is_valid sub subs p e h = (
    ((e, inl refl), later is_valid sub subs p.valid h.0),
    later is_invalid sub subs p.invalid h.1,
    later is_unverifiable sub subs p.unverifiable h.2,
  )
  put_in-Placed is_invalid sub subs p e h = (
    later is_valid sub subs p.valid h.0,
    ((e, inl refl), later is_invalid sub subs p.invalid h.1),
    later is_unverifiable sub subs p.unverifiable h.2,
  )
  put_in-Placed is_unverifiable sub subs p e h = (
    later is_valid sub subs p.valid h.0,
    later is_invalid sub subs p.invalid h.1,
    ((e, inl refl), later is_unverifiable sub subs p.unverifiable h.2),
  )

  partition-Placed :
      (subs : List OracleSubmission) → Placed s round subs (partition_by_signature s round subs)
  unfolding partition_by_signature
  partition-Placed [] = (tt, tt, tt)
  partition-Placed (sub ∷ subs) =
      put_in-Placed (standing s round sub) sub subs (partition_by_signature s round subs) refl
        (partition-Placed subs)

-- An outlier is one of the submissions, above the threshold.
outliers_in-above :
    (P : OracleSubmission → Type 0) (subs : List OracleSubmission) (m threshold : ℕ)
    → All P subs
    → All
        (λ o. (x : OracleSubmission) × (x.node ≡ o.node) × P x × (threshold < deviation x.value m))
        (outliers_in subs m threshold)
unfolding outliers_in
outliers_in-above P [] m threshold h = tt
outliers_in-above P (sub ∷ subs) m threshold h =
    elim (Bool-cases (ltb threshold (deviation sub.value m))) [
      | inl e ↦ rw e (
        (sub, refl, h.0, ltb→lt threshold (deviation sub.value m) e),
        outliers_in-above P subs m threshold h.1,
      )
      | inr e ↦ rw e (outliers_in-above P subs m threshold h.1)
    ]

detect_outliers-above :
    (P : OracleSubmission → Type 0) (subs : List OracleSubmission) (m threshold : ℕ)
    → All P subs
    → All
        (λ o. (x : OracleSubmission) × (x.node ≡ o.node) × P x × (threshold < deviation x.value m))
        (detect_outliers subs m threshold)
unfolding detect_outliers
detect_outliers-above P subs m threshold h = elim (Bool-cases (m == 0)) [
  | inl e ↦ rw e tt
  | inr e ↦ rw e (outliers_in-above P subs m threshold h)
]

All-append : {A : Type 0} (P : A → Type 0) (xs ys : List A) → All P xs → All P ys → All P (xs ++ ys)
All-append P [] ys h k = k
All-append P (x ∷ xs) ys h k = (h.0, All-append P xs ys h.1 k)

All-over_map :
    {A B : Type 0} (f : A → B) (P : B → Type 0) (Q : A → Type 0) (xs : List A)
    → ((x : A) → Q x → P (f x))
    → All Q xs
    → All P (map f xs)
All-over_map f P Q [] k h = tt
All-over_map f P Q (x ∷ xs) k h = (k x h.0, All-over_map f P Q xs k h.1)

-- Every charge of a round is for a submission of the node whose signature could not be loaded or, where
-- its nonce is known, did not verify or could not be checked, at the penalty for that; or, at the
-- penalty for outliers, for one whose signature was loaded and, where its nonce is known, verified,
-- and whose value lies above the threshold from the service's median.
pub charges_of_round-IsDeserved :
    (s : Signatures) (threshold : ℕ) (round : OracleRound) (submissions : List OracleSubmission)
    → let m = service_value (partition_by_signature s round submissions) in
      All
        (IsDeserved s threshold round m submissions)
        (charges_of_round s threshold round submissions)
unfolding charges_of_round
charges_of_round-IsDeserved s threshold round subs =
    let p = partition_by_signature s round subs in
    let placed = partition-Placed s round subs in
    let m = service_value p in
    All-append _ (map _ p.invalid) _
      (All-over_map _ _ (λ x. (standing s round x ≡ is_invalid) × In x subs) p.invalid
        (λ x k.
          for_signature refl refl (Any-In _ x subs (refl, invalid-IsAgainst s round x k.0) k.1))
        placed.1)
      (All-over_map _ _ _ (detect_outliers (counted p) m threshold)
        (λ o k.
          for_value refl refl (Any-In _ k.0 subs (k.1, other-Counts s round k.0 k.2.0, k.3) k.2.1))
        (detect_outliers-above (λ x. (standing s round x ≢ is_invalid) × In x subs) (counted p) m
          threshold
          (All-append _ p.valid p.unverifiable
            (All-map (λ x k. (λ e. absurd (ground arith), k.1)) p.valid placed.0)
            (All-map (λ x k. (λ e. absurd (ground arith), k.1)) p.unverifiable placed.2))))
