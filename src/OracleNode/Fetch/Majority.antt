-- ===== src/OracleNode/Fetch/Majority.antt =====
-- The price that `Price` returns (internal/oraclenode/fetch.go), as a function of the answers.
use aegis_protocol.Base.{
  ℕ, zero, suc, ◌+◌, ◌*◌, ◌≤◌, ◌<◌, ◌≡◌, ◌⊎◌, refl, ap, sym, ◌∙◌, subst, inl, inr, List, [], ◌∷◌,
  ◌++◌, Option, none, some, length, count_if, ltb, ◌==◌, if◌then◌else◌, Text, Result, ok, err,
  arith, Bool-cases,
}
use mathlib.Core.List.{append_assoc, append-nil, Perm, Permᴰ}
use mathlib.Core.Logic.{∥∥₁_elim, ∥∥₁_prop}
use native.Mathlib.Nat.{ℕ_set}
use aegis_protocol.Oracle.Aggregate.{median}
use aegis_protocol.Oracle.Aggregate.Median.{median-majority, median-perm, within}
use aegis_protocol.OracleNode.Fetch.{
  Source, FetchError, Fetcher, FetchResult, too_few_sources, fetch_attempts, fetch_with_backoff,
  collect, collect_all, no_result, price, reported_zero,
}

-- Some attempt before the `n`th answered with the value, which is not zero.
abbrev pub AnswersBefore : Source → ℕ → ℕ → ℕ → Type 0
AnswersBefore source decimals n value =
    (0 < value) × ((k : ℕ) × (k < n) × (source.fetch decimals k ≡ ok value))

later_attempt :
    (source : Source) (d left k v : ℕ)
    → AnswersBefore source d (suc k + left) v
    → AnswersBefore source d (k + suc left) v
later_attempt source d left k v (p, (j, l, e)) = (p, (j, omega (arith, l), e))

answer_cases : {E A : Type 0} (r : Result E A) → ((a : A) × (r ≡ ok a)) ⊎ ((e : E) × (r ≡ err e))
answer_cases (ok a) = inl (a, refl)
answer_cases (err e) = inr (e, refl)

fetch_attempts-answers :
    (source : Source) (decimals left attempt : ℕ) (last_err : Option Text) (value : ℕ)
    → fetch_attempts source decimals left attempt last_err ≡ ok value
    → AnswersBefore source decimals (attempt + left) value
unfolding fetch_attempts
fetch_attempts-answers source d zero k last v h = ground arith
fetch_attempts-answers source d (suc left) k last v h = elim (answer_cases (source.fetch d k)) [
  | inl (value, e) ↦ elim (Bool-cases (value == 0)) [
    | inl z ↦
        later_attempt source d left k v
          (fetch_attempts-answers source d left (suc k) (some reported_zero) v (ground arith))
    | inr z ↦ (ground arith, (k, omega arith, ground arith))
  ]
  | inr (e', e) ↦
      later_attempt source d left k v
        (fetch_attempts-answers source d left (suc k) (some e') v (ground arith))
]

-- What a source contributes is never zero, and is what it answered at one of the permitted attempts.
pub fetch_with_backoff-answers :
    (f : Fetcher) (decimals : ℕ) (source : Source) (value : ℕ)
    → fetch_with_backoff f decimals source ≡ ok value
    → AnswersBefore source decimals f.max_retries value
unfolding fetch_with_backoff
fetch_with_backoff-answers f decimals source value h =
    let r = fetch_attempts-answers source decimals f.max_retries 0 none value h in
    (r.0, (r.1.0, omega (arith, r.1.1), r.1.2))

abbrev keep_ok : Result FetchError ℕ → List ℕ → List ℕ
keep_ok (ok value) values = value ∷ values
keep_ok (err e) values = values

-- The values of the sources that answered.
unfoldable pub answers : Fetcher → ℕ → List Source → List ℕ
answers f decimals [] = []
answers f decimals (source ∷ sources) =
    keep_ok (fetch_with_backoff f decimals source) (answers f decimals sources)

collect_all-values :
    (f : Fetcher) (decimals : ℕ) (finished : List Source) (r : FetchResult)
    → (collect_all f decimals finished r).values ≡ r.values ++ answers f decimals finished
unfolding collect_all collect answers
collect_all-values f d [] r = sym (append-nil r.values)
collect_all-values f d (source ∷ finished) r = elim (answer_cases (fetch_with_backoff f d source)) [
  | inl (v, e) ↦
      collect_all-values f d finished (collect source (fetch_with_backoff f d source) r)
      ∙ rw e (append_assoc r.values (v ∷ []) (answers f d finished))
  | inr (e', e) ↦
      collect_all-values f d finished (collect source (fetch_with_backoff f d source) r) ∙ rw e refl
]

keep_ok-Permᴰ :
    (r r' : Result FetchError ℕ) {xs ys : List ℕ}
    → r ≡ r'
    → Permᴰ xs ys
    → Permᴰ (keep_ok r xs) (keep_ok r' ys)
keep_ok-Permᴰ r r' {xs} {ys} e p = subst (λ x. Permᴰ (keep_ok r xs) (keep_ok x ys)) e (go r)
  where
    go : (q : Result FetchError ℕ) → Permᴰ (keep_ok q xs) (keep_ok q ys)
    go (ok v) = Permᴰ.cons refl p
    go (err _) = p

Permᴰ-same : (xs : List ℕ) → Permᴰ xs xs
Permᴰ-same [] = Permᴰ.nil
Permᴰ-same (x ∷ xs) = Permᴰ.cons refl (Permᴰ-same xs)

keep_ok-swap :
    (r q : Result FetchError ℕ) (xs : List ℕ)
    → Permᴰ (keep_ok r (keep_ok q xs)) (keep_ok q (keep_ok r xs))
keep_ok-swap (ok v) (ok u) xs = Permᴰ.swap refl refl
keep_ok-swap (ok v) (err e) xs = Permᴰ-same (v ∷ xs)
keep_ok-swap (err e) (ok u) xs = Permᴰ-same (u ∷ xs)
keep_ok-swap (err e) (err e') xs = Permᴰ-same xs

answers-Permᴰ :
    (f : Fetcher) (d : ℕ) {xs ys : List Source}
    → Permᴰ xs ys
    → Permᴰ (answers f d xs) (answers f d ys)
unfolding answers
answers-Permᴰ f d Permᴰ.nil = Permᴰ.nil
answers-Permᴰ f d (Permᴰ.cons {a} {b} {l₁ = l} {l₂ = l'} e p) =
    keep_ok-Permᴰ _ _ (ap (fetch_with_backoff f d) e) (answers-Permᴰ f d p)
answers-Permᴰ f d (Permᴰ.swap {a} {b} {a' = c} {b' = g} {l = l} e e') = subst2 e e'
  where
    subst2 : a ≡ g → b ≡ c → Permᴰ (answers f d (a ∷ b ∷ l)) (answers f d (c ∷ g ∷ l))
    subst2 h k =
        rw (h, k)
          (keep_ok-swap (fetch_with_backoff f d g) (fetch_with_backoff f d c) (answers f d l))
answers-Permᴰ f d (Permᴰ.trans p q) = Permᴰ.trans (answers-Permᴰ f d p) (answers-Permᴰ f d q)

abbrev decide_price : Fetcher → List ℕ → Result FetchError ℕ
decide_price f values =
    if ltb (length values) f.min_sources
    then err (too_few_sources (length values) (length f.sources) f.min_sources)
    else ok (median values)

price_lem :
    (f : Fetcher) (d : ℕ) (finished : List Source)
    → (price f d finished).0 ≡ decide_price f (answers f d finished)
unfolding price
price_lem f d finished =
    rw (collect_all-values f d finished no_result)
      (elim (Bool-cases (ltb (length (answers f d finished)) f.min_sources)) [
        | inl e ↦ rw e refl
        | inr e ↦ rw e refl
      ])

length-Permᴰ : {xs ys : List ℕ} → Permᴰ xs ys → length xs ≡ length ys
length-Permᴰ Permᴰ.nil = refl
length-Permᴰ (Permᴰ.cons e p) = ap suc (length-Permᴰ p)
length-Permᴰ (Permᴰ.swap e e') = refl
length-Permᴰ (Permᴰ.trans p q) = length-Permᴰ p ∙ length-Permᴰ q

length-Perm : {xs ys : List ℕ} → Perm xs ys → length xs ≡ length ys
length-Perm p = ∥∥₁_elim p (ℕ_set _ _) (λ q. length-Permᴰ q)

-- Whatever the order in which the sources finish, the price, or the error, is the same.
pub price-order :
    (f : Fetcher) (decimals : ℕ) {finished finished' : List Source}
    → Perm finished finished'
    → (price f decimals finished).0 ≡ (price f decimals finished').0
price-order f d {finished} {finished'} p =
    price_lem f d finished ∙ decided ∙ sym (price_lem f d finished')
  where
    same : Perm (answers f d finished) (answers f d finished')
    same = ∥∥₁_elim p ∥∥₁_prop (λ q. ∣ answers-Permᴰ f d q ∣₁)

    decided : decide_price f (answers f d finished) ≡ decide_price f (answers f d finished')
    decided = rw (length-Perm same, median-perm same) refl

-- A price that is returned rests on at least `minSources` answers, and if more than half of the
-- answers lie in a closed range then so does the price, whatever the other sources answered and
-- whatever the order in which the sources finish.
pub price-majority :
    (f : Fetcher) (decimals : ℕ) (finished : List Source) (lo hi value : ℕ)
    → lo ≤ hi
    → (price f decimals finished).0 ≡ ok value
    → length (answers f decimals finished)
      < 2 * count_if (within lo hi) (answers f decimals finished)
    → (f.min_sources ≤ length (answers f decimals finished)) × (lo ≤ value) × (value ≤ hi)
price-majority f d finished lo hi value r e m =
    let decided : decide_price f (answers f d finished) ≡ ok value =
      sym (price_lem f d finished) ∙ e in
    ground (arith, median-majority lo hi (answers f d finished) r m)
