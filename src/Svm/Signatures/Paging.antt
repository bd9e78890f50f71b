-- ===== src/Svm/Signatures/Paging.antt =====
-- What `signaturesInRange` of internal/chain/svm/client.go finds in an address's history.
use aegis_protocol.Base.{
  ℕ, zero, suc, ◌≤◌, ◌<◌, ◌≡◌, refl, sym, ap, ◌∙◌, ◌⊎◌, inl, inr, Bool, true, false, not, ◌&&◌,
  List, [], ◌∷◌, ◌++◌, some, length, take, drop, keep_if, ltb, leb, Text, Result, ok, All,
  Bool-cases, arith,
}
use mathlib.Core.List.{append_assoc, append-nil}
use aegis_protocol.Svm.Signatures.{
  SignatureInfo, failed, past, within, kept, scan, last_signature, turn_page, on_page, read_pages,
  signature_page_limit, signatures_in_range,
}

-- Newest first, as the node lists them.
unfoldable pub IsNewestFirst : List SignatureInfo → Type 0
IsNewestFirst [] = Unit
IsNewestFirst (s ∷ rest) = All (λ r. r.slot ≤ s.slot) rest × IsNewestFirst rest

abbrev pub in_range : ℕ → ℕ → SignatureInfo → Bool
in_range from to s = leb from s.slot && leb s.slot to && not (failed s.error)

older_none :
    (from to bound : ℕ) (rest : List SignatureInfo)
    → bound < from
    → All (λ r. r.slot ≤ bound) rest
    → keep_if (in_range from to) rest ≡ []
older_none from to bound [] h k = refl
older_none from to bound (s ∷ rest) h k =
    let at_most : s.slot ≤ bound = k.0 in ground (arith, older_none from to bound rest h k.1)

kept-in_range :
    (from to : ℕ) (s : SignatureInfo) (out : List SignatureInfo) (rest : List SignatureInfo)
    → ltb s.slot from ≡ false
    → kept to s out ++ keep_if (in_range from to) rest
      ≡ out ++ keep_if (in_range from to) (s ∷ rest)
kept-in_range from to s out rest h =
    let at_least : leb from s.slot ≡ true = ground arith in
    elim (Bool-cases (leb s.slot to && not (failed s.error))) [
      | inl e ↦ rw (at_least, e) (append_assoc out (s ∷ []) (keep_if (in_range from to) rest))
      | inr e ↦ rw (at_least, e) refl
    ]

SeenPage : (from to n : ℕ) (rest out : List SignatureInfo) → Type 0
unfolding scan
SeenPage from to n rest out =
    (scan from to (take n rest) out ≡ past (out ++ keep_if (in_range from to) rest))
    ⊎ ((found : List SignatureInfo) × (scan from to (take n rest) out ≡ within found)
        × (found ++ keep_if (in_range from to) (drop n rest)
            ≡ out ++ keep_if (in_range from to) rest))

scan_seen :
    (from to n : ℕ) (rest out : List SignatureInfo)
    → IsNewestFirst rest
    → SeenPage from to n rest out
unfolding SeenPage scan IsNewestFirst
scan_seen from to zero rest out h = inr (out, refl, refl)
scan_seen from to (suc n) [] out h = inr (out, refl, refl)
scan_seen from to (suc n) (s ∷ rest) out h = elim (Bool-cases (ltb s.slot from)) [
  | inl e ↦
      let older : keep_if (in_range from to) (s ∷ rest) ≡ [] =
        older_none from to s.slot (s ∷ rest) (ground arith) (omega arith, h.0) in
      inl (rw e (ap past (sym (append-nil out)) ∙ ap (λ found. past (out ++ found)) (sym older)))
  | inr e ↦
      let step = kept-in_range from to s out in
      elim (scan_seen from to n rest (kept to s out) h.1) [
        | inl p ↦ inl (rw e (p ∙ ap past (step rest e)))
        | inr (found, p, q) ↦ inr (found, rw e p, q ∙ step rest e)
      ]
]

drop_short : (n : ℕ) (rest : List SignatureInfo) → length (take n rest) < n → drop n rest ≡ []
drop_short zero rest h = absurd (ground arith)
drop_short (suc n) [] h = refl
drop_short (suc n) (s ∷ rest) h = drop_short n rest (ground arith)

drop_shorter : (n : ℕ) (rest : List SignatureInfo) → length (drop n rest) ≤ length rest
drop_shorter zero rest = omega arith
drop_shorter (suc n) [] = omega arith
drop_shorter (suc n) (s ∷ rest) = omega (arith, drop_shorter n rest)

drop_fewer :
    (n : ℕ) (rest : List SignatureInfo)
    → 1 ≤ length (take (suc n) rest)
    → length (drop (suc n) rest) < length rest
drop_fewer n [] h = absurd (ground arith)
drop_fewer n (s ∷ rest) h = omega (arith, drop_shorter n rest)

IsNewestFirst-drop :
    (n : ℕ) (rest : List SignatureInfo) → IsNewestFirst rest → IsNewestFirst (drop n rest)
unfolding IsNewestFirst
IsNewestFirst-drop zero rest h = h
IsNewestFirst-drop (suc n) [] h = h
IsNewestFirst-drop (suc n) (s ∷ rest) h = IsNewestFirst-drop n rest h.1

module _ {E : Type 0} (call : Text → Result E (List SignatureInfo)) (less : ℕ) where
  -- The page before a signature is the first `suc less` of what is older.
  unfoldable pub Serves : List SignatureInfo → Type 0
  Serves [] = Unit
  Serves (s ∷ rest) = (call s.signature ≡ ok (take (suc less) rest)) × Serves rest

  last_page :
      (n : ℕ) (rest : List SignatureInfo)
      → Serves rest
      → suc n ≤ length (take (suc n) rest)
      → (call (last_signature (take (suc n) rest)) ≡ ok (take (suc less) (drop (suc n) rest)))
        × Serves (drop (suc n) rest)
  unfolding last_signature Serves
  last_page n [] h k = absurd (ground arith)
  last_page zero (s ∷ rest) h k = h
  last_page (suc n) (s ∷ []) h k = absurd (ground arith)
  last_page (suc n) (s ∷ t ∷ rest) h k = last_page n (t ∷ rest) h.1 (ground arith)

  module _ (from to : ℕ) where
    abbrev Found : ℕ → Text → (out rest : List SignatureInfo) → Type 0
    Found fuel before out rest =
        read_pages from to (suc less) call fuel before out
        ≡ some (ok (out ++ keep_if (in_range from to) rest))

    read_pages-Found :
        (fuel : ℕ) (before : Text) (out rest : List SignatureInfo)
        → call before ≡ ok (take (suc less) rest)
        → Serves rest
        → IsNewestFirst rest
        → length rest < fuel
        → Found fuel before out rest
    unfolding read_pages on_page turn_page SeenPage
    read_pages-Found zero before out rest c s h k = absurd (ground arith)
    read_pages-Found (suc fuel) before out rest c s h k =
        elim (scan_seen from to (suc less) rest out h) [
          | inl p ↦ rw (c, p) refl
          | inr (found, p, q) ↦ elim (Bool-cases (ltb (length (take (suc less) rest)) (suc less))) [
            | inl e ↦
                let all = drop_short (suc less) rest (ground arith) in
                rw (c, p, e)
                  (ap (λ t. some (ok t))
                    (sym (append-nil found)
                      ∙ ap (λ t. found ++ keep_if (in_range from to) t) (sym all)
                      ∙ q))
            | inr e ↦
                let fewer : length (drop (suc less) rest) < fuel =
                  omega (arith, drop_fewer less rest (ground arith), k) in
                let (served, serves) = last_page less rest s (ground arith) in
                rw (c, p, e)
                  (read_pages-Found fuel (last_signature (take (suc less) rest)) found
                      (drop (suc less) rest) served serves (IsNewestFirst-drop (suc less) rest h)
                      fewer
                    ∙ ap (λ t. some (ok t)) q)
          ]
        ]

-- Where the node pages through an address's history, newest first, each page a signature's next older
-- ones, one turn more than the history has signatures is enough, and `signaturesInRange` finds exactly
-- those of the slots from `from` to `to` that did not fail, in the node's order.
pub signatures_in_range-history :
    {E : Type 0} (call : Text → Result E (List SignatureInfo)) (from to fuel : ℕ)
    (history : List SignatureInfo)
    → call [] ≡ ok (take signature_page_limit history)
    → Serves call 999 history
    → IsNewestFirst history
    → length history < fuel
    → signatures_in_range call from to fuel ≡ some (ok (keep_if (in_range from to) history))
unfolding signatures_in_range
signatures_in_range-history call from to fuel history c s h k =
    read_pages-Found call 999 from to fuel [] [] history c s h k
