-- ===== src/Svm/Signatures.antt =====
-- internal/chain/svm/client.go: the paging of an address's signatures. The node's answer to a page is a
-- parameter.
pub mod Paging
use aegis_protocol.Base.{
  ℕ, zero, suc, Bool, not, ◌&&◌, List, [], ◌∷◌, ◌++◌, Option, none, some, length, ltb, leb,
  if◌then◌else◌, Text, codes, text_eq, ◌==◌, Result, ok, err,
}
use aegis_protocol.OracleNode.Price.{trim_space}

-- `failed`: an error that is there and not the JSON null.
unfoldable pub failed : Text → Bool
unfolding trim_space text_eq
failed raw =
    let trimmed = trim_space raw in
    not (length trimmed == 0) && not (text_eq trimmed (codes "null"))

pub record SignatureInfo : Type 0 where
  pub signature : Text
  pub slot : ℕ
  pub error : Text

-- What a page leads to: an early return, or a look at its length.
pub data Scanned : Type 0 where
  past : List SignatureInfo → Scanned
  within : List SignatureInfo → Scanned

abbrev pub kept : ℕ → SignatureInfo → List SignatureInfo → List SignatureInfo
kept to s out = if leb s.slot to && not (failed s.error) then out ++ s ∷ [] else out

-- The loop over a page.
unfoldable pub scan : ℕ → ℕ → List SignatureInfo → List SignatureInfo → Scanned
scan from to [] out = within out
scan from to (s ∷ page) out =
    let rest = scan from to page (kept to s out) in if ltb s.slot from then past out else rest

-- `page[len(page)-1].Signature`; an empty page is shorter than the limit, and never asked for it.
unfoldable pub last_signature : List SignatureInfo → Text
last_signature [] = []
last_signature (s ∷ []) = s.signature
last_signature (s ∷ t ∷ page) = last_signature (t ∷ page)

-- What the next turns give from `before` and what was found.
abbrev pub Later : Type 0 → Type 0
Later E = Text → List SignatureInfo → Option (Result E (List SignatureInfo))

unfoldable pub turn_page :
    {E : Type 0}
    → ℕ
    → Later E
    → List SignatureInfo
    → Scanned
    → Option (Result E (List SignatureInfo))
unfolding last_signature
turn_page limit later page (past out) = some (ok out)
turn_page limit later page (within out) =
    if ltb (length page) limit then some (ok out) else later (last_signature page) out

unfoldable pub on_page :
    {E : Type 0}
    → ℕ
    → ℕ
    → ℕ
    → Later E
    → List SignatureInfo
    → Result E (List SignatureInfo)
    → Option (Result E (List SignatureInfo))
unfolding turn_page scan
on_page from to limit later out (err e) = some (err e)
on_page from to limit later out (ok page) = turn_page limit later page (scan from to page out)

-- The loop of `signaturesInRange`, `none` where `fuel` is used up. An empty `before` is not sent.
unfoldable pub read_pages :
    {E : Type 0} → ℕ → ℕ → ℕ → (Text → Result E (List SignatureInfo)) → ℕ → Later E
unfolding on_page
read_pages from to limit call zero before out = none
read_pages from to limit call (suc fuel) before out =
    on_page from to limit (read_pages from to limit call fuel) out (call before)

abbrev pub signature_page_limit : ℕ
signature_page_limit = 1000

-- `signaturesInRange` in at most so many turns.
unfoldable pub signatures_in_range :
    {E : Type 0}
    → (Text → Result E (List SignatureInfo))
    → ℕ
    → ℕ
    → ℕ
    → Option (Result E (List SignatureInfo))
unfolding read_pages
signatures_in_range call from to fuel = read_pages from to signature_page_limit call fuel [] []
