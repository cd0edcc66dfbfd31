-- ===== src/Request/Conditions/Revalidation.antt =====
-- Requests that carry the `ETag` of an earlier answer.
use mathlib.Core.List.{reverse, reverse-append, reverse-reverse}
use simple_storage_service.Prelude.{
  ℕ, ◌≡◌, refl, sym, ap, ◌∙◌, false, Option, none, some, [], ◌∷◌, ◌++◌, arith, inl, inr,
}
use simple_storage_service.Prelude.Tests.{if◌then◌else◌, Bool-cases}
use simple_storage_service.Prelude.Text.{Text, text_eq, Lacks, split-last, starts_with, trim_start}
use simple_storage_service.Prelude.Result.{ok, err}
use simple_storage_service.Objects.Multipart.{strip_quotes}
use simple_storage_service.Request.{trim}
use simple_storage_service.Request.Conditions.{
  precondition_failed, not_modified, format_etag, strip_weak, clean_candidate, etag_matches, given,
  date_of, matches_given, unmodified, is_fresh, assert_conditions,
}

-- An ETag as the service makes them: no quote, no comma, and not the star alone.
pub record IsBare (etag : Text) : Type 0 where
  pub no_quote : Lacks b'"' etag
  pub no_comma : Lacks b',' etag
  pub no_star : text_eq etag (b'*' ∷ []) ≡ false

trim-format_etag : (etag : Text) → trim (format_etag etag) ≡ format_etag etag
unfolding trim format_etag trim_start
trim-format_etag etag =
    let quoted = b'"' ∷ (etag ++ b'"' ∷ []) in
    let e : reverse quoted ≡ b'"' ∷ reverse (b'"' ∷ etag) =
      reverse-append (b'"' ∷ etag) (b'"' ∷ []) in
    let same : trim_start (reverse quoted) ≡ reverse quoted = ap trim_start e ∙ sym e in
    ap reverse same ∙ reverse-reverse quoted

strip-bare : (etag : Text) → Lacks b'"' etag → strip_quotes (etag ++ b'"' ∷ []) ≡ etag
unfolding strip_quotes
strip-bare [] h = refl
strip-bare (c ∷ cs) (other, others) = rw other (ap (λ (t : Text). c ∷ t) (strip-bare cs others))

clean-format_etag : (etag : Text) → Lacks b'"' etag → clean_candidate (format_etag etag) ≡ etag
unfolding clean_candidate strip_weak format_etag starts_with
clean-format_etag etag bare =
    ap (λ (t : Text). strip_quotes (strip_weak t)) (trim-format_etag etag)
    ∙ (unfold strip_quotes in strip-bare etag bare)

comma-format_etag : (etag : Text) → Lacks b',' etag → Lacks b',' (format_etag etag)
unfolding format_etag
comma-format_etag etag bare = (refl, closing etag bare)
  where
    closing : (t : Text) → Lacks b',' t → Lacks b',' (t ++ b'"' ∷ [])
    closing [] h = (refl, tt)
    closing (c ∷ cs) (other, others) = (other, closing cs others)

etag_matches-format_etag :
    (sent etag : Text) → IsBare sent → etag_matches (format_etag sent) etag ≡ text_eq sent etag
unfolding etag_matches
etag_matches-format_etag sent etag bare =
    let one = split-last b',' (format_etag sent) (comma-format_etag sent bare.no_comma) in
    let clean = clean-format_etag sent bare.no_quote in
    rw one (rw clean (rw bare.no_star (ground arith)))

-- A client that sends back the `ETag` it was given is answered 304 to `If-None-Match`, and passes
-- `If-Match`, exactly as long as the version has that ETag; with another one the first passes and
-- the second is answered 412. The ETag is bare, and the request has no further condition.
pub assert_conditions-format_etag :
    (parse_date : Text → Option ℕ) (sent etag : Text) (last_modified : ℕ)
    → IsBare sent
    → (assert_conditions parse_date
          (record {
            if_match = none;
            if_none_match = some (format_etag sent);
            if_modified_since = none;
            if_unmodified_since = none;
          })
          etag
          last_modified
        ≡ (if text_eq sent etag then err not_modified else ok tt))
      × (assert_conditions parse_date
            (record {
              if_match = some (format_etag sent);
              if_none_match = none;
              if_modified_since = none;
              if_unmodified_since = none;
            })
            etag
            last_modified
          ≡ (if text_eq sent etag then ok tt else err precondition_failed))
unfolding assert_conditions given date_of matches_given unmodified is_fresh format_etag
assert_conditions-format_etag parse_date sent etag last_modified bare =
    let same = etag_matches-format_etag sent etag bare in
    elim (Bool-cases (text_eq sent etag)) [
      | inl equal ↦ let hit = same ∙ equal in (rw (hit, equal) refl, rw (hit, equal) refl)
      | inr differs ↦
          let miss = same ∙ differs in (rw (miss, differs) refl, rw (miss, differs) refl)
    ]
