-- ===== src/Request/Target/Paths.antt =====
-- Paths of requests that were built from a bucket and a key.
use simple_storage_service.Prelude.{◌≡◌, refl, ap, ◌∙◌, Option, some, List, [], ◌∷◌, ◌++◌, map}
use simple_storage_service.Prelude.Lists.{All}
use simple_storage_service.Prelude.Text.{
  Text, Lacks, split, join, join-Lacks, split-join, split-piece,
}
use simple_storage_service.Request.Target.{
  path_of, drop_leading, decode_segment, from_segments, bucket_and_key,
}

-- How a client escapes a segment: a decoder gives it back, and neither a slash nor a question mark
-- is left in it.
pub record IsEncoding (decode : Text → Option Text) (encode : Text → Text) : Type 0 where
  pub decode-encode : (text : Text) → decode (encode text) ≡ some text
  pub no_slash : (text : Text) → Lacks b'/' (encode text)
  pub no_mark : (text : Text) → Lacks b'?' (encode text)

path_of-query : (text query : Text) → Lacks b'?' text → path_of (text ++ b'?' ∷ query) ≡ text
unfolding path_of
path_of-query [] query h = refl
path_of-query (c ∷ cs) query (other, others) =
    rw other (ap (λ (t : Text). c ∷ t) (path_of-query cs query others))

module _ (decode : Text → Option Text) (encode : Text → Text)
    (laws : IsEncoding decode encode) where
  encoded_slashless : (segments : List Text) → All (Lacks b'/') (map encode segments)
  encoded_slashless [] = tt
  encoded_slashless (segment ∷ segments) = (laws.no_slash segment, encoded_slashless segments)

  encoded_markless : (segments : List Text) → Lacks b'?' (join (b'/' ∷ []) (map encode segments))
  encoded_markless segments = join-Lacks b'?' b'/' (map encode segments) refl (markless segments)
    where
      markless : (texts : List Text) → All (Lacks b'?') (map encode texts)
      markless [] = tt
      markless (text ∷ texts) = (laws.no_mark text, markless texts)

  segment-encoded : (segment : Text) → decode_segment decode (encode segment) ≡ segment
  unfolding decode_segment
  segment-encoded segment = rw (laws.decode-encode segment, decode_segment) refl

  decoded : (segments : List Text) → map (decode_segment decode) (map encode segments) ≡ segments
  decoded [] = refl
  decoded (segment ∷ segments) =
      ap (λ (t : Text). t ∷ map (decode_segment decode) (map encode segments))
        (segment-encoded segment)
      ∙ ap (λ (t : List Text). segment ∷ t) (decoded segments)

  named :
      (bucket : Text) (segments : List Text)
      → from_segments decode (map encode (bucket ∷ segments))
        ≡ record { bucket = bucket; key = join (b'/' ∷ []) segments }
  unfolding from_segments
  named bucket segments =
      ap
        (λ (t : Text). record {
          bucket = t;
          key = join (b'/' ∷ []) (map (decode_segment decode) (map encode segments));
        })
        (segment-encoded bucket)
      ∙ ap (λ (t : List Text). record { bucket = bucket; key = join (b'/' ∷ []) t })
          (decoded segments)

  -- The path `/<bucket>/<key>` with escaped segments, in front of any query, names the bucket and
  -- the key whose segments they are; a key may hold slashes and empty segments.
  pub bucket_and_key-path :
      (bucket : Text) (segments : List Text) (query : Text)
      → bucket_and_key decode
          ((b'/' ∷ join (b'/' ∷ []) (map encode (bucket ∷ segments))) ++ b'?' ∷ query)
        ≡ record { bucket = bucket; key = join (b'/' ∷ []) segments }
  unfolding bucket_and_key drop_leading from_segments
  bucket_and_key-path bucket segments query =
      let joined = join (b'/' ∷ []) (map encode (bucket ∷ segments)) in
      let path = path_of-query (b'/' ∷ joined) query (refl, encoded_markless (bucket ∷ segments)) in
      let parts =
        split-piece b'/' [] joined tt
        ∙ ap (λ (t : List Text). [] ∷ t)
            (split-join b'/' (encode bucket) (map encode segments)
              (encoded_slashless (bucket ∷ segments))) in
      ap (λ (t : Text). from_segments decode (drop_leading (split b'/' t))) path
      ∙ ap (λ (t : List Text). from_segments decode (drop_leading t)) parts
      ∙ named bucket segments
