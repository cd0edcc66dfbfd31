-- ===== src/Request/Ranges.antt =====
-- What `parseRange` of libs/domains/src/s3/s3.request.service.ts accepts.
use simple_storage_service.Prelude.{
  ℕ, ◌≡◌, refl, ◌∙◌, ◌+◌, ◌-◌, Bool, ◌<◌, ◌≤◌, arith, Option, none, some, [], ◌∷◌,
}
use simple_storage_service.Prelude.Lists.{flatten, take, drop, length, length-take, length-drop}
use simple_storage_service.Storage.Cipher.{Bytes, AreBytes, Crypto}
use simple_storage_service.Storage.Blobs.{Files, Source, Draw, WriteResult, ReadRange, write, read}
use simple_storage_service.Storage.Blobs.Roundtrip.{read-write, read-write_range}
use simple_storage_service.Prelude.Text.{Text, decimal}
use simple_storage_service.Prelude.Result.{ok}
use simple_storage_service.Request.{
  ResolvedRange, match_range, trim, resolve, resolve_span, span_stop, resolve_suffix, resolve_match,
  parse_range,
}

abbrev pub InBounds : ℕ → ResolvedRange → Type 0
InBounds size range = (range.start < range.stop) × (range.stop ≤ size)

resolve_suffix-InBounds :
    (suffix size : ℕ) {range : ResolvedRange}
    → 0 < size
    → resolve_suffix suffix size ≡ ok (some range)
    → InBounds size range
unfolding resolve_suffix
resolve_suffix-InBounds suffix size positive h = ground arith

span_stop_le : (last : Option ℕ) (size : ℕ) → span_stop last size ≤ size
unfolding span_stop
span_stop_le none size = omega arith
span_stop_le (some end) size = omega arith

resolve_span-InBounds :
    (start : ℕ) (last : Option ℕ) (size : ℕ) {range : ResolvedRange}
    → resolve_span start last size ≡ ok (some range)
    → InBounds size range
unfolding resolve_span
resolve_span-InBounds start last size h = ground (arith, span_stop_le last size)

resolve-InBounds :
    (first last : Text) (size : ℕ) {range : ResolvedRange}
    → 0 < size
    → resolve first last size ≡ ok (some range)
    → InBounds size range
unfolding resolve
resolve-InBounds [] [] size positive h = cc
resolve-InBounds [] (d ∷ ds) size positive h =
    resolve_suffix-InBounds (decimal (d ∷ ds)) size positive h
resolve-InBounds (d ∷ ds) [] size positive h = resolve_span-InBounds (decimal (d ∷ ds)) none size h
resolve-InBounds (d ∷ ds) (e ∷ es) size positive h =
    resolve_span-InBounds (decimal (d ∷ ds)) (some (decimal (e ∷ es))) size h

resolve_match-InBounds :
    (groups : Option (Text × Text)) (size : ℕ) {range : ResolvedRange}
    → 0 < size
    → resolve_match groups size ≡ ok (some range)
    → InBounds size range
unfolding resolve_match
resolve_match-InBounds none size positive h = cc
resolve_match-InBounds (some (first, last)) size positive h =
    resolve-InBounds first last size positive h

-- A range that the header of a request resolves to on an object that is not empty is not empty
-- and lies within the object, whatever the header holds.
pub parse_range-InBounds :
    (header : Option Text) (size : ℕ) (range : ResolvedRange)
    → 0 < size
    → parse_range header size ≡ ok (some range)
    → InBounds size range
unfolding parse_range
parse_range-InBounds none size range positive h = cc
parse_range-InBounds (some header) size range positive h =
    resolve_match-InBounds (match_range (trim header)) size positive h

-- As `end` is inclusive for the blob store.
abbrev pub to_read_range : ResolvedRange → ReadRange
to_read_range range = record { start = range.start; end = range.stop - 1 }

length-slice :
    (size : ℕ) (bytes : Bytes) (range : ResolvedRange)
    → size ≡ length bytes
    → InBounds size range
    → length (take (range.stop - range.start) (drop range.start bytes)) ≡ range.stop - range.start
length-slice size bytes range measured bounds =
    rw
      (
        length-take (range.stop - range.start) (drop range.start bytes),
        length-drop range.start bytes,
      )
      (omega arith)

module _ (crypto : Crypto) (draw : Draw) (key_length : length draw.key ≡ 32)
    (iv_length : length draw.iv ≡ 16) (nonce_length : length draw.nonce ≡ 12)
    (md5 : Bytes → Text) where
  -- After a write of at least one byte that succeeds, the range that a header resolves to against
  -- the size it reports is read back: the read succeeds and gives the bytes of the payload
  -- behind the first `start`, as many as the range counts, and the range lies within the payload;
  -- for keys of 32 bytes, IVs of 16 that are bytes and nonces of 12.
  pub read-parse_range :
      (enabled : Bool) (files : Files) (source : Source) (max_bytes : Option ℕ)
      (result : WriteResult) (header : Option Text) (range : ResolvedRange)
      → (write crypto md5 enabled files draw source max_bytes).1 ≡ ok result
      → 0 < result.size
      → parse_range header result.size ≡ ok (some range)
      → AreBytes draw.iv
      → (read crypto md5 enabled
            (write crypto md5 enabled files draw source max_bytes).0
            result.storage_path
            (some (to_read_range range))
            result.encryption
          ≡ ok (take (range.stop - range.start) (drop range.start (flatten source.chunks))))
        × (length (take (range.stop - range.start) (drop range.start (flatten source.chunks)))
            ≡ range.stop - range.start)
        × (range.stop ≤ length (flatten source.chunks))
  read-parse_range enabled files source max_bytes result header range h positive parsed iv_bytes =
      let bounds = parse_range-InBounds header result.size range positive parsed in
      let (measured, _, _) =
        read-write crypto draw key_length iv_length nonce_length md5 enabled files source max_bytes
          result h in
      let count : range.stop - 1 + 1 - range.start ≡ range.stop - range.start = omega arith in
      (
        read-write_range crypto draw key_length iv_length nonce_length md5 enabled files source
              max_bytes result (to_read_range range) h (omega arith) iv_bytes
            ∙ rw count refl,
        length-slice result.size (flatten source.chunks) range measured bounds,
        omega arith,
      )
