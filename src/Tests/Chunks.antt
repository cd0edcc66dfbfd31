-- ===== src/Tests/Chunks.antt =====
-- The decoder of request bodies, over a toy digest.
use simple_storage_service.Prelude.{◌≡◌, refl, false, Option, none, some, [], ◌∷◌, ◌++◌, arith}
use simple_storage_service.Prelude.Lists.{length}
use simple_storage_service.Prelude.Text.{
  Text, str, text_eq, split, split_from, starts_with, trim_start,
}
use simple_storage_service.Prelude.Result.{Result, ok}
use simple_storage_service.Storage.Cipher.{Bytes}
use simple_storage_service.Wildcard.{is_line_terminator}
use simple_storage_service.ChunkedStream.{
  header, data_phase, ChunkSigningContext, Stream, StreamError, new_stream, transform, consume,
  step, consume_header, consume_data, consume_terminator, take_data, enter_chunk, unsigned,
  verify_chunk, verify_with, parse_header, parse_size, find_signature, index_of_crlf,
}
use simple_storage_service.ChunkedStream.Fuel.{transform-answers}
use simple_storage_service.ChunkedStream.Splits.{transform-append}
use simple_storage_service.ChunkedStream.Frames.{IsLine, behind_frame, consume-frame}

abbrev sha : Bytes → Text
sha bytes = length bytes ∷ []

abbrev mac : Text → Text
mac text = length text ∷ []

abbrev ascii : Bytes → Text
ascii bytes = bytes

abbrev fresh : Stream
fresh = new_stream sha mac ascii none

abbrev front : Bytes
front = str "3\r\nab"

abbrev back : Bytes
back = str "c\r\n0\r\n\r\n"

abbrev halfway : Stream
halfway = record {
  phase = data_phase;
  pending = [];
  remaining = 1;
  is_final_chunk = false;
  previous_signature = [];
  chunk_signature = none;
  hashed = str "ab";
  out = str "ab";
}

pub transform-front : transform sha mac ascii none fresh front ≡ some (ok halfway)
unfolding transform consume step consume_header consume_data take_data enter_chunk unsigned
    parse_header parse_size find_signature index_of_crlf new_stream split starts_with trim_start str
transform-front = refl

abbrev whole : Bytes
whole = front ++ back

abbrev payload_of : Option (Result StreamError Stream) → Option Bytes
payload_of (some (ok s)) = some s.out
payload_of _ = none

decodes_whole : payload_of (transform sha mac ascii none fresh whole) ≡ some (str "abc")
unfolding transform consume step consume_header consume_data consume_terminator take_data
    enter_chunk unsigned verify_chunk verify_with parse_header parse_size find_signature
    index_of_crlf new_stream split starts_with trim_start str text_eq
decodes_whole = refl

transform-append_example :
    transform sha mac ascii none fresh (front ++ back) ≡ transform sha mac ascii none halfway back
transform-append_example =
    transform-append sha mac ascii none fresh halfway front back transform-front

transform-answers_example :
    (r : Result StreamError Stream) × (transform sha mac ascii none halfway back ≡ some r)
transform-answers_example = transform-answers sha mac ascii none halfway back

abbrev signing : ChunkSigningContext
signing = record { amz_date = str "d"; credential_scope = str "s"; seed_signature = 7 ∷ [] }

-- The digest of the toy is the length of what is signed.
abbrev announced : Text
announced = 34 ∷ []

abbrev line : Bytes
line = str "3;chunk-signature=" ++ announced

abbrev framed : Stream
framed = record (new_stream sha mac ascii (some signing)) {
  phase = header;
  pending = line ++ 13 ∷ 10 ∷ (str "abc" ++ 13 ∷ 10 ∷ str "0");
}

pub header_of_three : parse_header line ≡ (some 3, some announced)
unfolding parse_header parse_size find_signature split split_from starts_with trim_start str
    is_line_terminator
header_of_three = refl

pub line-IsLine : IsLine line
unfolding str
line-IsLine = (
  refl,
  (
    refl,
    (
      refl,
      (
        refl,
        (
          refl,
          (
            refl,
            (
              refl,
              (
                refl,
                (
                  refl,
                  (
                    refl,
                    (refl, (refl, (refl, (refl, (refl, (refl, (refl, (refl, (refl, tt))))))))),
                  ),
                ),
              ),
            ),
          ),
        ),
      ),
    ),
  ),
)

consume-frame_example :
    consume sha mac ascii (some signing) 9 framed
    ≡ consume sha mac ascii
        (some signing)
        6
        (behind_frame sha mac ascii framed (some announced) (str "0") (str "abc") announced)
unfolding str text_eq new_stream
consume-frame_example =
    consume-frame sha mac ascii (some signing) 6 framed line (str "abc") (str "0") (some announced)
      line-IsLine header_of_three (omega arith) refl refl
