-- ===== src/Objects/Keys.antt =====
-- `assertValidKey` of libs/domains/src/objects/objects.service.ts.
use simple_storage_service.Prelude.{ℕ, ◌+◌, Bool, true, false, not, ◌&&◌, ◌||◌, [], ◌∷◌}
use simple_storage_service.Prelude.Tests.{ltb, leb, ◌==◌, if◌then◌else◌}
use simple_storage_service.Prelude.Lists.{any, length}
use simple_storage_service.Prelude.Text.{Text}

abbrev pub is_high_surrogate : ℕ → Bool
is_high_surrogate c = leb 0xD800 c && leb c 0xDBFF

abbrev pub is_low_surrogate : ℕ → Bool
is_low_surrogate c = leb 0xDC00 c && leb c 0xDFFF

-- `Buffer.byteLength(key, 'utf8')`: a surrogate pair takes four bytes, a lone surrogate the three
-- of the replacement character. The flag says that the unit before was a high surrogate, whose
-- three bytes are counted already.
unfoldable pub utf8_length_from : Bool → Text → ℕ
utf8_length_from paired [] = 0
utf8_length_from paired (c ∷ cs) =
    let plain = utf8_length_from false cs in
    let opened = utf8_length_from true cs in
    if ltb c 0x80
    then 1 + plain
    else if ltb c 0x800
    then 2 + plain
    else if is_high_surrogate c
    then 3 + opened
    else if paired && is_low_surrogate c
    then 1 + plain
    else 3 + plain

unfoldable pub utf8_length : Text → ℕ
utf8_length key = utf8_length_from false key

abbrev pub is_control : ℕ → Bool
is_control c = leb c 0x1F || (c == 0x7F)

unfoldable pub is_valid_key : Text → Bool
is_valid_key key =
    ltb 0 (length key) && not (ltb 1024 (utf8_length key)) && not (any is_control key)
