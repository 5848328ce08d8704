-- ===== src/Examples/Codec.antt =====
-- Integers and messages at concrete inputs.
use paramiko.Base.{◌≡◌, refl, true, false, List, [], ◌∷◌, Bytes, All, pos, negsuc, ok}
use paramiko.Wire.{IsByte, be_bytes, be_value, pack}
use paramiko.LongInt.{inflate_long, deflate_long, deflate_words, strip_sign, pad_sign}
use paramiko.LongInt.Inflate.{signed_value, inflate_long-signed_value}
use paramiko.LongInt.Deflate.{inflate_long-deflate_long}
use paramiko.LongInt.Shortest.{IsShortest, deflate_long-IsShortest}
use paramiko.Message.{
  Message, empty, rewind, write, add_boolean, add_int, add_int64, add_string, add_mpint,
  add_adaptive_int,
}
use paramiko.Message.Stream.{unread}
use paramiko.Message.Fields.{
  Field, boolean, int, int64, string, mpint, adaptive_int, add_field, add_fields, get_fields,
}
use paramiko.Message.RoundTrip.{get_fields-add_fields}

-- The example of tests/test_util.py and tests/test_message.py style: -0x1100 and 0xdeadbeef.
deflate_runs :
    (deflate_long (negsuc 0x10ff) true ≡ 0xef ∷ 0 ∷ [])
    × (deflate_long (pos 0xdeadbeef) true ≡ 0 ∷ 0xde ∷ 0xad ∷ 0xbe ∷ 0xef ∷ [])
    × (deflate_long (pos 0) true ≡ 0 ∷ [])
    × (deflate_long (negsuc 0) true ≡ 0xff ∷ [])
unfolding deflate_long deflate_words strip_sign pad_sign be_bytes
deflate_runs = (refl, refl, refl, refl)

inflate_long-signed_value_example :
    (inflate_long (0xef ∷ 0 ∷ []) false ≡ signed_value (0xef ∷ 0 ∷ []))
    × (inflate_long (0xef ∷ 0 ∷ []) true ≡ pos (be_value (0xef ∷ 0 ∷ [])))
inflate_long-signed_value_example = inflate_long-signed_value (0xef ∷ 0 ∷ [])

inflate_long-deflate_long_example :
    inflate_long (deflate_long (negsuc 0x10ff) true) false ≡ negsuc 0x10ff
inflate_long-deflate_long_example = inflate_long-deflate_long (negsuc 0x10ff)

deflate_long-IsShortest_example :
    IsShortest (deflate_long (pos 0xdeadbeef) true)
    × All IsByte (deflate_long (pos 0xdeadbeef) true)
deflate_long-IsShortest_example = deflate_long-IsShortest (pos 0xdeadbeef)

abbrev fields : List Field
fields =
    boolean true
    ∷ int 23
    ∷ int64 0x1_0000_0000
    ∷ string (104 ∷ 105 ∷ [])
    ∷ mpint (negsuc 0x10ff)
    ∷ adaptive_int (pos 0xdeadbeef)
    ∷ adaptive_int (pos 0xff00_0000)
    ∷ []

abbrev packed : Bytes
packed =
    1 ∷ 0 ∷ 0 ∷ 0 ∷ 23 ∷ 0 ∷ 0 ∷ 0 ∷ 1 ∷ 0 ∷ 0 ∷ 0 ∷ 0 ∷ 0 ∷ 0 ∷ 0 ∷ 2 ∷ 104 ∷ 105 ∷ 0 ∷ 0 ∷ 0 ∷ 2
    ∷ 0xef ∷ 0 ∷ 0xde ∷ 0xad ∷ 0xbe ∷ 0xef ∷ 0xff ∷ 0 ∷ 0 ∷ 0 ∷ 5 ∷ 0 ∷ 0xff ∷ 0 ∷ 0 ∷ 0 ∷ []

abbrev message : Message
message = record { packet = packed; position = 39 }

fields_packed : add_fields fields empty ≡ ok message
unfolding add_fields add_field add_boolean add_int add_int64 add_string add_mpint add_adaptive_int
    pack be_bytes write deflate_long deflate_words strip_sign pad_sign
fields_packed = refl

get_fields-add_fields_example :
    ((get_fields fields (rewind message)).0 ≡ fields)
    × (unread (get_fields fields (rewind message)).1 ≡ [])
get_fields-add_fields_example = get_fields-add_fields fields fields_packed

abbrev half_read : Message
half_read = record { packet = 1 ∷ 2 ∷ 3 ∷ []; position = 2 }
