-- ===== src/Json/Tests.antt =====
-- Runs of the reader and the printer.
use silicon_valet.Prelude.{◌≡◌, refl, true, none, some, [], ◌∷◌, codes, is_digit}
use silicon_valet.Prelude.Int.{negsuc, decimal}
use silicon_valet.Json.{
  Json, bool, num, str, array, object, no_items, item, no_fields, field, one_line, indented, dump,
  dump_items, dump_fields, dumps, dump_int, literal, escape, loads, value, items, fields, chars,
  read_escape, pair, hex4, hex_value, unescape, digits, natural, expect, skip, finish,
}

abbrev sample : Json
sample = object (
    field (codes "a\n\"") (array (item (num (negsuc 11)) (item (bool true) no_items)))
      (field (codes "b") (object no_fields) no_fields))

sample_text : dumps one_line sample ≡ codes "{\"a\\n\\\"\": [-12, true], \"b\": {}}"
unfolding dumps dump dump_items dump_fields dump_int literal escape decimal
sample_text = refl

sample-indented :
    dumps indented sample ≡ codes "{\n  \"a\\n\\\"\": [\n    -12,\n    true\n  ],\n  \"b\": {}\n}"
unfolding dumps dump dump_items dump_fields dump_int literal escape decimal
sample-indented = refl

sample_read : loads (codes " {\"a\\n\\\"\" : [-12 ,true] , \"b\":{ }}\n") ≡ some sample
unfolding loads value items fields chars read_escape pair hex4 hex_value unescape digits natural
    expect skip finish is_digit
sample_read = refl

surrogates_read : loads (codes "\"\\ud83d\\ude00\\u0041\"") ≡ some (str (0x1f600 ∷ b'A' ∷ []))
unfolding loads value items fields chars read_escape pair hex4 hex_value unescape digits natural
    expect skip finish is_digit
surrogates_read = refl

trailing_comma : loads (codes "[1,]") ≡ none
unfolding loads value items fields chars read_escape pair hex4 hex_value unescape digits natural
    expect skip finish is_digit
trailing_comma = refl
