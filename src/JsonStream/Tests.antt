-- ===== src/JsonStream/Tests.antt =====
-- JsonStream.h at concrete inputs, after test/test_json_stream.
use esp8266_dns.Base.{
  c_string, Bytes, List, [], arith, codes, false, refl, replicate, true, ◌∷◌, ◌≡◌,
}
use esp8266_dns.JsonStream.{
  JsonStream, end_scalar, feed, feed_plain, feeds, key_at, open_level, write_key,
}
use esp8266_dns.JsonStream.Bounds.{IsBounded, feeds-IsBounded}
use esp8266_dns.JsonStream.Members.{ended, told, told_all, valued}

abbrev empty : JsonStream
empty = record {
  keys = replicate 5 [];
  objects = 0;
  depth = 0;
  str = false;
  esc = false;
  bare = false;
  want_key = false;
  cut = false;
  hex = 0;
  buf = [];
  overrun = false;
  calls = [];
}

empty-IsBounded : IsBounded empty
empty-IsBounded = record {
  text_fits = omega arith;
  keys_fit = ground arith;
  levels = refl;
  depth_fits = omega arith;
  digits = omega arith;
  inside = refl;
}

feeds-IsBounded_example : IsBounded (feeds (codes "{\"a\":[1,{\"b\":\"\\u00e9\"}]}") empty)
feeds-IsBounded_example =
    feeds-IsBounded (codes "{\"a\":[1,{\"b\":\"\\u00e9\"}]}") empty empty-IsBounded

-- Behind the opening brace of the first object.
abbrev opened : JsonStream
opened = record empty { depth = 1; objects = 1; want_key = true }

opened_by_brace : feed b'{' empty ≡ opened
unfolding feed feed_plain end_scalar open_level write_key
opened_by_brace = refl

abbrev named : List (Bytes × Bytes)
named = (codes "name", codes "ho\"me") ∷ []

last_key : key_at 1 (told_all named (codes "type", codes "A") opened) ≡ codes "type"
unfolding key_at told_all told ended valued c_string
last_key = refl
