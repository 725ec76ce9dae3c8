-- ===== src/Durable/Runner/Ascii.antt =====
-- Python's text functions on ASCII, for the tests.
use Prim.Native.String.{String, ◌++◌}
use cognitive_evolve.Prelude.{◌&&◌, ◌||◌, none, leb, eqb}
use cognitive_evolve.Json.{Value, text, object, end, field, Python}

-- A digest that tells small inputs apart, and ASCII character classes.
abbrev digest : Value → String
digest (object (field k (text s) end)) = "h-" ++ s
digest _ = "h"

abbrev pub ascii : Python
ascii = record {
  str_of = λ _. "value";
  parse_int = λ _. none;
  dict_of = λ _. none;
  is_alnum =
      λ c. (leb b'0' c && leb c b'9') || (leb b'A' c && leb c b'Z') || (leb b'a' c && leb c b'z');
  is_space = λ c. eqb c 32;
  upper = λ s. s;
  lower = λ s. s;
  sha256_json = digest;
}
