-- ===== src/Json.antt =====
-- The values of `dict[str, Any]` payloads, with the reads that the code makes of them.
-- Numbers are the non-negative integers.
use cognitive_evolve.Prelude.{
  ℕ, zero, suc, String, ◌≡◌, Bool, true, false, not, Option, none, some, arith, ◌==◌, eq_iff,
  if◌then◌else◌,
}

mutual
  pub data Value : Type 0 where
    null : Value
    bool : Bool → Value
    int : ℕ → Value
    text : String → Value
    array : Items → Value
    object : Fields → Value

  pub data Items : Type 0 where
    nil : Items
    cons : Value → Items → Items

  -- A JSON object, in insertion order.
  pub data Fields : Type 0 where
    end : Fields
    field : String → Value → Fields → Fields

-- d.get(k)
unfoldable pub get_field : Fields → String → Option Value
get_field end k = none
get_field (field j v d) k = if j == k then some v else get_field d k

-- d[k] = v
unfoldable pub set_field : Fields → String → Value → Fields
set_field end k v = field k v end
set_field (field j w d) k v = if j == k then field j v d else field j w (set_field d k v)

-- d.update(e)
unfoldable pub update_fields : Fields → Fields → Fields
unfolding set_field
update_fields d end = d
update_fields d (field k v e) = update_fields (set_field d k v) e

-- bool(v)
unfoldable pub truthy : Value → Bool
truthy null = false
truthy (bool b) = b
truthy (int zero) = false
truthy (int (suc n)) = true
truthy (text s) = not (s == "")
truthy (array nil) = false
truthy (array (cons v vs)) = true
truthy (object end) = false
truthy (object (field k v d)) = true

pub get_field-set_field :
    (d : Fields) (k j : String) (v : Value)
    → get_field (set_field d k v) j ≡ (if k == j then some v else get_field d j)
unfolding get_field set_field
get_field-set_field end k j v = ground arith
get_field-set_field (field i w d) k j v =
    ground (arith, eq_iff k j, eq_iff i k, eq_iff i j, get_field-set_field d k j v)

-- What Python itself computes: `str` of a value that is not a text, `int` of a text, `dict` of a
-- value that is not a dict, `str.isalnum` and `str.isspace` of a code point, `str.upper`,
-- `str.lower`, and the SHA-256 digest of canonical JSON.
pub record Python : Type 0 where
  pub str_of : Value → String
  pub parse_int : String → Option ℕ
  pub dict_of : Value → Option Fields
  pub is_alnum : ℕ → Bool
  pub is_space : ℕ → Bool
  pub upper : String → String
  pub lower : String → String
  pub sha256_json : Value → String

-- What a call raises, where the code tells the kinds apart.
pub data Error : Type 0 where
  value_error : Error
  type_error : Error
  raised : (class message : String) → Error

pub data Result {ℓ} (A : Type ℓ) : Type ℓ where
  ok : A → Result A
  err : Error → Result A

infixl 5 ◌>>=◌ ◌>>◌
abbrev pub ◌>>=◌ {ℓ κ} : {A : Type ℓ} {B : Type κ} → Result A → (A → Result B) → Result B
ok a >>= f = f a
err e >>= f = err e

abbrev pub ◌>>◌ {ℓ κ} : {A : Type ℓ} {B : Type κ} → Result A → Result B → Result B
m >> k = m >>= λ _. k

module _ (py : Python) where
  -- str(v)
  abbrev pub str : Value → String
  str (text s) = s
  str v = py.str_of v

  -- int(v)
  abbrev pub to_int : Value → Result ℕ
  to_int (int n) = ok n
  to_int (bool b) = ok (if b then 1 else 0)
  to_int (text s) = elim (py.parse_int s) [ none ↦ err value_error | some n ↦ ok n ]
  to_int _ = err type_error

  -- dict(v)
  abbrev pub to_dict : Value → Result Fields
  to_dict (object d) = ok d
  to_dict v = elim (py.dict_of v) [ none ↦ err type_error | some d ↦ ok d ]

  -- v or default
  abbrev pub or_else : Option Value → Value → Value
  or_else none d = d
  or_else (some v) d = if truthy v then v else d

  -- d.get(j) or d.get(k)
  abbrev pub either_field : Fields → String → String → Value
  either_field d j k = or_else (get_field d j) (or_else (get_field d k) null)

  -- str(d.get(k) or default)
  unfoldable pub text_field : Fields → String → String → String
  unfolding get_field truthy
  text_field d k default = str (or_else (get_field d k) (text default))

  -- int(d.get(k) or 0)
  unfoldable pub int_field : Fields → String → Result ℕ
  unfolding get_field truthy
  int_field d k = to_int (or_else (get_field d k) (int 0))

  -- dict(d.get(k) or {})
  unfoldable pub dict_field : Fields → String → Result Fields
  unfolding get_field truthy
  dict_field d k = to_dict (or_else (get_field d k) (object end))
