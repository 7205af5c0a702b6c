-- ===== src/Json.antt =====
-- Values as `json.loads` returns them, and what the source asks of a dynamic value: `dict.get`,
-- truth, `isinstance` and `str`.
use Prim.Native.Nat.{ℕ, zero, suc}
use loop_agent.Prelude.{
  String, Bool, true, false, not, Option, none, some, List, [], ◌∷◌, ◌==◌, if◌then◌else◌,
}

-- `negsuc n` is -(n + 1).
pub data ℤ : Type 0 where
  pos : ℕ → ℤ
  negsuc : ℕ → ℤ

-- What the source observes of a float: whether it is zero, its integer part, and the values that
-- have none. `json.loads` reads `NaN`, `Infinity` and literals out of range as the latter.
pub data Float : Type 0 where
  zero_float nan infinity : Float
  finite : ℤ → Float

mutual
  pub data Value : Type 0 where
    null : Value
    boolean : Bool → Value
    int : ℤ → Value
    float : Float → Value
    str : String → Value
    array : Items → Value
    object : Fields → Value

  pub data Fields : Type 0 where
    end : Fields
    field : String → Value → Fields → Fields

  pub data Items : Type 0 where
    nil : Items
    cons : Value → Items → Items

-- `d.get(key)`
unfoldable pub get : String → Fields → Option Value
get k end = none
get k (field j v fs) = if j == k then some v else get k fs

-- `d[key] = value`: the key keeps its place.
unfoldable pub put : String → Value → Fields → Fields
put k v end = field k v end
put k v (field j w fs) = if j == k then field k v fs else field j w (put k v fs)

-- `d.pop(key, None)`
unfoldable pub remove : String → Fields → Fields
remove k end = end
remove k (field j v fs) = if j == k then fs else field j v (remove k fs)

abbrev pub elements : Items → List Value
elements nil = []
elements (cons v vs) = v ∷ elements vs

-- `bool(value)`
unfoldable pub truthy : Value → Bool
truthy null = false
truthy (boolean b) = b
truthy (int (pos zero)) = false
truthy (int (pos (suc n))) = true
truthy (int (negsuc n)) = true
truthy (float zero_float) = false
truthy (float f) = true
truthy (str s) = not (s == "")
truthy (array nil) = false
truthy (array (cons v vs)) = true
truthy (object end) = false
truthy (object (field k v fs)) = true

-- `bool(d.get(key))`
unfoldable pub truthy_get : Option Value → Bool
unfolding truthy
truthy_get none = false
truthy_get (some v) = truthy v

-- `str(value)`; how Python prints a value that is no text is a parameter.
unfoldable pub str_of : (Value → String) → Value → String
str_of repr (str s) = s
str_of repr v = repr v

-- A conversion that may raise: `rejected` is a `TypeError` or a `ValueError`, which the callers
-- catch, and `overflow` an `OverflowError`, which they do not.
pub data Conversion {ℓ} (A : Type ℓ) : Type ℓ where
  converted : A → Conversion A
  rejected overflow : Conversion A

-- `int(x)` of a float
unfoldable pub int_of_float : Float → Conversion ℤ
int_of_float zero_float = converted (pos 0)
int_of_float nan = rejected
int_of_float infinity = overflow
int_of_float (finite n) = converted n

-- A list of texts.
abbrev pub texts : List String → Items
texts [] = nil
texts (s ∷ ss) = cons (str s) (texts ss)
