-- ===== src/Json.antt =====
-- The JSON values that json_builder.c builds, through jansson (a library that is not part of the
-- repository), and what it asks of its other surroundings.
pub mod Memory
pub mod Flags
pub mod Parts
pub mod Sockopts
pub mod Fields
pub mod SocketEvents
pub mod IoEvents
pub mod Build
pub mod Contents
pub mod Reported
pub mod Kinds
pub mod Whole
pub mod WholeOptions
pub mod Total
use package.text.Mathlib.Text.{◌==◌ as same_text}
use tcpsnitch.Base.{
  ℕ, ◌≡◌, refl, ◌∙◌, ap, ℤ, Bool, true, false, Option, none, some, List, [], ◌∷◌, ◌++◌, String,
  if◌then◌else◌,
}
use tcpsnitch.Bytes.{Text}
use tcpsnitch.Text.{codes}
use tcpsnitch.Constants.{Headers}
use tcpsnitch.Capture.{Printer}

-- What the code calls of jansson, a `json_t *` by the kind of value that it is made as. A text that
-- is a null pointer or not UTF-8 makes no value. The four operations at the end read values back.
pub record Jansson : Type 1 where
  pub Json : Type 0
  pub Object : Type 0
  pub Array : Type 0
  pub object : Object → Json
  pub array : Array → Json
  pub json_object : Object
  pub json_array : Array
  pub json_string : Option Text → Option Json
  pub json_integer : ℤ → Json
  pub json_boolean : Bool → Json
  -- `json_object_set_new`: the object as it is then, whether or not there is a value to set
  pub set_new : Object → String → Option Json → Object
  -- `json_array_append_new`
  pub append_new : Array → Json → Array
  pub json_dumps : Json → Option Text
  pub get : Object → String → Option Json
  pub elements : Array → List Json
  pub integer_value : Json → Option ℤ
  pub object_value : Json → Option Object

-- What jansson documents of them: a new object is empty, setting a key replaces its value and leaves
-- the others, setting it to a null pointer fails and changes nothing; an array keeps what is appended
-- to it in order; a value gives back what it was made of.
pub record IsJansson (j : Jansson) : Type 0 where
  pub get-object : (k : String) → j.get j.json_object k ≡ none
  pub get-set :
      (o : j.Object) (k i : String) (v : j.Json)
      → j.get (j.set_new o i (some v)) k ≡ (if same_text i k then some v else j.get o k)
  pub get-set_null : (o : j.Object) (k i : String) → j.get (j.set_new o i none) k ≡ j.get o k
  pub elements-array : j.elements j.json_array ≡ []
  pub elements-append :
      (a : j.Array) (v : j.Json) → j.elements (j.append_new a v) ≡ j.elements a ++ v ∷ []
  pub integer_lem : (i : ℤ) → j.integer_value (j.json_integer i) ≡ some i
  pub object_lem : (o : j.Object) → j.object_value (j.object o) ≡ some o

-- The answers of the headers, the C library and the kernel that the texts depend on.
pub record Names : Type 0 where
  pub headers : Headers
  -- `getprotobynumber(number)->p_name`
  pub getprotobynumber : ℕ → Option Text
  pub inet_ntop : Printer
  -- The name that `ioctl(fd, SIOCGIFNAME)` gives for the index of an interface
  pub interface : ℕ → ℤ → Option Text

module _ (j : Jansson) where
  -- Calls of `add` (`json_object_set_new`) on an object, one after the other.
  unfoldable pub add_all : j.Object → List (String × Option j.Json) → j.Object
  add_all o [] = o
  add_all o ((k, v) ∷ entries) = add_all (j.set_new o k v) entries

  -- The value of a key after a call of `add` on it.
  abbrev pub put_over : Option j.Json → Option j.Json → Option j.Json
  put_over none before = before
  put_over (some v) before = some v

  pub put_over-none : (v : Option j.Json) → put_over v none ≡ v
  put_over-none none = refl
  put_over-none (some v) = refl

  -- The value of the last entry of a key that has one, or else the one before.
  abbrev pub latest : String → List (String × Option j.Json) → Option j.Json → Option j.Json
  latest k [] before = before
  latest k ((i, v) ∷ entries) before =
      latest k entries (if same_text i k then put_over v before else before)

  get-add :
      IsJansson j
      → (o : j.Object) (k i : String) (v : Option j.Json)
      → j.get (j.set_new o i v) k ≡ (if same_text i k then put_over v (j.get o k) else j.get o k)
  get-add laws o k i none = laws.get-set_null o k i ∙ if_same (same_text i k) (j.get o k)
    where
      if_same : (t : Bool) (v : Option j.Json) → v ≡ (if t then v else v)
      if_same true v = refl
      if_same false v = refl
  get-add laws o k i (some v) = laws.get-set o k i v

  pub get-add_all :
      IsJansson j
      → (entries : List (String × Option j.Json)) (o : j.Object) (k : String)
      → j.get (add_all o entries) k ≡ latest k entries (j.get o k)
  unfolding add_all
  get-add_all laws [] o k = refl
  get-add_all laws ((i, v) ∷ entries) o k =
      get-add_all laws entries (j.set_new o i v) k
      ∙ ap (λ before. latest k entries before) (get-add laws o k i v)

  -- A key of a new object with these entries.
  pub get-new :
      IsJansson j
      → (entries : List (String × Option j.Json)) (k : String)
      → j.get (add_all j.json_object entries) k ≡ latest k entries none
  get-new laws entries k =
      get-add_all laws entries j.json_object k
      ∙ ap (λ before. latest k entries before) (laws.get-object k)

  abbrev pub text : Option Text → Option j.Json
  text t = j.json_string t

  abbrev pub literal : String → Option j.Json
  literal s = j.json_string (some (codes s))

  abbrev pub number : ℤ → Option j.Json
  number i = some (j.json_integer i)

  abbrev pub truth : Bool → Option j.Json
  truth b = some (j.json_boolean b)

  abbrev pub nested : j.Object → Option j.Json
  nested o = some (j.object o)

  -- A new object with these entries.
  abbrev pub object_of : List (String × Option j.Json) → j.Object
  object_of entries = add_all j.json_object entries
