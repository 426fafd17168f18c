-- ===== src/Examples/Objects.antt =====
-- The theorems about json_builder.c and constants.c at concrete events, over a JSON library that keeps
-- the fields of an object in a list, the newest first, and headers with some macros of Linux.
use package.text.Mathlib.Text.{◌==◌ as same_text}
use tcpsnitch.Base.{
  to_int, ap, arith, ◌≡◌, refl, ℤ, pos, negsuc, true, false, Bool, Option, none, some, List, [],
  ◌∷◌, ◌++◌, String, if◌then◌else◌,
}
use tcpsnitch.Outcome.{done, Returns}
use tcpsnitch.Bytes.{Text}
use tcpsnitch.Text.{codes, decimal, print_int}
use tcpsnitch.Verbose.{event_line, label}
use tcpsnitch.Text.{print_int}
use tcpsnitch.Base.{◌++◌}
use tcpsnitch.Verbose.Lines.{shown_name, shown_sign, whole_line, event_line-whole}
use tcpsnitch.Examples.Setting.{some_event}
use tcpsnitch.Event.Kinds.{kind}
use tcpsnitch.Event.{SockEvent, Sockopt, getsockopt, getsockopt_event}
use tcpsnitch.Constants.{Headers, alloc_errno_str}
use tcpsnitch.Constants.Named.{PrintsNames, constants-PrintsNames}
use tcpsnitch.Json.{Jansson, IsJansson, Names}
use tcpsnitch.Json.Sockopts.{build_optval}
use tcpsnitch.Json.Build.{build_sock_ev}
use tcpsnitch.Json.Reported.{Reported}
use tcpsnitch.Json.Total.{build_sock_ev-Reported}

mutual
  pub data Value : Type 0 where
    object_value : Fields → Value
    array_value : Items → Value
    string_value : Text → Value
    integer : ℤ → Value
    boolean : Bool → Value

  pub data Fields : Type 0 where
    no_fields : Fields
    field : String → Value → Fields → Fields

  pub data Items : Type 0 where
    no_items : Items
    item : Value → Items → Items

abbrev pub find : Fields → String → Option Value
find no_fields k = none
find (field i v o) k = if same_text i k then some v else find o k

abbrev pub set : Fields → String → Option Value → Fields
set o k none = o
set o k (some v) = field k v o

abbrev pub append : Items → Value → Items
append no_items v = item v no_items
append (item w a) v = item w (append a v)

abbrev pub list_of : Items → List Value
list_of no_items = []
list_of (item v a) = v ∷ list_of a

abbrev pub text_value : Option Text → Option Value
text_value none = none
text_value (some t) = some (string_value t)

abbrev pub integer_of : Value → Option ℤ
integer_of (integer i) = some i
integer_of _ = none

abbrev pub object_of : Value → Option Fields
object_of (object_value o) = some o
object_of _ = none

abbrev pub lists : Jansson
lists = record {
  Json = Value;
  Object = Fields;
  Array = Items;
  object = object_value;
  array = array_value;
  json_object = no_fields;
  json_array = no_items;
  json_string = text_value;
  json_integer = integer;
  json_boolean = boolean;
  set_new = set;
  append_new = append;
  json_dumps = λ v. none;
  get = find;
  elements = list_of;
  integer_value = integer_of;
  object_value = object_of;
}

elements_append : (a : Items) (v : Value) → list_of (append a v) ≡ list_of a ++ v ∷ []
elements_append no_items v = refl
elements_append (item w a) v = ap (λ l. w ∷ l) (elements_append a v)

pub lists-IsJansson : IsJansson lists
lists-IsJansson = record {
  get-object = λ k. refl;
  get-set = λ o k i v. refl;
  get-set_null = λ o k i. refl;
  elements-array = refl;
  elements-append = elements_append;
  integer_lem = λ i. refl;
  object_lem = λ o. refl;
}

abbrev pub some_headers : Headers
some_headers name =
    if same_text name "EACCES"
    then some (pos 13)
    else if same_text name "EAGAIN"
    then some (pos 11)
    else if same_text name "AF_INET"
    then some (pos 2)
    else if same_text name "SO_LINGER"
    then some (pos 13)
    else none

abbrev pub names : Names
names = record {
  headers = some_headers;
  getprotobynumber = λ number. none;
  inet_ntop = λ family addr. none;
  interface = λ fd index. none;
}

-- SO_LINGER with a `struct linger` that is on for 5 seconds, refused with EACCES.
abbrev linger : Sockopt
linger = record {
  level = 1;
  optname = 13;
  optval = 1 ∷ 0 ∷ 0 ∷ 0 ∷ 5 ∷ 0 ∷ 0 ∷ 0 ∷ [];
  optlen = 8;
  getsockopt = true;
  fd = 4;
}

abbrev refused : SockEvent
refused = record {
  type = getsockopt;
  timestamp_usec = 1000000;
  return_value = negsuc 0;
  success = false;
  err = pos 13;
  id = 3;
  thread_id = 77;
  details = getsockopt_event linger;
}

build_sock_ev-Reported_example :
    Returns (Reported lists names refused) (build_sock_ev lists names refused)
unfolding kind
build_sock_ev-Reported_example =
    build_sock_ev-Reported lists lists-IsJansson names refused refl (omega arith)

constants-PrintsNames_example : PrintsNames some_headers
constants-PrintsNames_example = constants-PrintsNames some_headers

eacces : alloc_errno_str some_headers (pos 13) ≡ codes "EACCES"
unfolding alloc_errno_str
eacces = refl

unknown : alloc_errno_str some_headers (pos 14) ≡ codes "14"
unfolding alloc_errno_str print_int
unknown = refl

linger_value :
    build_optval lists names linger
    ≡ done (
        some (
          object_value
            (field "l_linger" (integer (pos 5)) (field "l_onoff" (integer (pos 1)) no_fields))))
unfolding build_optval to_int
linger_value = refl

shown_line : event_line 76 some_event ≡ codes "[pid 76] send()=10" ++ b'\n' ∷ []
unfolding event_line label print_int decimal
shown_line = refl

event_line-whole_example :
    event_line 76 refused
    ≡ whole_line 76
        ((shown_name refused.type ++ shown_sign refused.type) ++ print_int refused.return_value)
event_line-whole_example =
    event_line-whole 76 refused (omega arith) (record { above = omega arith; below = omega arith })
