-- ===== src/Json/Kinds.antt =====
-- What a reader finds in the details of each kind of event (json_builder.c).
use tcpsnitch.Base.{
  ℕ, ◌≡◌, refl, sym, ap, ◌∙◌, ℤ, true, false, Option, none, some, List, String, to_long,
}
use tcpsnitch.Event.{SockEvent, Details, TcpInfo, tcp_info, tcp_info_event}
use tcpsnitch.Json.{Jansson, IsJansson, Names, latest, get-new, number, object_of}
use tcpsnitch.Json.Fields.{real_call, fake_call}
use tcpsnitch.Json.IoEvents.{build_sock_ev_tcp_info}
use tcpsnitch.Event.Kinds.{kind}
use tcpsnitch.Json.Contents.{is_fake, bytes_of, info_of}
use tcpsnitch.Json.Reported.{
  number_of, integer_in, read_number, read_tcp_info, Tells, Reported, fake_call-Reported,
  real_call-Reported,
}

module _ (j : Jansson) (laws : IsJansson j) where
  read_number-none :
      (entries : List (String × Option j.Json)) (k : String)
      → latest j k entries none ≡ none
      → read_number j (object_of j entries) k ≡ none
  read_number-none entries k e = ap (integer_in j) (get-new j laws entries k ∙ e)

  read_number-some :
      (entries : List (String × Option j.Json)) (k : String) (i : ℤ)
      → latest j k entries none ≡ number j i
      → read_number j (object_of j entries) k ≡ some i
  read_number-some entries k i e =
      ap (integer_in j) (get-new j laws entries k ∙ e) ∙ laws.integer_lem i

  read_tcp_info-none :
      (entries : List (String × Option j.Json))
      → latest j "state" entries none ≡ none
      → read_tcp_info j (object_of j entries) ≡ none
  unfolding read_tcp_info
  read_tcp_info-none entries e = rw (read_number-none entries "state" e) refl

  module _ (names : Names) (ev : SockEvent) where
    pub tcp_info-Reported :
        (i : TcpInfo)
        → ev.details ≡ tcp_info_event i
        → ev.type ≡ tcp_info
        → Reported j names ev (build_sock_ev_tcp_info j names ev i)
    unfolding build_sock_ev_tcp_info is_fake bytes_of info_of read_tcp_info
    tcp_info-Reported i d t = fake_call-Reported j names laws ev _ (ap is_fake t) (record {
      bytes = read_number-none _ "bytes" refl ∙ sym (ap (λ c. number_of (bytes_of c)) d);
      measures = (simp (get-new j laws, laws.integer_lem)) ∙ sym (ap info_of d);
    })

    Tells-entries :
        (c : Details) (entries : List (String × Option j.Json))
        → ev.details ≡ c
        → info_of c ≡ none
        → read_number j (object_of j entries) "bytes" ≡ number_of (bytes_of c)
        → latest j "state" entries none ≡ none
        → Tells j ev (object_of j entries)
    Tells-entries c entries d no_info eb es = record {
      bytes = eb ∙ sym (ap (λ x. number_of (bytes_of x)) d);
      measures = read_tcp_info-none entries es ∙ sym (ap info_of d ∙ no_info);
    }

    -- An event of a call whose details tell no bytes.
    pub quiet-Reported :
        (c : Details) (entries : List (String × Option j.Json))
        → ev.details ≡ c
        → kind c ≡ ev.type
        → is_fake (kind c) ≡ false
        → bytes_of c ≡ none
        → info_of c ≡ none
        → latest j "bytes" entries none ≡ none
        → latest j "state" entries none ≡ none
        → Reported j names ev (real_call j names ev entries)
    quiet-Reported c entries d t f no_bytes no_info eb es =
        real_call-Reported j names laws ev entries (ap is_fake (sym t) ∙ f) (
          Tells-entries c entries d no_info
            (read_number-none entries "bytes" eb ∙ sym (ap number_of no_bytes)) es)

    -- An event that stands for no call, with details that tell no bytes.
    pub fake-Reported :
        (c : Details) (entries : List (String × Option j.Json))
        → ev.details ≡ c
        → kind c ≡ ev.type
        → is_fake (kind c) ≡ true
        → bytes_of c ≡ none
        → info_of c ≡ none
        → latest j "bytes" entries none ≡ none
        → latest j "state" entries none ≡ none
        → Reported j names ev (fake_call j names ev entries)
    fake-Reported c entries d t f no_bytes no_info eb es =
        fake_call-Reported j names laws ev entries (ap is_fake (sym t) ∙ f) (
          Tells-entries c entries d no_info
            (read_number-none entries "bytes" eb ∙ sym (ap number_of no_bytes)) es)

    -- An event of a call whose details tell bytes.
    pub counted-Reported :
        (c : Details) (entries : List (String × Option j.Json)) (n : ℕ)
        → ev.details ≡ c
        → kind c ≡ ev.type
        → is_fake (kind c) ≡ false
        → bytes_of c ≡ some n
        → info_of c ≡ none
        → latest j "bytes" entries none ≡ number j (to_long n)
        → latest j "state" entries none ≡ none
        → Reported j names ev (real_call j names ev entries)
    counted-Reported c entries n d t real some_bytes no_info eb es =
        real_call-Reported j names laws ev entries (ap is_fake (sym t) ∙ real) (
          Tells-entries c entries d no_info
            (read_number-some entries "bytes" (to_long n) eb ∙ sym (ap number_of some_bytes)) es)
