-- ===== src/Json/Reported.antt =====
-- The object of an event is built without a fault, and tells the event (json_builder.c).
use tcpsnitch.Base.{
  ℕ, ◌≡◌, ap, ℤ, pos, Bool, true, false, Option, none, some, List, [], ◌∷◌, ◌++◌, String, subst,
  append-nil, arith, if◌then◌else◌, to_long,
}
use tcpsnitch.Event.{SockEvent, TcpInfo}
use tcpsnitch.Constants.{alloc_errno_str}
use tcpsnitch.Json.{
  Jansson, IsJansson, Names, latest, put_over-none, get-new, text, literal, number, truth, nested,
  object_of,
}
use tcpsnitch.Json.Fields.{
  string_from_sock_event_type, build_shared_fields, prelude, real_call, fake_call,
}
use tcpsnitch.Json.Contents.{is_fake, bytes_of, info_of}

abbrev pub number_of : Option ℕ → Option ℤ
number_of none = none
number_of (some n) = some (to_long n)

module _ (j : Jansson) where
  abbrev pub integer_in : Option j.Json → Option ℤ
  integer_in none = none
  integer_in (some v) = j.integer_value v

  -- The number under a key of an object.
  abbrev pub read_number : j.Object → String → Option ℤ
  read_number o k = integer_in (j.get o k)

  abbrev measure : Option ℤ → (ℕ → Option TcpInfo) → Option TcpInfo
  measure (some (pos n)) next = next n
  measure _ next = none

  abbrev field : j.Object → String → (ℕ → Option TcpInfo) → Option TcpInfo
  field o k next = measure (read_number o k) next

  -- The measures that the details of an event tell.
  unfoldable pub read_tcp_info : j.Object → Option TcpInfo
  read_tcp_info d = field d "state" λ state. field d "ca_state" λ ca_state.
      field d "retransmits" λ retransmits. field d "probes" λ probes. field d "backoff" λ backoff.
        field d "options" λ options. field d "snd_wscale" λ snd_wscale.
          field d "rcv_wscale" λ rcv_wscale. field d "rto" λ rto. field d "ato" λ ato.
            field d "snd_mss" λ snd_mss. field d "rcv_mss" λ rcv_mss. field d "unacked" λ unacked.
              field d "sacked" λ sacked. field d "lost" λ lost. field d "retrans" λ retrans.
                field d "fackets" λ fackets. field d "last_data_sent" λ last_data_sent.
                  field d "last_ack_sent" λ last_ack_sent.
                    field d "last_data_recv" λ last_data_recv.
                      field d "last_ack_recv" λ last_ack_recv. field d "pmtu" λ pmtu.
                        field d "rcv_ssthresh" λ rcv_ssthresh. field d "rtt" λ rtt.
                          field d "rttvar" λ rttvar. field d "snd_ssthresh" λ snd_ssthresh.
                            field d "snd_cwnd" λ snd_cwnd. field d "advmss" λ advmss.
                              field d "reordering" λ reordering. field d "rcv_rtt" λ rcv_rtt.
                                field d "rcv_space" λ rcv_space.
                                  field d "total_retrans" λ total_retrans. some (record {
                                    state = state;
                                    ca_state = ca_state;
                                    retransmits = retransmits;
                                    probes = probes;
                                    backoff = backoff;
                                    options = options;
                                    snd_wscale = snd_wscale;
                                    rcv_wscale = rcv_wscale;
                                    rto = rto;
                                    ato = ato;
                                    snd_mss = snd_mss;
                                    rcv_mss = rcv_mss;
                                    unacked = unacked;
                                    sacked = sacked;
                                    lost = lost;
                                    retrans = retrans;
                                    fackets = fackets;
                                    last_data_sent = last_data_sent;
                                    last_ack_sent = last_ack_sent;
                                    last_data_recv = last_data_recv;
                                    last_ack_recv = last_ack_recv;
                                    pmtu = pmtu;
                                    rcv_ssthresh = rcv_ssthresh;
                                    rtt = rtt;
                                    rttvar = rttvar;
                                    snd_ssthresh = snd_ssthresh;
                                    snd_cwnd = snd_cwnd;
                                    advmss = advmss;
                                    reordering = reordering;
                                    rcv_rtt = rcv_rtt;
                                    rcv_space = rcv_space;
                                    total_retrans = total_retrans;
                                  })

  -- What a reader finds in the details of an event.
  pub record Tells (ev : SockEvent) (d : j.Object) : Type 0 where
    pub bytes : read_number d "bytes" ≡ number_of (bytes_of ev.details)
    pub measures : read_tcp_info d ≡ info_of ev.details

  module _ (names : Names) where
    -- What a reader finds in the object of an event.
    pub record Reported (ev : SockEvent) (o : j.Object) : Type 0 where
      pub type : j.get o "type" ≡ literal j (string_from_sock_event_type ev.type)
      pub timestamp : j.get o "timestamp_usec" ≡ number j (to_long ev.timestamp_usec)
      pub return_value : j.get o "return_value" ≡ number j ev.return_value
      pub success : j.get o "success" ≡ truth j ev.success
      pub errno :
          j.get o "errno"
          ≡ (if ev.success then none else text j (some (alloc_errno_str names.headers ev.err)))
      pub thread_id : j.get o "thread_id" ≡ number j (pos ev.thread_id)
      pub fake_call : j.get o "fake_call" ≡ truth j (is_fake ev.type)
      pub details : (d : j.Object) × (j.get o "details" ≡ nested j d) × Tells ev d

    module _ (laws : IsJansson j) where
      -- `after` is what is added once the prelude is done.
      get-prelude :
          (ev : SockEvent) (entries after : List (String × Option j.Json)) (k : String)
          → j.get (object_of j (prelude j names ev entries ++ after)) k
            ≡ latest j k (prelude j names ev entries ++ after) none
      get-prelude ev entries after k = get-new j laws (prelude j names ev entries ++ after) k

      -- The last value of `fake_call` is the one that is set.
      abbrev ending : Bool → List (String × Option j.Json)
      ending true = ("fake_call", truth j true) ∷ []
      ending false = []

      prelude-Reported :
          (ev : SockEvent) (entries : List (String × Option j.Json)) (fake : Bool)
          → is_fake ev.type ≡ fake
          → Tells ev (object_of j entries)
          → Reported ev (object_of j (prelude j names ev entries ++ ending fake))
      unfolding prelude build_shared_fields
      prelude-Reported ev entries true kind tells =
          let at = get-prelude ev entries (ending true) in
          record {
            type = ground (
              arith,
              at "type",
              put_over-none j (literal j (string_from_sock_event_type ev.type)),
            );
            timestamp = ground (arith, at "timestamp_usec");
            return_value = ground (arith, at "return_value");
            success = ground (arith, at "success");
            errno = ground (
              arith,
              at "errno",
              put_over-none j (text j (some (alloc_errno_str names.headers ev.err))),
            );
            thread_id = ground (arith, at "thread_id");
            fake_call = ground (arith, at "fake_call", ap (truth j) kind);
            details = (object_of j entries, ground (arith, at "details"), tells);
          }
      prelude-Reported ev entries false kind tells =
          let at = get-prelude ev entries (ending false) in
          record {
            type = ground (
              arith,
              at "type",
              put_over-none j (literal j (string_from_sock_event_type ev.type)),
            );
            timestamp = ground (arith, at "timestamp_usec");
            return_value = ground (arith, at "return_value");
            success = ground (arith, at "success");
            errno = ground (
              arith,
              at "errno",
              put_over-none j (text j (some (alloc_errno_str names.headers ev.err))),
            );
            thread_id = ground (arith, at "thread_id");
            fake_call = ground (arith, at "fake_call", ap (truth j) kind);
            details = (object_of j entries, ground (arith, at "details"), tells);
          }

      pub fake_call-Reported :
          (ev : SockEvent) (entries : List (String × Option j.Json))
          → is_fake ev.type ≡ true
          → Tells ev (object_of j entries)
          → Reported ev (fake_call j names ev entries)
      unfolding fake_call
      fake_call-Reported ev entries kind tells = prelude-Reported ev entries true kind tells

      pub real_call-Reported :
          (ev : SockEvent) (entries : List (String × Option j.Json))
          → is_fake ev.type ≡ false
          → Tells ev (object_of j entries)
          → Reported ev (real_call j names ev entries)
      unfolding real_call
      real_call-Reported ev entries kind tells =
          subst (λ fields. Reported ev (object_of j fields))
            (append-nil (prelude j names ev entries)) (prelude-Reported ev entries false kind tells)
