-- ===== src/Examples/Setting.antt =====
-- Surroundings and states that the runs start from.
use tcpsnitch.Base.{
  inl, inr, pos, Bool, true, false, none, some, [], ◌∷◌, ◌==◌, ◌≡◌, refl, if◌then◌else◌, ◌++◌,
}
use tcpsnitch.Bytes.{Text}
use tcpsnitch.Text.{codes}
use tcpsnitch.Event.{SockEvent, TcpInfo, send, send_event}
use tcpsnitch.Init.LogsDir.{IsSane, HasNull}
use tcpsnitch.Spec.Dump.{Serialises}
use tcpsnitch.Kernel.{Kernel, there, absent}

abbrev pub some_info : TcpInfo
some_info = record {
  state = 1;
  ca_state = 0;
  retransmits = 0;
  probes = 0;
  backoff = 0;
  options = 0;
  snd_wscale = 7;
  rcv_wscale = 7;
  rto = 0;
  ato = 0;
  snd_mss = 1448;
  rcv_mss = 536;
  unacked = 0;
  sacked = 0;
  lost = 0;
  retrans = 0;
  fackets = 0;
  last_data_sent = 0;
  last_ack_sent = 0;
  last_data_recv = 0;
  last_ack_recv = 0;
  pmtu = 1500;
  rcv_ssthresh = 0;
  rtt = 25;
  rttvar = 0;
  snd_ssthresh = 0;
  snd_cwnd = 10;
  advmss = 1448;
  reordering = 3;
  rcv_rtt = 0;
  rcv_space = 0;
  total_retrans = 0;
}

abbrev pub same_text : Text → Text → Bool
same_text [] [] = true
same_text (a ∷ as') (b ∷ bs) = if a == b then same_text as' bs else false
same_text _ _ = false

-- Every descriptor is a TCP socket over IPv4, the traces go to "/t", and no directory is there yet.
abbrev pub host : Kernel
host = record {
  getfd = λ fd. true;
  fstat = λ fd. some true;
  getsockopt = λ fd level name. if name == 39 then some 2 else if name == 3 then some 1 else some 6;
  tcp_info = λ fd. (pos 0, pos 0, some_info);
  uninitialized = 0;
  time_of_day = λ n. some (1, n);
  gettid = 77;
  getpid = 76;
  fopen = λ p. true;
  fdopen = λ fd. true;
  json_dumps = λ ev. true;
  pthread_create = true;
  getenv = λ v. if same_text v (codes "TCPSNITCH_OPT_D") then some (codes "/t") else none;
  cmdline = some (codes "/bin/nc" ++ 0 ∷ codes "-l" ++ 0 ∷ []);
  opendir = λ p. absent;
  mkdir = λ p. true;
  dir_limit = 3;
}

pub host-Serialises : Serialises host
host-Serialises ev = refl

some_of : {a b : Text} → some a ≡ some b → a ≡ b
some_of h = cc

no_dir : absent ≡ there → ⊥
no_dir h = cc

pub host-IsSane : IsSane host
host-IsSane = record { cmdline_ends = λ bytes e. rw⁻¹ (some_of e) ends; finite = λ base. no_dir }
  where
    ends : HasNull (codes "/bin/nc" ++ 0 ∷ codes "-l" ++ 0 ∷ [])
    ends = inr (inr (inr (inr (inr (inr (inr (inl refl)))))))

abbrev pub some_event : SockEvent
some_event = record {
  type = send;
  timestamp_usec = 1000007;
  return_value = pos 10;
  success = true;
  err = pos 0;
  id = 1;
  thread_id = 77;
  details = send_event 10 0;
}
