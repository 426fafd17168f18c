-- ===== src/Spec/Fitting.antt =====
-- The plans of the hooks of sock_events.c: each is for the structure of its type.
use tcpsnitch.Base.{ℕ, ◌≡◌, refl, inl, inr, ℤ, pos, eqb_ℤ, Bool-cases, true, false, to_int}
use tcpsnitch.Event
use tcpsnitch.Event.{SockEventType, SockInfo, SockEvent, Socket, Details, Addr}
use tcpsnitch.Event.Kinds.{kind}
use tcpsnitch.Event.Whole.{IsWhole, FitsOption, FitsDetails, rounds}
use tcpsnitch.Event.Fill.Laws.{copied}
use tcpsnitch.Spec.Stored.{entries-Fits, stored_msg-Fits, stored_vec-Fits, rounds-to_int_le}
use tcpsnitch.Tracer.{Plan}
use tcpsnitch.Tracer.Handlers.{plan, keep, add_sent, add_received, bound_by}
use tcpsnitch.Tracer.IoHandlers.{is_dup_cmd}
use tcpsnitch.Spec.Calls.{
  Call, on_socket, on_bind, on_connect, on_shutdown, on_listen, on_accept, on_accept4,
  on_getsockopt, on_setsockopt, on_send, on_recv, on_sendto, on_recvfrom, on_sendmsg, on_recvmsg,
  on_sendmmsg, on_recvmmsg, on_getsockname, on_getpeername, on_sockatmark, on_isfdtype, on_write,
  on_read, on_close, on_dup, on_dup2, on_dup3, on_writev, on_readv, on_ioctl, on_sendfile, on_poll,
  on_ppoll, on_select, on_pselect, on_fcntl, on_epoll_ctl, on_epoll_wait, on_epoll_pwait, on_fdopen,
}
use tcpsnitch.Spec.Effects.{Effect, logs, dups, opens, closes, effect_of, addr_at, IsLegal}

-- A plan leaves the events of a socket alone, and its details are those of an event of the type.
pub record Fits (type : SockEventType) (p : Plan) : Type 0 where
  pub whole : IsWhole type p.details
  pub kept : (s : Socket) → (p.change s).events ≡ s.events

abbrev pub IsFitting : Effect → Type 0
IsFitting (logs type fd ret err p) = Fits type p
IsFitting (dups type fd ret err p) = Fits type p
IsFitting (opens _ _) = Unit {0}
IsFitting (closes _ _ _) = Unit {0}

bound-kept : (ret : ℤ) (a : Addr) (s : Socket) → (bound_by ret a s).events ≡ s.events
unfolding bound_by
bound-kept ret a s = elim (Bool-cases (eqb_ℤ ret (pos 0))) [ inl e ↦ rw e refl | inr e ↦ rw e refl ]

-- What a call needs besides for its event to be whole: an option's value has the bytes of the type
-- that its name stands for, and an operation of `epoll_ctl` is known.
abbrev pub IsRegular : Call → Type 0
IsRegular (on_getsockopt fd ret err level optname optval optlen) = FitsOption (record {
  level = level;
  optname = optname;
  optval = copied optval optlen;
  optlen = optlen;
  getsockopt = true;
  fd = fd;
})
IsRegular (on_setsockopt fd ret err level optname optval optlen) = FitsOption (record {
  level = level;
  optname = optname;
  optval = copied optval optlen;
  optlen = optlen;
  getsockopt = false;
  fd = fd;
})
IsRegular (on_epoll_ctl fd ret err op requested) = FitsDetails (Event.epoll_ctl_event op requested)
IsRegular _ = Unit {0}

fcntl-IsFitting :
    (fd : ℕ) (ret err : ℤ) (cmd : ℕ) (arg : ℤ) → IsFitting (effect_of (on_fcntl fd ret err cmd arg))
unfolding kind
fcntl-IsFitting fd ret err cmd arg = elim (Bool-cases (is_dup_cmd cmd)) [
  | inl e ↦ rw e (record { whole = (refl, tt); kept = λ s. refl })
  | inr e ↦ rw e (record { whole = (refl, tt); kept = λ s. refl })
]

-- Every plan of a call is for the structure of the call's type.
pub effect_of-IsFitting : (c : Call) → IsLegal c → IsRegular c → IsFitting (effect_of c)
unfolding kind add_sent add_received
effect_of-IsFitting (on_socket fd domain type protocol) _ _ = tt
effect_of-IsFitting (on_bind fd ret err addr len) _ _ = record {
  whole = (refl, tt);
  kept = bound-kept ret (addr_at addr len);
}
effect_of-IsFitting (on_connect fd ret err addr len) _ _ = record {
  whole = (refl, tt);
  kept = λ s. refl;
}
effect_of-IsFitting (on_shutdown fd ret err how) _ _ = record {
  whole = (refl, tt);
  kept = λ s. refl;
}
effect_of-IsFitting (on_listen fd ret err backlog) _ _ = record {
  whole = (refl, tt);
  kept = λ s. refl;
}
effect_of-IsFitting (on_accept fd ret err addr len) _ _ = record {
  whole = (refl, tt);
  kept = λ s. refl;
}
effect_of-IsFitting (on_accept4 fd ret err addr len flags) _ _ = record {
  whole = (refl, tt);
  kept = λ s. refl;
}
effect_of-IsFitting (on_getsockopt fd ret err level optname optval optlen) _ r = record {
  whole = (refl, r);
  kept = λ s. refl;
}
effect_of-IsFitting (on_setsockopt fd ret err level optname optval optlen) _ r = record {
  whole = (refl, r);
  kept = λ s. refl;
}
effect_of-IsFitting (on_send fd ret err bytes flags) _ _ = record {
  whole = (refl, tt);
  kept = λ s. refl;
}
effect_of-IsFitting (on_recv fd ret err bytes flags) _ _ = record {
  whole = (refl, tt);
  kept = λ s. refl;
}
effect_of-IsFitting (on_sendto fd ret err bytes flags addr len) _ _ = record {
  whole = (refl, tt);
  kept = λ s. refl;
}
effect_of-IsFitting (on_recvfrom fd ret err bytes flags addr len) _ _ = record {
  whole = (refl, tt);
  kept = λ s. refl;
}
effect_of-IsFitting (on_sendmsg fd ret err msg flags) l _ = record {
  whole = (refl, stored_msg-Fits msg l);
  kept = λ s. refl;
}
effect_of-IsFitting (on_recvmsg fd ret err msg flags) l _ = record {
  whole = (refl, stored_msg-Fits msg l);
  kept = λ s. refl;
}
effect_of-IsFitting (on_sendmmsg fd ret err vec vlen flags) l _ = record {
  whole = (refl, stored_vec-Fits vec vlen (rounds (to_int vlen)) (rounds-to_int_le vlen) l);
  kept = λ s. refl;
}
effect_of-IsFitting (on_recvmmsg fd ret err vec vlen flags tmo) l _ = record {
  whole = (refl, stored_vec-Fits vec vlen (rounds (to_int vlen)) (rounds-to_int_le vlen) l);
  kept = λ s. refl;
}
effect_of-IsFitting (on_getsockname fd ret err addr len) _ _ = record {
  whole = (refl, tt);
  kept = λ s. refl;
}
effect_of-IsFitting (on_getpeername fd ret err addr len) _ _ = record {
  whole = (refl, tt);
  kept = λ s. refl;
}
effect_of-IsFitting (on_sockatmark fd ret err) _ _ = record { whole = (refl, tt); kept = λ s. refl }
effect_of-IsFitting (on_isfdtype fd ret err fdtype) _ _ = record {
  whole = (refl, tt);
  kept = λ s. refl;
}
effect_of-IsFitting (on_write fd ret err bytes) _ _ = record {
  whole = (refl, tt);
  kept = λ s. refl;
}
effect_of-IsFitting (on_read fd ret err bytes) _ _ = record { whole = (refl, tt); kept = λ s. refl }
effect_of-IsFitting (on_close fd ret err) _ _ = tt
effect_of-IsFitting (on_dup fd ret err) _ _ = record { whole = (refl, tt); kept = λ s. refl }
effect_of-IsFitting (on_dup2 fd ret err newfd) _ _ = record { whole = (refl, tt); kept = λ s. refl }
effect_of-IsFitting (on_dup3 fd ret err newfd flags) _ _ = record {
  whole = (refl, tt);
  kept = λ s. refl;
}
effect_of-IsFitting (on_writev fd ret err vec n) l _ = record {
  whole = (refl, entries-Fits vec n l);
  kept = λ s. refl;
}
effect_of-IsFitting (on_readv fd ret err vec n) l _ = record {
  whole = (refl, entries-Fits vec n l);
  kept = λ s. refl;
}
effect_of-IsFitting (on_ioctl fd ret err request) _ _ = record {
  whole = (refl, tt);
  kept = λ s. refl;
}
effect_of-IsFitting (on_sendfile fd ret err bytes) _ _ = record {
  whole = (refl, tt);
  kept = λ s. refl;
}
effect_of-IsFitting (on_poll fd ret err requested returned timeout) _ _ = record {
  whole = (refl, tt);
  kept = λ s. refl;
}
effect_of-IsFitting (on_ppoll fd ret err requested returned timeout) _ _ = record {
  whole = (refl, tt);
  kept = λ s. refl;
}
effect_of-IsFitting (on_select fd ret err requested returned timeout) _ _ = record {
  whole = (refl, tt);
  kept = λ s. refl;
}
effect_of-IsFitting (on_pselect fd ret err requested returned timeout) _ _ = record {
  whole = (refl, tt);
  kept = λ s. refl;
}
effect_of-IsFitting (on_fcntl fd ret err cmd arg) _ _ = fcntl-IsFitting fd ret err cmd arg
effect_of-IsFitting (on_epoll_ctl fd ret err op requested) _ r = record {
  whole = (refl, r);
  kept = λ s. refl;
}
effect_of-IsFitting (on_epoll_wait fd ret err timeout returned) _ _ = record {
  whole = (refl, tt);
  kept = λ s. refl;
}
effect_of-IsFitting (on_epoll_pwait fd ret err timeout returned) _ _ = record {
  whole = (refl, tt);
  kept = λ s. refl;
}
effect_of-IsFitting (on_fdopen fd stream err mode) _ _ = record {
  whole = (refl, tt);
  kept = λ s. refl;
}

pub close-Fits : Fits Event.close (plan Event.close_event keep)
unfolding kind
close-Fits = record { whole = (refl, tt); kept = λ s. refl }
