-- ===== src/Spec/Changes.antt =====
-- The changes that the hooks of sock_events.c make to a socket.
use tcpsnitch.Base.{ℕ, ◌+◌, ◌%◌, ◌^◌, ◌<◌, inl, inr, refl, ℤ, pos, arith, Bool-cases, eqb_ℤ}
use tcpsnitch.Event.{Socket, Addr}
use tcpsnitch.Event.Fill.Laws.{msg_bytes}
use tcpsnitch.Tracer.Handlers.{add_sent, add_received, bound_by}
use tcpsnitch.Tracer.IoHandlers.{is_dup_cmd}
use tcpsnitch.Spec.Calls.{
  Call, on_socket, on_bind, on_connect, on_shutdown, on_listen, on_accept, on_accept4,
  on_getsockopt, on_setsockopt, on_send, on_recv, on_sendto, on_recvfrom, on_sendmsg, on_recvmsg,
  on_sendmmsg, on_recvmmsg, on_getsockname, on_getpeername, on_sockatmark, on_isfdtype, on_write,
  on_read, on_close, on_dup, on_dup2, on_dup3, on_writev, on_readv, on_ioctl, on_sendfile, on_poll,
  on_ppoll, on_select, on_pselect, on_fcntl, on_epoll_ctl, on_epoll_wait, on_epoll_pwait, on_fdopen,
}
use tcpsnitch.Spec.Effects.{effect_of, addr_at, iov_bytes, vec_bytes}
use tcpsnitch.Spec.Invariant.{Tame, Tame-refl, IsTame}

mod64 : (n : ℕ) → n % 2 ^ 64 < 2 ^ 64
mod64 n = omega arith

sent-Tame : (bytes : ℕ) (s : Socket) → Tame s (add_sent bytes s)
unfolding add_sent
sent-Tame bytes s = record {
  id_kept = refl;
  fd_kept = refl;
  sent = λ _. mod64 (s.bytes_sent + bytes);
  received = λ h. h;
}

received-Tame : (bytes : ℕ) (s : Socket) → Tame s (add_received bytes s)
unfolding add_received
received-Tame bytes s = record {
  id_kept = refl;
  fd_kept = refl;
  sent = λ h. h;
  received = λ _. mod64 (s.bytes_received + bytes);
}

bound-Tame : (ret : ℤ) (a : Addr) (s : Socket) → Tame s (bound_by ret a s)
unfolding bound_by
bound-Tame ret a s = elim (Bool-cases (eqb_ℤ ret (pos 0))) [
  | inl e ↦ rw e (record { id_kept = refl; fd_kept = refl; sent = λ h. h; received = λ h. h })
  | inr e ↦ rw e (Tame-refl s)
]

fcntl-IsTame :
    (fd : ℕ) (ret err : ℤ) (cmd : ℕ) (arg : ℤ) → IsTame (effect_of (on_fcntl fd ret err cmd arg))
fcntl-IsTame fd ret err cmd arg = elim (Bool-cases (is_dup_cmd cmd)) [
  | inl e ↦ rw e Tame-refl
  | inr e ↦ rw e Tame-refl
]

-- Whatever the call, what its hook does to a socket leaves the socket's identity alone and its counters
-- in the range of an `unsigned long`.
pub effect_of-IsTame : (c : Call) → IsTame (effect_of c)
effect_of-IsTame (on_socket fd domain type protocol) = tt
effect_of-IsTame (on_bind fd ret err addr len) = bound-Tame ret (addr_at addr len)
effect_of-IsTame (on_connect fd ret err addr len) = Tame-refl
effect_of-IsTame (on_shutdown fd ret err how) = Tame-refl
effect_of-IsTame (on_listen fd ret err backlog) = Tame-refl
effect_of-IsTame (on_accept fd ret err addr len) = Tame-refl
effect_of-IsTame (on_accept4 fd ret err addr len flags) = Tame-refl
effect_of-IsTame (on_getsockopt fd ret err level optname optval optlen) = Tame-refl
effect_of-IsTame (on_setsockopt fd ret err level optname optval optlen) = Tame-refl
effect_of-IsTame (on_send fd ret err bytes flags) = sent-Tame bytes
effect_of-IsTame (on_recv fd ret err bytes flags) = received-Tame bytes
effect_of-IsTame (on_sendto fd ret err bytes flags addr len) = sent-Tame bytes
effect_of-IsTame (on_recvfrom fd ret err bytes flags addr len) = received-Tame bytes
effect_of-IsTame (on_sendmsg fd ret err msg flags) = sent-Tame (msg_bytes msg)
effect_of-IsTame (on_recvmsg fd ret err msg flags) = received-Tame (msg_bytes msg)
effect_of-IsTame (on_sendmmsg fd ret err vec vlen flags) = sent-Tame (vec_bytes vec vlen)
effect_of-IsTame (on_recvmmsg fd ret err vec vlen flags tmo) = received-Tame (vec_bytes vec vlen)
effect_of-IsTame (on_getsockname fd ret err addr len) = Tame-refl
effect_of-IsTame (on_getpeername fd ret err addr len) = Tame-refl
effect_of-IsTame (on_sockatmark fd ret err) = Tame-refl
effect_of-IsTame (on_isfdtype fd ret err fdtype) = Tame-refl
effect_of-IsTame (on_write fd ret err bytes) = sent-Tame bytes
effect_of-IsTame (on_read fd ret err bytes) = received-Tame bytes
effect_of-IsTame (on_close fd ret err) = tt
effect_of-IsTame (on_dup fd ret err) = Tame-refl
effect_of-IsTame (on_dup2 fd ret err newfd) = Tame-refl
effect_of-IsTame (on_dup3 fd ret err newfd flags) = Tame-refl
effect_of-IsTame (on_writev fd ret err vec n) = sent-Tame (iov_bytes vec n)
effect_of-IsTame (on_readv fd ret err vec n) = received-Tame (iov_bytes vec n)
effect_of-IsTame (on_ioctl fd ret err request) = Tame-refl
effect_of-IsTame (on_sendfile fd ret err bytes) = received-Tame bytes
effect_of-IsTame (on_poll fd ret err requested returned timeout) = Tame-refl
effect_of-IsTame (on_ppoll fd ret err requested returned timeout) = Tame-refl
effect_of-IsTame (on_select fd ret err requested returned timeout) = Tame-refl
effect_of-IsTame (on_pselect fd ret err requested returned timeout) = Tame-refl
effect_of-IsTame (on_fcntl fd ret err cmd arg) = fcntl-IsTame fd ret err cmd arg
effect_of-IsTame (on_epoll_ctl fd ret err op requested) = Tame-refl
effect_of-IsTame (on_epoll_wait fd ret err timeout returned) = Tame-refl
effect_of-IsTame (on_epoll_pwait fd ret err timeout returned) = Tame-refl
effect_of-IsTame (on_fdopen fd stream err mode) = Tame-refl
