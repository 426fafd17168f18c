-- ===== src/Event/Fill.antt =====
-- The functions of sock_events.c that fill the parts of an event from the arguments of a call.
pub mod Laws
use tcpsnitch.Base.{
  ℕ, zero, suc, ◌+◌, ◌%◌, ◌^◌, ℤ, pos, negsuc, Bool, true, false, Option, none, some, List, [], ◌∷◌,
  if◌then◌else◌, bit_and, replicate, take,
}
use tcpsnitch.Outcome.{Outcome, done, fault, out_of_bounds, bind_outcome}
use tcpsnitch.Bytes.{Text, memcpy, has_flag}
use tcpsnitch.Event.{
  SockInfo, Addr, Sockopt, Iovec, Msghdr, Mmsghdr, PollEvents, Timeout, zero_storage,
}

infixl 5 ◌>>=◌
abbrev ◌>>=◌ : {A B : Type 0} → Outcome A → (A → Outcome B) → Outcome B
m >>= f = bind_outcome m f

abbrev sock_type_mask : ℕ
sock_type_mask = 0b1111

-- SOCK_CLOEXEC and SOCK_NONBLOCK of Linux.
abbrev pub sock_cloexec_flag : ℕ
sock_cloexec_flag = 0o2000000

abbrev pub sock_nonblock_flag : ℕ
sock_nonblock_flag = 0o4000

pub fill_sock_info : ℕ → ℕ → ℕ → SockInfo
fill_sock_info domain type protocol = record {
  domain = domain;
  type = bit_and type sock_type_mask;
  protocol = protocol;
  sock_cloexec = has_flag type sock_cloexec_flag;
  sock_nonblock = has_flag type sock_nonblock_flag;
  filled = true;
}

-- The address `addr` of `len` bytes, copied to an address that was blank.
pub fill_addr : Text → ℕ → Outcome Addr
fill_addr addr len = do
  sto ← memcpy zero_storage addr len
  done (record { sockaddr_sto = sto; len = len })

-- POLLIN, POLLPRI, POLLOUT, POLLRDHUP, POLLERR, POLLHUP and POLLNVAL of Linux.
pub fill_poll_events : ℕ → PollEvents
fill_poll_events events = record {
  pollin = has_flag events 0x001;
  pollpri = has_flag events 0x002;
  pollout = has_flag events 0x004;
  pollrdhup = has_flag events 0x2000;
  pollerr = has_flag events 0x008;
  pollhup = has_flag events 0x010;
  pollnval = has_flag events 0x020;
}

-- The loop over `n` entries: the sizes, and their sum in a `socklen_t`.
iovec_loop : ℕ → List ℕ → ℕ → Outcome (List ℕ × ℕ)
iovec_loop zero iov bytes = done ([], bytes)
iovec_loop (suc n) [] bytes = fault out_of_bounds
iovec_loop (suc n) (len ∷ iov) bytes = do
  (sizes, total) ← iovec_loop n iov ((bytes + len) % 2 ^ 32)
  done (len ∷ sizes, total)

-- The copy of an I/O vector, given by the lengths of its entries, and the sum of these.
pub fill_iovec : List ℕ → ℤ → Outcome (Iovec × ℕ)
unfolding iovec_loop
fill_iovec iov (negsuc n) = done (record { iovec_count = negsuc n; iovec_sizes = [] }, 0)
fill_iovec iov (pos zero) = done (record { iovec_count = pos zero; iovec_sizes = [] }, 0)
fill_iovec iov (pos (suc n)) = do
  (sizes, bytes) ← iovec_loop (suc n) iov 0
  done (record { iovec_count = pos (suc n); iovec_sizes = sizes }, bytes)

-- The `struct msghdr` that a call is given: `iov` holds the lengths of the I/O vector.
pub record MsghdrArg : Type 0 where
  pub name : Option Text
  pub namelen : ℕ
  pub iov : List ℕ
  pub iovlen : ℤ
  pub control : Text
  pub controllen : ℕ
  pub flags : ℕ

fill_msg_name : Option Text → ℕ → Outcome Text
fill_msg_name none namelen = done zero_storage
fill_msg_name (some name) namelen = memcpy zero_storage name namelen

pub fill_msghdr : MsghdrArg → Outcome (Msghdr × ℕ)
unfolding fill_msg_name
fill_msghdr m2 = do
  addr ← fill_msg_name m2.name m2.namelen
  control ← memcpy (replicate m2.controllen 0) m2.control m2.controllen
  (iovec, bytes) ← fill_iovec m2.iov m2.iovlen
  done (
    record {
      iovec = iovec;
      addr = addr;
      flags = m2.flags;
      control = control;
      controllen = m2.controllen;
    },
    bytes,
  )

-- A `struct mmsghdr` that a call is given.
pub record MmsghdrArg : Type 0 where
  pub msg_hdr : MsghdrArg
  pub msg_len : ℕ

-- The loop over `vlen` messages: the copies, and the sum of their sizes in an `unsigned int`.
mmsghdr_loop : List MmsghdrArg → ℕ → ℕ → Outcome (List Mmsghdr × ℕ)
mmsghdr_loop vec zero bytes = done ([], bytes)
mmsghdr_loop [] (suc vlen) bytes = fault out_of_bounds
mmsghdr_loop (m ∷ vec) (suc vlen) bytes = do
  (hdr, n) ← fill_msghdr m.msg_hdr
  (rest, total) ← mmsghdr_loop vec vlen ((bytes + n) % 2 ^ 32)
  done (record { msghdr = hdr; bytes_transmitted = m.msg_len } ∷ rest, total)

pub fill_mmsghdr_vec : List MmsghdrArg → ℕ → Outcome (List Mmsghdr × ℕ)
unfolding mmsghdr_loop
fill_mmsghdr_vec vec vlen = mmsghdr_loop vec vlen 0

-- `optval` is copied to a block of `optlen` bytes.
pub fill_sockopt : ℕ → ℕ → Text → ℕ → Bool → ℕ → Outcome Sockopt
fill_sockopt level optname optval optlen getsockopt fd = do
  copy ← memcpy (replicate optlen 0) optval optlen
  done (record {
    level = level;
    optname = optname;
    optval = copy;
    optlen = optlen;
    getsockopt = getsockopt;
    fd = fd;
  })
