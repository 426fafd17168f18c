-- ===== src/Event/Fill/Laws.antt =====
-- When the functions that fill events (sock_events.c) stay inside their buffers, and what they
-- give then.
use tcpsnitch.Base.{
  ℕ, zero, suc, ◌+◌, ◌%◌, ◌^◌, ◌≤◌, ◌<◌, ◌≡◌, refl, ap, ◌∙◌, ℤ, pos, negsuc, Bool, Option, none,
  some, List, [], ◌∷◌, ◌++◌, arith, length, take, drop, replicate, length-replicate,
}
use tcpsnitch.Outcome.{done}
use tcpsnitch.Bytes.{Text, memcpy}
use tcpsnitch.Bytes.Laws.{memcpy-fits}
use tcpsnitch.Event.{Msghdr, Mmsghdr, zero_storage, sockaddr_storage_size}
use tcpsnitch.Event.Fill.{
  fill_addr, fill_iovec, iovec_loop, fill_msghdr, fill_msg_name, fill_mmsghdr_vec, mmsghdr_loop,
  fill_sockopt, MsghdrArg, MmsghdrArg,
}

-- A block of `n` bytes that is given and fits a `struct sockaddr_storage`.
pub record FitsAddr (addr : Text) (n : ℕ) : Type 0 where
  pub given : n ≤ length addr
  pub fits : n ≤ sockaddr_storage_size

-- An address at the start of a blank `struct sockaddr_storage`.
abbrev pub stored : Text → ℕ → Text
stored addr n = take n addr ++ drop n zero_storage

pub length-zero_storage : length zero_storage ≡ sockaddr_storage_size
unfolding zero_storage
length-zero_storage = refl

memcpy-stored :
    (addr : Text) (n : ℕ) → FitsAddr addr n → memcpy zero_storage addr n ≡ done (stored addr n)
memcpy-stored addr n f =
    let h = f.fits in memcpy-fits zero_storage addr n f.given (omega (arith, length-zero_storage))

-- An address that fits is copied to the start of the event's storage, the rest of which is zero.
pub fill_addr-stored :
    (addr : Text) (n : ℕ)
    → FitsAddr addr n
    → fill_addr addr n ≡ done (record { sockaddr_sto = stored addr n; len = n })
unfolding fill_addr
fill_addr-stored addr n f = rw (memcpy-stored addr n f) refl

pub fill_sockopt-copy :
    (level optname : ℕ) (optval : Text) (optlen : ℕ) (get : Bool) (fd : ℕ)
    → optlen ≤ length optval
    → fill_sockopt level optname optval optlen get fd
      ≡ done (record {
        level = level;
        optname = optname;
        optval = take optlen optval ++ drop optlen (replicate optlen 0);
        optlen = optlen;
        getsockopt = get;
        fd = fd;
      })
unfolding fill_sockopt
fill_sockopt-copy level optname optval optlen get fd h =
    rw
      (memcpy-fits (replicate optlen 0) optval optlen h
        (omega (arith, length-replicate {A = ℕ} optlen 0)))
      refl

abbrev pub sum : List ℕ → ℕ
sum [] = 0
sum (x ∷ xs) = x + sum xs

zero_plus : (x : ℕ) → 0 + x ≡ x
zero_plus x = omega arith

mod32 : (b x s : ℕ) → ((b + x) % 2 ^ 32 + s) % 2 ^ 32 ≡ (b + (x + s)) % 2 ^ 32
mod32 b x s = omega arith

mod32_small : (b : ℕ) → b < 2 ^ 32 → b ≡ (b + 0) % 2 ^ 32
mod32_small b h = omega arith

mod32_lt : (b : ℕ) → b % 2 ^ 32 < 2 ^ 32
mod32_lt b = omega arith

iovec_loop-take :
    (n : ℕ) (iov : List ℕ) (bytes : ℕ)
    → n ≤ length iov
    → bytes < 2 ^ 32
    → iovec_loop n iov bytes ≡ done (take n iov, (bytes + sum (take n iov)) % 2 ^ 32)
unfolding iovec_loop
iovec_loop-take zero iov bytes h small = ap (λ b. done ([], b)) (mod32_small bytes small)
iovec_loop-take (suc n) [] bytes h small = absurd (omega arith)
iovec_loop-take (suc n) (x ∷ iov) bytes h small =
    rw (iovec_loop-take n iov ((bytes + x) % 2 ^ 32) (omega arith) (mod32_lt (bytes + x)))
      (ap (λ b. done (x ∷ take n iov, b)) (mod32 bytes x (sum (take n iov))))

-- For a count that the I/O vector has entries for, the sizes of these are recorded in their order, and
-- the bytes counted for them are their sum modulo 2 ^ 32.
pub fill_iovec-total :
    (iov : List ℕ) (n : ℕ)
    → n ≤ length iov
    → fill_iovec iov (pos n)
      ≡ done (record { iovec_count = pos n; iovec_sizes = take n iov }, sum (take n iov) % 2 ^ 32)
unfolding fill_iovec
fill_iovec-total iov zero h = refl
fill_iovec-total iov (suc n) h =
    rw (iovec_loop-take (suc n) iov 0 h (omega arith), zero_plus (sum (take (suc n) iov))) refl

-- A count of entries that an I/O vector has; a negative one asks for none.
abbrev pub FitsVec : List ℕ → ℤ → Type 0
FitsVec iov (pos n) = n ≤ length iov
FitsVec iov (negsuc n) = Unit {0}

-- The sizes that are recorded for a count.
abbrev pub entries : List ℕ → ℤ → List ℕ
entries iov (pos n) = take n iov
entries iov (negsuc n) = []

pub fill_iovec-entries :
    (iov : List ℕ) (n : ℤ)
    → FitsVec iov n
    → fill_iovec iov n
      ≡ done (record { iovec_count = n; iovec_sizes = entries iov n }, sum (entries iov n) % 2 ^ 32)
unfolding fill_iovec
fill_iovec-entries iov (pos n) h = fill_iovec-total iov n h
fill_iovec-entries iov (negsuc n) h = refl

abbrev pub FitsName : Option Text → ℕ → Type 0
FitsName none n = Unit {0}
FitsName (some name) n = FitsAddr name n

-- A message whose blocks are as long as their lengths say.
pub record FitsMsg (m : MsghdrArg) : Type 0 where
  pub name : FitsName m.name m.namelen
  pub control : m.controllen ≤ length m.control
  pub vec : FitsVec m.iov m.iovlen

-- The address that the event of a message holds.
abbrev pub stored_name : Option Text → ℕ → Text
stored_name none n = zero_storage
stored_name (some name) n = stored name n

fill_msg_name-stored :
    (name : Option Text) (n : ℕ)
    → FitsName name n
    → fill_msg_name name n ≡ done (stored_name name n)
unfolding fill_msg_name
fill_msg_name-stored none n h = refl
fill_msg_name-stored (some name) n h = memcpy-stored name n h

abbrev pub msg_bytes : MsghdrArg → ℕ
msg_bytes m = sum (entries m.iov m.iovlen) % 2 ^ 32

-- A block of `n` bytes with a copy of the first `n` bytes of another.
abbrev pub copied : Text → ℕ → Text
copied block n = take n block ++ drop n (replicate n 0)

-- What the event of a message holds.
abbrev pub stored_msg : MsghdrArg → Msghdr
stored_msg m = record {
  iovec = record { iovec_count = m.iovlen; iovec_sizes = entries m.iov m.iovlen };
  addr = stored_name m.name m.namelen;
  flags = m.flags;
  control = copied m.control m.controllen;
  controllen = m.controllen;
}

-- A message that fits is copied, and its bytes are the sum of its sizes modulo 2 ^ 32.
pub fill_msghdr-stored :
    (m : MsghdrArg) → FitsMsg m → fill_msghdr m ≡ done (stored_msg m, msg_bytes m)
unfolding fill_msghdr
fill_msghdr-stored m f =
    let name = fill_msg_name-stored m.name m.namelen f.name in
    let fits = f.control in
    let control =
      memcpy-fits (replicate m.controllen 0) m.control m.controllen fits
        (omega (arith, length-replicate {A = ℕ} m.controllen 0)) in
    let vec = fill_iovec-entries m.iov m.iovlen f.vec in rw (name, control, vec) refl

abbrev pub AllFit : List MmsghdrArg → ℕ → Type 0
AllFit vec zero = Unit {0}
AllFit [] (suc n) = ⊥
AllFit (m ∷ vec) (suc n) = FitsMsg m.msg_hdr × AllFit vec n

abbrev pub total_bytes : List MmsghdrArg → ℕ → ℕ
total_bytes vec zero = 0
total_bytes [] (suc n) = 0
total_bytes (m ∷ vec) (suc n) = msg_bytes m.msg_hdr + total_bytes vec n

abbrev pub stored_vec : List MmsghdrArg → ℕ → List Mmsghdr
stored_vec vec zero = []
stored_vec [] (suc n) = []
stored_vec (m ∷ vec) (suc n) =
    record { msghdr = stored_msg m.msg_hdr; bytes_transmitted = m.msg_len } ∷ stored_vec vec n

mmsghdr_loop-stored :
    (vec : List MmsghdrArg) (n bytes : ℕ)
    → AllFit vec n
    → bytes < 2 ^ 32
    → mmsghdr_loop vec n bytes ≡ done (stored_vec vec n, (bytes + total_bytes vec n) % 2 ^ 32)
unfolding mmsghdr_loop
mmsghdr_loop-stored vec zero bytes f small = ap (λ b. done ([], b)) (mod32_small bytes small)
mmsghdr_loop-stored [] (suc n) bytes f small = absurd f
mmsghdr_loop-stored (m ∷ vec) (suc n) bytes (f, fs) small =
    let hdr = fill_msghdr-stored m.msg_hdr f in
    let rest =
      mmsghdr_loop-stored vec n ((bytes + msg_bytes m.msg_hdr) % 2 ^ 32) fs
        (mod32_lt (bytes + msg_bytes m.msg_hdr)) in
    rw (hdr, rest)
      (ap (λ b. done (stored_vec (m ∷ vec) (suc n), b))
        (mod32 bytes (msg_bytes m.msg_hdr) (total_bytes vec n)))

-- A vector of `n` messages that fit gives a copy of each, in their order, and the bytes counted for
-- it are the sum of those of its messages modulo 2 ^ 32.
pub fill_mmsghdr_vec-stored :
    (vec : List MmsghdrArg) (n : ℕ)
    → AllFit vec n
    → fill_mmsghdr_vec vec n ≡ done (stored_vec vec n, total_bytes vec n % 2 ^ 32)
unfolding fill_mmsghdr_vec
fill_mmsghdr_vec-stored vec n f =
    mmsghdr_loop-stored vec n 0 f (omega arith)
    ∙ ap (λ b. done (stored_vec vec n, b % 2 ^ 32)) (zero_plus (total_bytes vec n))
