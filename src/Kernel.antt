-- ===== src/Kernel.antt =====
-- What the code asks of its surroundings: system calls and functions of the C library, jansson and
-- pthreads whose answer it does not determine. A value of `Kernel` holds the answers that one
-- intercepted call of the application meets.
use tcpsnitch.Base.{ℕ, ℤ, Bool, Option}
use tcpsnitch.Bytes.{Text}
use tcpsnitch.Event.{SockEvent, TcpInfo}

-- The answer of `opendir`: the directory, `errno == ENOENT`, or another error.
pub data DirAnswer : Type 0 where
  there absent refused : DirAnswer

pub record Kernel : Type 0 where
  -- `fcntl(fd, F_GETFD) != -1 || errno != EBADF`
  pub getfd : ℕ → Bool
  -- `S_ISSOCK` of the mode that `fstat` fills in, `none` where it fails
  pub fstat : ℕ → Option Bool
  -- `getsockopt(fd, level, optname)` for an option that is an `int`
  pub getsockopt : ℕ → ℕ → ℕ → Option ℕ
  -- `getsockopt(fd, SOL_TCP, TCP_INFO)`: the result, `errno`, and what the buffer then holds
  pub tcp_info : ℕ → ℤ × ℤ × TcpInfo
  -- The value of an `int` on the stack before anything is stored in it
  pub uninitialized : ℕ
  -- Seconds and microseconds at each call of `gettimeofday`, numbered from 0
  pub time_of_day : ℕ → Option (ℕ × ℕ)
  pub gettid : ℕ
  pub getpid : ℕ
  -- `fopen(path, "a")` and `fdopen(fd, "w")`
  pub fopen : Text → Bool
  pub fdopen : ℕ → Bool
  -- `json_dumps` of the object that is built for an event
  pub json_dumps : SockEvent → Bool
  pub pthread_create : Bool
  pub getenv : Text → Option Text
  -- Up to 1024 bytes of `/proc/self/cmdline`
  pub cmdline : Option Text
  pub opendir : Text → DirAnswer
  pub mkdir : Text → Bool
  -- A number of directories that is never reached
  pub dir_limit : ℕ
