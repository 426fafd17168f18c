-- ===== src/Verbose/Lines.antt =====
-- The line of verbose_mode.c that is shown for an event, and the buffers that it is printed into.
use tcpsnitch.Base.{
  ℕ, suc, ◌+◌, ◌<◌, ◌≤◌, ◌^◌, ◌≡◌, refl, ap, ◌∙◌, ℤ, pos, negsuc, neg_part, pos_part, [], ◌∷◌, ◌++◌,
  arith, length, length-append,
}
use tcpsnitch.Bytes.{Text}
use tcpsnitch.Text.{codes, decimal, print_int}
use tcpsnitch.Text.Digits.{decimal-length_le}
use tcpsnitch.Text.Paths.{snprintf-fits}
use tcpsnitch.Event
use tcpsnitch.Event.{SockEventType, SockEvent}
use tcpsnitch.Json.Fields.{string_from_sock_event_type}
use tcpsnitch.Verbose.{label, output_ev, event_line}

-- The name that is shown for a type: the one that its JSON object has, but for `ioctl`.
abbrev pub shown_name : SockEventType → Text
shown_name Event.ioctl = codes "iotctl"
shown_name type = codes (string_from_sock_event_type type)

-- What follows the name.
abbrev pub shown_sign : SockEventType → Text
shown_sign Event.fcntl = codes "="
shown_sign Event.epoll_ctl = codes "="
shown_sign Event.epoll_wait = codes "="
shown_sign Event.epoll_pwait = codes "="
shown_sign Event.tcp_info = codes "="
shown_sign type = codes "()="

-- Each function of verbose_mode.c shows its own name, in at most 16 characters.
pub record IsShown (type : SockEventType) : Type 0 where
  pub name_is : codes (label type) ≡ shown_name type ++ shown_sign type
  pub short : length (codes (label type)) ≤ 16

label-IsShown : (type : SockEventType) → IsShown type
unfolding label string_from_sock_event_type
label-IsShown Event.socket = record { name_is = refl; short = omega arith }
label-IsShown Event.forked_socket = record { name_is = refl; short = omega arith }
label-IsShown Event.ghost_socket = record { name_is = refl; short = omega arith }
label-IsShown Event.bind = record { name_is = refl; short = omega arith }
label-IsShown Event.connect = record { name_is = refl; short = omega arith }
label-IsShown Event.shutdown = record { name_is = refl; short = omega arith }
label-IsShown Event.listen = record { name_is = refl; short = omega arith }
label-IsShown Event.accept = record { name_is = refl; short = omega arith }
label-IsShown Event.accept4 = record { name_is = refl; short = omega arith }
label-IsShown Event.getsockopt = record { name_is = refl; short = omega arith }
label-IsShown Event.setsockopt = record { name_is = refl; short = omega arith }
label-IsShown Event.send = record { name_is = refl; short = omega arith }
label-IsShown Event.recv = record { name_is = refl; short = omega arith }
label-IsShown Event.sendto = record { name_is = refl; short = omega arith }
label-IsShown Event.recvfrom = record { name_is = refl; short = omega arith }
label-IsShown Event.sendmsg = record { name_is = refl; short = omega arith }
label-IsShown Event.recvmsg = record { name_is = refl; short = omega arith }
label-IsShown Event.sendmmsg = record { name_is = refl; short = omega arith }
label-IsShown Event.recvmmsg = record { name_is = refl; short = omega arith }
label-IsShown Event.getsockname = record { name_is = refl; short = omega arith }
label-IsShown Event.getpeername = record { name_is = refl; short = omega arith }
label-IsShown Event.sockatmark = record { name_is = refl; short = omega arith }
label-IsShown Event.isfdtype = record { name_is = refl; short = omega arith }
label-IsShown Event.write = record { name_is = refl; short = omega arith }
label-IsShown Event.read = record { name_is = refl; short = omega arith }
label-IsShown Event.close = record { name_is = refl; short = omega arith }
label-IsShown Event.dup = record { name_is = refl; short = omega arith }
label-IsShown Event.dup2 = record { name_is = refl; short = omega arith }
label-IsShown Event.dup3 = record { name_is = refl; short = omega arith }
label-IsShown Event.writev = record { name_is = refl; short = omega arith }
label-IsShown Event.readv = record { name_is = refl; short = omega arith }
label-IsShown Event.ioctl = record { name_is = refl; short = omega arith }
label-IsShown Event.sendfile = record { name_is = refl; short = omega arith }
label-IsShown Event.poll = record { name_is = refl; short = omega arith }
label-IsShown Event.ppoll = record { name_is = refl; short = omega arith }
label-IsShown Event.select = record { name_is = refl; short = omega arith }
label-IsShown Event.pselect = record { name_is = refl; short = omega arith }
label-IsShown Event.fcntl = record { name_is = refl; short = omega arith }
label-IsShown Event.epoll_ctl = record { name_is = refl; short = omega arith }
label-IsShown Event.epoll_wait = record { name_is = refl; short = omega arith }
label-IsShown Event.epoll_pwait = record { name_is = refl; short = omega arith }
label-IsShown Event.fdopen = record { name_is = refl; short = omega arith }
label-IsShown Event.tcp_info = record { name_is = refl; short = omega arith }

-- A number that a C `int` can hold.
pub record IsInt (r : ℤ) : Type 0 where
  pub above : pos_part r < 2 ^ 31
  pub below : neg_part r ≤ 2 ^ 31

print_int-length_le : (r : ℤ) → IsInt r → length (print_int r) ≤ 11
unfolding print_int
print_int-length_le (pos n) i =
    let h = i.above in omega (arith, decimal-length_le 9 n (omega arith))
print_int-length_le (negsuc n) i =
    let h = i.below in omega (arith, decimal-length_le 9 (suc n) (omega arith))

-- The text of the event, without the process.
abbrev event_text : SockEvent → Text
event_text ev = codes (label ev.type) ++ print_int ev.return_value

abbrev pub whole_line : ℕ → Text → Text
whole_line pid t = codes "[pid " ++ decimal pid ++ codes "] " ++ t ++ b'\n' ∷ []

length-event_text : (ev : SockEvent) → IsInt ev.return_value → length (event_text ev) ≤ 27
length-event_text ev i = omega (
  arith,
  length-append (codes (label ev.type)) (print_int ev.return_value),
  (label-IsShown ev.type).short,
  print_int-length_le ev.return_value i,
)

length-whole_line :
    (pid : ℕ) (t : Text) → length (whole_line pid t) ≡ 8 + length (decimal pid) + length t
length-whole_line pid t = omega (
  arith,
  length-append (codes "[pid " ++ decimal pid ++ codes "] " ++ t) (b'\n' ∷ []),
  length-append (codes "[pid " ++ decimal pid ++ codes "] ") t,
  length-append (codes "[pid " ++ decimal pid) (codes "] "),
)

output_ev-whole :
    (pid : ℕ) (t : Text) → pid < 2 ^ 31 → length t ≤ 27 → output_ev pid t ≡ whole_line pid t
unfolding output_ev
output_ev-whole pid t b h =
    let digits = decimal-length_le 9 pid (omega arith) in
    let all : length (whole_line pid t) < 512 = omega (arith, length-whole_line pid t) in
    rw (snprintf-fits 512 t (omega arith)) (snprintf-fits 512 (whole_line pid t) all)

-- For a process number and a result that are those of C, neither of the two buffers cuts the line that
-- is shown for an event: it is the process number in brackets, the name that json_builder.c gives the
-- type of the event (`iotctl` in place of `ioctl`), `=` for `fcntl`, TCP_INFO and the calls of epoll and
-- `()=` for the others, the result, and the end of the line.
pub event_line-whole :
    (pid : ℕ) (ev : SockEvent)
    → pid < 2 ^ 31
    → IsInt ev.return_value
    → event_line pid ev
      ≡ whole_line pid ((shown_name ev.type ++ shown_sign ev.type) ++ print_int ev.return_value)
unfolding event_line
event_line-whole pid ev b i =
    output_ev-whole pid (event_text ev) b (length-event_text ev i)
    ∙ ap (λ n. whole_line pid (n ++ print_int ev.return_value)) (label-IsShown ev.type).name_is
