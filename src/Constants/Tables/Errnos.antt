-- ===== src/Constants/Tables/Errnos.antt =====
-- The names of error numbers (constants/errnos.h), in the order of the array, in parts.
use tcpsnitch.Base.{List, [], ◌∷◌, String}

abbrev pub errnos_first : List String
errnos_first =
    "EPERM" ∷ "ENOENT" ∷ "ESRCH" ∷ "EINTR" ∷ "EIO" ∷ "ENXIO" ∷ "E2BIG" ∷ "ENOEXEC" ∷ "EBADF"
    ∷ "ECHILD" ∷ "EAGAIN" ∷ "ENOMEM" ∷ "EACCES" ∷ "EFAULT" ∷ "ENOTBLK" ∷ "EBUSY" ∷ "EEXIST"
    ∷ "EXDEV" ∷ "ENODEV" ∷ "ENOTDIR" ∷ "EISDIR" ∷ "EINVAL" ∷ "ENFILE" ∷ "EMFILE" ∷ "ENOTTY"
    ∷ "ETXTBSY" ∷ "EFBIG" ∷ "ENOSPC" ∷ "ESPIPE" ∷ "EROFS" ∷ "EMLINK" ∷ "EPIPE" ∷ "EDOM" ∷ "ERANGE"
    ∷ "EDEADLK" ∷ "ENAMETOOLONG" ∷ "ENOLCK" ∷ "ENOSYS" ∷ "ENOTEMPTY" ∷ "ELOOP" ∷ "EWOULDBLOCK"
    ∷ "ENOMSG" ∷ "EIDRM" ∷ "ECHRNG" ∷ []

abbrev pub errnos_second : List String
errnos_second =
    "EL2NSYNC" ∷ "EL3HLT" ∷ "EL3RST" ∷ "ELNRNG" ∷ "EUNATCH" ∷ "ENOCSI" ∷ "EL2HLT" ∷ "EBADE"
    ∷ "EBADR" ∷ "EXFULL" ∷ "ENOANO" ∷ "EBADRQC" ∷ "EBADSLT" ∷ "EDEADLOCK" ∷ "EBFONT" ∷ "ENOSTR"
    ∷ "ENODATA" ∷ "ETIME" ∷ "ENOSR" ∷ "ENONET" ∷ "ENOPKG" ∷ "EREMOTE" ∷ "ENOLINK" ∷ "EADV"
    ∷ "ESRMNT" ∷ "ECOMM" ∷ "EPROTO" ∷ "EMULTIHOP" ∷ "EDOTDOT" ∷ "EBADMSG" ∷ "EOVERFLOW" ∷ "ENOTUNIQ"
    ∷ "EBADFD" ∷ "EREMCHG" ∷ "ELIBACC" ∷ "ELIBBAD" ∷ "ELIBSCN" ∷ "ELIBMAX" ∷ "ELIBEXEC" ∷ "EILSEQ"
    ∷ "ERESTART" ∷ "ESTRPIPE" ∷ "EUSERS" ∷ "ENOTSOCK" ∷ []

abbrev pub errnos_third : List String
errnos_third =
    "EDESTADDRREQ" ∷ "EMSGSIZE" ∷ "EPROTOTYPE" ∷ "ENOPROTOOPT" ∷ "EPROTONOSUPPORT"
    ∷ "ESOCKTNOSUPPORT" ∷ "EOPNOTSUPP" ∷ "EPFNOSUPPORT" ∷ "EAFNOSUPPORT" ∷ "EADDRINUSE"
    ∷ "EADDRNOTAVAIL" ∷ "ENETDOWN" ∷ "ENETUNREACH" ∷ "ENETRESET" ∷ "ECONNABORTED" ∷ "ECONNRESET"
    ∷ "ENOBUFS" ∷ "EISCONN" ∷ "ENOTCONN" ∷ "ESHUTDOWN" ∷ "ETOOMANYREFS" ∷ "ETIMEDOUT"
    ∷ "ECONNREFUSED" ∷ "EHOSTDOWN" ∷ "EHOSTUNREACH" ∷ "EALREADY" ∷ "EINPROGRESS" ∷ "ESTALE"
    ∷ "EUCLEAN" ∷ "ENOTNAM" ∷ "ENAVAIL" ∷ "EISNAM" ∷ "EREMOTEIO" ∷ "EDQUOT" ∷ "ENOMEDIUM"
    ∷ "EMEDIUMTYPE" ∷ "ECANCELED" ∷ "ENOKEY" ∷ "EKEYEXPIRED" ∷ "EKEYREVOKED" ∷ "EKEYREJECTED"
    ∷ "EOWNERDEAD" ∷ "ENOTRECOVERABLE" ∷ "PERM" ∷ []

abbrev pub errnos_fourth : List String
errnos_fourth =
    "ENOENT" ∷ "ESRCH" ∷ "EINTR" ∷ "EIO" ∷ "ENXIO" ∷ "E2BIG" ∷ "ENOEXEC" ∷ "EBADF" ∷ "ECHILD"
    ∷ "EAGAIN" ∷ "ENOMEM" ∷ "EACCES" ∷ "EFAULT" ∷ "ENOTBLK" ∷ "EBUSY" ∷ "EEXIST" ∷ "EXDEV"
    ∷ "ENODEV" ∷ "ENOTDIR" ∷ "EISDIR" ∷ "EINVAL" ∷ "ENFILE" ∷ "EMFILE" ∷ "ENOTTY" ∷ "ETXTBSY"
    ∷ "EFBIG" ∷ "ENOSPC" ∷ "ESPIPE" ∷ "EROFS" ∷ "EMLINK" ∷ "EPIPE" ∷ "EDOM" ∷ "ERANGE" ∷ "EDEADLK"
    ∷ "ENAMETOOLONG" ∷ "ENOLCK" ∷ "ENOSYS" ∷ "ENOTEMPTY" ∷ "ELOOP" ∷ "EWOULDBLOCK" ∷ "ENOMSG"
    ∷ "EIDRM" ∷ "ECHRNG" ∷ "EL2NSYNC" ∷ []

abbrev pub errnos_fifth : List String
errnos_fifth =
    "EL3HLT" ∷ "EL3RST" ∷ "ELNRNG" ∷ "EUNATCH" ∷ "ENOCSI" ∷ "EL2HLT" ∷ "EBADE" ∷ "EBADR" ∷ "EXFULL"
    ∷ "ENOANO" ∷ "EBADRQC" ∷ "EBADSLT" ∷ "EDEADLOCK" ∷ "EBFONT" ∷ "ENOSTR" ∷ "ENODATA" ∷ "ETIME"
    ∷ "ENOSR" ∷ "ENONET" ∷ "ENOPKG" ∷ "EREMOTE" ∷ "ENOLINK" ∷ "EADV" ∷ "ESRMNT" ∷ "ECOMM" ∷ "EPROTO"
    ∷ "EMULTIHOP" ∷ "EDOTDOT" ∷ "EBADMSG" ∷ "EOVERFLOW" ∷ "ENOTUNIQ" ∷ "EBADFD" ∷ "EREMCHG"
    ∷ "ELIBACC" ∷ "ELIBBAD" ∷ "ELIBSCN" ∷ "ELIBMAX" ∷ "ELIBEXEC" ∷ "EILSEQ" ∷ "ERESTART"
    ∷ "ESTRPIPE" ∷ "EUSERS" ∷ "ENOTSOCK" ∷ "EDESTADDRREQ" ∷ []

abbrev pub errnos_sixth : List String
errnos_sixth =
    "EMSGSIZE" ∷ "EPROTOTYPE" ∷ "ENOPROTOOPT" ∷ "EPROTONOSUPPORT" ∷ "ESOCKTNOSUPPORT" ∷ "EOPNOTSUPP"
    ∷ "EPFNOSUPPORT" ∷ "EAFNOSUPPORT" ∷ "EADDRINUSE" ∷ "EADDRNOTAVAIL" ∷ "ENETDOWN" ∷ "ENETUNREACH"
    ∷ "ENETRESET" ∷ "ECONNABORTED" ∷ "ECONNRESET" ∷ "ENOBUFS" ∷ "EISCONN" ∷ "ENOTCONN" ∷ "ESHUTDOWN"
    ∷ "ETOOMANYREFS" ∷ "ETIMEDOUT" ∷ "ECONNREFUSED" ∷ "EHOSTDOWN" ∷ "EHOSTUNREACH" ∷ "EALREADY"
    ∷ "EINPROGRESS" ∷ "ESTALE" ∷ "EUCLEAN" ∷ "ENOTNAM" ∷ "ENAVAIL" ∷ "EISNAM" ∷ "EREMOTEIO"
    ∷ "EDQUOT" ∷ "ENOMEDIUM" ∷ "EMEDIUMTYPE" ∷ "ECANCELED" ∷ "ENOKEY" ∷ "EKEYEXPIRED"
    ∷ "EKEYREVOKED" ∷ "EKEYREJECTED" ∷ "EOWNERDEAD" ∷ "ENOTRECOVERABLE" ∷ []
