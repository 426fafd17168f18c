-- ===== src/Constants/Tables/Ioctls.antt =====
-- The names of the requests of `ioctl` (constants/ioctl_requests.h), in the order of the array, in
-- parts. One entry stands under the name of another macro.
use tcpsnitch.Base.{List, [], ◌∷◌, String}

abbrev pub ioctls_first : List String
ioctls_first =
    "FIONREAD" ∷ "FIOSETOWN" ∷ "SIOCSPGRP" ∷ "FIOGETOWN" ∷ "SIOCGPGRP" ∷ "SIOCATMAR" ∷ "SIOCGSTAMP"
    ∷ "TCGETS" ∷ "TCSETS" ∷ "TCSETSW" ∷ "TCSETSF" ∷ "TCGETA" ∷ "TCSETA" ∷ "TCSETAW" ∷ "TCSETAF"
    ∷ "TCSBRK" ∷ "TCXONC" ∷ "TCFLSH" ∷ "TIOCEXCL" ∷ "TIOCNXCL" ∷ "TIOCSCTTY" ∷ "TIOCGPGRP"
    ∷ "TIOCSPGRP" ∷ "TIOCOUTQ" ∷ "TIOCSTI" ∷ "TIOCGWINSZ" ∷ "TIOCSWINSZ" ∷ "TIOCMGET" ∷ "TIOCMBIS"
    ∷ "TIOCMBIC" ∷ "TIOCMSET" ∷ "TIOCGSOFTCAR" ∷ "TIOCSSOFTCAR" ∷ "FIONREAD" ∷ "TIOCINQ"
    ∷ "TIOCLINUX" ∷ "TIOCCONS" ∷ "TIOCGSERIAL" ∷ "TIOCSSERIAL" ∷ "TIOCPKT" ∷ "FIONBIO" ∷ "TIOCNOTTY"
    ∷ "TIOCSETD" ∷ "TIOCGETD" ∷ "TCSBRKP" ∷ "TIOCTTYGSTRUCT" ∷ "FIONCLEX" ∷ "FIOCLEX" ∷ "FIOASYNC"
    ∷ "TIOCSERCONFIG" ∷ []

abbrev pub ioctls_second : List String
ioctls_second =
    "TIOCSERGWILD" ∷ "TIOCSERSWILD" ∷ "TIOCGLCKTRMIOS" ∷ "TIOCSLCKTRMIOS" ∷ "TIOCSERGSTRUCT"
    ∷ "TIOCSERGETLSR" ∷ "TIOCSERGETMULTI" ∷ "TIOCSERSETMULTI" ∷ "SIOCAX25GETUID" ∷ "SIOCAX25ADDUID"
    ∷ "SIOCAX25DELUID" ∷ "SIOCAX25NOUID" ∷ "SIOCAX25DIGCTL" ∷ "SIOCAX25GETPARMS"
    ∷ "SIOCAX25SETPARMS" ∷ "EQL_ENSLAVE" ∷ "EQL_EMANCIPATE" ∷ "EQL_GETSLAVECFG" ∷ "EQL_SETSLAVECFG"
    ∷ "EQL_GETMASTRCFG" ∷ "EQL_SETMASTRCFG" ∷ "SIOCDEVPLIP" ∷ "PPPIOCGFLAGS" ∷ "PPPIOCSFLAGS"
    ∷ "PPPIOCGASYNCMAP" ∷ "PPPIOCSASYNCMAP" ∷ "PPPIOCGUNIT" ∷ "PPPIOCSINPSIG" ∷ "PPPIOCSDEBUG"
    ∷ "PPPIOCGDEBUG" ∷ "PPPIOCGSTAT" ∷ "PPPIOCGTIME" ∷ "PPPIOCGXASYNCMAP" ∷ "PPPIOCSXASYNCMAP"
    ∷ "PPPIOCSMRU" ∷ "PPPIOCRASYNCMAP" ∷ "PPPIOCSMAXCID" ∷ "SIOCAIPXITFCRT" ∷ "SIOCAIPXPRISLT"
    ∷ "SIOCIPXCFGDATA" ∷ "SIOCGETVIFCNT" ∷ "SIOCGETSGCNT" ∷ "SIOCSIWCOMMIT" ∷ "SIOCGIWNAME"
    ∷ "SIOCSIWNWID" ∷ "SIOCGIWNWID" ∷ "SIOCSIWFREQ" ∷ "SIOCGIWFREQ" ∷ "SIOCSIWMODE" ∷ "SIOCGIWMODE"
    ∷ []

abbrev pub ioctls_third : List String
ioctls_third =
    "SIOCSIWSENS" ∷ "SIOCGIWSENS" ∷ "SIOCSIWRANGE" ∷ "SIOCGIWRANGE" ∷ "SIOCSIWPRIV" ∷ "SIOCGIWPRIV"
    ∷ "SIOCSIWSTATS" ∷ "SIOCGIWSTATS" ∷ "SIOCSIWSPY" ∷ "SIOCGIWSPY" ∷ "SIOCSIWTHRSPY"
    ∷ "SIOCGIWTHRSPY" ∷ "SIOCSIWAP" ∷ "SIOCGIWAP" ∷ "SIOCGIWAPLIST" ∷ "SIOCSIWSCAN" ∷ "SIOCGIWSCAN"
    ∷ "SIOCSIWESSID" ∷ "SIOCGIWESSID" ∷ "SIOCSIWNICKN" ∷ "SIOCGIWNICKN" ∷ "SIOCSIWRATE"
    ∷ "SIOCGIWRATE" ∷ "SIOCSIWRTS" ∷ "SIOCGIWRTS" ∷ "SIOCSIWFRAG" ∷ "SIOCGIWFRAG" ∷ "SIOCSIWTXPOW"
    ∷ "SIOCGIWTXPOW" ∷ "SIOCSIWRETRY" ∷ "SIOCGIWRETRY" ∷ "SIOCSIWENCODE" ∷ "SIOCGIWENCODE"
    ∷ "SIOCSIWPOWER" ∷ "SIOCGIWPOWER" ∷ "SIOCSIWGENIE" ∷ "SIOCGIWGENIE" ∷ "SIOCSIWMLME"
    ∷ "SIOCSIWAUTH" ∷ "SIOCGIWAUTH" ∷ "SIOCSIWENCODEEXT" ∷ "SIOCGIWENCODEEXT" ∷ "SIOCSIWPMKSA"
    ∷ "SIOCADDRT" ∷ "SIOCDELRT" ∷ []

abbrev pub ioctls_fourth : List String
ioctls_fourth =
    "SIOCGIFNAME" ∷ "SIOCSIFLINK" ∷ "SIOCGIFCONF" ∷ "SIOCGIFFLAGS" ∷ "SIOCSIFFLAGS" ∷ "SIOCGIFADDR"
    ∷ "SIOCSIFADDR" ∷ "SIOCGIFDSTADDR" ∷ "SIOCSIFDSTADDR" ∷ "SIOCGIFBRDADDR" ∷ "SIOCSIFBRDADDR"
    ∷ "SIOCGIFNETMASK" ∷ "SIOCSIFNETMASK" ∷ "SIOCGIFMETRIC" ∷ "SIOCSIFMETRIC" ∷ "SIOCGIFMEM"
    ∷ "SIOCSIFMEM" ∷ "SIOCGIFMTU" ∷ "SIOCSIFMTU" ∷ "OLD_SIOCGIFHWADDR" ∷ "SIOCSIFHWADDR"
    ∷ "SIOCGIFENCAP" ∷ "SIOCSIFENCAP" ∷ "SIOCGIFHWADDR" ∷ "SIOCGIFSLAVE" ∷ "SIOCSIFSLAVE"
    ∷ "SIOCADDMULTI" ∷ "SIOCDELMULTI" ∷ "SIOCGIFINDEX" ∷ "SIOGIFINDEX" ∷ "SIOCSIFPFLAGS"
    ∷ "SIOCGIFPFLAGS" ∷ "SIOCDIFADDR" ∷ "SIOCSIFHWBROADCAST" ∷ "SIOCGIFCOUNT" ∷ "SIOCGIFBR"
    ∷ "SIOCSIFBR" ∷ "SIOCGIFTXQLEN" ∷ []

abbrev pub ioctls_fifth : List String
ioctls_fifth =
    "SIOCETHTOOL" ∷ "SIOCGMIIPHY" ∷ "SIOCGMIIREG" ∷ "SIOCSMIIREG" ∷ "SIOCWANDEV" ∷ "SIOCOUTQNSD"
    ∷ "SIOCADDDLCI" ∷ "SIOCDELDLCI" ∷ "SIOCGIFVLAN" ∷ "SIOCSIFVLAN" ∷ "SIOCBONDENSLAVE"
    ∷ "SIOCBONDRELEASE" ∷ "SIOCBONDSETHWADDR" ∷ "SIOCBONDSLAVEINFOQUERY" ∷ "SIOCBONDINFOQUERY"
    ∷ "SIOCBONDCHANGEACTIVE" ∷ "SIOCBRADDBR" ∷ "SIOCBRDELBR" ∷ "SIOCBRADDIF" ∷ "SIOCBRDELIF"
    ∷ "SIOCSHWTSTAMP" ∷ "SIOCGHWTSTAMP" ∷ "SIOCDEVPRIVATE" ∷ "SIOCPROTOPRIVATE" ∷ "SIOCADDRTOLD"
    ∷ "SIOCADDRTOLD" ∷ "SIOCDELRTOLD" ∷ "SIOCDARP" ∷ "SIOCGARP" ∷ "SIOCSARP" ∷ "SIOCDRARP"
    ∷ "SIOCGRARP" ∷ "SIOCSRARP" ∷ "SIOCGIFMAP" ∷ "SIOCSIFMAP" ∷ []
