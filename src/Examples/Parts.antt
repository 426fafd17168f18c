-- ===== src/Examples/Parts.antt =====
-- The theorems about init.c, lib.c, string_builders.c and the filling of events at concrete values.
use tcpsnitch.Base.{
  ℕ, suc, ◌%◌, ◌^◌, ◌≡◌, refl, pos, minus_one, true, none, some, List, [], ◌∷◌, ◌++◌, arith, take,
  if◌then◌else◌, ltb,
}
use tcpsnitch.Outcome.{done, Returns}
use tcpsnitch.Text.{codes, decimal, alloc_concat_path, alloc_file_name}
use tcpsnitch.Text.Paths.{alloc_file_name-path, alloc_file_name-injective}
use tcpsnitch.Event.Fill.{fill_iovec, fill_mmsghdr_vec, MsghdrArg, MmsghdrArg}
use tcpsnitch.Event.Fill.Laws.{
  FitsMsg, sum, stored_vec, total_bytes, fill_iovec-total, fill_mmsghdr_vec-stored,
}
use tcpsnitch.CLib.{parse_long, long_max}
use tcpsnitch.CLib.Numbers.{parse_long-decimal}
use tcpsnitch.World.{World, first_world}
use tcpsnitch.Init.{find_dir, init_tcpsnitch}
use tcpsnitch.Init.LogsDir.{Found, find_dir-Found}
use tcpsnitch.Init.Once.{Untouched, init_tcpsnitch-Untouched, init_tcpsnitch-again}
use tcpsnitch.Examples.Setting.{host, host-IsSane}

find_dir-Found_example :
    Returns (Found host (codes "/t/nc") 0) (find_dir host (codes "/t/nc") (suc host.dir_limit) 0)
find_dir-Found_example = find_dir-Found host (codes "/t/nc") host-IsSane

init_tcpsnitch-Untouched_example :
    Returns
      (λ (_, v). Untouched first_world v × (v.initialized ≡ true))
      (init_tcpsnitch host first_world)
init_tcpsnitch-Untouched_example = init_tcpsnitch-Untouched host host-IsSane first_world

abbrev started : World
started = record first_world { initialized = true }

init_tcpsnitch-again_example : init_tcpsnitch host started ≡ done (tt, started)
init_tcpsnitch-again_example = init_tcpsnitch-again host started refl

alloc_file_name-path_example :
    alloc_file_name (some (codes "/t")) (pos 12) (codes ".json")
    ≡ done (alloc_concat_path (some (codes "/t")) (some (decimal 12 ++ codes ".json")))
alloc_file_name-path_example = alloc_file_name-path (some (codes "/t")) 12 (codes ".json")

abbrev file_number : ℕ
file_number = 12

alloc_file_name-injective_example : file_number ≡ file_number
alloc_file_name-injective_example =
    alloc_file_name-injective (codes "/t") file_number file_number (codes ".json") refl

parse_long-decimal_example :
    parse_long (decimal 4096) ≡ (if ltb 4096 long_max then pos 4096 else minus_one)
parse_long-decimal_example = parse_long-decimal 4096

fill_iovec-total_example :
    fill_iovec (10 ∷ 20 ∷ 5 ∷ []) (pos 2)
    ≡ done (
      record { iovec_count = pos 2; iovec_sizes = take 2 (10 ∷ 20 ∷ 5 ∷ []) },
      sum (take 2 (10 ∷ 20 ∷ 5 ∷ [])) % 2 ^ 32,
    )
fill_iovec-total_example = fill_iovec-total (10 ∷ 20 ∷ 5 ∷ []) 2 (omega arith)

abbrev message : MsghdrArg
message = record {
  name = none;
  namelen = 0;
  iov = 10 ∷ 20 ∷ [];
  iovlen = pos 2;
  control = 1 ∷ 2 ∷ [];
  controllen = 2;
  flags = 0;
}

message-FitsMsg : FitsMsg message
message-FitsMsg = record { name = tt; control = omega arith; vec = omega arith }

abbrev messages : List MmsghdrArg
messages =
    record { msg_hdr = message; msg_len = 30 } ∷ record { msg_hdr = message; msg_len = 0 } ∷ []

fill_mmsghdr_vec-stored_example :
    fill_mmsghdr_vec messages 2 ≡ done (stored_vec messages 2, total_bytes messages 2 % 2 ^ 32)
fill_mmsghdr_vec-stored_example =
    fill_mmsghdr_vec-stored messages 2 (message-FitsMsg, (message-FitsMsg, tt))
