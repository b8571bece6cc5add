-- ===== src/Ipfw/Address.antt =====
-- `lookup_host` and `fill_ip` (sbin/ipfw/ipfw.c): an address and its mask, in host order.
use closed_bsd.Base.{ℕ, ◌-◌, true, false, Option, none, some, ◌==◌, ltb, if◌then◌else◌}
use Prim.Native.Nat.{◌^◌}
use closed_bsd.Ipfw.Exits.{Exit, done, errx, undefined, ex_dataerr, ex_nohost, ◌>>=◌}
use closed_bsd.Ipfw.Fields.{spells}
use closed_bsd.Ipfw.Libc.{Libc}
use closed_bsd.Ipfw.Numbers.{atoi, is_negative, bit_and}
use closed_bsd.Text.Token.{token, saved}
use closed_bsd.Text.{Text}

-- A text cut at a byte: what stands before it, and what behind.
abbrev pub cut : ℕ → Text → Text × Option Text
cut b s = (token b s, saved b s)

unfoldable pub lookup_host : Libc → Text → Option ℕ
lookup_host libc host = elim (libc.inet_aton host) [
  | some a ↦ some a
  | none ↦ libc.gethostbyname host
]

-- htonl(~0 << (32 - width)), for a width from 1 to 32.
abbrev pub width_mask : ℕ → ℕ
width_mask width = 4294967296 - 2 ^ (32 - width)

-- '/' and a width: a negative one shifts by more than 32 bits.
unfoldable pub by_width : Text → Exit ℕ
by_width p =
    let width = atoi p in
    if width == 0
    then done 0
    else if is_negative width
    then undefined
    else if ltb 32 width
    then errx ex_dataerr
    else done (width_mask width)

-- ':' and a netmask.
unfoldable pub by_netmask : Libc → Text → Exit ℕ
by_netmask libc p = elim (libc.inet_aton p) [ none ↦ errx ex_dataerr | some m ↦ done m ]

abbrev pub found_host : Libc → Text → Exit ℕ
found_host libc host = elim (lookup_host libc host) [ none ↦ errx ex_nohost | some a ↦ done a ]

abbrev masked : ℕ → ℕ → ℕ × ℕ
masked a m = (bit_and 32 a m, m)

-- `fill_ip` on a word that is not "any": the host is looked up before the mask is read.
unfoldable pub fill_host : Libc → Text → Exit (ℕ × ℕ)
unfolding lookup_host
fill_host libc word = elim (saved b'/' word) [
  | some p ↦ found_host libc (token b'/' word) >>= λ a. by_width p >>= λ m. done (masked a m)
  | none ↦ elim (saved b':' word) [
    | some p ↦
        found_host libc (token b':' word) >>= λ a. by_netmask libc p >>= λ m. done (masked a m)
    | none ↦ found_host libc word >>= λ a. done (masked a 4294967295)
  ]
]

-- `fill_ip`: the callers have seen that there is an argument.
unfoldable pub fill_ip : Libc → Text → Exit (ℕ × ℕ)
unfolding fill_host
fill_ip libc word = elim (spells word "any") [ true ↦ done (0, 0) | false ↦ fill_host libc word ]
