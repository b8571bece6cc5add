-- ===== src/Ipfw/Ports.antt =====
-- `lookup_port`, `add_port` and `fill_port` (sbin/ipfw/ipfw.c).
pub mod Bounds
use closed_bsd.Base.{
  ℕ, ◌+◌, Bool, true, false, not, ◌&&◌, ◌||◌, List, [], ◌∷◌, ◌++◌, Option, none, some, ◌==◌, leb,
  ltb, if◌then◌else◌, length,
}
use closed_bsd.Ipfw.Exits.{Exit, done, errx, ex_dataerr, ex_usage, ◌>>=◌}
use closed_bsd.Ipfw.Fields.{pieces}
use closed_bsd.Ipfw.Libc.{Libc}
use closed_bsd.Ipfw.Numbers.{strtoul}
use closed_bsd.Ipfw.Rule.{Ports, listed, ranged, masked}
use closed_bsd.Text.{Text, snprintf, contains}

-- Whether the copy stops at this byte.
abbrev ends_port : Bool → ℕ → Bool
ends_port nodash c = c == b',' || (nodash && c == b'-')

-- The copy of the first port into `buf`: up to a comma, and up to a dash where `nodash` asks for
-- it; a backslash takes the next byte as it is.
unfoldable pub first_port : Bool → Text → Text
first_port nodash [] = []
first_port nodash (c ∷ []) = if ends_port nodash c then [] else c ∷ []
first_port nodash (c ∷ d ∷ cs) = elim (c == b'\\') [
  | true ↦ d ∷ first_port nodash cs
  | false ↦ elim (ends_port nodash c) [ true ↦ [] | false ↦ c ∷ first_port nodash (d ∷ cs) ]
]

abbrev proto_name : Libc → ℕ → Option Text
proto_name libc prot = if prot == 0 then none else libc.getprotobynumber prot

abbrev pub is_number : Text → ℕ × Text → Bool
is_number buf read = not (length buf == 0) && length read.1 == 0

-- The port that `buf` holds: a number, or the name of a service. A negative `val` is a word past
-- 0xffff.
unfoldable pub port_in : Libc → ℕ → Text → Option ℕ
port_in libc prot buf =
    let read = strtoul buf in
    elim (is_number buf read) [
      | true ↦ if ltb 65535 read.0 then none else some read.0
      | false ↦ libc.getservbyname buf (proto_name libc prot)
    ]

-- `lookup_port`: what it returns where `test` is 1, with none for -1, and where `test` is 0 it ends
-- the program instead.
unfoldable pub lookup_port : Libc → Text → ℕ → Bool → Option ℕ
unfolding first_port port_in
lookup_port libc arg prot nodash = port_in libc prot (first_port nodash (snprintf 32 arg))

unfoldable pub must_port : Libc → Text → ℕ → Exit ℕ
unfolding lookup_port
must_port libc arg prot = elim (lookup_port libc arg prot false) [
  | none ↦ errx ex_dataerr
  | some port ↦ done port
]

-- `*arg ? lookup_port(arg, proto, 0, 0) : bound`
unfoldable pub port_or : Libc → Text → ℕ → ℕ → Exit ℕ
unfolding must_port
port_or libc [] prot bound = done bound
port_or libc (c ∷ cs) prot bound = must_port libc (c ∷ cs) prot

-- `add_port`: `before` ports stand in the array already.
unfoldable pub add_port : Libc → ℕ → List ℕ → ℕ → Exit (List ℕ)
add_port libc before ports port =
    if leb libc.max_ports (before + length ports) then errx ex_usage else done (ports ++ port ∷ [])

-- The scan for the first separator: what stands before it, and the separator with what follows.
unfoldable pub scan : Text → Text × Option (ℕ × Text)
scan [] = ([], none)
scan (c ∷ []) = if c == b',' || c == b'-' || c == b':' then ([], some (c, [])) else (c ∷ [], none)
scan (c ∷ d ∷ cs) = elim (c == b',' || c == b'-' || c == b':') [
  | true ↦ ([], some (c, d ∷ cs))
  | false ↦ elim (c == b'\\') [
    | true ↦ (let rest = scan cs in (c ∷ d ∷ rest.0, rest.1))
    | false ↦ (let rest = scan (d ∷ cs) in (c ∷ rest.0, rest.1))
  ]
]

-- `while (arg != NULL)`: the ports between the commas.
unfoldable pub fill_list : Libc → ℕ → ℕ → List ℕ → List Text → Exit (List ℕ)
unfolding must_port add_port
fill_list libc before prot ports [] = done ports
fill_list libc before prot ports (arg ∷ args) = must_port libc arg prot >>= λ port.
    add_port libc before ports port >>= λ more. fill_list libc before prot more args

-- A first pair, `low` before the separator and the rest of the argument behind it.
unfoldable pub fill_pair : Libc → ℕ → ℕ → Text → List Text → Exit (List ℕ)
unfolding port_or add_port fill_list
fill_pair libc before prot low [] = done []
fill_pair libc before prot low (high ∷ args) =
    if contains b',' low
    then errx ex_usage
    else port_or libc low prot 0 >>= λ from. add_port libc before [] from >>= λ one.
        port_or libc high prot 65535 >>= λ upto.
        add_port libc before one upto >>= λ two. fill_list libc before prot two args

-- `fill_port`: the ports, and how the list begins.
unfoldable pub fill_port : Libc → ℕ → ℕ → Text → Exit (List ℕ × Ports)
unfolding fill_list fill_pair scan
fill_port libc before prot arg =
    let whole = (fill_list libc before prot [] (pieces arg) >>= λ ports. done (ports, listed)) in
    elim (scan arg).1 [
      | none ↦ whole
      | some found ↦
          (let pair = fill_pair libc before prot (scan arg).0 (pieces found.1) in
            if found.0 == b':'
            then (pair >>= λ ports. done (ports, masked))
            else if found.0 == b'-'
            then (pair >>= λ ports. done (ports, ranged))
            else whole)
    ]
