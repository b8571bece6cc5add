-- ===== src/Ipfw/Iface.antt =====
-- `fill_iface` (sbin/ipfw/ipfw.c): the argument of "xmit", "recv" and "via".
use closed_bsd.Base.{
  ℕ, ◌-◌, Bool, true, false, ◌||◌, List, [], ◌∷◌, Option, none, some, ◌==◌, take, if◌then◌else◌,
}
use closed_bsd.Ipfw.Exits.{Exit, done, errx, ex_dataerr, ex_usage}
use closed_bsd.Ipfw.Libc.{Libc}
use closed_bsd.Ipfw.Numbers.{is_digit, starts_with_digit, atoi}
use closed_bsd.Ipfw.Rule.{Interface, by_address, by_name}
use closed_bsd.Text.{Text, codes}

-- strcmp(s, t) == 0
unfoldable pub same_text : Text → Text → Bool
same_text [] [] = true
same_text [] (d ∷ ds) = false
same_text (c ∷ cs) [] = false
same_text (c ∷ cs) (d ∷ ds) = elim (c == d) [ true ↦ same_text cs ds | false ↦ false ]

-- The text of a name up to its unit, and the rest.
unfoldable pub before_unit : Text → Text × Text
before_unit [] = ([], [])
before_unit (c ∷ cs) =
    let rest = before_unit cs in
    if is_digit c || c == b'*' then ([], c ∷ cs) else (c ∷ rest.0, rest.1)

-- The unit: '*' stands for all of them.
unfoldable pub unit_of : Text → Option ℕ
unit_of [] = some (atoi [])
unit_of (c ∷ cs) = if c == b'*' then none else some (atoi (c ∷ cs))

-- A name is cut to the field that holds it, then split from its unit.
unfoldable pub named : Libc → Text → Interface
unfolding before_unit unit_of
named libc arg =
    let split = before_unit (take (libc.if_name_size - 1) arg) in by_name split.0 (unit_of split.1)

-- `fill_iface`, on what is left of the argument list. An interface that does not exist is only
-- warned about.
unfoldable pub fill_iface : Libc → List Text → Exit Interface
unfolding named same_text
fill_iface libc [] = errx ex_usage
fill_iface libc (arg ∷ args) = elim (same_text arg (codes "any")) [
  | true ↦ done (by_address 0)
  | false ↦ elim (starts_with_digit arg) [
    | false ↦ done (named libc arg)
    | true ↦ elim (libc.inet_aton arg) [ none ↦ errx ex_dataerr | some a ↦ done (by_address a) ]
  ]
]

-- `byname`
unfoldable pub byname : Interface → Bool
byname (by_address _) = false
byname (by_name _ _) = true
