-- ===== src/Ipfw/Action.antt =====
-- The part of `add` (sbin/ipfw/ipfw.c) that reads the rule's number, its chance and its action.
use Prim.Native.Nat.{◌^◌}
use closed_bsd.Base.{
  ℕ, ◌%◌, true, false, ◌||◌, List, [], ◌∷◌, Option, none, some, ◌==◌, if◌then◌else◌,
}
use closed_bsd.Ipfw.Address.{cut, fill_ip}
use closed_bsd.Ipfw.Exits.{Exit, done, errx, undefined, ex_dataerr, ex_usage, ◌>>=◌}
use closed_bsd.Ipfw.Fields.{spells}
use closed_bsd.Ipfw.Flags.{fill_reject_code}
use closed_bsd.Ipfw.Libc.{Libc, illegal, always, missing}
use closed_bsd.Ipfw.Numbers.{atoi, strtoul, strtoul_decimal, starts_with_digit}
use closed_bsd.Ipfw.Ports.{lookup_port}
use closed_bsd.Ipfw.Rule.{
  Command, accept, count, deny, check_state, pipe, queue, divert, tee, skipto, forward, reject,
  unreach, host, rst, Rule, Parsed,
}
use closed_bsd.Text.Token.{saved}
use closed_bsd.Text.{Text, codes}

-- The rule number, an unsigned short.
unfoldable pub read_number : Rule → List Text → Parsed
read_number rule [] = (rule, [])
read_number rule (word ∷ av) =
    if starts_with_digit word
    then (record rule { fw_number = atoi word % 2 ^ 16 }, av)
    else (rule, word ∷ av)

-- "prob" and its number, where a word follows.
unfoldable pub read_prob : Libc → Rule → List Text → Exit Parsed
read_prob libc rule (word ∷ chance ∷ av) = elim (spells word "prob") [
  | false ↦ done (rule, word ∷ chance ∷ av)
  | true ↦ elim (libc.strtod chance) [
    | illegal ↦ errx ex_dataerr
    | always ↦ done (rule, av)
    | missing share ↦ done (record rule { dont_match_prob = some share }, av)
  ]
]
read_prob libc rule av = done (rule, av)

-- An action with a number behind it.
unfoldable pub numbered : (ℕ → Command) → Rule → List Text → Exit Parsed
numbered command rule [] = errx ex_usage
numbered command rule (word ∷ av) =
    done (record rule { command = command ((strtoul word).0 % 2 ^ 16) }, av)

-- A divert port, which may be the name of a "divert" service.
unfoldable pub diverted : Libc → (ℕ → Command) → Rule → List Text → Exit Parsed
diverted libc command rule [] = errx ex_usage
diverted libc command rule (word ∷ av) =
    let port = (strtoul word).0 % 2 ^ 16 in
    elim (port == 0) [
      | false ↦ done (record rule { command = command port }, av)
      | true ↦ elim (libc.getservbyname word (some (codes "divert"))) [
        | none ↦ errx ex_dataerr
        | some found ↦ done (record rule { command = command found }, av)
      ]
    ]

abbrev pub forward_port : Libc → Option Text → Exit ℕ
forward_port libc none = done 0
forward_port libc (some pp) = elim (lookup_port libc pp 0 false) [
  | none ↦ errx ex_dataerr
  | some port ↦ done port
]

abbrev pub target_parts : Text → Text × Option Text
target_parts word = elim (saved b':' word) [ none ↦ cut b',' word | some pp ↦ cut b':' word ]

-- The address of "fwd", with a port behind ':' or else ','. The port is looked up first.
unfoldable pub forwarded : Libc → Rule → List Text → Exit Parsed
forwarded libc rule [] = errx ex_usage
forwarded libc rule (word ∷ av) =
    let parts = target_parts word in
    forward_port libc parts.1 >>= λ port. fill_ip libc parts.0 >>= λ target.
    (if target.0 == 0
      then errx ex_dataerr
      else done (record rule { command = forward target.0 port }, av))

-- The rule that "skipto" names.
unfoldable pub skipped : Rule → List Text → Exit Parsed
skipped rule [] = errx ex_usage
skipped rule (word ∷ av) =
    done (record rule { command = skipto (strtoul_decimal word % 2 ^ 16) }, av)

-- "unreach" hands its argument on without a look whether there is one.
unfoldable pub unreached : Rule → List Text → Exit Parsed
unreached rule [] = undefined
unreached rule (word ∷ av) =
    fill_reject_code word >>= λ code. done (record rule { command = reject code }, av)

abbrev acts : Command → Rule → List Text → Exit Parsed
acts command rule av = done (record rule { command = command }, av)

-- The chain of keywords, each of which may be cut short.
unfoldable pub by_keyword : Libc → Rule → Text → List Text → Exit Parsed
unfolding numbered diverted forwarded skipped unreached
by_keyword libc rule word av =
    if spells word "accept" || spells word "pass" || spells word "allow" || spells word "permit"
    then acts accept rule av
    else if spells word "count"
    then acts count rule av
    else if spells word "pipe"
    then numbered pipe rule av
    else if spells word "queue"
    then numbered queue rule av
    else if spells word "divert"
    then diverted libc divert rule av
    else if spells word "tee"
    then diverted libc tee rule av
    else if spells word "fwd" || spells word "forward"
    then forwarded libc rule av
    else if spells word "skipto"
    then skipped rule av
    else if spells word "deny" || spells word "drop"
    then acts deny rule av
    else if spells word "reject"
    then acts (reject (unreach host)) rule av
    else if spells word "reset"
    then acts (reject rst) rule av
    else if spells word "unreach"
    then unreached rule av
    else if spells word "check-state"
    then acts check_state rule av
    else errx ex_dataerr

unfoldable pub read_action : Libc → Rule → List Text → Exit Parsed
unfolding by_keyword
read_action libc rule [] = errx ex_usage
read_action libc rule (word ∷ av) = by_keyword libc rule word av
